-- ===== src/Adapter/Namespace/Invariant.antt =====
-- The invariant of src/adapter/namespace.rs through every operation, and so through any history.
use rushsocket.Base.{
  Str, str_eq_iff, true, false, some, List, leb, Bool-cases, ◌≡◌, refl, arith, is_empty,
  Option-cases, inl, inr,
}
use rushsocket.Base.Assoc
use rushsocket.Base.Assoc.{Assoc, entry, lookup-insert, lookup-remove}
use rushsocket.Base.Sets
use rushsocket.Base.Int.{ℤ, pos, negsuc}
use rushsocket.Websocket.Connection.{WsConnection}
use rushsocket.Adapter.Namespace
use rushsocket.Adapter.Namespace.{
  Namespace, add_socket, try_add_socket, remove_socket, add_to_channel, remove_from_channel,
  shared_id, add_presence_member, try_add_presence_member, remove_presence_member, add_user,
  remove_user,
}
use rushsocket.Adapter.Namespace.Membership.{
  subscribed, indexed, IsMirrored, entry_of_none, entry_of_some, subscribed-add_to_channel,
  indexed-add_to_channel, subscribed-remove_from_channel, indexed-remove_from_channel,
}
use rushsocket.Adapter.Namespace.Disconnect.{
  IsTidy, IsTidy-replace, subscribed-remove_socket, indexed-remove_socket, IsTidy-remove_socket,
}

abbrev pub Keyed : Assoc WsConnection → Type 0
Keyed m = (k : Str) (c : WsConnection) → Assoc.lookup k m ≡ some c → c.socket_id ≡ k

Keyed-insert :
    (conn : WsConnection) (m : Assoc WsConnection)
    → Keyed m
    → Keyed (Assoc.insert conn.socket_id conn m)
Keyed-insert conn m v k c h =
    ground (arith, lookup-insert conn.socket_id k conn m, str_eq_iff conn.socket_id k, v k c)

Keyed-remove : (k : Str) (m : Assoc WsConnection) → Keyed m → Keyed (Assoc.remove k m)
Keyed-remove j m v k c h = ground (arith, lookup-remove j k m, v k c)

pub new-IsMirrored : IsMirrored Namespace.new
unfolding Assoc.lookup subscribed indexed entry Sets.contains
new-IsMirrored = record {
  keyed = λ k c h. cc;
  mirrored = λ s c. refl;
  occupied = λ c s h. cc;
  unique = λ c s h. cc;
}

IsTidy-insert :
    (k : Str) (s : List Str) (m : Assoc (List Str))
    → IsTidy m
    → is_empty s ≡ false
    → Sets.distinct s ≡ true
    → IsTidy (Assoc.insert k s m)
IsTidy-insert k s m v e d = rw e at (IsTidy-replace k s m v d)

distinct-entry :
    (channel : Str) (ns : Namespace)
    → IsMirrored ns
    → Sets.distinct (entry channel ns.channels) ≡ true
unfolding Sets.distinct
distinct-entry channel ns v = elim (Option-cases (Assoc.lookup channel ns.channels)) [
  | inl e ↦ rw (entry_of_none channel ns.channels e) refl
  | inr (s, e) ↦ rw (entry_of_some channel ns.channels s e) (v.unique channel s e)
]

-- The members and the users are no part of the invariant.
pub same_parts :
    (ns ms : Namespace)
    → IsMirrored ns
    → Keyed ms.sockets
    → ms.channels ≡ ns.channels
    → ms.socket_channels ≡ ns.socket_channels
    → IsMirrored ms
unfolding subscribed indexed
same_parts ns ms v keyed chans index = record {
  keyed = keyed;
  mirrored = λ s c. rw (chans, index) (v.mirrored s c);
  occupied = rw chans v.occupied;
  unique = rw chans v.unique;
}

pub add_socket-IsMirrored :
    (conn : WsConnection) (ns : Namespace) → IsMirrored ns → IsMirrored (add_socket conn ns)
unfolding add_socket
add_socket-IsMirrored conn ns v = same_parts ns _ v (Keyed-insert conn ns.sockets v.keyed) refl refl

pub try_add_socket-IsMirrored :
    (conn : WsConnection) (limit : ℤ) (ns : Namespace)
    → IsMirrored ns
    → IsMirrored (try_add_socket conn limit ns).0
unfolding try_add_socket
try_add_socket-IsMirrored conn (negsuc n) ns v = add_socket-IsMirrored conn ns v
try_add_socket-IsMirrored conn (pos n) ns v = elim (Bool-cases (leb n ns.connection_count)) [
  | inl full ↦ rw full v
  | inr room ↦ rw room (same_parts ns _ v (Keyed-insert conn ns.sockets v.keyed) refl refl)
]

pub remove_socket-IsMirrored :
    (socket_id : Str) (ns : Namespace) → IsMirrored ns → IsMirrored (remove_socket socket_id ns).0
remove_socket-IsMirrored socket_id ns v = record {
  keyed = unfold remove_socket in Keyed-remove socket_id ns.sockets v.keyed;
  mirrored = λ s c. rw (
    indexed-remove_socket socket_id ns v s c,
    subscribed-remove_socket socket_id ns v s c,
    v.mirrored s c,
  );
  occupied = (IsTidy-remove_socket socket_id ns v).occupied;
  unique = (IsTidy-remove_socket socket_id ns v).unique;
}

add_to_channel-IsTidy :
    (socket_id channel : Str) (ns : Namespace)
    → IsMirrored ns
    → IsTidy (add_to_channel socket_id channel ns).0.channels
unfolding add_to_channel
add_to_channel-IsTidy socket_id channel ns v =
    IsTidy-insert channel (Sets.insert (shared_id socket_id ns) (entry channel ns.channels))
      ns.channels (record { occupied = v.occupied; unique = v.unique })
      (Sets.is_empty-insert (shared_id socket_id ns) (entry channel ns.channels))
      (Sets.distinct-insert (shared_id socket_id ns) (entry channel ns.channels)
        (distinct-entry channel ns v))

pub add_to_channel-IsMirrored :
    (socket_id channel : Str) (ns : Namespace)
    → IsMirrored ns
    → IsMirrored (add_to_channel socket_id channel ns).0
add_to_channel-IsMirrored socket_id channel ns v = record {
  keyed = unfold add_to_channel in v.keyed;
  mirrored = λ s c. rw (
    indexed-add_to_channel socket_id channel ns v s c,
    subscribed-add_to_channel socket_id channel ns v s c,
    v.mirrored s c,
  );
  occupied = (add_to_channel-IsTidy socket_id channel ns v).occupied;
  unique = (add_to_channel-IsTidy socket_id channel ns v).unique;
}

remove_from_channel-IsTidy :
    (socket_id channel : Str) (ns : Namespace)
    → IsMirrored ns
    → IsTidy (remove_from_channel socket_id channel ns).0.channels
unfolding remove_from_channel
remove_from_channel-IsTidy socket_id channel ns v =
    elim (Option-cases (Assoc.lookup channel ns.channels)) [
      | inl e ↦ rw (e, remove_from_channel) (record { occupied = v.occupied; unique = v.unique })
      | inr (s, e) ↦
          rw (e, remove_from_channel)
            (IsTidy-replace channel (Sets.remove socket_id s) ns.channels
              (record { occupied = v.occupied; unique = v.unique })
              (Sets.distinct-remove socket_id s (v.unique channel s e)))
    ]

remove_from_channel-sockets :
    (socket_id channel : Str) (ns : Namespace)
    → (remove_from_channel socket_id channel ns).0.sockets ≡ ns.sockets
unfolding remove_from_channel
remove_from_channel-sockets socket_id channel ns = ground arith

pub remove_from_channel-IsMirrored :
    (socket_id channel : Str) (ns : Namespace)
    → IsMirrored ns
    → IsMirrored (remove_from_channel socket_id channel ns).0
remove_from_channel-IsMirrored socket_id channel ns v = record {
  keyed = rw (remove_from_channel-sockets socket_id channel ns) v.keyed;
  mirrored = λ s c. rw (
    indexed-remove_from_channel socket_id channel ns v s c,
    subscribed-remove_from_channel socket_id channel ns v s c,
    v.mirrored s c,
  );
  occupied = (remove_from_channel-IsTidy socket_id channel ns v).occupied;
  unique = (remove_from_channel-IsTidy socket_id channel ns v).unique;
}
