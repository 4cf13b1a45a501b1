-- ===== src/Adapter/Namespace/Membership.antt =====
-- The channels of a namespace as a relation between sockets and channels, and the invariant that
-- ties the reverse index to it.
use rushsocket.Base.{
  Bool-cases, Str, str_eq, str_eq_iff, str_eq_refl, Bool, true, false, not, ◌&&◌, ◌||◌, none, some,
  List, [], ◌∷◌, ◌≡◌, ◌↔◌, arith, is_empty, Option-cases, inl, inr, if◌then◌else◌,
}
use rushsocket.Base.Assoc
use rushsocket.Base.Assoc.{Assoc, entry, entry-insert, entry-remove, lookup-insert, lookup-remove}
use rushsocket.Base.Sets
use rushsocket.Websocket.Connection.{WsConnection}
use rushsocket.Adapter.Namespace.{
  Namespace, shared_id, add_to_channel, remove_from_channel, unindex,
}

-- The socket is in the channel's set.
unfoldable pub subscribed : Str → Str → Namespace → Bool
subscribed socket_id channel ns = Sets.contains socket_id (entry channel ns.channels)

-- The channel is in the socket's set of the reverse index.
unfoldable pub indexed : Str → Str → Namespace → Bool
indexed socket_id channel ns = Sets.contains channel (entry socket_id ns.socket_channels)

pub record IsMirrored (ns : Namespace) : Type 0 where
  -- a connection stands under its own socket id
  pub keyed : (k : Str) (c : WsConnection) → Assoc.lookup k ns.sockets ≡ some c → c.socket_id ≡ k
  -- the reverse index holds exactly the subscriptions
  pub mirrored : (s c : Str) → indexed s c ns ≡ subscribed s c ns
  -- a channel that is listed has a subscriber
  pub occupied : (c : Str) (s : List Str) → Assoc.lookup c ns.channels ≡ some s → is_empty s ≡ false
  -- and none of them twice
  pub unique :
      (c : Str) (s : List Str) → Assoc.lookup c ns.channels ≡ some s → Sets.distinct s ≡ true

pub shared_id_lem :
    (socket_id : Str) (ns : Namespace) → IsMirrored ns → shared_id socket_id ns ≡ socket_id
unfolding shared_id
shared_id_lem socket_id ns v = elim (Option-cases (Assoc.lookup socket_id ns.sockets)) [
  | inl e ↦ ground (arith, e)
  | inr (c, e) ↦ ground (arith, e, v.keyed socket_id c e)
]

-- What both channel operations are made of: the set of a channel is replaced, or dropped if empty.
pub entry-replace :
    (k j : Str) (s : List Str) (m : Assoc (List Str))
    → entry j (if is_empty s then Assoc.remove k m else Assoc.insert k s m)
      ≡ (if str_eq k j then s else entry j m)
entry-replace k j [] m = ground (arith, entry-remove k j m)
entry-replace k j (x ∷ s) m = ground (arith, entry-insert k j (x ∷ s) m)

pub entry_of_none : (k : Str) (m : Assoc (List Str)) → Assoc.lookup k m ≡ none → entry k m ≡ []
unfolding entry
entry_of_none k m h = ground (arith, h)

pub entry_of_some :
    (k : Str) (m : Assoc (List Str)) (s : List Str) → Assoc.lookup k m ≡ some s → entry k m ≡ s
unfolding entry
entry_of_some k m s h = ground (arith, h)

contains-unindex :
    (socket_id channel s c : Str) (index : Assoc (List Str))
    → Sets.contains c (entry s (unindex socket_id channel index))
      ≡ (not (str_eq socket_id s && str_eq channel c) && Sets.contains c (entry s index))
unfolding unindex
contains-unindex socket_id channel s c index = elim (Option-cases (Assoc.lookup socket_id index)) [
  | inl e ↦
      ground (arith, e, entry_of_none socket_id index, str_eq_iff socket_id s, Sets.contains_nil c)
  | inr (chans, e) ↦ ground (
    arith,
    e,
    entry_of_some socket_id index chans,
    str_eq_iff socket_id s,
    entry-insert socket_id s (Sets.remove channel chans) index,
    Sets.contains-remove channel c chans,
  )
]

-- Somebody is subscribed to the channel.
abbrev pub HasSubscriber : Str → Namespace → Type 0
HasSubscriber channel ns = (s : Str) × (subscribed s channel ns ≡ true)

pub has_subscriber :
    (channel : Str) (ns : Namespace)
    → is_empty (entry channel ns.channels) ≡ false
    → HasSubscriber channel ns
unfolding subscribed
has_subscriber channel ns h = Sets.contains_some (entry channel ns.channels) h

pub no_subscriber :
    (channel : Str) (ns : Namespace)
    → is_empty (entry channel ns.channels) ≡ true
    → ¬ HasSubscriber channel ns
unfolding subscribed
no_subscriber channel ns h (s, p) =
    ground (arith, Sets.contains_empty s (entry channel ns.channels))

pub vacated_iff :
    (channel : Str) (ns after : Namespace)
    → ((not (is_empty (entry channel ns.channels)) && is_empty (entry channel after.channels))
        ≡ true)
      ↔ (HasSubscriber channel ns × (¬ HasSubscriber channel after))
vacated_iff channel ns after = elim (Bool-cases (is_empty (entry channel ns.channels))) [
  | inl e ↦ (λ p. ground (arith, e), λ n. absurd (no_subscriber channel ns e n.0))
  | inr e ↦ elim (Bool-cases (is_empty (entry channel after.channels))) [
    | inl f ↦ (λ _. (has_subscriber channel ns e, no_subscriber channel after f), λ _. ground arith)
    | inr f ↦ (λ p. ground (arith, e, f), λ n. absurd (n.1 (has_subscriber channel after f)))
  ]
]

module _ (socket_id channel : Str) (ns : Namespace) (v : IsMirrored ns) where
  -- In a namespace whose two indexes agree, after `add_to_channel` the socket is in the channel, and
  -- no other subscription has changed.
  pub subscribed-add_to_channel :
      (s c : Str)
      → subscribed s c (add_to_channel socket_id channel ns).0
        ≡ ((str_eq socket_id s && str_eq channel c) || subscribed s c ns)
  unfolding subscribed add_to_channel
  subscribed-add_to_channel s c = ground (
    arith,
    shared_id_lem socket_id ns v,
    str_eq_iff channel c,
    entry-insert channel c (Sets.insert socket_id (entry channel ns.channels)) ns.channels,
    Sets.contains-insert socket_id s (entry channel ns.channels),
  )

  pub indexed-add_to_channel :
      (s c : Str)
      → indexed s c (add_to_channel socket_id channel ns).0
        ≡ ((str_eq socket_id s && str_eq channel c) || indexed s c ns)
  unfolding indexed add_to_channel
  indexed-add_to_channel s c = ground (
    arith,
    shared_id_lem socket_id ns v,
    str_eq_iff socket_id s,
    entry-insert socket_id s (Sets.insert channel (entry socket_id ns.socket_channels))
        ns.socket_channels,
    Sets.contains-insert channel c (entry socket_id ns.socket_channels),
  )

  -- In a namespace whose two indexes agree, `add_to_channel` reports the channel as newly occupied
  -- exactly if nobody was subscribed to it.
  pub add_to_channel-occupied :
      ((add_to_channel socket_id channel ns).1 ≡ true) ↔ (¬ HasSubscriber channel ns)
  unfolding add_to_channel
  add_to_channel-occupied = elim (Bool-cases (is_empty (entry channel ns.channels))) [
    | inl e ↦ (λ _. no_subscriber channel ns e, λ _. e)
    | inr e ↦ (λ p. cc, λ n. absurd (n (has_subscriber channel ns e)))
  ]

  -- What `remove_from_channel` leaves in each channel.
  entry-remove_from_channel :
      (c : Str)
      → entry c (remove_from_channel socket_id channel ns).0.channels ≡ (
          if str_eq channel c
          then Sets.remove socket_id (entry channel ns.channels)
          else entry c ns.channels)
  unfolding remove_from_channel
  entry-remove_from_channel c = elim (Option-cases (Assoc.lookup channel ns.channels)) [
    | inl e ↦ ground (
      arith,
      e,
      entry_of_none channel ns.channels,
      str_eq_iff channel c,
      Sets.remove_nil socket_id,
    )
    | inr (s, e) ↦ ground (
      arith,
      e,
      entry_of_some channel ns.channels s,
      entry-replace channel c (Sets.remove socket_id s) ns.channels,
    )
  ]

  -- In a namespace whose two indexes agree, after `remove_from_channel` the socket is not in the
  -- channel, and no other subscription has changed.
  pub subscribed-remove_from_channel :
      (s c : Str)
      → subscribed s c (remove_from_channel socket_id channel ns).0
        ≡ (not (str_eq socket_id s && str_eq channel c) && subscribed s c ns)
  unfolding subscribed
  subscribed-remove_from_channel s c = ground (
    arith,
    entry-remove_from_channel c,
    str_eq_iff channel c,
    Sets.contains-remove socket_id s (entry channel ns.channels),
  )

  remove_from_channel_flag : (remove_from_channel socket_id channel ns).1 ≡ (
      not (is_empty (entry channel ns.channels))
      && is_empty (entry channel (remove_from_channel socket_id channel ns).0.channels))
  unfolding remove_from_channel
  remove_from_channel_flag = rw (entry-remove_from_channel channel, str_eq_refl channel) (flag)
    where
      flag : (remove_from_channel socket_id channel ns).1 ≡ (
          not (is_empty (entry channel ns.channels))
          && is_empty (Sets.remove socket_id (entry channel ns.channels)))
      flag = elim (Option-cases (Assoc.lookup channel ns.channels)) [
        | inl e ↦ ground (arith, e, entry_of_none channel ns.channels)
        | inr (s, e) ↦
            ground (arith, e, entry_of_some channel ns.channels s, v.occupied channel s e)
      ]

  -- In a namespace whose two indexes agree, `remove_from_channel` reports the channel as vacated
  -- exactly if it had a subscriber and has none any more.
  pub remove_from_channel-vacated : ((remove_from_channel socket_id channel ns).1 ≡ true) ↔ (
      HasSubscriber channel ns
      × (¬ HasSubscriber channel (remove_from_channel socket_id channel ns).0))
  remove_from_channel-vacated =
      rw remove_from_channel_flag
        (vacated_iff channel ns (remove_from_channel socket_id channel ns).0)

  pub indexed-remove_from_channel :
      (s c : Str)
      → indexed s c (remove_from_channel socket_id channel ns).0
        ≡ (not (str_eq socket_id s && str_eq channel c) && indexed s c ns)
  unfolding indexed remove_from_channel
  indexed-remove_from_channel s c =
      ground (arith, contains-unindex socket_id channel s c ns.socket_channels)
