-- ===== src/Adapter/Effects/Joined.antt =====
-- How a client's operations (src/adapter/namespace.rs) bring a socket into a channel.
use rushsocket.Adapter.Effects.{
  in_channel, AllMirrored, run_local, Permitted, Effects, apply_local-AllMirrored,
}
use rushsocket.Adapter.Namespace.Disconnect.{subscribed-remove_socket}
use rushsocket.Adapter.Namespace.Histories.{removes_user, removes_user-Untouched}
use rushsocket.Adapter.Namespace
use rushsocket.Adapter.Namespace.{Namespace}
use rushsocket.Base.{
  arith, str_eq_iff, sym, ◌⊎◌, true, Str, str_eq, List, [], ◌∷◌, ◌≡◌, All, Bool-cases, inl, inr,
}
use rushsocket.Websocket.Connection.{WsConnection}
use rushsocket.Adapter.Namespace.Histories.{
  removes_user, adds_member, removes_socket, tries_socket, adds_socket, removes_member-Untouched,
  tries_member-Untouched, apply, Op, joins, leaves, tries_member, removes_member, adds_user,
}
use rushsocket.Adapter.Namespace.Membership.{
  subscribed-remove_from_channel, subscribed-add_to_channel, subscribed, IsMirrored,
}
use rushsocket.Adapter.Local.{LocalAdapter, get_or_create_ns}
use rushsocket.Adapter.Local.Apps.{apply_local, apply_local-Acts}

-- The subscription was there, or it is the client's own and may be.
abbrev pub WasOrMayJoin : WsConnection → (Str → Type 0) → Str → Str → Str → LocalAdapter → Type 0
WasOrMayJoin conn MayJoin app_id s c a =
    (in_channel app_id s c a ≡ true) ⊎ ((app_id ≡ conn.app.id) × (s ≡ conn.socket_id) × MayJoin c)

-- What one operation does to the subscriptions of its own namespace.
joined_in :
    (sid : Str) (MayJoin : Str → Type 0) (op : Op) (ns : Namespace) (s c : Str)
    → IsMirrored ns
    → Permitted sid MayJoin op
    → subscribed s c (apply op ns) ≡ true
    → (subscribed s c ns ≡ true) ⊎ ((s ≡ sid) × MayJoin c)
unfolding apply subscribed Namespace.add_user
joined_in sid MayJoin (joins s' c') ns s c v p h =
    ground (arith, subscribed-add_to_channel s' c' ns v s c, str_eq_iff s' s, str_eq_iff c' c)
joined_in sid MayJoin (leaves s' c') ns s c v p h =
    ground (arith, subscribed-remove_from_channel s' c' ns v s c)
joined_in sid MayJoin (tries_member c' s' u i m) ns s c v p h =
    inl (rw (tries_member-Untouched c' s' u i m ns).channels at h)
joined_in sid MayJoin (removes_member c' s' u) ns s c v p h =
    inl (rw (removes_member-Untouched c' s' u ns).channels at h)
joined_in sid MayJoin (adds_user u s') ns s c v p h = inl h
joined_in sid MayJoin (removes_user u s') ns s c v p h =
    inl (rw (removes_user-Untouched u s' ns).channels at h)
joined_in sid MayJoin (removes_socket s') ns s c v p h =
    ground (arith, subscribed-remove_socket s' ns v s c)
joined_in sid MayJoin (adds_socket conn) ns s c v p h = absurd p
joined_in sid MayJoin (tries_socket conn limit) ns s c v p h = absurd p
joined_in sid MayJoin (adds_member c' s' u i) ns s c v p h = absurd p

-- What one operation of the client does to the subscriptions.
joined_one :
    (conn : WsConnection) (MayJoin : Str → Type 0) (op : Op) (a : LocalAdapter) (app_id s c : Str)
    → AllMirrored a
    → Permitted conn.socket_id MayJoin op
    → in_channel app_id s c (apply_local conn.app.id op a) ≡ true
    → WasOrMayJoin conn MayJoin app_id s c a
unfolding in_channel
joined_one conn MayJoin op a app_id s c v p h = elim (Bool-cases (str_eq conn.app.id app_id)) [
  | inl e ↦ same ((str_eq_iff conn.app.id app_id).0 e) (
      joined_in conn.socket_id MayJoin op (get_or_create_ns conn.app.id a) s c (v conn.app.id) p
        (rw (apply_local-Acts conn.app.id op a app_id, e) at h))
  | inr e ↦ inl (rw (apply_local-Acts conn.app.id op a app_id, e) at h)
]
  where
    same :
        conn.app.id ≡ app_id
        → (subscribed s c (get_or_create_ns conn.app.id a) ≡ true)
          ⊎ ((s ≡ conn.socket_id) × MayJoin c)
        → WasOrMayJoin conn MayJoin app_id s c a
    same e (inl old) = inl (rw (← e) old)
    same e (inr (own, may)) = inr (sym e, own, may)

joined_ops :
    (conn : WsConnection) (MayJoin : Str → Type 0) (ops : List Op) (a : LocalAdapter)
    (app_id s c : Str)
    → AllMirrored a
    → All (Permitted conn.socket_id MayJoin) ops
    → in_channel app_id s c (run_local conn.app.id ops a) ≡ true
    → WasOrMayJoin conn MayJoin app_id s c a
unfolding run_local
joined_ops conn MayJoin [] a app_id s c v p h = inl h
joined_ops conn MayJoin (op ∷ ops) a app_id s c v (p, ps) h =
    elim (joined_ops conn MayJoin ops (apply_local conn.app.id op a) app_id s c
      (apply_local-AllMirrored conn MayJoin op a v) ps h) [
        | inl old ↦ joined_one conn MayJoin op a app_id s c v p old
        | inr own ↦ inr own
      ]

-- A subscription that is there after the client's operations was there before, or is the client's
-- own, in its own app, to a channel that it may join.
pub Effects-joined :
    (conn : WsConnection) (MayJoin : Str → Type 0) (a b : LocalAdapter) (app_id s c : Str)
    → AllMirrored a
    → Effects conn MayJoin a b
    → in_channel app_id s c b ≡ true
    → WasOrMayJoin conn MayJoin app_id s c a
Effects-joined conn MayJoin a b app_id s c v e h =
    joined_ops conn MayJoin e.ops a app_id s c v e.permitted (rw e.reached at h)
