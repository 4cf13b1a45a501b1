-- ===== src/Adapter/Effects/Others.antt =====
-- What a client's operations (src/adapter/namespace.rs) leave as it was.
use rushsocket.Base.{refl}
use rushsocket.Adapter.Effects.{
  in_channel, AllMirrored, run_local, Permitted, Effects, apply_local-AllMirrored,
}
use rushsocket.Adapter.Namespace.Disconnect.{subscribed-remove_socket}
use rushsocket.Adapter.Namespace.Histories.{removes_user, removes_user-Untouched}
use rushsocket.Base.{◌∙◌, ap, false, ◌&&◌}
use rushsocket.Adapter.Namespace
use rushsocket.Adapter.Namespace.{Namespace}
use rushsocket.Base.{arith, str_eq_iff, Str, str_eq, List, [], ◌∷◌, ◌≡◌, All, Bool-cases, inl, inr}
use rushsocket.Websocket.Connection.{WsConnection}
use rushsocket.Adapter.Namespace.Histories.{
  removes_user, adds_member, removes_socket, tries_socket, adds_socket, removes_member-Untouched,
  tries_member-Untouched, apply, Op, joins, leaves, tries_member, removes_member, adds_user,
}
use rushsocket.Adapter.Namespace.Membership.{
  subscribed-remove_from_channel, subscribed-add_to_channel, subscribed, IsMirrored,
}
use rushsocket.Adapter.Local.{LocalAdapter, get_or_create_ns}
use rushsocket.Adapter.Local.Apps.{apply_local, apply_local-Acts}

kept_in :
    (sid : Str) (MayJoin : Str → Type 0) (op : Op) (ns : Namespace) (s c : Str)
    → IsMirrored ns
    → Permitted sid MayJoin op
    → str_eq sid s ≡ false
    → subscribed s c (apply op ns) ≡ subscribed s c ns
unfolding apply subscribed Namespace.add_user
kept_in sid MayJoin (joins s' c') ns s c v (p, q) h =
    ground (arith, subscribed-add_to_channel s' c' ns v s c, ap (λ x. str_eq x s) p)
kept_in sid MayJoin (leaves s' c') ns s c v p h =
    ground (arith, subscribed-remove_from_channel s' c' ns v s c, ap (λ x. str_eq x s) p)
kept_in sid MayJoin (tries_member c' s' u i m) ns s c v p h =
    rw (tries_member-Untouched c' s' u i m ns).channels refl
kept_in sid MayJoin (removes_member c' s' u) ns s c v p h =
    rw (removes_member-Untouched c' s' u ns).channels refl
kept_in sid MayJoin (adds_user u s') ns s c v p h = refl
kept_in sid MayJoin (removes_user u s') ns s c v p h =
    rw (removes_user-Untouched u s' ns).channels refl
kept_in sid MayJoin (removes_socket s') ns s c v p h =
    ground (arith, subscribed-remove_socket s' ns v s c, ap (λ x. str_eq x s) p)
kept_in sid MayJoin (adds_socket conn) ns s c v p h = absurd p
kept_in sid MayJoin (tries_socket conn limit) ns s c v p h = absurd p
kept_in sid MayJoin (adds_member c' s' u i) ns s c v p h = absurd p

-- The operation is another client's: another app's, or on another socket.
abbrev pub Others : WsConnection → Str → Str → Type 0
Others conn app_id s = (str_eq conn.app.id app_id && str_eq conn.socket_id s) ≡ false

kept_one :
    (conn : WsConnection) (MayJoin : Str → Type 0) (op : Op) (a : LocalAdapter) (app_id s c : Str)
    → AllMirrored a
    → Permitted conn.socket_id MayJoin op
    → Others conn app_id s
    → in_channel app_id s c (apply_local conn.app.id op a) ≡ in_channel app_id s c a
unfolding in_channel
kept_one conn MayJoin op a app_id s c v p h = elim (Bool-cases (str_eq conn.app.id app_id)) [
  | inl e ↦
      rw (apply_local-Acts conn.app.id op a app_id, e)
        (kept_in conn.socket_id MayJoin op (get_or_create_ns conn.app.id a) s c (v conn.app.id) p
            (rw e at h)
          ∙ ap (λ i. subscribed s c (get_or_create_ns i a)) ((str_eq_iff conn.app.id app_id).0 e))
  | inr e ↦ rw (apply_local-Acts conn.app.id op a app_id, e) refl
]

kept_ops :
    (conn : WsConnection) (MayJoin : Str → Type 0) (ops : List Op) (a : LocalAdapter)
    (app_id s c : Str)
    → AllMirrored a
    → All (Permitted conn.socket_id MayJoin) ops
    → Others conn app_id s
    → in_channel app_id s c (run_local conn.app.id ops a) ≡ in_channel app_id s c a
unfolding run_local
kept_ops conn MayJoin [] a app_id s c v h o = refl
kept_ops conn MayJoin (op ∷ ops) a app_id s c v (p, ps) o =
    kept_ops conn MayJoin ops (apply_local conn.app.id op a) app_id s c
      (apply_local-AllMirrored conn MayJoin op a v) ps o
    ∙ kept_one conn MayJoin op a app_id s c v p o

-- A client's operations leave the subscriptions of all other sockets as they were.
pub Effects-kept :
    (conn : WsConnection) (MayJoin : Str → Type 0) (a b : LocalAdapter) (app_id s c : Str)
    → AllMirrored a
    → Effects conn MayJoin a b
    → Others conn app_id s
    → in_channel app_id s c b ≡ in_channel app_id s c a
Effects-kept conn MayJoin a b app_id s c v e o =
    rw e.reached (kept_ops conn MayJoin e.ops a app_id s c v e.permitted o)
