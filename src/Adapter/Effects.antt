-- ===== src/Adapter/Effects.antt =====
-- What one client may do to the adapter: a list of operations on the namespace of its own app, each
-- on its own socket, in which it joins only channels that it may join.
pub mod Joined
pub mod Others
pub mod Channels
use rushsocket.Adapter.Namespace
use rushsocket.Adapter.Namespace.{Namespace}
use rushsocket.Base.{
  arith, str_eq_iff, sym, ◌⊎◌, true, Str, str_eq, Bool, List, [], ◌∷◌, ◌≡◌, All, Bool-cases, inl,
  inr,
}
use rushsocket.Websocket.Connection.{WsConnection}
use rushsocket.Adapter.Namespace.Histories.{
  removes_user, adds_member, removes_socket, tries_socket, adds_socket, removes_member-Untouched,
  tries_member-Untouched, apply, Op, joins, leaves, tries_member, removes_member, adds_user,
  apply-IsMirrored,
}
use rushsocket.Adapter.Namespace.Membership.{
  subscribed-remove_from_channel, subscribed-add_to_channel, subscribed, IsMirrored,
}
use rushsocket.Adapter.Local.{LocalAdapter, get_or_create_ns}
use rushsocket.Adapter.Local.Apps.{apply_local, apply_local-Acts}

-- The socket is in the channel of the app.
unfoldable pub in_channel : Str → Str → Str → LocalAdapter → Bool
in_channel app_id socket_id channel a = subscribed socket_id channel (get_or_create_ns app_id a)

abbrev pub AllMirrored : LocalAdapter → Type 0
AllMirrored a = (app_id : Str) → IsMirrored (get_or_create_ns app_id a)

unfoldable pub run_local : Str → List Op → LocalAdapter → LocalAdapter
run_local app_id [] a = a
run_local app_id (op ∷ ops) a = run_local app_id ops (apply_local app_id op a)

-- An operation on the socket, that joins a channel only if `MayJoin` holds of it.
abbrev pub Permitted : Str → (Str → Type 0) → Op → Type 0
Permitted sid MayJoin (joins s c) = (s ≡ sid) × MayJoin c
Permitted sid MayJoin (leaves s c) = s ≡ sid
Permitted sid MayJoin (tries_member c s u i m) = s ≡ sid
Permitted sid MayJoin (removes_member c s u) = s ≡ sid
Permitted sid MayJoin (adds_user u s) = s ≡ sid
Permitted sid MayJoin (removes_user u s) = s ≡ sid
Permitted sid MayJoin (removes_socket s) = s ≡ sid
Permitted sid MayJoin _ = ⊥

pub record Effects (conn : WsConnection) (MayJoin : Str → Type 0) (a b : LocalAdapter)
    : Type 0 where
  pub ops : List Op
  pub reached : b ≡ run_local conn.app.id ops a
  pub permitted : All (Permitted conn.socket_id MayJoin) ops

module _ (conn : WsConnection) (MayJoin : Str → Type 0) where
  pub Effects-same : (a b : LocalAdapter) → b ≡ a → Effects conn MayJoin a b
  unfolding run_local
  Effects-same a b e = record { ops = []; reached = e; permitted = tt }

  pub Effects-one :
      (op : Op) (a b : LocalAdapter)
      → Permitted conn.socket_id MayJoin op
      → b ≡ apply_local conn.app.id op a
      → Effects conn MayJoin a b
  unfolding run_local
  Effects-one op a b p e = record { ops = op ∷ []; reached = e; permitted = (p, tt) }

  pub Effects-then :
      (op : Op) (a b : LocalAdapter)
      → Permitted conn.socket_id MayJoin op
      → Effects conn MayJoin (apply_local conn.app.id op a) b
      → Effects conn MayJoin a b
  unfolding run_local
  Effects-then op a b p e = record {
    ops = op ∷ e.ops;
    reached = e.reached;
    permitted = (p, e.permitted);
  }

  Effects-run :
      (ops : List Op) (a c : LocalAdapter)
      → All (Permitted conn.socket_id MayJoin) ops
      → Effects conn MayJoin (run_local conn.app.id ops a) c
      → Effects conn MayJoin a c
  unfolding run_local
  Effects-run [] a c p e = e
  Effects-run (op ∷ ops) a c (p, ps) e =
      Effects-then op a c p (Effects-run ops (apply_local conn.app.id op a) c ps e)

  pub Effects-trans :
      (a b c : LocalAdapter)
      → Effects conn MayJoin a b
      → Effects conn MayJoin b c
      → Effects conn MayJoin a c
  Effects-trans a b c e f = Effects-run e.ops a c e.permitted (rw (← e.reached) f)

  pub apply_local-AllMirrored :
      (op : Op) (a : LocalAdapter) → AllMirrored a → AllMirrored (apply_local conn.app.id op a)
  apply_local-AllMirrored op a v j =
      rw (apply_local-Acts conn.app.id op a j) (elim (Bool-cases (str_eq conn.app.id j)) [
        | inl e ↦ rw e (apply-IsMirrored op (get_or_create_ns conn.app.id a) (v conn.app.id))
        | inr e ↦ rw e (v j)
      ])

  run_local-AllMirrored :
      (ops : List Op) (a : LocalAdapter) → AllMirrored a → AllMirrored (run_local conn.app.id ops a)
  unfolding run_local
  run_local-AllMirrored [] a v = v
  run_local-AllMirrored (op ∷ ops) a v =
      run_local-AllMirrored ops (apply_local conn.app.id op a) (apply_local-AllMirrored op a v)

  pub Effects-AllMirrored :
      (a b : LocalAdapter) → Effects conn MayJoin a b → AllMirrored a → AllMirrored b
  Effects-AllMirrored a b e v = rw e.reached (run_local-AllMirrored e.ops a v)
