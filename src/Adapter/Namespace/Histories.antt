-- ===== src/Adapter/Namespace/Histories.antt =====
-- Any sequence of operations on a namespace (src/adapter/namespace.rs), each taken as one step.
use rushsocket.Base.{Str, ℕ, List, [], ◌∷◌, ◌≡◌, refl, arith}
use rushsocket.Base.Int.{ℤ}
use rushsocket.Protocol.Json.{Json}
use rushsocket.Websocket.Connection.{WsConnection}
use rushsocket.Adapter.Namespace
use rushsocket.Adapter.Namespace.{
  Namespace, add_socket, try_add_socket, remove_socket, add_to_channel, remove_from_channel,
  add_presence_member, try_add_presence_member, remove_presence_member, add_user, remove_user,
}
use rushsocket.Adapter.Namespace.Membership.{IsMirrored}
use rushsocket.Adapter.Namespace.Invariant.{
  same_parts, new-IsMirrored, add_socket-IsMirrored, try_add_socket-IsMirrored,
  remove_socket-IsMirrored, add_to_channel-IsMirrored, remove_from_channel-IsMirrored,
}

-- The public operations that change the state.
pub data Op : Type 0 where
  adds_socket : WsConnection → Op
  tries_socket : WsConnection → ℤ → Op
  removes_socket : Str → Op
  joins leaves : Str → Str → Op
  adds_member : Str → Str → Str → Json → Op
  tries_member : Str → Str → Str → Json → ℕ → Op
  removes_member : Str → Str → Str → Op
  adds_user removes_user : Str → Str → Op

unfoldable pub apply : Op → Namespace → Namespace
apply (adds_socket conn) ns = add_socket conn ns
apply (tries_socket conn limit) ns = (try_add_socket conn limit ns).0
apply (removes_socket socket_id) ns = (remove_socket socket_id ns).0
apply (joins socket_id channel) ns = (add_to_channel socket_id channel ns).0
apply (leaves socket_id channel) ns = (remove_from_channel socket_id channel ns).0
apply (adds_member channel socket_id user_id info) ns =
    (add_presence_member channel socket_id user_id info ns).0
apply (tries_member channel socket_id user_id info max) ns =
    (try_add_presence_member channel socket_id user_id info max ns).0
apply (removes_member channel socket_id user_id) ns =
    (remove_presence_member channel socket_id user_id ns).0
apply (adds_user user_id socket_id) ns = add_user user_id socket_id ns
apply (removes_user user_id socket_id) ns = remove_user user_id socket_id ns

unfoldable pub run : List Op → Namespace → Namespace
run [] ns = ns
run (op ∷ ops) ns = run ops (apply op ns)

-- The operations on members and users touch neither the sockets nor the channels.
pub record Untouched (ns ms : Namespace) : Type 0 where
  pub sockets : ms.sockets ≡ ns.sockets
  pub channels : ms.channels ≡ ns.channels
  pub index : ms.socket_channels ≡ ns.socket_channels

Untouched-IsMirrored : (ns ms : Namespace) → Untouched ns ms → IsMirrored ns → IsMirrored ms
Untouched-IsMirrored ns ms u v = same_parts ns ms v (rw u.sockets v.keyed) u.channels u.index

pub tries_member-Untouched :
    (channel socket_id user_id : Str) (info : Json) (max : ℕ) (ns : Namespace)
    → Untouched ns (try_add_presence_member channel socket_id user_id info max ns).0
unfolding try_add_presence_member
tries_member-Untouched channel socket_id user_id info max ns = record {
  sockets = ground arith;
  channels = ground arith;
  index = ground arith;
}

pub removes_member-Untouched :
    (channel socket_id user_id : Str) (ns : Namespace)
    → Untouched ns (remove_presence_member channel socket_id user_id ns).0
unfolding remove_presence_member
removes_member-Untouched channel socket_id user_id ns = record {
  sockets = ground arith;
  channels = ground arith;
  index = ground arith;
}

pub removes_user-Untouched :
    (user_id socket_id : Str) (ns : Namespace) → Untouched ns (remove_user user_id socket_id ns)
unfolding remove_user
removes_user-Untouched user_id socket_id ns = record {
  sockets = ground arith;
  channels = ground arith;
  index = ground arith;
}

pub apply-IsMirrored : (op : Op) (ns : Namespace) → IsMirrored ns → IsMirrored (apply op ns)
unfolding apply add_presence_member add_user
apply-IsMirrored (adds_socket conn) ns v = add_socket-IsMirrored conn ns v
apply-IsMirrored (tries_socket conn limit) ns v = try_add_socket-IsMirrored conn limit ns v
apply-IsMirrored (removes_socket socket_id) ns v = remove_socket-IsMirrored socket_id ns v
apply-IsMirrored (joins socket_id channel) ns v = add_to_channel-IsMirrored socket_id channel ns v
apply-IsMirrored (leaves socket_id channel) ns v =
    remove_from_channel-IsMirrored socket_id channel ns v
apply-IsMirrored (adds_member channel socket_id user_id info) ns v =
    same_parts ns _ v v.keyed refl refl
apply-IsMirrored (tries_member channel socket_id user_id info max) ns v =
    Untouched-IsMirrored ns _ (tries_member-Untouched channel socket_id user_id info max ns) v
apply-IsMirrored (removes_member channel socket_id user_id) ns v =
    Untouched-IsMirrored ns _ (removes_member-Untouched channel socket_id user_id ns) v
apply-IsMirrored (adds_user user_id socket_id) ns v = same_parts ns _ v v.keyed refl refl
apply-IsMirrored (removes_user user_id socket_id) ns v =
    Untouched-IsMirrored ns _ (removes_user-Untouched user_id socket_id ns) v

run_from : (ops : List Op) (ns : Namespace) → IsMirrored ns → IsMirrored (run ops ns)
unfolding run
run_from [] ns v = v
run_from (op ∷ ops) ns v = run_from ops (apply op ns) (apply-IsMirrored op ns v)

-- After any sequence of operations on a new namespace, with nothing in between: each connection
-- stands under its own socket id; the reverse index holds exactly the subscriptions; every listed
-- channel has a subscriber; and none has one twice.
pub run-IsMirrored : (ops : List Op) → IsMirrored (run ops Namespace.new)
run-IsMirrored ops = run_from ops Namespace.new new-IsMirrored
