-- ===== src/Adapter/Effects/Channels.antt =====
-- Exactly which subscriptions one operation of an app (src/adapter/namespace.rs) changes, in all apps.
use rushsocket.Base.Int.{ℤ}
use rushsocket.Websocket.Connection.{WsConnection}
use rushsocket.Base.{
  ℕ, Str, str_eq, Bool, true, not, ◌&&◌, ◌||◌, ◌≡◌, refl, ap, ◌∙◌, arith, Bool-cases, str_eq_iff,
  inl, inr, if◌then◌else◌,
}
use rushsocket.Base.Sets
use rushsocket.Base.Assoc
use rushsocket.Protocol.Json.{Json}
use rushsocket.Adapter.Namespace
use rushsocket.Adapter.Namespace.{Namespace}
use rushsocket.Adapter.Namespace.Membership.{
  subscribed, subscribed-add_to_channel, subscribed-remove_from_channel,
}
use rushsocket.Adapter.Namespace.Disconnect.{subscribed-remove_socket}
use rushsocket.Adapter.Namespace.Histories.{
  Op, joins, leaves, tries_socket, removes_socket, tries_member, removes_member, adds_user, apply,
  tries_member-Untouched, removes_member-Untouched,
}
use rushsocket.Adapter.Local.{LocalAdapter, get_or_create_ns}
use rushsocket.Adapter.Local.Apps.{apply_local, apply_local-Acts}
use rushsocket.Adapter.Effects.{in_channel, AllMirrored}

-- The app and the socket id are those.
abbrev pub own : Str → Str → Str → Str → Bool
own id sid app_id s = str_eq id app_id && str_eq sid s

-- Two that are the third are each other.
pub own-own : (a s c t x y : Str) → own a s x y ≡ true → own c t x y ≡ true → own a s c t ≡ true
own-own a s c t x y h k = ground (
  arith,
  str_eq_iff a x,
  str_eq_iff s y,
  str_eq_iff c x,
  str_eq_iff t y,
  str_eq_iff a c,
  str_eq_iff s t,
)

pub own_comm : (a s c t : Str) → own a s c t ≡ own c t a s
own_comm a s c t = ground (arith, str_eq_iff a c, str_eq_iff c a, str_eq_iff s t, str_eq_iff t s)

-- One operation, with what it does to the subscriptions of a namespace.
in_channel-op :
    (id : Str) (op : Op) (a : LocalAdapter) (app_id s c : Str) (b : Bool → Bool)
    → (subscribed s c (apply op (get_or_create_ns id a))
        ≡ b (subscribed s c (get_or_create_ns id a)))
    → in_channel app_id s c (apply_local id op a)
      ≡ (if str_eq id app_id then b (in_channel app_id s c a) else in_channel app_id s c a)
unfolding in_channel
in_channel-op id op a app_id s c b h = elim (Bool-cases (str_eq id app_id)) [
  | inl e ↦
      rw (apply_local-Acts id op a app_id, e)
        (h ∙ ap (λ i. b (subscribed s c (get_or_create_ns i a))) ((str_eq_iff id app_id).0 e))
  | inr e ↦ rw (apply_local-Acts id op a app_id, e) refl
]

pub in_channel-joins :
    (id sid ch : Str) (a : LocalAdapter) (app_id s c : Str)
    → AllMirrored a
    → in_channel app_id s c (apply_local id (joins sid ch) a)
      ≡ ((own id sid app_id s && str_eq ch c) || in_channel app_id s c a)
unfolding apply
in_channel-joins id sid ch a app_id s c v = ground (
  arith,
  in_channel-op id (joins sid ch) a app_id s c (λ (b : Bool). (str_eq sid s && str_eq ch c) || b)
      (subscribed-add_to_channel sid ch (get_or_create_ns id a) (v id) s c),
)

pub in_channel-leaves :
    (id sid ch : Str) (a : LocalAdapter) (app_id s c : Str)
    → AllMirrored a
    → in_channel app_id s c (apply_local id (leaves sid ch) a)
      ≡ (not (own id sid app_id s && str_eq ch c) && in_channel app_id s c a)
unfolding apply
in_channel-leaves id sid ch a app_id s c v = ground (
  arith,
  in_channel-op id (leaves sid ch) a app_id s c
      (λ (b : Bool). not (str_eq sid s && str_eq ch c) && b)
      (subscribed-remove_from_channel sid ch (get_or_create_ns id a) (v id) s c),
)

-- The operation leaves the channels alone.
abbrev IsQuiet : Op → Type 0
IsQuiet op = (ns : Namespace) → (apply op ns).channels ≡ ns.channels

in_channel-quiet :
    (id : Str) (op : Op) (a : LocalAdapter) (app_id s c : Str)
    → IsQuiet op
    → in_channel app_id s c (apply_local id op a) ≡ in_channel app_id s c a
unfolding subscribed
in_channel-quiet id op a app_id s c quiet = ground (
  arith,
  in_channel-op id op a app_id s c (λ (b : Bool). b)
      (ap (λ m. Sets.contains s (Assoc.entry c m)) (quiet (get_or_create_ns id a))),
)

pub in_channel-tries_socket :
    (id : Str) (conn : WsConnection) (limit : ℤ) (a : LocalAdapter) (app_id s c : Str)
    → in_channel app_id s c (apply_local id (tries_socket conn limit) a) ≡ in_channel app_id s c a
unfolding apply Namespace.try_add_socket Namespace.add_socket
in_channel-tries_socket id conn limit a app_id s c =
    in_channel-quiet id (tries_socket conn limit) a app_id s c (λ ns. ground arith)

pub in_channel-tries_member :
    (id ch sid uid : Str) (info : Json) (max : ℕ) (a : LocalAdapter) (app_id s c : Str)
    → in_channel app_id s c (apply_local id (tries_member ch sid uid info max) a)
      ≡ in_channel app_id s c a
unfolding apply
in_channel-tries_member id ch sid uid info max a app_id s c =
    in_channel-quiet id (tries_member ch sid uid info max) a app_id s c
      (λ ns. (tries_member-Untouched ch sid uid info max ns).channels)

pub in_channel-removes_member :
    (id ch sid uid : Str) (a : LocalAdapter) (app_id s c : Str)
    → in_channel app_id s c (apply_local id (removes_member ch sid uid) a) ≡ in_channel app_id s c a
unfolding apply
in_channel-removes_member id ch sid uid a app_id s c =
    in_channel-quiet id (removes_member ch sid uid) a app_id s c
      (λ ns. (removes_member-Untouched ch sid uid ns).channels)

pub in_channel-adds_user :
    (id uid sid : Str) (a : LocalAdapter) (app_id s c : Str)
    → in_channel app_id s c (apply_local id (adds_user uid sid) a) ≡ in_channel app_id s c a
unfolding apply Namespace.add_user
in_channel-adds_user id uid sid a app_id s c =
    in_channel-quiet id (adds_user uid sid) a app_id s c (λ ns. refl)

pub in_channel-removes_socket :
    (id sid : Str) (a : LocalAdapter) (app_id s c : Str)
    → AllMirrored a
    → in_channel app_id s c (apply_local id (removes_socket sid) a)
      ≡ (not (own id sid app_id s) && in_channel app_id s c a)
unfolding apply
in_channel-removes_socket id sid a app_id s c v = ground (
  arith,
  in_channel-op id (removes_socket sid) a app_id s c (λ (b : Bool). not (str_eq sid s) && b)
      (subscribed-remove_socket sid (get_or_create_ns id a) (v id) s c),
)
