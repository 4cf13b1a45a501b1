-- ===== src/Adapter/Local.antt =====
-- src/adapter/local.rs: the namespaces of the apps, and the operations of the trait `Adapter`
-- (src/adapter/mod.rs) on one node, with the trait's default methods.
pub mod Apps
use rushsocket.Base.{
  Str, bytes, Bool, true, false, Option, none, some, ℕ, List, [], ◌∷◌, get_or, if◌then◌else◌, ltb,
  ◌>>=◌,
}
use rushsocket.Base.Assoc
use rushsocket.Base.Assoc.{Assoc}
use rushsocket.Base.Int.{ℤ}
use rushsocket.Externals.{Externals}
use rushsocket.Protocol.Channels.{from_name, is_presence}
use rushsocket.Protocol.Json.{Json}
use rushsocket.Protocol.Messages.{error, to_json}
use rushsocket.Websocket.Connection.{WsConnection, Heap, write, send_raw, force_closed}
use rushsocket.Adapter.Namespace
use rushsocket.Adapter.Namespace.{Namespace}

pub record ChannelInfo : Type 0 where
  pub occupied : Bool
  pub subscription_count : ℕ
  pub user_count : Option ℕ

abbrev pub LocalAdapter : Type 0
LocalAdapter = Assoc Namespace

-- `get_or_create_ns`; the namespace that it makes is put into the map by `with_ns`.
unfoldable pub get_or_create_ns : Str → LocalAdapter → Namespace
get_or_create_ns app_id a = get_or (Assoc.lookup app_id a) Namespace.new

abbrev pub get_ns : Str → LocalAdapter → Option Namespace
get_ns app_id a = Assoc.lookup app_id a

abbrev pub get_app_ids : LocalAdapter → List Str
get_app_ids a = Assoc.keys a

unfoldable pub add_socket : Str → WsConnection → LocalAdapter → LocalAdapter
add_socket app_id conn a =
    Assoc.insert app_id (Namespace.add_socket conn (get_or_create_ns app_id a)) a

unfoldable pub try_add_socket : Str → WsConnection → ℤ → LocalAdapter → LocalAdapter × Bool
try_add_socket app_id conn limit a =
    let r = Namespace.try_add_socket conn limit (get_or_create_ns app_id a) in
    (Assoc.insert app_id r.0 a, r.1)

unfoldable pub remove_socket : Str → Str → LocalAdapter → LocalAdapter × List Str
remove_socket app_id socket_id a = elim (get_ns app_id a) [
  | none ↦ (a, [])
  | some ns ↦ let r = Namespace.remove_socket socket_id ns in (Assoc.insert app_id r.0 a, r.1)
]

unfoldable pub add_to_channel : Str → Str → Str → LocalAdapter → LocalAdapter × Bool
add_to_channel app_id socket_id channel a =
    let r = Namespace.add_to_channel socket_id channel (get_or_create_ns app_id a) in
    (Assoc.insert app_id r.0 a, r.1)

unfoldable pub remove_from_channel : Str → Str → Str → LocalAdapter → LocalAdapter × Bool
remove_from_channel app_id socket_id channel a = elim (get_ns app_id a) [
  | none ↦ (a, false)
  | some ns ↦
      let r = Namespace.remove_from_channel socket_id channel ns in (Assoc.insert app_id r.0 a, r.1)
]

unfoldable pub get_connection_count : Str → LocalAdapter → ℕ
get_connection_count app_id a = elim (get_ns app_id a) [ none ↦ 0 | some ns ↦ ns.connection_count ]

unfoldable pub get_channels : Str → LocalAdapter → List Str
get_channels app_id a = elim (get_ns app_id a) [ none ↦ [] | some ns ↦ Namespace.get_channels ns ]

unfoldable pub get_channel_socket_count : Str → Str → LocalAdapter → ℕ
get_channel_socket_count app_id channel a = elim (get_ns app_id a) [
  | none ↦ 0
  | some ns ↦ Namespace.get_channel_socket_count channel ns
]

unfoldable pub get_presence_user_count : Str → Str → LocalAdapter → ℕ
get_presence_user_count app_id channel a = elim (get_ns app_id a) [
  | none ↦ 0
  | some ns ↦ Namespace.get_presence_user_count channel ns
]

-- The user count of a presence channel only.
unfoldable pub get_channel_info : Str → Str → LocalAdapter → ChannelInfo
get_channel_info app_id channel a = elim (get_ns app_id a) [
  | none ↦ record { occupied = false; subscription_count = 0; user_count = none }
  | some ns ↦
      let count = Namespace.get_channel_socket_count channel ns in
      record {
        occupied = ltb 0 count;
        subscription_count = count;
        user_count =
            if is_presence (from_name channel)
            then some (Namespace.get_presence_user_count channel ns)
            else none;
      }
]

unfoldable pub get_presence_members : Str → Str → LocalAdapter → Assoc Json
get_presence_members app_id channel a = elim (get_ns app_id a) [
  | none ↦ []
  | some ns ↦ Namespace.get_presence_members channel ns
]

unfoldable pub add_presence_member :
    Str → Str → Str → Str → Json → LocalAdapter → LocalAdapter × Bool
add_presence_member app_id channel socket_id user_id user_info a =
    let r =
      Namespace.add_presence_member channel socket_id user_id user_info
        (get_or_create_ns app_id a) in
    (Assoc.insert app_id r.0 a, r.1)

unfoldable pub try_add_presence_member :
    Str → Str → Str → Str → Json → ℕ → LocalAdapter → LocalAdapter × Option (Bool × Assoc Json)
try_add_presence_member app_id channel socket_id user_id user_info max_members a =
    let r =
      Namespace.try_add_presence_member channel socket_id user_id user_info max_members
        (get_or_create_ns app_id a) in
    (Assoc.insert app_id r.0 a, r.1)

unfoldable pub remove_presence_member : Str → Str → Str → Str → LocalAdapter → LocalAdapter × Bool
remove_presence_member app_id channel socket_id user_id a = elim (get_ns app_id a) [
  | none ↦ (a, false)
  | some ns ↦
      let r = Namespace.remove_presence_member channel socket_id user_id ns in
      (Assoc.insert app_id r.0 a, r.1)
]

unfoldable pub get_sockets_for_user : Str → Str → LocalAdapter → List WsConnection
get_sockets_for_user app_id user_id a = elim (get_ns app_id a) [
  | none ↦ []
  | some ns ↦ Namespace.get_sockets_for_user user_id ns
]

unfoldable pub get_socket : Str → Str → LocalAdapter → Option WsConnection
get_socket app_id socket_id a = do ns ← get_ns app_id a; Assoc.lookup socket_id ns.sockets

unfoldable pub get_channel_sockets : Str → Str → LocalAdapter → List Str
get_channel_sockets app_id channel a = elim (get_ns app_id a) [
  | none ↦ []
  | some ns ↦ Assoc.entry channel ns.channels
]

unfoldable pub add_user : Str → Str → Str → LocalAdapter → LocalAdapter
add_user app_id user_id socket_id a =
    Assoc.insert app_id (Namespace.add_user user_id socket_id (get_or_create_ns app_id a)) a

unfoldable pub remove_user : Str → Str → Str → LocalAdapter → LocalAdapter
remove_user app_id user_id socket_id a = elim (get_ns app_id a) [
  | none ↦ a
  | some ns ↦ Assoc.insert app_id (Namespace.remove_user user_id socket_id ns) a
]

-- The defaults of the trait: on one node the local answer is the global one.
unfoldable pub is_channel_globally_occupied : Str → Str → Bool → LocalAdapter → Bool
is_channel_globally_occupied app_id channel locally_occupied a = locally_occupied

unfoldable pub is_channel_globally_vacated : Str → Str → Bool → LocalAdapter → Bool
is_channel_globally_vacated app_id channel locally_vacated a = locally_vacated

module _ (ext : Externals) where
  unfoldable pub send_to_channel : Str → Str → Str → Option Str → LocalAdapter → Heap → Heap
  send_to_channel app_id channel message excepting_id a heap = elim (get_ns app_id a) [
    | none ↦ heap
    | some ns ↦ Namespace.send_to_channel ext channel message excepting_id ns heap
  ]

  -- One connection is told why, if there is room, and closed in either case.
  unfoldable pub terminate_each : List WsConnection → Heap → Heap
  terminate_each [] heap = heap
  terminate_each (conn ∷ rest) heap =
      let told =
        send_raw ext (to_json ext (error ext (bytes "Connection terminated by server") 4009))
          (heap conn.address) in
      terminate_each rest (write conn.address (force_closed told.0) heap)

  unfoldable pub terminate_user_connections : Str → Str → LocalAdapter → Heap → Heap
  terminate_user_connections app_id user_id a heap =
      terminate_each (get_sockets_for_user app_id user_id a) heap
