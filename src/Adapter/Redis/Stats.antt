-- ===== src/Adapter/Redis/Stats.antt =====
-- The counts and channels over all nodes, by the statistics that each node writes to Redis every
-- five seconds (`collect_local_stats`, `read_remote_stats` and the sums of
-- src/adapter/redis/mod.rs).
use rushsocket.Base.{
  Str, bytes, str_eq, Bool, true, false, ◌==◌, ◌+◌, ℕ, Option, none, some, List, [], ◌∷◌, ltb,
  get_or, map, ◌>>=◌, if◌then◌else◌,
}
use rushsocket.Externals.{Externals}
use rushsocket.Protocol.Json.{Json, Fields, object, field, end, number, pos_int, get, as_object}
use rushsocket.Protocol.Channels.{from_name, is_presence}
use rushsocket.Adapter.Redis.Peers.{extend}
use rushsocket.Adapter.Local
use rushsocket.Adapter.Local.{LocalAdapter, ChannelInfo}
use rushsocket.Adapter.Redis.{RedisCommands, RedisAdapter, node_stats_key, get_presence_user_count}

-- `as_u64`
abbrev pub as_u64 : Json → Option ℕ
as_u64 (number (pos_int n)) = some n
as_u64 _ = none

-- `String`'s order.
unfoldable pub str_lt : Str → Str → Bool
str_lt x [] = false
str_lt [] (c ∷ y) = true
str_lt (b ∷ x) (c ∷ y) = let rest = str_lt x y in if b == c then rest else ltb b c

-- `Map::insert` of serde_json: the keys of an object are in order.
unfoldable pub put : Str → Json → Fields → Fields
put key value end = field key value end
put key value (field k v fields) =
    let rest = put key value fields in
    if str_eq k key
    then field k value fields
    else if str_lt key k
    then field key value (field k v fields)
    else field k v rest

-- The sockets of each channel of an app, put into a map.
unfoldable pub channel_stats : Str → List Str → LocalAdapter → Fields → Fields
channel_stats app_id [] a ch_map = ch_map
channel_stats app_id (ch ∷ channels) a ch_map =
    let count = Local.get_channel_socket_count app_id ch a in
    channel_stats app_id channels a (put ch (number (pos_int count)) ch_map)

unfoldable pub app_stats : Str → LocalAdapter → Json
app_stats app_id a =
    let connections = Local.get_connection_count app_id a in
    let ch_map = channel_stats app_id (Local.get_channels app_id a) a end in
    object (
      put (bytes "channels") (object ch_map)
        (put (bytes "connections") (number (pos_int connections)) end))

unfoldable pub stats_of : List Str → LocalAdapter → Fields → Fields
stats_of [] a apps = apps
stats_of (app_id ∷ app_ids) a apps = stats_of app_ids a (put app_id (app_stats app_id a) apps)

unfoldable pub collect_local_stats : LocalAdapter → Json
collect_local_stats a = object (stats_of (Local.get_app_ids a) a end)

-- The statistics that were there and could be parsed.
unfoldable pub parse_stats : Externals → List (Option Str) → List Json
parse_stats ext [] = []
parse_stats ext (value ∷ values) =
    let rest = parse_stats ext values in
    elim (value >>= ext.parse) [ none ↦ rest | some stats ↦ stats ∷ rest ]

unfoldable pub read_remote_stats :
    (R : RedisCommands) → Externals → Str → List Str → R.Store → List Json
read_remote_stats R ext prefix [] store = []
read_remote_stats R ext prefix (id ∷ ids) store =
    elim (R.mget (map (node_stats_key prefix) (id ∷ ids)) store) [
      | none ↦ []
      | some values ↦ parse_stats ext values
    ]

-- `s.get(app_id)` and `a["connections"].as_u64()`
unfoldable pub connections_in : Str → Json → ℕ
connections_in app_id stats =
    get_or (get app_id stats >>= (λ a. get (bytes "connections") a >>= as_u64)) 0

unfoldable pub sockets_in : Str → Str → Json → ℕ
sockets_in app_id channel stats =
    get_or
      (get app_id stats >>= (λ a. get (bytes "channels") a >>= (λ c. get channel c >>= as_u64))) 0

-- `channels.keys()`
unfoldable pub names : Fields → List Str
names end = []
names (field name value fields) = name ∷ names fields

unfoldable pub channels_in : Str → Json → List Str
channels_in app_id stats =
    get_or
      (get app_id stats >>= (λ a.
        get (bytes "channels") a >>= (λ c. as_object c >>= (λ fields. some (names fields)))))
      []

-- The channels of all nodes, each once.
unfoldable pub all_channels : Str → List Json → List Str → List Str
all_channels app_id [] all = all
all_channels app_id (stats ∷ rest) all =
    all_channels app_id rest (extend all (channels_in app_id stats))

-- `sum()`
unfoldable pub sum_of : (Json → ℕ) → List Json → ℕ
sum_of f [] = 0
sum_of f (stats ∷ rest) = f stats + sum_of f rest

module _ (R : RedisCommands) (ext : Externals) (prefix node_id : Str) where
  unfoldable pub get_connection_count : Str → List Str → RedisAdapter R → ℕ
  get_connection_count app_id node_ids a =
      Local.get_connection_count app_id a.local
      + sum_of (connections_in app_id) (read_remote_stats R ext prefix node_ids a.store)

  unfoldable pub get_channels : Str → List Str → RedisAdapter R → List Str
  get_channels app_id node_ids a =
      all_channels app_id (read_remote_stats R ext prefix node_ids a.store)
        (extend [] (Local.get_channels app_id a.local))

  unfoldable pub get_channel_socket_count : Str → Str → List Str → RedisAdapter R → ℕ
  get_channel_socket_count app_id channel node_ids a =
      Local.get_channel_socket_count app_id channel a.local
      + sum_of (sockets_in app_id channel) (read_remote_stats R ext prefix node_ids a.store)

  unfoldable pub get_channel_info : Str → Str → List Str → RedisAdapter R → ChannelInfo
  get_channel_info app_id channel node_ids a =
      let subscription_count = get_channel_socket_count app_id channel node_ids a in
      record {
        occupied = ltb 0 subscription_count;
        subscription_count = subscription_count;
        user_count =
            if is_presence (from_name channel)
            then some (get_presence_user_count R ext prefix node_id app_id channel a)
            else none;
      }
