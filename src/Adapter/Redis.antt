-- ===== src/Adapter/Redis.antt =====
-- src/adapter/redis/mod.rs: the adapter of a node that shares the occupancy of channels and the
-- members of presence channels with the other nodes in Redis. Redis itself is a parameter: its
-- commands on a store, `none` for an error. An error in a command whose result is ignored is one that
-- leaves the store as it was.
pub mod Occupancy
pub mod Members
pub mod Peers
pub mod Stats
pub mod Summary
pub mod Totals
use rushsocket.Base.{
  ◌≡◌, Str, bytes, Bool, true, false, not, ◌&&◌, ◌++◌, ℕ, Option, none, some, List, [], ◌∷◌, ltb,
  leb, get_or, ◌==◌, if◌then◌else◌,
}
use rushsocket.Base.Assoc.{Assoc}
use rushsocket.Base.Int.{ℤ, pos, negsuc}
use rushsocket.Externals.{Externals}
use rushsocket.Protocol.Json.{Json, null}
use rushsocket.Adapter.Local
use rushsocket.Adapter.Redis.Peers.{ResponsePayload, sum_counts}
use rushsocket.Adapter.Local.{LocalAdapter}

pub record RedisCommands : Type 1 where
  pub Store : Type 0
  pub set_nx : Str → Str → Store → Store × Option Bool
  pub del : Str → Store → Store
  pub hincr : Str → Str → ℤ → Store → Store × Option ℤ
  pub hset : Str → Str → Str → Store → Store
  pub hdel : Str → Str → Store → Store
  pub hlen : Str → Store → Option ℕ
  pub hexists : Str → Str → Store → Option Bool
  pub hgetall : Str → Store → Option (Assoc Str)
  pub mget : List Str → Store → Option (List (Option Str))

-- The node's own tables, and the store that all nodes share.
pub record RedisAdapter (R : RedisCommands) : Type 0 where
  pub local : LocalAdapter
  pub store : R.Store

-- `count == 1`
abbrev pub is_one : ℤ → Bool
is_one (pos n) = n == 1
is_one (negsuc n) = false

-- `count <= 0`
abbrev pub is_gone : ℤ → Bool
is_gone (pos n) = n == 0
is_gone (negsuc n) = true

module _ (prefix : Str) where
  abbrev key_of : Str → Str → Str → Str
  key_of kind app_id channel =
      prefix ++ (bytes ":" ++ (kind ++ (bytes ":" ++ (app_id ++ (bytes ":" ++ channel)))))

  unfoldable pub occupancy_key : Str → Str → Str
  occupancy_key app_id channel = key_of (bytes "occupied") app_id channel

  unfoldable pub presence_key : Str → Str → Str
  presence_key app_id channel = key_of (bytes "presence") app_id channel

  unfoldable pub presence_sockets_key : Str → Str → Str
  presence_sockets_key app_id channel = key_of (bytes "psock") app_id channel

  unfoldable pub node_stats_key : Str → Str
  node_stats_key node_id = prefix ++ (bytes ":node_stats:" ++ node_id)

-- The info of each member, null if it is no JSON.
unfoldable pub read_infos : Externals → Assoc Str → Assoc Json
read_infos ext [] = []
read_infos ext ((user_id, info) ∷ rest) =
    (user_id, get_or (ext.parse info) null) ∷ read_infos ext rest

module _ (R : RedisCommands) (ext : Externals) (prefix node_id : Str) where
  unfoldable pub is_channel_globally_occupied : Str → Str → Bool → R.Store → R.Store × Bool
  is_channel_globally_occupied app_id channel locally_occupied store =
      if not locally_occupied
      then (store, false)
      else (let r = R.set_nx (occupancy_key prefix app_id channel) node_id store in
          (r.0, get_or r.1 locally_occupied))

  -- `responses` is what the peers answered with, if they were asked successfully.
  unfoldable pub is_channel_globally_vacated :
      Str → Str → Bool → Option (List ResponsePayload) → RedisAdapter R → RedisAdapter R × Bool
  is_channel_globally_vacated app_id channel locally_vacated responses a =
      if not locally_vacated
      then (a, false)
      else if ltb 0 (Local.get_channel_socket_count app_id channel a.local)
      then (a, false)
      else if ltb 0 (sum_counts (get_or responses []))
      then (a, false)
      else (record a { store = R.del (occupancy_key prefix app_id channel) a.store }, true)

  unfoldable pub get_presence_members : Str → Str → RedisAdapter R → Assoc Json
  get_presence_members app_id channel a =
      elim (R.hgetall (presence_key prefix app_id channel) a.store) [
        | none ↦ Local.get_presence_members app_id channel a.local
        | some raw ↦ read_infos ext raw
      ]

  unfoldable pub get_presence_user_count : Str → Str → RedisAdapter R → ℕ
  get_presence_user_count app_id channel a =
      elim (R.hlen (presence_key prefix app_id channel) a.store) [
        | none ↦ Local.get_presence_user_count app_id channel a.local
        | some count ↦ count
      ]

  -- The member's info is stored if the count says that the socket is the user's first.
  unfoldable pub store_member : Str → Str → Str → Json → ℤ → R.Store → R.Store
  store_member app_id channel user_id user_info count store =
      if is_one count
      then R.hset (presence_key prefix app_id channel) user_id (ext.print user_info) store
      else store

  unfoldable pub add_presence_member :
      Str → Str → Str → Str → Json → RedisAdapter R → RedisAdapter R × Bool
  add_presence_member app_id channel socket_id user_id user_info a =
      let local =
        (Local.add_presence_member app_id channel socket_id user_id user_info a.local).0 in
      let r = R.hincr (presence_sockets_key prefix app_id channel) user_id (pos 1) a.store in
      elim r.1 [
        | none ↦ (record { local = local; store = r.0 }, false)
        | some count ↦ (
          record { local = local; store = store_member app_id channel user_id user_info count r.0 },
          is_one count,
        )
      ]

  unfoldable pub try_add_presence_member :
      Str
      → Str
      → Str
      → Str
      → Json
      → ℕ
      → RedisAdapter R
      → RedisAdapter R × Option (Bool × Assoc Json)
  try_add_presence_member app_id channel socket_id user_id user_info max_members a =
      let key = presence_key prefix app_id channel in
      let current_count = get_or (R.hlen key a.store) 0 in
      let already_exists = get_or (R.hexists key user_id a.store) false in
      if not already_exists && leb max_members current_count
      then (a, none)
      else (let local =
            (Local.add_presence_member app_id channel socket_id user_id user_info a.local).0 in
          let r = R.hincr (presence_sockets_key prefix app_id channel) user_id (pos 1) a.store in
          let count = get_or r.1 (pos 1) in
          let a1 : RedisAdapter R = record {
            local = local;
            store = store_member app_id channel user_id user_info count r.0;
          } in
          (a1, some (is_one count, get_presence_members app_id channel a1)))

  -- The entries of a user whose last socket has gone, and the hashes if they are empty then.
  unfoldable pub drop_member : Str → Str → Str → R.Store → R.Store
  drop_member app_id channel user_id store =
      let key = presence_key prefix app_id channel in
      let psock_key = presence_sockets_key prefix app_id channel in
      let store1 = R.hdel psock_key user_id (R.hdel key user_id store) in
      if get_or (R.hlen key store1) 1 == 0 then R.del psock_key (R.del key store1) else store1

  unfoldable pub remove_presence_member :
      Str → Str → Str → Str → RedisAdapter R → RedisAdapter R × Bool
  remove_presence_member app_id channel socket_id user_id a =
      let local = (Local.remove_presence_member app_id channel socket_id user_id a.local).0 in
      let r = R.hincr (presence_sockets_key prefix app_id channel) user_id (negsuc 0) a.store in
      elim r.1 [
        | none ↦ (record { local = local; store = r.0 }, false)
        | some count ↦
            if is_gone count
            then (record { local = local; store = drop_member app_id channel user_id r.0 }, true)
            else (record { local = local; store = r.0 }, false)
      ]
