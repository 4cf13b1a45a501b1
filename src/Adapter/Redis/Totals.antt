-- ===== src/Adapter/Redis/Totals.antt =====
-- What the counts over all nodes come to (src/adapter/redis/mod.rs).
use rushsocket.Base.{ltb, Str, ◌+◌, ℕ, Option, none, some, List, [], ◌∷◌, map, ◌≡◌, refl, ap, ◌∙◌}
use rushsocket.Externals.{Externals}
use rushsocket.Protocol.Json.{Json}
use rushsocket.Adapter.Local
use rushsocket.Adapter.Local.{LocalAdapter, get_ns}
use rushsocket.Adapter.Redis.{RedisCommands, RedisAdapter, node_stats_key}
use rushsocket.Adapter.Redis.Stats.{
  collect_local_stats, parse_stats, read_remote_stats, connections_in, sockets_in, sum_of,
  get_connection_count, get_channel_socket_count, get_channel_info,
}
use rushsocket.Adapter.Redis.Summary.{
  connections_in-collect_local_stats, sockets_in-collect_local_stats,
}

-- What a node's key holds: its statistics, or nothing after they expired.
abbrev pub written : Externals → Option LocalAdapter → Option Str
written ext none = none
written ext (some a) = some (ext.print (collect_local_stats a))

-- The sum over the nodes whose statistics are there.
unfoldable pub sum_over : (LocalAdapter → ℕ) → List (Option LocalAdapter) → ℕ
sum_over f [] = 0
sum_over f (none ∷ nodes) = sum_over f nodes
sum_over f (some a ∷ nodes) = f a + sum_over f nodes

-- The printed statistics of each node parse to themselves.
unfoldable pub IsReadable : Externals → List (Option LocalAdapter) → Type 0
IsReadable ext [] = Unit
IsReadable ext (none ∷ nodes) = IsReadable ext nodes
IsReadable ext (some a ∷ nodes) =
    (ext.parse (ext.print (collect_local_stats a)) ≡ some (collect_local_stats a))
    × IsReadable ext nodes

parse_stats-written :
    (ext : Externals) (f : Json → ℕ) (g : LocalAdapter → ℕ)
    → ((a : LocalAdapter) → f (collect_local_stats a) ≡ g a)
    → (nodes : List (Option LocalAdapter)) → IsReadable ext nodes
    → sum_of f (parse_stats ext (map (written ext) nodes)) ≡ sum_over g nodes
unfolding parse_stats sum_of sum_over IsReadable
parse_stats-written ext f g h [] r = refl
parse_stats-written ext f g h (none ∷ nodes) r = parse_stats-written ext f g h nodes r
parse_stats-written ext f g h (some a ∷ nodes) r =
    rw (r.0, h a, parse_stats-written ext f g h nodes r.1) refl

module _ (R : RedisCommands) (ext : Externals) (prefix node_id app_id channel id : Str)
    (ids : List Str) where
  reads :
      (nodes : List (Option LocalAdapter)) (store : R.Store)
      → R.mget (map (node_stats_key prefix) (id ∷ ids)) store ≡ some (map (written ext) nodes)
      → read_remote_stats R ext prefix (id ∷ ids) store ≡ parse_stats ext (map (written ext) nodes)
  unfolding read_remote_stats
  reads nodes store h =
      ap (λ r. elim r as (λ x. List Json) [ none ↦ [] | some values ↦ parse_stats ext values ]) h

  -- If the keys of the other nodes (at least one is known) hold the statistics of these nodes'
  -- tables, or nothing where they expired, and these statistics, printed, parse to themselves, then
  -- the connections of an app and the subscription count in a channel's info are the sums, over this
  -- node's tables and the tables of the nodes whose statistics are there, of the same counts on one
  -- node, and the channel is reported as occupied just if that sum is not 0.
  pub counts-sum_over :
      (nodes : List (Option LocalAdapter)) (a : RedisAdapter R)
      → R.mget (map (node_stats_key prefix) (id ∷ ids)) a.store ≡ some (map (written ext) nodes)
      → IsReadable ext nodes
      → (let info = get_channel_info R ext prefix node_id app_id channel (id ∷ ids) a in
          let sockets =
            sum_over (Local.get_channel_socket_count app_id channel) (some a.local ∷ nodes) in
          (get_connection_count R ext prefix node_id app_id (id ∷ ids) a
            ≡ sum_over (Local.get_connection_count app_id) (some a.local ∷ nodes))
          × (info.subscription_count ≡ sockets)
          × (info.occupied ≡ ltb 0 sockets))
  unfolding get_connection_count get_channel_socket_count get_channel_info sum_over
  counts-sum_over nodes a h r =
      let e = reads nodes a.store h in
      let c =
        ap (sum_of (connections_in app_id)) e
        ∙ parse_stats-written ext (connections_in app_id) (Local.get_connection_count app_id)
            (connections_in-collect_local_stats app_id) nodes r in
      let s =
        ap (sum_of (sockets_in app_id channel)) e
        ∙ parse_stats-written ext (sockets_in app_id channel)
            (Local.get_channel_socket_count app_id channel)
            (sockets_in-collect_local_stats app_id channel) nodes r in
      let sum = ap (λ n. Local.get_channel_socket_count app_id channel a.local + n) s in
      (ap (λ n. Local.get_connection_count app_id a.local + n) c, sum, ap (ltb 0) sum)
