-- ===== src/Adapter/Redis/Peers.antt =====
-- The exchange between the nodes (`handle_broadcast`, `handle_request` and the sums over all nodes of
-- src/adapter/redis/mod.rs, `publish` of src/adapter/redis/pubsub.rs). What the peers answer to a
-- request is an argument.
pub mod Copies
use rushsocket.Base.{
  refl, inr, inl, Bool-cases, ◌≡◌, Str, str_eq, Bool, ◌+◌, ℕ, Option, none, some, List, [], ◌∷◌,
  if◌then◌else◌, true, false,
}
use rushsocket.Base.Sets
use rushsocket.Base.Assoc.{Assoc}
use rushsocket.Externals.{Externals}
use rushsocket.Protocol.Json.{Json}
use rushsocket.Websocket.Connection.{Heap}
use rushsocket.Adapter.Local
use rushsocket.Adapter.Local.{LocalAdapter}

-- `BroadcastMessage` of src/adapter/redis/pubsub.rs
pub data BroadcastMessage : Type 0 where
  channel_message : Str → Str → Str → Option Str → BroadcastMessage
  terminate_user : Str → Str → BroadcastMessage
  heartbeat : BroadcastMessage

-- `RequestType` and `ResponsePayload` of src/adapter/redis/request_response.rs
pub data RequestType : Type 0 where
  get_connection_count get_channels : Str → RequestType
  get_channel_socket_count get_channel_info get_presence_members : Str → Str → RequestType
  get_presence_user_count get_channel_sockets : Str → Str → RequestType
  get_metrics discover_peers : RequestType

pub data ResponsePayload : Type 0 where
  count : ℕ → ResponsePayload
  channels socket_ids : List Str → ResponsePayload
  channel_info : Bool → ℕ → Option ℕ → ResponsePayload
  presence_members : Assoc Json → ResponsePayload
  metrics : Json → ResponsePayload
  ack : ResponsePayload

-- How Redis answers `publish`: to the first command, to the reconnection, and to the second command.
-- A command that fails may have been carried out or not.
pub record Answers : Type 0 where
  pub first : Bool
  pub reconnects : Bool
  pub second : Bool

-- The messages that are sent to Redis, one for each command, and whether `publish` succeeds.
unfoldable pub publish : Answers → BroadcastMessage → List BroadcastMessage × Bool
publish answers message =
    if answers.first
    then (message ∷ [], true)
    else if answers.reconnects
    then (message ∷ message ∷ [], answers.second)
    else (message ∷ [], false)

module _ (ext : Externals) (node_id : Str) where
  -- What a node does with a message of the sender: the connections after it.
  unfoldable pub handle_broadcast : Str → BroadcastMessage → LocalAdapter → Heap → Heap
  handle_broadcast sender_node (channel_message app_id channel message excepting_id) a heap =
      if str_eq sender_node node_id
      then heap
      else Local.send_to_channel ext app_id channel message excepting_id a heap
  handle_broadcast sender_node (terminate_user app_id user_id) a heap =
      if str_eq sender_node node_id
      then heap
      else Local.terminate_user_connections ext app_id user_id a heap
  handle_broadcast sender_node heartbeat a heap = heap

  -- The messages that are sent to Redis, and the connections of this node; the error of `publish` is
  -- only logged.
  unfoldable pub send_to_channel :
      Answers → Str → Str → Str → Option Str → LocalAdapter → Heap → List BroadcastMessage × Heap
  send_to_channel answers app_id channel message excepting_id a heap = (
    (publish answers (channel_message app_id channel message excepting_id)).0,
    Local.send_to_channel ext app_id channel message excepting_id a heap,
  )

  unfoldable pub terminate_user_connections :
      Answers → Str → Str → LocalAdapter → Heap → List BroadcastMessage × Heap
  terminate_user_connections answers app_id user_id a heap = (
    (publish answers (terminate_user app_id user_id)).0,
    Local.terminate_user_connections ext app_id user_id a heap,
  )

-- `own_metrics` is the JSON of the node's counters.
unfoldable pub handle_request : Json → RequestType → LocalAdapter → ResponsePayload
handle_request own_metrics (get_connection_count app_id) a =
    count (Local.get_connection_count app_id a)
handle_request own_metrics (get_channels app_id) a = channels (Local.get_channels app_id a)
handle_request own_metrics (get_channel_socket_count app_id channel) a =
    count (Local.get_channel_socket_count app_id channel a)
handle_request own_metrics (get_channel_info app_id channel) a =
    let info = Local.get_channel_info app_id channel a in
    channel_info info.occupied info.subscription_count info.user_count
handle_request own_metrics (get_presence_members app_id channel) a =
    presence_members (Local.get_presence_members app_id channel a)
handle_request own_metrics (get_presence_user_count app_id channel) a =
    count (Local.get_presence_user_count app_id channel a)
handle_request own_metrics (get_channel_sockets app_id channel) a =
    socket_ids (Local.get_channel_sockets app_id channel a)
handle_request own_metrics get_metrics a = metrics own_metrics
handle_request own_metrics discover_peers a = ack

-- The sum of the counts among the answers (`is_channel_globally_vacated`).
unfoldable pub sum_counts : List ResponsePayload → ℕ
sum_counts [] = 0
sum_counts (count c ∷ responses) = c + sum_counts responses
sum_counts (_ ∷ responses) = sum_counts responses

-- `get_channel_sockets`: the ids of all nodes, each once.
unfoldable pub extend : List Str → List Str → List Str
extend all [] = all
extend all (id ∷ ids) = extend (Sets.insert id all) ids

unfoldable pub all_sockets : List ResponsePayload → List Str → List Str
all_sockets [] all = all
all_sockets (socket_ids ids ∷ responses) all = all_sockets responses (extend all ids)
all_sockets (_ ∷ responses) all = all_sockets responses all

unfoldable pub global_channel_sockets :
    Str → Str → Option (List ResponsePayload) → LocalAdapter → List Str
global_channel_sockets app_id channel none a =
    extend [] (Local.get_channel_sockets app_id channel a)
global_channel_sockets app_id channel (some responses) a =
    all_sockets responses (extend [] (Local.get_channel_sockets app_id channel a))
