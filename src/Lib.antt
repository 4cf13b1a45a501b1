-- ===== src/Lib.antt =====
-- rushsocket, a WebSocket server that speaks the Pusher protocol, with its adapters.
--
-- A client opens a connection for an app. Each message of the client goes through
-- `lifecycle::on_message` to a handler, which checks it, changes the connection and the adapter,
-- answers, tells the other subscribers, and queues webhooks. When the connection ends,
-- `lifecycle::on_close` goes through its channels and the tables. The routes of the HTTP API
-- publish events to channels and read the tables. The adapter holds one namespace for each app:
-- its sockets, who is in which channel, the members of presence channels, and the users'
-- sockets.
--
-- Modules, and the code that they follow:
--   Protocol.Channels     src/protocol/channels.rs: kinds of channels, and which names are valid
--   Protocol.Json         the JSON values that the messages are built of
--   Protocol.Messages     src/protocol/messages.rs: the messages of the server
--   Auth                  src/auth/mod.rs: tokens for channels and for signing in
--   Externals             what comes from other crates, as one record of functions
--   App                   src/app/mod.rs, src/config/mod.rs: an app's settings and their conversion
--   App.Manager           src/app/static_manager.rs: look-up by key and by id
--   Websocket.Origins     src/websocket/mod.rs: the check of the Origin header
--   Websocket.Connection  src/websocket/connection.rs: handles, and the cells that they point to
--   Websocket.Events      src/websocket/events/*.rs: `handle` of each file, by the file's name
--   Websocket.Lifecycle   src/websocket/lifecycle.rs: `on_message`, `on_close`
--   Websocket.Coupling    how a connection's own list of channels and the adapter change together
--   Websocket.Task        src/websocket/mod.rs: `handle_socket`, `run_connection`
--   Websocket.Sessions    all connections of a node, as steps of their tasks in any order
--   Adapter.Namespace     src/adapter/namespace.rs: each method, `self` last
--   Adapter.Local         src/adapter/local.rs, and the defaults of the trait in src/adapter/mod.rs
--   Adapter.Effects       what one client may do to the adapter, as a list of operations
--   Adapter.Redis         src/adapter/redis/mod.rs: occupancy and presence in Redis
--   Adapter.Redis.Peers   the messages and requests between nodes, of the same file and pubsub.rs
--   Adapter.Redis.Stats   counts and channels over all nodes by their statistics, of the same file
--   Http.Signature        src/http/auth.rs: `verify_http_signature`
--   Http.Terminate        src/http/routes/terminate.rs
--   Http.Requests         the checks that src/http/routes share, and the replies
--   Http.Trigger          src/http/routes/events.rs, src/http/routes/batch_events.rs
--   Http.Reads            the other files of src/http/routes
--   RateLimit             src/rate_limit/local.rs
--   Cache                 src/cache/memory.rs
--   Webhook               src/webhook/mod.rs: the events, and their queue
--   Webhook.Worker        src/webhook/mod.rs: `WebhookWorker`
--   Metrics               src/metrics/mod.rs
--   State                 src/state.rs: what the handlers share
--   Base                  text, lists, sets and maps
--   Examples              concrete clients, on which the theorems are tried
--
-- State is passed on explicitly: a method that changes `self` returns the new value, and a
-- handler takes the `AppState` and returns the next one. A connection is shared between its
-- task, the maps and the senders, so it is a handle with an address into a heap of cells
-- (`ConnState`). Text is its UTF-8 bytes. A map is a list of pairs and a set is a list, with the
-- laws of both proved in Base.Assoc and Base.Sets. Times are numbers that are passed in. The
-- objects that Adapter.Redis.Stats builds are sorted by their keys, as serde_json's are. A panic
-- is `none`.
--
-- Every method and every handler is one step; the exception is Adapter.Namespace.Admission,
-- where `try_add_socket` and the counter's decrement in `remove_socket` are taken apart into
-- their accesses to the shared counter, and tasks interleave in any order. The counter wraps
-- around at 2 ^ 64. In Websocket.Sessions a step is a round of one connection's loop, its entry
-- or its end; what other tasks do while a handler waits, or between the test of `should_close`
-- and the event that a round waits for, is not modelled. What the client, a connection's queue,
-- the clock and the receiver of webhooks do is a list of events. Recursion is on a list or on a
-- JSON value; the fuel of Base.Trim is the length of the text, and that of the webhook's
-- attempts is 3, as in the code.
--
-- Parameters: Externals has HMAC-SHA256 as hex text, the parsing and printing of JSON, the room
-- in a connection's queue, and what a limiter of the crate governor admits; Http.Requests has
-- the MD5 sum and the parsing of bodies. But for Adapter.Redis.Totals, the theorems assume
-- nothing of them. Redis is the record of its commands in Adapter.Redis; Adapter.Redis.Occupancy
-- and Adapter.Redis.Members state what they take from its documentation (KeyLaws and HashLaws),
-- and Adapter.Redis.Totals takes as a condition what the keys of the other nodes hold, and that
-- their printed statistics parse to themselves. That a new socket id, which is drawn at random,
-- is not in use is a condition of the steps in Websocket.Sessions.
--
-- Not modelled: in the Redis adapter merge_metrics, the requests of src/adapter/redis/pubsub.rs
-- with their time-outs, and src/cache/redis.rs; the table of routes in src/http/mod.rs, which
-- only calls axum, and the JSON of the counters; loading of the configuration, start-up and
-- shut-down (src/server.rs, src/main.rs), and log lines. The length of the deadlines of a
-- connection is not modelled, only that they pass. The calls of the counters in the handlers are
-- left out: Metrics has the counters themselves. A limit in KB times 1024 is taken not to exceed
-- a usize, and an expiry time in the cache not to be past what `Instant` can hold.
pub mod Base
pub mod Protocol
pub mod Auth
pub mod Externals
pub mod App
pub mod Websocket
pub mod Adapter
pub mod RateLimit
pub mod Cache
pub mod Metrics
pub mod Webhook
pub mod State
pub mod Http
pub mod Examples
