-- ===== src/Metrics.antt =====
-- src/metrics/mod.rs: the counters of a node and of each app. A counter is an atomic of 64 bits, so
-- `fetch_add` and `fetch_sub` wrap around; `connected` is an i64, in two's complement.
pub mod Balance
use rushsocket.Base.{Str, ℕ, ◌+◌, ◌-◌, ◌%◌, ◌^◌, Option, none, some, []}
use rushsocket.Base.Assoc
use rushsocket.Base.Assoc.{Assoc}

-- The number of values of a counter.
abbrev pub range : ℕ
range = 2 ^ 64

abbrev pub fetch_add : ℕ → ℕ → ℕ
fetch_add counter n = (counter + n) % range

abbrev pub fetch_sub : ℕ → ℕ
fetch_sub counter = (counter + (range - 1)) % range

pub record AppMetrics : Type 0 where
  pub connected : ℕ
  pub total_connections : ℕ
  pub total_disconnections : ℕ
  pub ws_messages_received : ℕ
  pub ws_messages_sent : ℕ

pub record Metrics : Type 0 where
  pub connected : ℕ
  pub total_connections : ℕ
  pub total_disconnections : ℕ
  pub ws_messages_received : ℕ
  pub ws_messages_sent : ℕ
  pub ws_bytes_received : ℕ
  pub ws_bytes_sent : ℕ
  pub http_calls : ℕ
  pub http_bytes_received : ℕ
  pub http_bytes_sent : ℕ
  pub per_app : Assoc AppMetrics

abbrev pub new_app : AppMetrics
new_app = record {
  connected = 0;
  total_connections = 0;
  total_disconnections = 0;
  ws_messages_received = 0;
  ws_messages_sent = 0;
}

abbrev pub new : Metrics
new = record {
  connected = 0;
  total_connections = 0;
  total_disconnections = 0;
  ws_messages_received = 0;
  ws_messages_sent = 0;
  ws_bytes_received = 0;
  ws_bytes_sent = 0;
  http_calls = 0;
  http_bytes_received = 0;
  http_bytes_sent = 0;
  per_app = [];
}

-- `if let Some(app) = self.per_app.get(app_id)`
unfoldable pub on_app : Str → (AppMetrics → AppMetrics) → Assoc AppMetrics → Assoc AppMetrics
on_app app_id f per_app = elim (Assoc.lookup app_id per_app) [
  | none ↦ per_app
  | some app ↦ Assoc.insert app_id (f app) per_app
]

-- `entry(app_id).or_insert_with(AppMetrics::new)`
unfoldable pub app_or_new : Str → Assoc AppMetrics → AppMetrics
app_or_new app_id per_app = elim (Assoc.lookup app_id per_app) [ none ↦ new_app | some app ↦ app ]

abbrev pub app_connects : AppMetrics → AppMetrics
app_connects app = record app {
  connected = fetch_add app.connected 1;
  total_connections = fetch_add app.total_connections 1;
}

abbrev pub app_disconnects : AppMetrics → AppMetrics
app_disconnects app = record app {
  connected = fetch_sub app.connected;
  total_disconnections = fetch_add app.total_disconnections 1;
}

unfoldable pub on_connect : Str → Metrics → Metrics
on_connect app_id m = record m {
  connected = fetch_add m.connected 1;
  total_connections = fetch_add m.total_connections 1;
  per_app = Assoc.insert app_id (app_connects (app_or_new app_id m.per_app)) m.per_app;
}

unfoldable pub on_disconnect : Str → Metrics → Metrics
on_disconnect app_id m = record m {
  connected = fetch_sub m.connected;
  total_disconnections = fetch_add m.total_disconnections 1;
  per_app = on_app app_id app_disconnects m.per_app;
}

unfoldable pub on_ws_message_received : Str → ℕ → Metrics → Metrics
on_ws_message_received app_id size m = record m {
  ws_messages_received = fetch_add m.ws_messages_received 1;
  ws_bytes_received = fetch_add m.ws_bytes_received size;
  per_app =
      on_app app_id
        (λ (a : AppMetrics). record a { ws_messages_received = fetch_add a.ws_messages_received 1 })
        m.per_app;
}

unfoldable pub on_ws_message_sent : Str → ℕ → Metrics → Metrics
on_ws_message_sent app_id size m = record m {
  ws_messages_sent = fetch_add m.ws_messages_sent 1;
  ws_bytes_sent = fetch_add m.ws_bytes_sent size;
  per_app =
      on_app app_id
        (λ (a : AppMetrics). record a { ws_messages_sent = fetch_add a.ws_messages_sent 1 })
        m.per_app;
}

unfoldable pub on_http_call : ℕ → ℕ → Metrics → Metrics
on_http_call bytes_in bytes_out m = record m {
  http_calls = fetch_add m.http_calls 1;
  http_bytes_received = fetch_add m.http_bytes_received bytes_in;
  http_bytes_sent = fetch_add m.http_bytes_sent bytes_out;
}

-- The bits of the app's i64, 0 for an app without connections so far.
unfoldable pub get_connected_for_app : Str → Metrics → ℕ
get_connected_for_app app_id m = (app_or_new app_id m.per_app).connected
