-- ===== src/State.antt =====
-- src/state.rs: what the handlers share, with one node's adapter and the cache in memory. The heap
-- holds the changing parts of the connections, and `now` is the clock that the calls read.
pub mod Frames
pub mod Listed
use rushsocket.Base.{some, Str, Bool, true, not, ◌&&◌, ℕ, if◌then◌else◌}
use rushsocket.Externals.{Externals}
use rushsocket.Protocol.Messages.{ServerMessage, to_json}
use rushsocket.Protocol.Channels.{from_name, is_presence}
use rushsocket.Websocket.Connection.{WsConnection, ConnState, Heap, write, send, send_raw}
use rushsocket.Adapter.Local
use rushsocket.Adapter.Local.{LocalAdapter}
use rushsocket.Cache
use rushsocket.RateLimit.{LocalRateLimiter}
use rushsocket.Webhook.{Webhooks, WebhookEvent, notify, subscription_count}

pub record AppState : Type 0 where
  pub adapter : LocalAdapter
  pub heap : Heap
  pub rate_limiter : LocalRateLimiter
  pub cache : Cache.Store
  pub webhooks : Webhooks
  pub closing : Bool
  pub cache_ttl : ℕ
  pub now : ℕ

abbrev pub is_closing : AppState → Bool
is_closing st = st.closing

abbrev pub set_closing : AppState → AppState
set_closing st = record st { closing = true }

-- The adapter on one node is always ready.
unfoldable pub is_ready : AppState → Bool
is_ready st = true && not (is_closing st)

-- The changing part of a connection.
abbrev pub at : WsConnection → AppState → ConnState
at conn st = st.heap conn.address

-- A method of the connection that changes it.
unfoldable pub on_conn : WsConnection → (ConnState → ConnState) → AppState → AppState
on_conn conn f st = record st { heap = write conn.address (f (at conn st)) st.heap }

unfoldable pub hook : Str → WebhookEvent → AppState → AppState
hook app_id event st = record st { webhooks = notify app_id event st.webhooks }

-- A webhook that is sent under a condition.
abbrev pub hook_if : Bool → Str → WebhookEvent → AppState → AppState
hook_if b app_id event st = if b then hook app_id event st else st

-- `webhook::send_subscription_count`
unfoldable pub send_subscription_count : Str → Str → Bool → AppState → AppState
send_subscription_count app_id channel enabled st =
    if not enabled
    then st
    else if is_presence (from_name channel)
    then st
    else hook app_id
        (subscription_count channel (Local.get_channel_socket_count app_id channel st.adapter)) st

module _ (ext : Externals) where
  -- `conn.send(&msg)`, its result unused
  unfoldable pub tell : WsConnection → ServerMessage → AppState → AppState
  tell conn msg st = on_conn conn (λ c. (send ext msg c).0) st

  -- `conn.send_raw(json)`, its result unused
  unfoldable pub tell_raw : WsConnection → Str → AppState → AppState
  tell_raw conn json st = on_conn conn (λ c. (send_raw ext json c).0) st

  unfoldable pub broadcast : Str → Str → ServerMessage → Str → AppState → AppState
  broadcast app_id channel msg excepting st = record st {
    heap =
        Local.send_to_channel ext app_id channel (to_json ext msg) (some excepting) st.adapter
          st.heap;
  }
