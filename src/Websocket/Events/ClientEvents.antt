-- ===== src/Websocket/Events/ClientEvents.antt =====
-- src/websocket/events/client_event.rs; `none` is a panic of the rate limiter.
pub mod Outcome
use rushsocket.Base.{
  Str, bytes, str_eq, starts_with, Bool, not, ◌&&◌, ◌||◌, Option, none, some, ℕ, ◌*◌, length, ltb,
  if◌then◌else◌, is_some, ◌>>=◌,
}
use rushsocket.Externals.{Externals, ClientMessage}
use rushsocket.Protocol.Channels.{from_name, is_presence}
use rushsocket.Protocol.Messages.{error, channel_event}
use rushsocket.Websocket.Connection.{WsConnection, is_subscribed, get_presence}
use rushsocket.Websocket.Events.Payload.{estimate_json_size}
use rushsocket.RateLimit.{check_client_event}
use rushsocket.State.{AppState, at, hook, tell, broadcast}
use rushsocket.Webhook

module _ (ext : Externals) where
  abbrev pub refuse : WsConnection → Str → ℕ → AppState → AppState
  refuse conn reason code st = tell ext conn (error ext reason code) st

  -- The webhook first, then the other subscribers.
  unfoldable pub forward : WsConnection → ClientMessage → Str → AppState → AppState
  forward conn msg channel st =
      let user_id : Option Str = elim (get_presence channel (at conn st)) [
        | none ↦ none
        | some (uid, _) ↦ some uid
      ] in
      broadcast ext conn.app.id channel (channel_event msg.event channel msg.payload user_id)
        conn.socket_id
        (hook conn.app.id
          (Webhook.client_event ext channel msg.event msg.payload conn.socket_id user_id) st)

  -- The checks behind the rate limiter.
  unfoldable pub check_event : WsConnection → ClientMessage → Str → AppState → AppState
  check_event conn msg channel st =
      if not (starts_with msg.event (bytes "client-"))
      then refuse conn (bytes "Client event must start with 'client-'") 4009 st
      else if ltb conn.app.max_event_name_length (length msg.event)
      then refuse conn (bytes "Event name too long") 4009 st
      else if ltb (conn.app.max_event_payload_in_kb * 1024) (estimate_json_size msg.payload)
      then refuse conn (bytes "Event payload too large") 4009 st
      else forward conn msg channel st

  unfoldable pub limit_rate : WsConnection → ClientMessage → Str → AppState → Option AppState
  limit_rate conn msg channel st = do
    answer ←
        check_client_event ext st.rate_limiter conn.socket_id conn.app.max_client_events_per_sec
          st.now
    let st1 = record st { rate_limiter = answer.1 }
    some (
        if not answer.0
        then refuse conn (bytes "Rate limit exceeded") 4301 st1
        else check_event conn msg channel st1)

  -- "members" mode asks for membership in a presence channel.
  unfoldable pub is_barred : WsConnection → Str → AppState → Bool
  is_barred conn channel st =
      str_eq conn.app.client_event_mode (bytes "members")
      && (not (is_presence (from_name channel))
          || not (is_some (get_presence channel (at conn st))))

  unfoldable pub handle : WsConnection → ClientMessage → AppState → Option AppState
  handle conn msg st =
      if str_eq conn.app.client_event_mode (bytes "none")
      then some (refuse conn (bytes "Client events are not enabled for this app") 4301 st)
      else elim msg.channel [
        | none ↦ some (refuse conn (bytes "No channel provided") 4009 st)
        | some channel ↦
            let limited = limit_rate conn msg channel st in
            if not (is_subscribed channel (at conn st))
            then some (refuse conn (bytes "Not subscribed to channel") 4009 st)
            else if is_barred conn channel st
            then some
                (refuse conn (bytes "Client events require presence channel membership") 4301 st)
            else limited
      ]
