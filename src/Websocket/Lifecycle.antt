-- ===== src/Websocket/Lifecycle.antt =====
-- src/websocket/lifecycle.rs: a message of the client goes to its handler, and a connection that has
-- ended is taken out of everything that names it. `none` is a panic of the rate limiter.
pub mod Messages
pub mod Grants
pub mod Close
use rushsocket.Base.{
  Str, bytes, str_eq, starts_with, ◌++◌, Option, none, some, List, [], ◌∷◌, if◌then◌else◌,
}
use rushsocket.Externals.{Externals, ClientMessage}
use rushsocket.Protocol.Channels.{from_name, is_presence}
use rushsocket.Protocol.Messages.{error, pong_json}
use rushsocket.Websocket.Connection.{WsConnection, UserInfo, get_channels, get_presence}
use rushsocket.Websocket.Events.Subscribe
use rushsocket.Websocket.Events.Unsubscribe
use rushsocket.Websocket.Events.Unsubscribe.{leave_presence, leave_channel}
use rushsocket.Websocket.Events.ClientEvents
use rushsocket.Websocket.Events.Signin
use rushsocket.Adapter.Local
use rushsocket.RateLimit
use rushsocket.State.{AppState, at, tell, tell_raw}

module _ (ext : Externals) where
  -- `events::ping_pong::handle`
  unfoldable pub pong : WsConnection → AppState → AppState
  pong conn st = tell_raw ext conn pong_json st

  unfoldable pub dispatch : WsConnection → ClientMessage → AppState → Option AppState
  dispatch conn msg st =
      if str_eq msg.event (bytes "pusher:ping")
      then some (pong conn st)
      else if str_eq msg.event (bytes "pusher:subscribe")
      then some (Subscribe.handle ext conn msg st)
      else if str_eq msg.event (bytes "pusher:unsubscribe")
      then some (Unsubscribe.handle ext conn msg st)
      else if str_eq msg.event (bytes "pusher:signin")
      then some (Signin.handle ext conn msg st)
      else if starts_with msg.event (bytes "client-")
      then ClientEvents.handle ext conn msg st
      else some (tell ext conn (error ext (bytes "Unknown event: " ++ msg.event) 4009) st)

  unfoldable pub on_message : WsConnection → Str → AppState → Option AppState
  on_message conn text st = elim (ext.parse_message text) [
    | none ↦ some (tell ext conn (error ext (bytes "Invalid JSON") 4009) st)
    | some msg ↦ dispatch conn msg st
  ]

  -- One round of the loop of `on_close`.
  unfoldable pub close_channel : WsConnection → Str → AppState → AppState
  close_channel conn channel st =
      let st1 : AppState =
        if is_presence (from_name channel)
        then elim (get_presence channel (at conn st)) [
          | none ↦ st
          | some (user_id, _) ↦ leave_presence ext conn channel user_id st
        ]
        else st in
      leave_channel conn channel st1

  unfoldable pub close_channels : WsConnection → List Str → AppState → AppState
  close_channels conn [] st = st
  close_channels conn (channel ∷ rest) st = close_channels conn rest (close_channel conn channel st)

  unfoldable pub drop_user : WsConnection → Option UserInfo → AppState → AppState
  drop_user conn none st = st
  drop_user conn (some u) st = record st {
    adapter = Local.remove_user conn.app.id u.id conn.socket_id st.adapter;
  }

  unfoldable pub on_close : WsConnection → AppState → AppState
  on_close conn st =
      let st1 = close_channels conn (get_channels (at conn st)) st in
      let st2 = drop_user conn (at conn st1).user st1 in
      record st2 {
        adapter = (Local.remove_socket conn.app.id conn.socket_id st2.adapter).0;
        rate_limiter = RateLimit.remove_socket conn.socket_id st2.rate_limiter;
      }
