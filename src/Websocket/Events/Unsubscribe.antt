-- ===== src/Websocket/Events/Unsubscribe.antt =====
-- src/websocket/events/unsubscribe.rs
use rushsocket.Base.{Str, bytes, not, none, some, if◌then◌else◌}
use rushsocket.Externals.{Externals, ClientMessage}
use rushsocket.Protocol.Channels.{from_name, is_presence}
use rushsocket.Protocol.Messages.{member_removed}
use rushsocket.Websocket.Connection.{
  WsConnection, is_subscribed, remove_channel, remove_presence, get_presence,
}
use rushsocket.Websocket.Events.Payload.{extract_data, text_field}
use rushsocket.Adapter.Local
use rushsocket.State.{AppState, at, on_conn, hook, hook_if, send_subscription_count, broadcast}
use rushsocket.Webhook

module _ (ext : Externals) where
  -- The member leaves the adapter, and the others are told if the user is gone. `on_close` of
  -- src/websocket/lifecycle.rs does the same.
  unfoldable pub leave_presence : WsConnection → Str → Str → AppState → AppState
  leave_presence conn channel user_id st =
      let app_id = conn.app.id in
      let (adapter, user_gone) =
        Local.remove_presence_member app_id channel conn.socket_id user_id st.adapter in
      let st1 = record st { adapter = adapter } in
      if user_gone
      then hook app_id (Webhook.member_removed channel user_id)
          (broadcast ext app_id channel (member_removed ext channel user_id) conn.socket_id st1)
      else st1

  unfoldable pub remove_member : WsConnection → Str → AppState → AppState
  remove_member conn channel st = elim (get_presence channel (at conn st)) [
    | none ↦ on_conn conn (λ c. (remove_presence channel c).0) st
    | some (user_id, _) ↦
        leave_presence conn channel user_id (on_conn conn (λ c. (remove_presence channel c).0) st)
  ]

-- The socket leaves the channel in the adapter, and the webhook is told if nobody is left.
unfoldable pub leave_channel : WsConnection → Str → AppState → AppState
leave_channel conn channel st =
    let app_id = conn.app.id in
    let (adapter, vacated) = Local.remove_from_channel app_id conn.socket_id channel st.adapter in
    let st1 = record st { adapter = adapter } in
    let st2 =
      hook_if (Local.is_channel_globally_vacated app_id channel vacated adapter) app_id
        (Webhook.channel_vacated channel) st1 in
    send_subscription_count app_id channel conn.app.enable_subscription_count_webhook st2

module _ (ext : Externals) where
  unfoldable pub handle : WsConnection → ClientMessage → AppState → AppState
  handle conn msg st = elim (extract_data ext msg) [
    | none ↦ st
    | some obj ↦ elim (text_field (bytes "channel") obj) [
      | none ↦ st
      | some channel ↦
          if not (is_subscribed channel (at conn st))
          then st
          else let st1 =
              if is_presence (from_name channel) then remove_member ext conn channel st else st in
            leave_channel conn channel (on_conn conn (remove_channel channel) st1)
    ]
  ]
