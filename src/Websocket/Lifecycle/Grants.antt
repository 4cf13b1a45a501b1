-- ===== src/Websocket/Lifecycle/Grants.antt =====
-- How a socket comes into a channel (`on_message` and `dispatch` of src/websocket/lifecycle.rs).
use rushsocket.Protocol.Messages.{pong_json}
use rushsocket.State.Frames.{adapter-tell, adapter-tell_raw}
use rushsocket.State.{on_conn, AppState, tell}
use rushsocket.Base.{
  Str, bytes, Bool-cases, Option-cases, true, inl, inr, arith, some, ◌≡◌, str_eq, str_eq_iff,
  starts_with, ◌⊎◌,
}
use mathlib.Core.Option.{some-injective}
use rushsocket.Base.{◌++◌}
use rushsocket.Protocol.Messages.{error}
use rushsocket.Externals.{Externals, ClientMessage}
use rushsocket.Websocket.Connection.{WsConnection}
use rushsocket.Websocket.Lifecycle.{dispatch, on_message, pong}
use rushsocket.Websocket.Lifecycle.Messages.{
  unsubscribe-Effects, signin-Effects, adapter-client_event,
}
use rushsocket.Websocket.Events.Subscribe.Reach
use rushsocket.Websocket.Events.Subscribe.Authorised.{Authorised}
use rushsocket.Adapter.Effects.Others.{Others, Effects-kept}
use rushsocket.Adapter.Effects.Joined.{Effects-joined}
use rushsocket.Adapter.Effects.{Effects, Effects-same, Effects-AllMirrored, AllMirrored, in_channel}

module _ (ext : Externals) (conn : WsConnection) where
  -- The message asks for the channel with all that the channel needs.
  abbrev pub Grants : ClientMessage → Str → Type 0
  Grants msg c = (msg.event ≡ bytes "pusher:subscribe") × Authorised ext conn msg c

  -- The text is such a message.
  abbrev pub TextGrants : Str → Str → Type 0
  TextGrants text c = (msg : ClientMessage) × (ext.parse_message text ≡ some msg) × Grants msg c

  Effects-some :
      (MayJoin : Str → Type 0) (st st1 st' : AppState)
      → some st1 ≡ some st'
      → Effects conn MayJoin st.adapter st1.adapter
      → Effects conn MayJoin st.adapter st'.adapter
  Effects-some MayJoin st st1 st' h e = rw (← some-injective st1 st' h) e

  dispatch-Effects :
      (MayJoin : Str → Type 0) (msg : ClientMessage) (st st' : AppState)
      → ((c : Str) → Grants msg c → MayJoin c)
      → dispatch ext conn msg st ≡ some st'
      → Effects conn MayJoin st.adapter st'.adapter
  unfolding dispatch pong
  dispatch-Effects MayJoin msg st st' may h =
      elim (Bool-cases (str_eq msg.event (bytes "pusher:ping"))) [
        | inl e ↦
            Effects-some MayJoin st _ st' (rw (e, dispatch) at h)
              (same (pong ext conn st) (adapter-tell_raw ext conn pong_json st))
        | inr e ↦ elim (Bool-cases (str_eq msg.event (bytes "pusher:subscribe"))) [
          | inl f ↦ Effects-some MayJoin st _ st' (rw (e, f, dispatch) at h) (
              Reach.handle-Effects ext conn MayJoin msg st
                (λ c a. may c ((str_eq_iff msg.event (bytes "pusher:subscribe")).0 f, a)))
          | inr f ↦ elim (Bool-cases (str_eq msg.event (bytes "pusher:unsubscribe"))) [
            | inl g ↦
                Effects-some MayJoin st _ st' (rw (e, f, g, dispatch) at h)
                  (unsubscribe-Effects ext conn MayJoin msg st)
            | inr g ↦ elim (Bool-cases (str_eq msg.event (bytes "pusher:signin"))) [
              | inl k ↦
                  Effects-some MayJoin st _ st' (rw (e, f, g, k, dispatch) at h)
                    (signin-Effects ext conn MayJoin msg st)
              | inr k ↦ elim (Bool-cases (starts_with msg.event (bytes "client-"))) [
                | inl l ↦
                    same st'
                      (adapter-client_event ext conn msg st st' (rw (e, f, g, k, l, dispatch) at h))
                | inr l ↦ Effects-some MayJoin st _ st' (rw (e, f, g, k, l, dispatch) at h) (
                    same (tell ext conn (error ext (bytes "Unknown event: " ++ msg.event) 4009) st)
                      (adapter-tell ext conn _ st))
              ]
            ]
          ]
        ]
      ]
    where
      same :
          (st1 : AppState) → st1.adapter ≡ st.adapter → Effects conn MayJoin st.adapter st1.adapter
      same st1 e = Effects-same conn MayJoin st.adapter st1.adapter e

  pub on_message-Effects :
      (text : Str) (st st' : AppState)
      → on_message ext conn text st ≡ some st'
      → Effects conn (TextGrants text) st.adapter st'.adapter
  unfolding on_message tell on_conn
  on_message-Effects text st st' h = elim (Option-cases (ext.parse_message text)) [
    | inl e ↦ Effects-same conn _ _ _ (ground (arith, e))
    | inr (msg, e) ↦
        dispatch-Effects (TextGrants text) msg st st' (λ c g. (msg, e, g)) (ground (arith, e))
  ]

  -- If the two indexes of every app agree: after a message that does not panic, a socket that is in a channel of an app was in it before,
  -- or it is the client's own socket, in its own app, and the message is a subscribe message for
  -- this channel with a valid name and, if the channel needs one, a verified token.
  pub on_message_grants :
      (text : Str) (st st' : AppState) (app_id socket_id channel : Str)
      → AllMirrored st.adapter
      → on_message ext conn text st ≡ some st'
      → in_channel app_id socket_id channel st'.adapter ≡ true
      → (in_channel app_id socket_id channel st.adapter ≡ true)
        ⊎ ((app_id ≡ conn.app.id) × (socket_id ≡ conn.socket_id) × TextGrants text channel)
  on_message_grants text st st' app_id socket_id channel v h m =
      Effects-joined conn (TextGrants text) st.adapter st'.adapter app_id socket_id channel v
        (on_message-Effects text st st' h) m

  -- A message that does not panic keeps the two indexes of every app in step.
  pub on_message-AllMirrored :
      (text : Str) (st st' : AppState)
      → AllMirrored st.adapter
      → on_message ext conn text st ≡ some st'
      → AllMirrored st'.adapter
  on_message-AllMirrored text st st' v h =
      Effects-AllMirrored conn (TextGrants text) st.adapter st'.adapter
        (on_message-Effects text st st' h) v

  -- If the two indexes of every app agree: a message that does not panic leaves the subscriptions of
  -- all other sockets, and of all sockets in other apps, exactly as they were.
  pub on_message-Others :
      (text : Str) (st st' : AppState) (app_id socket_id channel : Str)
      → AllMirrored st.adapter
      → on_message ext conn text st ≡ some st'
      → Others conn app_id socket_id
      → in_channel app_id socket_id channel st'.adapter
        ≡ in_channel app_id socket_id channel st.adapter
  on_message-Others text st st' app_id socket_id channel v h o =
      Effects-kept conn (TextGrants text) st.adapter st'.adapter app_id socket_id channel v
        (on_message-Effects text st st' h) o
