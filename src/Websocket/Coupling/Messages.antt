-- ===== src/Websocket/Coupling/Messages.antt =====
-- The change of any message (`on_message` of src/websocket/lifecycle.rs).
use mathlib.Core.Option.{some-injective}
use rushsocket.Base.{
  Str, bytes, str_eq, starts_with, ◌++◌, ℕ, ◌≡◌, some, refl, ◌∙◌, ap, arith, Bool-cases,
  Option-cases, inl, inr,
}
use rushsocket.Externals.{Externals, ClientMessage}
use rushsocket.Protocol.Channels.{from_name, is_presence}
use rushsocket.Protocol.Json.{Json}
use rushsocket.Protocol.Messages.{error}
use rushsocket.Websocket.Connection.{
  WsConnection, is_subscribed, remove_channel, remove_presence, get_presence,
}
use rushsocket.Websocket.Coupling.{same, left, Coupled, Coupled-same, Coupled-after_quiet, Moves}
use rushsocket.Websocket.Coupling.Subscribing.{subscribe-Moves}
use rushsocket.Websocket.Events.Payload.{extract_data, text_field}
use rushsocket.Websocket.Events.Unsubscribe
use rushsocket.Websocket.Events.Unsubscribe.{leave_presence, remove_member, leave_channel}
use rushsocket.Websocket.Events.Signin.Outcome.{signin_outcome}
use rushsocket.Websocket.Events.Signin
use rushsocket.Websocket.Events.Signin.{accept}
use rushsocket.Websocket.Events.ClientEvents
use rushsocket.Websocket.Events.ClientEvents.{forward}
use rushsocket.Websocket.Events.ClientEvents.Outcome.{handle_outcome}
use rushsocket.Websocket.Lifecycle.{dispatch, on_message, pong}
use rushsocket.Websocket.Lifecycle.Messages.{adapter-leave_presence, adapter-leave_channel}
use rushsocket.Adapter.Local
use rushsocket.Adapter.Local.Apps.{apply_local}
use rushsocket.Adapter.Namespace.Histories.{removes_member}
use rushsocket.Adapter.Effects.{in_channel, AllMirrored, apply_local-AllMirrored}
use rushsocket.Adapter.Effects.Channels.{
  in_channel-leaves, in_channel-removes_member, in_channel-adds_user,
}
use rushsocket.State.{AppState, at, on_conn, tell}
use rushsocket.RateLimit.{LocalRateLimiter}
use rushsocket.Websocket.Connection.{ConnState}
use rushsocket.Protocol.Messages.{ServerMessage}
use rushsocket.State.Frames.{adapter-on_conn, frames}
use rushsocket.State.Listed.{listed, listed-on_conn, listed-hook_if, listed_frames}

module _ (ext : Externals) (conn : WsConnection) where
  pub listed-leave_presence :
      (channel user_id : Str) (q : ℕ) (st : AppState)
      → listed q (leave_presence ext conn channel user_id st) ≡ listed q st
  unfolding leave_presence
  listed-leave_presence channel user_id q st =
      elim (Bool-cases
        (Local.remove_presence_member conn.app.id channel conn.socket_id user_id st.adapter).1) [
          | inl e ↦ rw (e, leave_presence) simp listed_frames
          | inr e ↦ rw (e, leave_presence) refl
        ]

  pub listed-leave_channel :
      (channel : Str) (q : ℕ) (st : AppState)
      → listed q (leave_channel conn channel st) ≡ listed q st
  unfolding leave_channel
  listed-leave_channel channel q st = simp (listed_frames, listed-hook_if)

  pub Coupled-leave_presence :
      (channel user_id : Str) (st : AppState)
      → Coupled conn same st (leave_presence ext conn channel user_id st)
  unfolding apply_local
  Coupled-leave_presence channel user_id st =
      Coupled-same conn st _ (λ q. listed-leave_presence channel user_id q st)
        (λ app_id s c.
          ap (in_channel app_id s c) (adapter-leave_presence ext conn channel user_id st)
          ∙ in_channel-removes_member conn.app.id channel conn.socket_id user_id st.adapter app_id s
              c)

  -- The channel goes off the connection's list and out of the adapter.
  Coupled-leave :
      (channel : Str) (st : AppState)
      → AllMirrored st.adapter
      → Coupled conn
          (left channel)
          st
          (leave_channel conn channel (on_conn conn (remove_channel channel) st))
  unfolding apply_local
  Coupled-leave channel st v = record {
    lists = λ q.
        listed-leave_channel channel q (on_conn conn (remove_channel channel) st)
        ∙ listed-on_conn conn (remove_channel channel) q st
        ∙ ground arith;
    channels = λ app_id s c.
        ap (in_channel app_id s c) (
          adapter-leave_channel ext conn channel (on_conn conn (remove_channel channel) st)
          ∙ simp frames)
        ∙ in_channel-leaves conn.app.id conn.socket_id channel st.adapter app_id s c v;
  }

  -- A method of the connection that leaves its list alone.
  pub Coupled-on_conn :
      (f : ConnState → ConnState) (st : AppState)
      → (f (at conn st)).subscribed_channels ≡ listed conn.address st
      → Coupled conn same st (on_conn conn f st)
  Coupled-on_conn f st h =
      Coupled-same conn st _ (λ q. ground (arith, listed-on_conn conn f q st, h))
        (λ app_id s c. simp frames)

  Coupled-remove_member :
      (channel : Str) (st : AppState) → Coupled conn same st (remove_member ext conn channel st)
  unfolding remove_member
  Coupled-remove_member channel st = elim (Option-cases (get_presence channel (at conn st))) [
    | inl e ↦ rw (e, remove_member) (Coupled-on_conn (λ c. (remove_presence channel c).0) st refl)
    | inr (m, e) ↦
        rw (e, remove_member)
          (Coupled-after_quiet conn same st _ _
            (Coupled-on_conn (λ c. (remove_presence channel c).0) st refl)
            (Coupled-leave_presence channel m.0 _))
  ]

  AllMirrored-remove_member :
      (channel : Str) (st : AppState)
      → AllMirrored st.adapter
      → AllMirrored (remove_member ext conn channel st).adapter
  unfolding remove_member apply_local
  AllMirrored-remove_member channel st v = elim (Option-cases (get_presence channel (at conn st))) [
    | inl e ↦ rw (e, remove_member, adapter-on_conn) v
    | inr (m, e) ↦
        rw (e, remove_member, adapter-leave_presence, adapter-on_conn)
          (apply_local-AllMirrored conn (λ c. ⊥) (removes_member channel conn.socket_id m.0)
            st.adapter v)
  ]

  unsubscribe-Moves :
      (msg : ClientMessage) (st : AppState)
      → AllMirrored st.adapter
      → Moves conn st (Unsubscribe.handle ext conn msg st)
  unfolding Unsubscribe.handle
  unsubscribe-Moves msg st v = elim (Option-cases (extract_data ext msg)) [
    | inl e ↦ rw (e, Unsubscribe.handle) still
    | inr (obj, e) ↦ elim (Option-cases (text_field (bytes "channel") obj)) [
      | inl f ↦ rw (e, f, Unsubscribe.handle) still
      | inr (c, f) ↦ elim (Bool-cases (is_subscribed c (at conn st))) [
        | inr g ↦ rw (e, f, g, Unsubscribe.handle) still
        | inl g ↦ elim (Bool-cases (is_presence (from_name c))) [
          | inr h ↦ rw (e, f, g, h, Unsubscribe.handle) (left c, Coupled-leave c st v)
          | inl h ↦
              rw (e, f, g, h, Unsubscribe.handle)
                (
                  left c,
                  Coupled-after_quiet conn (left c) st (remove_member ext conn c st) _
                      (Coupled-remove_member c st)
                      (Coupled-leave c (remove_member ext conn c st)
                        (AllMirrored-remove_member c st v)),
                )
        ]
      ]
    ]
  ]
    where
      still : Moves conn st st
      still = (same, Coupled-same conn st st (λ q. refl) (λ app_id s d. refl))

  pub Coupled-tell :
      (msg : ServerMessage) (st : AppState) → Coupled conn same st (tell ext conn msg st)
  Coupled-tell msg st = Coupled-same conn st _ (λ q. simp listed_frames) (λ app_id s c. simp frames)

  Coupled-accept :
      (user_id : Str) (user_data : Json) (text : Str) (st : AppState)
      → Coupled conn same st (accept ext conn user_id user_data text st)
  unfolding accept apply_local
  Coupled-accept user_id user_data text st =
      Coupled-same conn st _ (λ q. simp (listed_frames, listed-on_conn) (ground arith))
        (λ app_id s c.
          simp frames
            (in_channel-adds_user conn.app.id user_id conn.socket_id st.adapter app_id s c))

  Coupled-forward :
      (msg : ClientMessage) (channel : Str) (limiter : LocalRateLimiter) (st : AppState)
      → Coupled conn same st (forward ext conn msg channel (record st { rate_limiter = limiter }))
  unfolding forward
  Coupled-forward msg channel limiter st =
      Coupled-same conn st _ (λ q. simp listed_frames) (λ app_id s c. simp frames)

  signin-Moves :
      (msg : ClientMessage) (st : AppState) → Moves conn st (Signin.handle ext conn msg st)
  signin-Moves msg st = elim (signin_outcome ext conn msg st) [
    | inl (user_id, user_data, text, ok, e) ↦ rw e (same, Coupled-accept user_id user_data text st)
    | inr (reason, e) ↦ rw e (same, Coupled-tell _ st)
  ]

  client-Moves :
      (msg : ClientMessage) (st st' : AppState)
      → ClientEvents.handle ext conn msg st ≡ some st'
      → Moves conn st st'
  client-Moves msg st st' h = elim (handle_outcome ext conn msg st st' h) [
    | inl (c, limiter, ok, e) ↦ rw e (same, Coupled-forward msg c limiter st)
    | inr (reason, code, limiter, e) ↦
        rw e (same, Coupled-same conn st _ (λ q. simp listed_frames) (λ app_id s d. simp frames))
  ]

  Moves-some : (st st1 st' : AppState) → some st1 ≡ some st' → Moves conn st st1 → Moves conn st st'
  Moves-some st st1 st' h k = rw (← some-injective st1 st' h) k

  dispatch-Moves :
      (msg : ClientMessage) (st st' : AppState)
      → AllMirrored st.adapter
      → dispatch ext conn msg st ≡ some st'
      → Moves conn st st'
  unfolding dispatch pong
  dispatch-Moves msg st st' v h = elim (Bool-cases (str_eq msg.event (bytes "pusher:ping"))) [
    | inl e ↦
        Moves-some st (pong ext conn st) st' (rw (e, dispatch) at h)
          (same, Coupled-same conn st _ (λ q. simp listed_frames) (λ app_id s d. simp frames))
    | inr e ↦ elim (Bool-cases (str_eq msg.event (bytes "pusher:subscribe"))) [
      | inl f ↦ Moves-some st _ st' (rw (e, f, dispatch) at h) (subscribe-Moves ext conn msg st v)
      | inr f ↦ elim (Bool-cases (str_eq msg.event (bytes "pusher:unsubscribe"))) [
        | inl g ↦ Moves-some st _ st' (rw (e, f, g, dispatch) at h) (unsubscribe-Moves msg st v)
        | inr g ↦ elim (Bool-cases (str_eq msg.event (bytes "pusher:signin"))) [
          | inl k ↦ Moves-some st _ st' (rw (e, f, g, k, dispatch) at h) (signin-Moves msg st)
          | inr k ↦ elim (Bool-cases (starts_with msg.event (bytes "client-"))) [
            | inl l ↦ client-Moves msg st st' (rw (e, f, g, k, l, dispatch) at h)
            | inr l ↦
                Moves-some st _ st' (rw (e, f, g, k, l, dispatch) at h)
                  (same, Coupled-tell (error ext (bytes "Unknown event: " ++ msg.event) 4009) st)
          ]
        ]
      ]
    ]
  ]

  -- A message changes the connection's own list and its subscriptions in the adapter in the same
  -- way, by at most one channel, and nothing else of either.
  pub on_message-Moves :
      (text : Str) (st st' : AppState)
      → AllMirrored st.adapter
      → on_message ext conn text st ≡ some st'
      → Moves conn st st'
  unfolding on_message
  on_message-Moves text st st' v h = elim (Option-cases (ext.parse_message text)) [
    | inl e ↦
        Moves-some st _ st' (rw (e, on_message) at h)
          (same, Coupled-tell (error ext (bytes "Invalid JSON") 4009) st)
    | inr (msg, e) ↦ dispatch-Moves msg st st' v (rw (e, on_message) at h)
  ]
