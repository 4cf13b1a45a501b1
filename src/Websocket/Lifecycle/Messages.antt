-- ===== src/Websocket/Lifecycle/Messages.antt =====
-- What a message of a client may do to the adapter (`on_message` of src/websocket/lifecycle.rs).
use rushsocket.RateLimit.{check_client_event}
use rushsocket.Websocket.Events.Subscribe.{id_text}
use rushsocket.Auth.{verify_signin_auth}
use rushsocket.Websocket.Events.Payload.{text_field, extract_data}
use rushsocket.State.Frames.{adapter-on_conn, adapter-hook_if, frames}
use rushsocket.Adapter.Local.Apps.{apply_local}
use rushsocket.State.{hook, broadcast, tell, at, on_conn, AppState}
use rushsocket.Websocket.Connection.{WsConnection}
use rushsocket.Base.{
  if◌then◌else◌, ◌∙◌, ◌>>=◌, ◌⊎◌, bytes, inr, Option-cases, inl, Bool-cases, some, ◌≡◌, Str, refl,
  not, arith,
}
use rushsocket.Externals.{Externals, ClientMessage}
use rushsocket.Websocket.Events.Unsubscribe
use rushsocket.Websocket.Events.Unsubscribe.{leave_presence, leave_channel, remove_member}
use rushsocket.Websocket.Events.Signin
use rushsocket.Websocket.Events.Signin.{verified, accept}
use rushsocket.Websocket.Events.ClientEvents
use rushsocket.Websocket.Events.ClientEvents.{forward, check_event, limit_rate}
use rushsocket.Adapter.Local
use rushsocket.Websocket.Connection.{WsConnection, is_subscribed, remove_channel, get_presence}
use rushsocket.Protocol.Channels.{from_name, is_presence}
use rushsocket.Protocol.Json.{get}
use rushsocket.Adapter.Effects.{Effects, Effects-same, Effects-one, Effects-then}
use rushsocket.Adapter.Namespace.Histories.{leaves, removes_member, adds_user}

module _ (ext : Externals) (conn : WsConnection) where
  pub adapter-leave_presence :
      (channel user_id : Str) (st : AppState)
      → (leave_presence ext conn channel user_id st).adapter
        ≡ (Local.remove_presence_member conn.app.id channel conn.socket_id user_id st.adapter).0
  unfolding leave_presence
  adapter-leave_presence channel user_id st =
      elim (Bool-cases
        (Local.remove_presence_member conn.app.id channel conn.socket_id user_id st.adapter).1) [
          | inl e ↦ rw (e, leave_presence) simp frames
          | inr e ↦ rw (e, leave_presence) refl
        ]

  pub adapter-leave_channel :
      (channel : Str) (st : AppState)
      → (leave_channel conn channel st).adapter
        ≡ (Local.remove_from_channel conn.app.id conn.socket_id channel st.adapter).0
  unfolding leave_channel
  adapter-leave_channel channel st = simp (frames, adapter-hook_if)

  module _ (MayJoin : Str → Type 0) where
    leave-Effects :
        (channel : Str) (st : AppState)
        → Effects conn MayJoin st.adapter (leave_channel conn channel st).adapter
    unfolding apply_local
    leave-Effects channel st =
        Effects-one conn MayJoin (leaves conn.socket_id channel) _ _ refl
          (adapter-leave_channel channel st)

    -- The adapter has not changed, or a member has left it.
    abbrev pub SameOrLeft : Str → AppState → AppState → Type 0
    SameOrLeft channel st mid =
        (mid.adapter ≡ st.adapter)
        ⊎ ((u : Str) × (mid.adapter
              ≡ (Local.remove_presence_member conn.app.id channel conn.socket_id u st.adapter).0))

    pub member_then-Effects :
        (channel : Str) (st mid : AppState)
        → SameOrLeft channel st mid
        → Effects conn MayJoin st.adapter (leave_channel conn channel mid).adapter
    unfolding apply_local
    member_then-Effects channel st mid (inl e) =
        Effects-one conn MayJoin (leaves conn.socket_id channel) _ _ refl
          (adapter-leave_channel channel mid ∙ rw e refl)
    member_then-Effects channel st mid (inr (u, e)) =
        Effects-then conn MayJoin (removes_member channel conn.socket_id u) _ _ refl (
          Effects-one conn MayJoin (leaves conn.socket_id channel) _ _ refl
            (adapter-leave_channel channel mid ∙ rw e refl))

    removed_member :
        (channel : Str) (st : AppState) → SameOrLeft channel st (remove_member ext conn channel st)
    unfolding remove_member
    removed_member channel st = elim (Option-cases (get_presence channel (at conn st))) [
      | inl e ↦ inl (rw (e, remove_member) simp frames)
      | inr (m, e) ↦
          inr (m.0, rw (e, remove_member) (adapter-leave_presence channel m.0 _ ∙ simp frames))
    ]

    pub unsubscribe-Effects :
        (msg : ClientMessage) (st : AppState)
        → Effects conn MayJoin st.adapter (Unsubscribe.handle ext conn msg st).adapter
    unfolding Unsubscribe.handle
    unsubscribe-Effects msg st = elim (Option-cases (extract_data ext msg)) [
      | inl e ↦ rw (e, Unsubscribe.handle) (Effects-same conn MayJoin st.adapter _ refl)
      | inr (obj, e) ↦ elim (Option-cases (text_field (bytes "channel") obj)) [
        | inl f ↦ rw (e, f, Unsubscribe.handle) (Effects-same conn MayJoin st.adapter _ refl)
        | inr (c, f) ↦ elim (Bool-cases (is_subscribed c (at conn st))) [
          | inr g ↦ rw (e, f, g, Unsubscribe.handle) (Effects-same conn MayJoin st.adapter _ refl)
          | inl g ↦ rw (e, f, g, Unsubscribe.handle) (member_then-Effects c st _ (seen c))
        ]
      ]
    ]
      where
        seen :
            (c : Str)
            → SameOrLeft c st (
                on_conn conn
                  (remove_channel c)
                  (if is_presence (from_name c) then remove_member ext conn c st else st))
        seen c = elim (Bool-cases (is_presence (from_name c))) [
          | inl e ↦ rw e elim (removed_member c st) [
            | inl f ↦ inl (adapter-on_conn conn (remove_channel c) _ ∙ f)
            | inr (u, f) ↦ inr (u, adapter-on_conn conn (remove_channel c) _ ∙ f)
          ]
          | inr e ↦ rw e (inl (adapter-on_conn conn (remove_channel c) st))
        ]

    verified-Effects :
        (user_data_str : Str) (st : AppState)
        → Effects conn MayJoin st.adapter (verified ext conn user_data_str st).adapter
    unfolding verified accept apply_local
    verified-Effects text st = elim (Option-cases (ext.parse text)) [
      | inl e ↦ rw (e, verified) (Effects-same conn MayJoin st.adapter _ (simp frames))
      | inr (v, e) ↦ elim (Option-cases (get (bytes "id") v >>= id_text)) [
        | inl f ↦ rw (e, f, verified) (Effects-same conn MayJoin st.adapter _ (simp frames))
        | inr (u, f) ↦
            rw (e, f, verified)
              (Effects-one conn MayJoin (adds_user u conn.socket_id) st.adapter _ refl
                (simp frames))
      ]
    ]

    pub signin-Effects :
        (msg : ClientMessage) (st : AppState)
        → Effects conn MayJoin st.adapter (Signin.handle ext conn msg st).adapter
    unfolding Signin.handle
    signin-Effects msg st = elim (Bool-cases (not conn.app.enable_user_authentication)) [
      | inl e ↦ rw (e, Signin.handle) (refused _)
      | inr e ↦ elim (Option-cases (extract_data ext msg)) [
        | inl f ↦ rw (e, f, Signin.handle) (refused _)
        | inr (obj, f) ↦ elim (Option-cases (text_field (bytes "auth") obj)) [
          | inl g ↦ rw (e, f, g, Signin.handle) (refused _)
          | inr (token, g) ↦ elim (Option-cases (text_field (bytes "user_data") obj)) [
            | inl h ↦ rw (e, f, g, h, Signin.handle) (refused _)
            | inr (text, h) ↦
                elim (Bool-cases (
                  verify_signin_auth ext.hex_hmac conn.app.key conn.app.secret conn.socket_id text
                    token)) [
                      | inl k ↦ rw (e, f, g, h, k, Signin.handle) (verified-Effects text st)
                      | inr k ↦ rw (e, f, g, h, k, Signin.handle) (refused _)
                    ]
          ]
        ]
      ]
    ]
      where
        refused :
            (reason : Str)
            → Effects conn MayJoin st.adapter (Signin.refuse ext conn reason st).adapter
        refused reason = Effects-same conn MayJoin st.adapter _ (simp frames)

adapter-check_event :
    (ext : Externals) (conn : WsConnection) (msg : ClientMessage) (channel : Str) (st : AppState)
    → (check_event ext conn msg channel st).adapter ≡ st.adapter
unfolding check_event forward tell broadcast hook on_conn
adapter-check_event ext conn msg channel st = ground arith

adapter-limit_rate :
    (ext : Externals) (conn : WsConnection) (msg : ClientMessage) (channel : Str)
    (st st' : AppState)
    → limit_rate ext conn msg channel st ≡ some st'
    → st'.adapter ≡ st.adapter
unfolding limit_rate tell on_conn
adapter-limit_rate ext conn msg channel st st' h =
    elim (Option-cases (
      check_client_event ext st.rate_limiter conn.socket_id conn.app.max_client_events_per_sec
        st.now)) [
          | inl e ↦ ground (arith, e)
          | inr (answer, e) ↦ ground (
            arith,
            e,
            adapter-check_event ext conn msg channel (record st { rate_limiter = answer.1 }),
          )
        ]

pub adapter-client_event :
    (ext : Externals) (conn : WsConnection) (msg : ClientMessage) (st st' : AppState)
    → ClientEvents.handle ext conn msg st ≡ some st'
    → st'.adapter ≡ st.adapter
unfolding ClientEvents.handle tell on_conn
adapter-client_event ext conn msg st st' h = elim (Option-cases msg.channel) [
  | inl e ↦ ground arith
  | inr (c, e) ↦ ground (arith, adapter-limit_rate ext conn msg c st st')
]
