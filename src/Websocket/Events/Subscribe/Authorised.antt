-- ===== src/Websocket/Events/Subscribe/Authorised.antt =====
-- What `handle` of src/websocket/events/subscribe.rs may do to the adapter.
use rushsocket.Base.{
  get_or, Str, bytes, Bool, true, false, not, ◌*◌, Option, none, some, ◌≤◌, length, ltb, ◌≡◌, refl,
  Bool-cases, Option-cases, inl, inr, if◌then◌else◌, ◌>>=◌,
}
use rushsocket.Base.Assoc.{Assoc}
use rushsocket.Auth.{verify_channel_auth}
use rushsocket.Externals.{Externals, ClientMessage}
use rushsocket.Protocol.Channels.{
  ChannelKind, from_name, requires_auth, is_presence, is_valid_channel_name,
}
use rushsocket.Protocol.Json.{get, end, object, Json, Fields}
use rushsocket.Websocket.Connection.{WsConnection}
use rushsocket.Websocket.Events.Payload.{extract_data, text_field}
use rushsocket.Websocket.Events.Subscribe.{
  id_text, refuse, join_channel, join_presence, admit_member, subscribe_private, subscribe_presence,
  replay_cache, replay_if, cache_key,
}
use rushsocket.Cache
use rushsocket.Adapter.Effects.{Effects, Effects-same, Effects-one, Effects-then}
use rushsocket.Adapter.Local
use rushsocket.Adapter.Local.Apps.{apply_local}
use rushsocket.Adapter.Namespace.Histories.{joins, tries_member}
use rushsocket.State.{AppState}
use rushsocket.State.Frames.{adapter-hook_if, frames}

-- The message has a token for the channel, made with the secret of the app for this socket, and for
-- a presence channel also for the member's data that the message has.
pub record HasToken (ext : Externals) (conn : WsConnection) (obj : Fields) (c : Str) : Type 0 where
  pub auth_str : Str
  pub channel_data : Option Str
  pub given : text_field (bytes "auth") obj ≡ some auth_str
  pub data_given :
      channel_data
      ≡ (if is_presence (from_name c) then text_field (bytes "channel_data") obj else none)
  pub verified :
      verify_channel_auth ext.hex_hmac conn.app.key conn.app.secret conn.socket_id c channel_data
        auth_str
      ≡ true

-- The message asks for channel `c`, whose name is in order, with a token if the channel needs one.
pub record Authorised (ext : Externals) (conn : WsConnection) (msg : ClientMessage) (c : Str)
    : Type 0 where
  pub obj : Fields
  pub held : extract_data ext msg ≡ some obj
  pub named : text_field (bytes "channel") obj ≡ some c
  pub valid : is_valid_channel_name c ≡ true
  pub short : length c ≤ conn.app.max_channel_name_length
  pub token : requires_auth (from_name c) ≡ true → HasToken ext conn obj c

module _ (ext : Externals) where
  adapter-replay_if :
      (b : Bool) (conn : WsConnection) (channel : Str) (st : AppState)
      → (replay_if ext b conn channel st).adapter ≡ st.adapter
  unfolding replay_cache
  adapter-replay_if false conn channel st = refl
  adapter-replay_if true conn channel st = elim (Bool-cases (not conn.app.enable_cache_channels)) [
    | inl e ↦ rw e refl
    | inr e ↦ elim (Option-cases (Cache.get (cache_key ext conn channel) st.now st.cache)) [
      | inl f ↦ rw (e, f) simp frames
      | inr (t, f) ↦ rw (e, f) simp frames
    ]
  ]

  pub adapter-join_channel :
      (marks : Bool) (kind : ChannelKind) (conn : WsConnection) (channel : Str) (st : AppState)
      → (join_channel ext marks kind conn channel st).adapter
        ≡ (Local.add_to_channel conn.app.id conn.socket_id channel st.adapter).0
  unfolding join_channel
  adapter-join_channel true kind conn channel st = simp (adapter-replay_if, frames, adapter-hook_if)
  adapter-join_channel false kind conn channel st =
      simp (adapter-replay_if, frames, adapter-hook_if)

  pub adapter-join_presence :
      (kind : ChannelKind) (conn : WsConnection) (channel user_id : Str) (info : Json)
      (is_new : Bool) (members : Assoc Json) (st : AppState)
      → (join_presence ext kind conn channel user_id info is_new members st).adapter
        ≡ (Local.add_to_channel conn.app.id conn.socket_id channel st.adapter).0
  unfolding join_presence
  adapter-join_presence kind conn channel user_id info true members st =
      simp (adapter-replay_if, frames, adapter-hook_if)
  adapter-join_presence kind conn channel user_id info false members st =
      simp (adapter-replay_if, frames, adapter-hook_if)

  module _ (conn : WsConnection) (MayJoin : Str → Type 0) (obj : Fields) (channel : Str) where
    pub private-Effects :
        (kind : ChannelKind) (st : AppState)
        → ((auth_str : Str)
            → text_field (bytes "auth") obj ≡ some auth_str
            → verify_channel_auth ext.hex_hmac conn.app.key conn.app.secret conn.socket_id channel
                none auth_str
              ≡ true
            → MayJoin channel)
        → Effects conn MayJoin st.adapter (subscribe_private ext kind obj conn channel st).adapter
    unfolding subscribe_private apply_local
    private-Effects kind st may = elim (Option-cases (text_field (bytes "auth") obj)) [
      | inl e ↦ rw (e, subscribe_private) (Effects-same conn MayJoin st.adapter _ (simp frames))
      | inr (auth_str, e) ↦
          elim (Bool-cases (
            verify_channel_auth ext.hex_hmac conn.app.key conn.app.secret conn.socket_id channel
              none auth_str)) [
                | inl f ↦
                    rw (e, f, subscribe_private)
                      (Effects-one conn MayJoin (joins conn.socket_id channel) st.adapter _
                        (refl, may auth_str e f) (adapter-join_channel true kind conn channel st))
                | inr f ↦
                    rw (e, f, subscribe_private)
                      (Effects-same conn MayJoin st.adapter _ (simp frames))
              ]
    ]

    -- The two outcomes of the admission.
    outcome-Effects :
        (kind : ChannelKind) (user_id : Str) (user_info : Json)
        (outcome : Option (Bool × Assoc Json)) (st : AppState)
        → MayJoin channel
        → Effects conn MayJoin st.adapter
            (elim outcome as (λ _. AppState) [
              | none ↦ refuse ext conn (bytes "Over presence member limit") st
              | some (is_new_member, members) ↦
                  join_presence ext kind conn channel user_id user_info is_new_member members st
            ]).adapter
    unfolding apply_local
    outcome-Effects kind user_id user_info none st may =
        Effects-same conn MayJoin st.adapter _ (simp frames)
    outcome-Effects kind user_id user_info (some (is_new, members)) st may =
        Effects-one conn MayJoin (joins conn.socket_id channel) _ _ (refl, may)
          (adapter-join_presence kind conn channel user_id user_info is_new members st)

    admit_member-Effects :
        (kind : ChannelKind) (user_id : Str) (channel_data : Json) (st : AppState)
        → MayJoin channel
        → Effects conn MayJoin st.adapter
            (admit_member ext kind conn channel user_id channel_data st).adapter
    unfolding admit_member apply_local
    admit_member-Effects kind user_id channel_data st may =
        elim (Bool-cases (
          ltb (conn.app.max_presence_member_size_in_kb * 1024) (length (ext.print channel_data)))) [
            | inl e ↦ rw (e, admit_member) (Effects-same conn MayJoin st.adapter _ (simp frames))
            | inr e ↦
                rw (e, admit_member)
                  (Effects-then conn MayJoin
                    (tries_member channel conn.socket_id user_id
                      (get_or (get (bytes "user_info") channel_data) (object end))
                      conn.app.max_presence_members_per_channel)
                    st.adapter _ refl (outcome-Effects kind user_id _ _ _ may))
          ]

    pub presence-Effects :
        (kind : ChannelKind) (st : AppState)
        → ((auth_str channel_data : Str)
            → text_field (bytes "auth") obj ≡ some auth_str
            → text_field (bytes "channel_data") obj ≡ some channel_data
            → verify_channel_auth ext.hex_hmac conn.app.key conn.app.secret conn.socket_id channel
                (some channel_data)
                auth_str
              ≡ true
            → MayJoin channel)
        → Effects conn MayJoin st.adapter (subscribe_presence ext kind obj conn channel st).adapter
    unfolding subscribe_presence
    presence-Effects kind st may = elim (Option-cases (text_field (bytes "auth") obj)) [
      | inl e ↦ rw (e, subscribe_presence) (Effects-same conn MayJoin st.adapter _ (simp frames))
      | inr (token, e) ↦ elim (Option-cases (text_field (bytes "channel_data") obj)) [
        | inl f ↦
            rw (e, f, subscribe_presence) (Effects-same conn MayJoin st.adapter _ (simp frames))
        | inr (text, f) ↦
            elim (Bool-cases (
              verify_channel_auth ext.hex_hmac conn.app.key conn.app.secret conn.socket_id channel
                (some text) token)) [
                  | inr g ↦
                      rw (e, f, g, subscribe_presence)
                        (Effects-same conn MayJoin st.adapter _ (simp frames))
                  | inl g ↦
                      rw (e, f, g, subscribe_presence)
                        (parsed-Effects (ext.parse text) (may token text e f g))
                ]
      ]
    ]
      where
        parsed-Effects :
            (parsed : Option Json)
            → MayJoin channel
            → Effects conn MayJoin st.adapter
                (elim parsed as (λ _. AppState) [
                  | none ↦ refuse ext conn (bytes "Invalid channel_data JSON") st
                  | some channel_data ↦ elim (get (bytes "user_id") channel_data >>= id_text) [
                    | none ↦ refuse ext conn (bytes "channel_data must contain user_id") st
                    | some user_id ↦ admit_member ext kind conn channel user_id channel_data st
                  ]
                ]).adapter
        parsed-Effects none ok = Effects-same conn MayJoin st.adapter _ (simp frames)
        parsed-Effects (some v) ok = elim (Option-cases (get (bytes "user_id") v >>= id_text)) [
          | inl h ↦ rw h (Effects-same conn MayJoin st.adapter _ (simp frames))
          | inr (user_id, h) ↦ rw h (admit_member-Effects kind user_id v st ok)
        ]
