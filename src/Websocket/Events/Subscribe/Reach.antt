-- ===== src/Websocket/Events/Subscribe/Reach.antt =====
-- What a subscribe message may do to the adapter (src/websocket/events/subscribe.rs).
use rushsocket.Adapter.Namespace.Histories.{joins}
use rushsocket.Adapter.Local.Apps.{apply_local}
use rushsocket.State.Frames.{frames}
use rushsocket.Websocket.Events.Payload.{text_field, extract_data}
use rushsocket.Adapter.Effects.{Effects-one, Effects-same, Effects}
use rushsocket.State.{at, AppState}
use rushsocket.Base.{
  length, ltb, sym, none, some, false, true, ◌≡◌, not, Bool-cases, bytes, inr, inl, Option-cases,
  Str,
}
use rushsocket.Websocket.Connection.{is_subscribed, WsConnection}
use rushsocket.Externals.{ClientMessage, Externals}
use rushsocket.Base.{refl, sym, true, false, ◌||◌, not, arith}
use rushsocket.Websocket.Events.Subscribe.Authorised.{
  HasToken, Authorised, private-Effects, presence-Effects, adapter-join_channel,
}
use rushsocket.Websocket.Events.Subscribe.{
  subscribe_private, join_channel, subscribe_presence, Fields, subscribe_kind, handle,
}
use rushsocket.Protocol.Channels.{
  ChannelKind, public, private, presence, encrypted_private, cache_public, cache_private,
  cache_presence, cache_encrypted_private, from_name, requires_auth, is_presence,
  is_valid_channel_name,
}

module _ (ext : Externals) (conn : WsConnection) where
  module _ (MayJoin : Str → Type 0) (obj : Fields) (channel : Str) (st : AppState)
      (may : (requires_auth (from_name channel) ≡ true → HasToken ext conn obj channel)
        → MayJoin channel) where
    public_kind-Effects :
        (kind : ChannelKind)
        → from_name channel ≡ kind
        → requires_auth kind ≡ false
        → Effects conn MayJoin st.adapter (join_channel ext false kind conn channel st).adapter
    unfolding apply_local
    public_kind-Effects kind e free =
        Effects-one conn MayJoin (joins conn.socket_id channel) _ _ (refl, may (λ h. ground arith))
          (adapter-join_channel ext false kind conn channel st)

    private_kind-Effects :
        (kind : ChannelKind)
        → from_name channel ≡ kind
        → is_presence kind ≡ false
        → Effects conn MayJoin st.adapter (subscribe_private ext kind obj conn channel st).adapter
    private_kind-Effects kind e lacks_members =
        private-Effects ext conn MayJoin obj channel kind st (λ token given verified. may (λ _.
          record {
            auth_str = token;
            channel_data = none;
            given = given;
            data_given = rw (e, lacks_members) refl;
            verified = verified;
          }))

    presence_kind-Effects :
        (kind : ChannelKind)
        → from_name channel ≡ kind
        → is_presence kind ≡ true
        → Effects conn MayJoin st.adapter (subscribe_presence ext kind obj conn channel st).adapter
    presence_kind-Effects kind e has_members =
        presence-Effects ext conn MayJoin obj channel kind st (λ token text given held verified.
          may (λ _. record {
            auth_str = token;
            channel_data = some text;
            given = given;
            data_given = rw (e, has_members) (sym held);
            verified = verified;
          }))

    subscribe_kind-Effects :
        (kind : ChannelKind)
        → from_name channel ≡ kind
        → Effects conn MayJoin st.adapter (subscribe_kind ext kind obj conn channel st).adapter
    unfolding subscribe_kind
    subscribe_kind-Effects public e = public_kind-Effects public e refl
    subscribe_kind-Effects cache_public e = public_kind-Effects cache_public e refl
    subscribe_kind-Effects presence e = presence_kind-Effects presence e refl
    subscribe_kind-Effects cache_presence e = presence_kind-Effects cache_presence e refl
    subscribe_kind-Effects private e = private_kind-Effects private e refl
    subscribe_kind-Effects encrypted_private e = private_kind-Effects encrypted_private e refl
    subscribe_kind-Effects cache_private e = private_kind-Effects cache_private e refl
    subscribe_kind-Effects cache_encrypted_private e =
        private_kind-Effects cache_encrypted_private e refl

  pub handle-Effects :
      (MayJoin : Str → Type 0) (msg : ClientMessage) (st : AppState)
      → ((c : Str) → Authorised ext conn msg c → MayJoin c)
      → Effects conn MayJoin st.adapter (handle ext conn msg st).adapter
  unfolding handle
  handle-Effects MayJoin msg st may = elim (Option-cases (extract_data ext msg)) [
    | inl e ↦ rw (e, handle) (Effects-same conn MayJoin st.adapter _ (simp frames))
    | inr (obj, e) ↦ elim (Option-cases (text_field (bytes "channel") obj)) [
      | inl f ↦ rw (e, f, handle) (Effects-same conn MayJoin st.adapter _ (simp frames))
      | inr (c, f) ↦
          elim (Bool-cases
            (not (is_valid_channel_name c) || ltb conn.app.max_channel_name_length (length c))) [
              | inl g ↦ rw (e, f, g, handle) (Effects-same conn MayJoin st.adapter _ (simp frames))
              | inr g ↦ elim (Bool-cases (is_subscribed c (at conn st))) [
                | inl h ↦ rw (e, f, g, h, handle) (Effects-same conn MayJoin st.adapter _ refl)
                | inr h ↦
                    rw (e, f, g, h, handle)
                      (subscribe_kind-Effects MayJoin obj c st
                        (λ token. may c (record {
                          obj = obj;
                          held = e;
                          named = f;
                          valid = ground arith;
                          short = ground arith;
                          token = token;
                        }))
                        (from_name c) refl)
              ]
            ]
    ]
  ]
