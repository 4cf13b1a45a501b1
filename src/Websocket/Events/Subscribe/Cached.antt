-- ===== src/Websocket/Events/Subscribe/Cached.antt =====
-- How a subscription to a cache channel differs from one to the same channel without a cache
-- (`handle` of src/websocket/events/subscribe.rs).
use rushsocket.Base.{
  Str, bytes, Bool, true, false, ◌≡◌, ◌⊎◌, ◌*◌, Option, none, some, ltb, length, ◌>>=◌, refl, arith,
  Bool-cases, Option-cases, inl, inr, ◌∙◌,
}
use rushsocket.Base.Assoc.{Assoc}
use rushsocket.Auth.{verify_channel_auth}
use rushsocket.Externals.{Externals}
use rushsocket.Protocol.Channels.{
  ChannelKind, public, private, presence, encrypted_private, cache_public, cache_private,
  cache_presence, cache_encrypted_private, is_cache,
}
use rushsocket.Protocol.Json.{Json, Fields, get}
use rushsocket.Webhook.{WebhookEvent}
use rushsocket.Websocket.Connection.{WsConnection, ConnState}
use rushsocket.Protocol.Messages.{ServerMessage}
use rushsocket.Websocket.Events.Payload.{text_field}
use rushsocket.Websocket.Events.Subscribe.{
  id_text, refuse, join_channel, join_presence, admit_member, subscribe_private, subscribe_presence,
  subscribe_kind, replay_if,
}
use rushsocket.State.{AppState, hook, hook_if, send_subscription_count, on_conn, tell, broadcast}
use rushsocket.State.Listed.{listed, listed-tell}

-- The kind without its cache.
abbrev pub uncached : ChannelKind → ChannelKind
uncached cache_public = public
uncached cache_private = private
uncached cache_presence = presence
uncached cache_encrypted_private = encrypted_private
uncached kind = kind

-- The clock and the cache are those of `st`.
abbrev pub SameCache : AppState → AppState → Type 0
SameCache st1 st2 = (st2.now ≡ st1.now) × (st2.cache ≡ st1.cache)

now-on_conn :
    (conn : WsConnection) (f : ConnState → ConnState) (st : AppState)
    → (on_conn conn f st).now ≡ st.now
unfolding on_conn
now-on_conn conn f st = refl

now-hook :
    (app_id : Str) (event : WebhookEvent) (st : AppState) → (hook app_id event st).now ≡ st.now
unfolding hook
now-hook app_id event st = refl

now-send_subscription_count :
    (app_id channel : Str) (enabled : Bool) (st : AppState)
    → (send_subscription_count app_id channel enabled st).now ≡ st.now
unfolding send_subscription_count hook
now-send_subscription_count app_id channel enabled st = ground arith

now-tell :
    (ext : Externals) (conn : WsConnection) (msg : ServerMessage) (st : AppState)
    → (tell ext conn msg st).now ≡ st.now
unfolding tell on_conn
now-tell ext conn msg st = refl

now-broadcast :
    (ext : Externals) (app_id channel : Str) (msg : ServerMessage) (excepting : Str) (st : AppState)
    → (broadcast ext app_id channel msg excepting st).now ≡ st.now
unfolding broadcast
now-broadcast ext app_id channel msg excepting st = refl

now-hook_if :
    (b : Bool) (app_id : Str) (event : WebhookEvent) (st : AppState)
    → (hook_if b app_id event st).now ≡ st.now
now-hook_if true app_id event st = now-hook app_id event st
now-hook_if false app_id event st = refl

cache-on_conn :
    (conn : WsConnection) (f : ConnState → ConnState) (st : AppState)
    → (on_conn conn f st).cache ≡ st.cache
unfolding on_conn
cache-on_conn conn f st = refl

cache-hook :
    (app_id : Str) (event : WebhookEvent) (st : AppState) → (hook app_id event st).cache ≡ st.cache
unfolding hook
cache-hook app_id event st = refl

cache-send_subscription_count :
    (app_id channel : Str) (enabled : Bool) (st : AppState)
    → (send_subscription_count app_id channel enabled st).cache ≡ st.cache
unfolding send_subscription_count hook
cache-send_subscription_count app_id channel enabled st = ground arith

cache-tell :
    (ext : Externals) (conn : WsConnection) (msg : ServerMessage) (st : AppState)
    → (tell ext conn msg st).cache ≡ st.cache
unfolding tell on_conn
cache-tell ext conn msg st = refl

cache-broadcast :
    (ext : Externals) (app_id channel : Str) (msg : ServerMessage) (excepting : Str) (st : AppState)
    → (broadcast ext app_id channel msg excepting st).cache ≡ st.cache
unfolding broadcast
cache-broadcast ext app_id channel msg excepting st = refl

cache-hook_if :
    (b : Bool) (app_id : Str) (event : WebhookEvent) (st : AppState)
    → (hook_if b app_id event st).cache ≡ st.cache
cache-hook_if true app_id event st = cache-hook app_id event st
cache-hook_if false app_id event st = refl

ruleset cache_frames = (
  now-on_conn, now-hook, now-send_subscription_count, now-tell, now-broadcast, cache-on_conn,
  cache-hook, cache-send_subscription_count, cache-tell, cache-broadcast,
)

module _ (ext : Externals) (conn : WsConnection) (channel : Str) where
  -- A connection that was refused lists the channels that it did; one that joins is sent the cached
  -- message, if the channel has a cache, after all that happens without the cache.
  abbrev pub Joins : ChannelKind → AppState → AppState → AppState → Type 0
  Joins kind st plain st1 =
      (listed conn.address st1 ≡ listed conn.address st)
      ⊎ ((st1 ≡ replay_if ext (is_cache kind) conn channel plain) × SameCache st plain)

  module _ (kind plain : ChannelKind) (is_plain : is_cache plain ≡ false) where
    join_channel-Joins :
        (marks : Bool) (st : AppState)
        → Joins kind st
            (join_channel ext marks plain conn channel st)
            (join_channel ext marks kind conn channel st)
    unfolding join_channel
    join_channel-Joins true st =
        rw is_plain
          (inr (refl, (simp (cache_frames, now-hook_if), simp (cache_frames, cache-hook_if))))
    join_channel-Joins false st =
        rw is_plain
          (inr (refl, (simp (cache_frames, now-hook_if), simp (cache_frames, cache-hook_if))))

    join_presence-Joins :
        (user_id : Str) (info : Json) (is_new : Bool) (members : Assoc Json) (st : AppState)
        → Joins kind st
            (join_presence ext plain conn channel user_id info is_new members st)
            (join_presence ext kind conn channel user_id info is_new members st)
    unfolding join_presence
    join_presence-Joins user_id info true members st =
        rw is_plain
          (inr (refl, (simp (cache_frames, now-hook_if), simp (cache_frames, cache-hook_if))))
    join_presence-Joins user_id info false members st =
        rw is_plain
          (inr (refl, (simp (cache_frames, now-hook_if), simp (cache_frames, cache-hook_if))))

    refused :
        (reason : Str) (st plain_st : AppState) → Joins kind st plain_st (refuse ext conn reason st)
    refused reason st plain_st = inl (listed-tell ext conn _ conn.address st)

    private-Joins :
        (obj : Fields) (st : AppState)
        → Joins kind st
            (subscribe_private ext plain obj conn channel st)
            (subscribe_private ext kind obj conn channel st)
    unfolding subscribe_private
    private-Joins obj st = elim (Option-cases (text_field (bytes "auth") obj)) [
      | inl e ↦ rw (e, subscribe_private) (refused _ st _)
      | inr (token, e) ↦
          elim (Bool-cases (
            verify_channel_auth ext.hex_hmac conn.app.key conn.app.secret conn.socket_id channel
              none token)) [
                | inl f ↦ rw (e, f, subscribe_private) (join_channel-Joins true st)
                | inr f ↦ rw (e, f, subscribe_private) (refused _ st _)
              ]
    ]

    outcome-Joins :
        (user_id : Str) (info : Json) (outcome : Option (Bool × Assoc Json)) (st mid : AppState)
        → listed conn.address mid ≡ listed conn.address st
        → SameCache st mid
        → Joins kind st
            (elim outcome as (λ _. AppState) [
              | none ↦ refuse ext conn (bytes "Over presence member limit") mid
              | some (is_new, members) ↦
                  join_presence ext plain conn channel user_id info is_new members mid
            ])
            (elim outcome as (λ _. AppState) [
              | none ↦ refuse ext conn (bytes "Over presence member limit") mid
              | some (is_new, members) ↦
                  join_presence ext kind conn channel user_id info is_new members mid
            ])
    outcome-Joins user_id info none st mid l k = inl (listed-tell ext conn _ conn.address mid ∙ l)
    outcome-Joins user_id info (some (is_new, members)) st mid l k =
        elim (join_presence-Joins user_id info is_new members mid) [
          | inl h ↦ inl (h ∙ l)
          | inr (h, (now, cache)) ↦ inr (h, (now ∙ k.0, cache ∙ k.1))
        ]

    admit_member-Joins :
        (user_id : Str) (channel_data : Json) (st : AppState)
        → Joins kind st
            (admit_member ext plain conn channel user_id channel_data st)
            (admit_member ext kind conn channel user_id channel_data st)
    unfolding admit_member
    admit_member-Joins user_id channel_data st =
        elim (Bool-cases (
          ltb (conn.app.max_presence_member_size_in_kb * 1024) (length (ext.print channel_data)))) [
            | inl e ↦ rw (e, admit_member) (refused _ st _)
            | inr e ↦ rw (e, admit_member) (outcome-Joins user_id _ _ st _ refl (refl, refl))
          ]

    presence-Joins :
        (obj : Fields) (st : AppState)
        → Joins kind st
            (subscribe_presence ext plain obj conn channel st)
            (subscribe_presence ext kind obj conn channel st)
    unfolding subscribe_presence
    presence-Joins obj st = elim (Option-cases (text_field (bytes "auth") obj)) [
      | inl e ↦ rw (e, subscribe_presence) (refused _ st _)
      | inr (token, e) ↦ elim (Option-cases (text_field (bytes "channel_data") obj)) [
        | inl f ↦ rw (e, f, subscribe_presence) (refused _ st _)
        | inr (text, f) ↦
            elim (Bool-cases (
              verify_channel_auth ext.hex_hmac conn.app.key conn.app.secret conn.socket_id channel
                (some text) token)) [
                  | inr g ↦ rw (e, f, g, subscribe_presence) (refused _ st _)
                  | inl g ↦ elim (Option-cases (ext.parse text)) [
                    | inl h ↦ rw (e, f, g, h, subscribe_presence) (refused _ st _)
                    | inr (w, h) ↦ elim (Option-cases (get (bytes "user_id") w >>= id_text)) [
                      | inl k ↦ rw (e, f, g, h, k, subscribe_presence) (refused _ st _)
                      | inr (user_id, k) ↦
                          rw (e, f, g, h, k, subscribe_presence) (admit_member-Joins user_id w st)
                    ]
                  ]
                ]
      ]
    ]

  pub subscribe_kind-Joins :
      (kind : ChannelKind) (obj : Fields) (st : AppState)
      → Joins kind st
          (subscribe_kind ext (uncached kind) obj conn channel st)
          (subscribe_kind ext kind obj conn channel st)
  unfolding subscribe_kind
  subscribe_kind-Joins public obj st = join_channel-Joins public public refl false st
  subscribe_kind-Joins cache_public obj st = join_channel-Joins cache_public public refl false st
  subscribe_kind-Joins private obj st = private-Joins private private refl obj st
  subscribe_kind-Joins cache_private obj st = private-Joins cache_private private refl obj st
  subscribe_kind-Joins presence obj st = presence-Joins presence presence refl obj st
  subscribe_kind-Joins cache_presence obj st = presence-Joins cache_presence presence refl obj st
  subscribe_kind-Joins encrypted_private obj st =
      private-Joins encrypted_private encrypted_private refl obj st
  subscribe_kind-Joins cache_encrypted_private obj st =
      private-Joins cache_encrypted_private encrypted_private refl obj st
