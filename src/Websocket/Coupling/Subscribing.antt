-- ===== src/Websocket/Coupling/Subscribing.antt =====
-- The change of a subscribe message (`handle` of src/websocket/events/subscribe.rs).
use rushsocket.Base.{
  Str, bytes, Bool, true, false, not, ◌||◌, ◌≡◌, ℕ, ◌*◌, Option, none, some, ltb, length, ◌==◌,
  if◌then◌else◌, get_or, ◌>>=◌, refl, ◌∙◌, ap, arith, Bool-cases, Option-cases, inl, inr,
}
use rushsocket.Base.Assoc.{Assoc}
use rushsocket.Base.Sets
use rushsocket.Cache
use rushsocket.Auth.{verify_channel_auth}
use rushsocket.Externals.{Externals, ClientMessage}
use rushsocket.Protocol.Channels.{
  ChannelKind, public, private, presence, encrypted_private, cache_public, cache_private,
  cache_presence, cache_encrypted_private, from_name, is_valid_channel_name,
}
use rushsocket.Protocol.Json.{Json, Fields, get, object, end}
use rushsocket.Websocket.Connection.{WsConnection, is_subscribed}
use rushsocket.Websocket.Events.Payload.{extract_data, text_field}
use rushsocket.Websocket.Events.Subscribe
use rushsocket.Websocket.Events.Subscribe.{
  id_text, refuse, join_channel, join_presence, admit_member, subscribe_private, subscribe_presence,
  subscribe_kind, replay_cache, replay_if, cache_key,
}
use rushsocket.Websocket.Events.Subscribe.Authorised.{adapter-join_channel, adapter-join_presence}
use rushsocket.Websocket.Coupling.{same, entered, Coupled, Coupled-same, Coupled-after_quiet, Moves}
use rushsocket.Adapter.Local
use rushsocket.Adapter.Local.Apps.{apply_local}
use rushsocket.Adapter.Namespace.Histories.{tries_member}
use rushsocket.Adapter.Effects.{in_channel, AllMirrored, apply_local-AllMirrored}
use rushsocket.Adapter.Effects.Channels.{in_channel-joins, in_channel-tries_member}
use rushsocket.State.{AppState, at}
use rushsocket.State.Frames.{frames}
use rushsocket.State.Listed.{listed, listed-on_conn, listed-hook_if, listed_frames}

module _ (ext : Externals) (conn : WsConnection) where
  listed-replay_if :
      (b : Bool) (channel : Str) (q : ℕ) (st : AppState)
      → listed q (replay_if ext b conn channel st) ≡ listed q st
  unfolding replay_cache
  listed-replay_if false channel q st = refl
  listed-replay_if true channel q st = elim (Bool-cases (not conn.app.enable_cache_channels)) [
    | inl e ↦ rw e refl
    | inr e ↦ elim (Option-cases (Cache.get (cache_key ext conn channel) st.now st.cache)) [
      | inl f ↦ rw (e, f) simp listed_frames
      | inr (t, f) ↦ rw (e, f) simp listed_frames
    ]
  ]

  listed-join_channel :
      (marks : Bool) (kind : ChannelKind) (channel : Str) (q : ℕ) (st : AppState)
      → listed q (join_channel ext marks kind conn channel st)
        ≡ (if conn.address == q then Sets.insert channel (listed q st) else listed q st)
  unfolding join_channel
  listed-join_channel true kind channel q st =
      simp (listed-replay_if, listed_frames, listed-hook_if, listed-on_conn) (ground arith)
  listed-join_channel false kind channel q st =
      simp (listed-replay_if, listed_frames, listed-hook_if, listed-on_conn) (ground arith)

  listed-join_presence :
      (kind : ChannelKind) (channel user_id : Str) (info : Json) (is_new : Bool)
      (members : Assoc Json) (q : ℕ) (st : AppState)
      → listed q (join_presence ext kind conn channel user_id info is_new members st)
        ≡ (if conn.address == q then Sets.insert channel (listed q st) else listed q st)
  unfolding join_presence
  listed-join_presence kind channel user_id info true members q st =
      simp (listed-replay_if, listed_frames, listed-hook_if, listed-on_conn) (ground arith)
  listed-join_presence kind channel user_id info false members q st =
      simp (listed-replay_if, listed_frames, listed-hook_if, listed-on_conn) (ground arith)

  Coupled-join_channel :
      (marks : Bool) (kind : ChannelKind) (channel : Str) (st : AppState)
      → AllMirrored st.adapter
      → Coupled conn (entered channel) st (join_channel ext marks kind conn channel st)
  unfolding apply_local
  Coupled-join_channel marks kind channel st v = record {
    lists = λ q. listed-join_channel marks kind channel q st;
    channels = λ app_id s c.
        ap (in_channel app_id s c) (adapter-join_channel ext marks kind conn channel st)
        ∙ in_channel-joins conn.app.id conn.socket_id channel st.adapter app_id s c v;
  }

  Coupled-join_presence :
      (kind : ChannelKind) (channel user_id : Str) (info : Json) (is_new : Bool)
      (members : Assoc Json) (st : AppState)
      → AllMirrored st.adapter
      → Coupled conn
          (entered channel)
          st
          (join_presence ext kind conn channel user_id info is_new members st)
  unfolding apply_local
  Coupled-join_presence kind channel user_id info is_new members st v = record {
    lists = λ q. listed-join_presence kind channel user_id info is_new members q st;
    channels = λ app_id s c.
        ap (in_channel app_id s c)
          (adapter-join_presence ext kind conn channel user_id info is_new members st)
        ∙ in_channel-joins conn.app.id conn.socket_id channel st.adapter app_id s c v;
  }

  Coupled-refuse : (reason : Str) (st : AppState) → Coupled conn same st (refuse ext conn reason st)
  Coupled-refuse reason st =
      Coupled-same conn st _ (λ q. simp listed_frames) (λ app_id s c. simp frames)

  refused : (reason : Str) (st : AppState) → Moves conn st (refuse ext conn reason st)
  refused reason st = (same, Coupled-refuse reason st)

  private-Moves :
      (kind : ChannelKind) (obj : Fields) (channel : Str) (st : AppState)
      → AllMirrored st.adapter
      → Moves conn st (subscribe_private ext kind obj conn channel st)
  unfolding subscribe_private
  private-Moves kind obj channel st v = elim (Option-cases (text_field (bytes "auth") obj)) [
    | inl e ↦ rw (e, subscribe_private) (refused _ st)
    | inr (token, e) ↦
        elim (Bool-cases (
          verify_channel_auth ext.hex_hmac conn.app.key conn.app.secret conn.socket_id channel none
            token)) [
              | inl f ↦
                  rw (e, f, subscribe_private)
                    (entered channel, Coupled-join_channel true kind channel st v)
              | inr f ↦ rw (e, f, subscribe_private) (refused _ st)
            ]
  ]

  -- The two outcomes of the admission of a member.
  outcome-Moves :
      (kind : ChannelKind) (channel user_id : Str) (info : Json)
      (outcome : Option (Bool × Assoc Json)) (st : AppState)
      → AllMirrored st.adapter
      → Moves conn st (elim outcome as (λ _. AppState) [
        | none ↦ refuse ext conn (bytes "Over presence member limit") st
        | some (is_new, members) ↦
            join_presence ext kind conn channel user_id info is_new members st
      ])
  outcome-Moves kind channel user_id info none st v = refused _ st
  outcome-Moves kind channel user_id info (some (is_new, members)) st v =
      (entered channel, Coupled-join_presence kind channel user_id info is_new members st v)

  Coupled-try_add :
      (channel user_id : Str) (info : Json) (max : ℕ) (st : AppState)
      → Coupled conn same st (record st {
        adapter =
            (Local.try_add_presence_member conn.app.id channel conn.socket_id user_id info max
              st.adapter).0;
      })
  unfolding apply_local
  Coupled-try_add channel user_id info max st =
      Coupled-same conn st _ (λ q. refl)
        (λ app_id s c.
          in_channel-tries_member conn.app.id channel conn.socket_id user_id info max st.adapter
            app_id s c)

  after_quiet :
      (st mid st' : AppState) → Coupled conn same st mid → Moves conn mid st' → Moves conn st st'
  after_quiet st mid st' k (change, l) = (change, Coupled-after_quiet conn change st mid st' k l)

  admit_member-Moves :
      (kind : ChannelKind) (channel user_id : Str) (channel_data : Json) (st : AppState)
      → AllMirrored st.adapter
      → Moves conn st (admit_member ext kind conn channel user_id channel_data st)
  unfolding admit_member apply_local
  admit_member-Moves kind channel user_id channel_data st v =
      elim (Bool-cases
        (ltb (conn.app.max_presence_member_size_in_kb * 1024) (length (ext.print channel_data)))) [
          | inl e ↦ rw (e, admit_member) (refused _ st)
          | inr e ↦
              rw (e, admit_member)
                (after_quiet st _ _
                  (Coupled-try_add channel user_id
                    (get_or (get (bytes "user_info") channel_data) (object end))
                    conn.app.max_presence_members_per_channel st)
                  (outcome-Moves kind channel user_id _ _ _ (
                    apply_local-AllMirrored conn (λ c. ⊥)
                      (tries_member channel conn.socket_id user_id
                        (get_or (get (bytes "user_info") channel_data) (object end))
                        conn.app.max_presence_members_per_channel)
                      st.adapter v)))
        ]

  presence-Moves :
      (kind : ChannelKind) (obj : Fields) (channel : Str) (st : AppState)
      → AllMirrored st.adapter
      → Moves conn st (subscribe_presence ext kind obj conn channel st)
  unfolding subscribe_presence
  presence-Moves kind obj channel st v = elim (Option-cases (text_field (bytes "auth") obj)) [
    | inl e ↦ rw (e, subscribe_presence) (refused _ st)
    | inr (token, e) ↦ elim (Option-cases (text_field (bytes "channel_data") obj)) [
      | inl f ↦ rw (e, f, subscribe_presence) (refused _ st)
      | inr (text, f) ↦
          elim (Bool-cases (
            verify_channel_auth ext.hex_hmac conn.app.key conn.app.secret conn.socket_id channel
              (some text) token)) [
                | inr g ↦ rw (e, f, g, subscribe_presence) (refused _ st)
                | inl g ↦ elim (Option-cases (ext.parse text)) [
                  | inl h ↦ rw (e, f, g, h, subscribe_presence) (refused _ st)
                  | inr (w, h) ↦ elim (Option-cases (get (bytes "user_id") w >>= id_text)) [
                    | inl k ↦ rw (e, f, g, h, k, subscribe_presence) (refused _ st)
                    | inr (user_id, k) ↦
                        rw (e, f, g, h, k, subscribe_presence)
                          (admit_member-Moves kind channel user_id w st v)
                  ]
                ]
              ]
    ]
  ]

  kind-Moves :
      (kind : ChannelKind) (obj : Fields) (channel : Str) (st : AppState)
      → AllMirrored st.adapter
      → Moves conn st (subscribe_kind ext kind obj conn channel st)
  unfolding subscribe_kind
  kind-Moves public obj channel st v =
      (entered channel, Coupled-join_channel false public channel st v)
  kind-Moves cache_public obj channel st v =
      (entered channel, Coupled-join_channel false cache_public channel st v)
  kind-Moves presence obj channel st v = presence-Moves presence obj channel st v
  kind-Moves cache_presence obj channel st v = presence-Moves cache_presence obj channel st v
  kind-Moves private obj channel st v = private-Moves private obj channel st v
  kind-Moves encrypted_private obj channel st v = private-Moves encrypted_private obj channel st v
  kind-Moves cache_private obj channel st v = private-Moves cache_private obj channel st v
  kind-Moves cache_encrypted_private obj channel st v =
      private-Moves cache_encrypted_private obj channel st v

  pub subscribe-Moves :
      (msg : ClientMessage) (st : AppState)
      → AllMirrored st.adapter
      → Moves conn st (Subscribe.handle ext conn msg st)
  unfolding Subscribe.handle
  subscribe-Moves msg st v = elim (Option-cases (extract_data ext msg)) [
    | inl e ↦ rw (e, Subscribe.handle) (refused _ st)
    | inr (obj, e) ↦ elim (Option-cases (text_field (bytes "channel") obj)) [
      | inl f ↦ rw (e, f, Subscribe.handle) (refused _ st)
      | inr (c, f) ↦
          elim (Bool-cases
            (not (is_valid_channel_name c) || ltb conn.app.max_channel_name_length (length c))) [
              | inl g ↦ rw (e, f, g, Subscribe.handle) (refused _ st)
              | inr g ↦ elim (Bool-cases (is_subscribed c (at conn st))) [
                | inl h ↦
                    rw (e, f, g, h, Subscribe.handle)
                      (same, Coupled-same conn st st (λ q. refl) (λ app_id s d. refl))
                | inr h ↦ rw (e, f, g, h, Subscribe.handle) (kind-Moves (from_name c) obj c st v)
              ]
            ]
    ]
  ]
