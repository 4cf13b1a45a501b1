-- ===== src/Http/Trigger/Replay.antt =====
-- An event that is published to a cache channel (src/http/routes/events.rs), and a client that
-- subscribes to it later (src/websocket/events/subscribe.rs), with other events and the clean-up task
-- of the cache in between.
use rushsocket.Base.{
  Str, str_eq, str_eq_refl, Bool, true, false, not, ◌≡◌, ℕ, ◌+◌, ◌*◌, ◌<◌, ◌&&◌, &&_iff, leb, ltb,
  Option, none, some, refl, arith, lt→ltb, List, [], ◌∷◌, ◌||◌, length, inl, inr, ◌∙◌, ap, bytes,
  Bool-cases,
}
use rushsocket.Externals.{Externals, ClientMessage}
use rushsocket.Base.Assoc
use rushsocket.Base.Sets
use rushsocket.Cache
use rushsocket.Cache.{nanos}
use rushsocket.Cache.Expiry.{get-set}
use rushsocket.Protocol.Channels.{from_name, is_cache, is_valid_channel_name}
use rushsocket.Protocol.Json.{string, Fields}
use rushsocket.Protocol.Messages.{channel_event, to_json}
use rushsocket.Websocket.Connection.{WsConnection, is_subscribed}
use rushsocket.Websocket.Events.Payload.{extract_data, text_field}
use rushsocket.Websocket.Events.Subscribe.{replay_cache, replay_if, cache_key, subscribe_kind}
use rushsocket.Websocket.Events.Subscribe
use rushsocket.Websocket.Events.Subscribe.Cached.{uncached, SameCache, subscribe_kind-Joins}
use rushsocket.Http.Trigger.{publish}
use rushsocket.State.{AppState, at, tell_raw}
use rushsocket.State.Listed.{listed, listed-tell}

-- What else changes the cache: an event that is published to another cache channel is stored under
-- its key, and the clean-up task runs.
pub data Change : Type 0 where
  stores : Str → Str → ℕ → ℕ → Change
  cleans_up : ℕ → Change

unfoldable pub changed : List Change → Cache.Store → Cache.Store
changed [] store = store
changed (stores key value ttl now ∷ changes) store =
    changed changes (Cache.set key value ttl now store)
changed (cleans_up now ∷ changes) store = changed changes (Cache.clean_up now store)

-- The other events have other keys, and the clean-ups are not later than `later`.
unfoldable pub spares : Str → ℕ → List Change → Bool
spares key later [] = true
spares key later (stores other value ttl now ∷ changes) =
    not (str_eq other key) && spares key later changes
spares key later (cleans_up now ∷ changes) = leb now later && spares key later changes

get-kept :
    (k v : Str) (now later : ℕ) (store : Cache.Store)
    → leb now later ≡ true
    → Cache.get k later store ≡ some v
    → Cache.get k later (Cache.clean_up now store) ≡ some v
unfolding Cache.get Cache.clean_up Assoc.lookup
get-kept k v now later [] b h = h
get-kept k v now later ((j, e) ∷ rest) b h = ground (arith, get-kept k v now later rest)

get-changed :
    (k v : Str) (later : ℕ) (changes : List Change) (store : Cache.Store)
    → spares k later changes ≡ true
    → Cache.get k later store ≡ some v
    → Cache.get k later (changed changes store) ≡ some v
unfolding spares changed
get-changed k v later [] store s h = h
get-changed k v later (stores j w ttl now ∷ changes) store s h =
    get-changed k v later changes (Cache.set j w ttl now store)
      ((&&_iff (not (str_eq j k)) (spares k later changes)).0 s).1
      (ground (arith, get-set j k w ttl now later store, s, h))
get-changed k v later (cleans_up now ∷ changes) store s h =
    let b = (&&_iff (leb now later) (spares k later changes)).0 s in
    get-changed k v later changes (Cache.clean_up now store) b.1
      (get-kept k v now later store b.0 h)

module _ (ext : Externals) (conn : WsConnection) (name payload channel : Str)
    (socket_id : Option Str) (st : AppState) where
  abbrev pub published : AppState
  published = publish ext conn.app conn.app.id name payload channel socket_id st

  abbrev pub message : Str
  message = to_json ext (channel_event name channel (string payload) none)

  stored :
      (later : ℕ)
      → is_cache (from_name channel) ≡ true
      → conn.app.enable_cache_channels ≡ true
      → later < st.now + st.cache_ttl * nanos
      → Cache.get (cache_key ext conn channel) later published.cache ≡ some message
  unfolding publish cache_key
  stored later kind enabled fresh = ground (
    arith,
    get-set (cache_key ext conn channel) (cache_key ext conn channel) message st.cache_ttl st.now
        later st.cache,
    str_eq_refl (cache_key ext conn channel),
    lt→ltb later (st.now + st.cache_ttl * nanos) fresh,
  )

replay_cache_cached :
    (ext : Externals) (conn : WsConnection) (channel v : Str) (st : AppState)
    → conn.app.enable_cache_channels ≡ true
    → Cache.get (cache_key ext conn channel) st.now st.cache ≡ some v
    → replay_cache ext conn channel st ≡ tell_raw ext conn v st
unfolding replay_cache
replay_cache_cached ext conn channel v st enabled h = rw (is_enabled, h, replay_cache) refl
  where
    is_enabled : not conn.app.enable_cache_channels ≡ false
    is_enabled = ground (arith, enabled)

module _ (ext : Externals) (conn : WsConnection) (name payload channel : Str)
    (socket_id : Option Str) (st at_publish : AppState) (changes : List Change) where
  -- A connection that lists the channels that it did has not come into another.
  not_in :
      (st1 : AppState)
      → listed conn.address st1 ≡ listed conn.address st
      → is_subscribed channel (at conn st) ≡ false
      → is_subscribed channel (at conn st1) ≡ true
      → ⊥
  not_in st1 l before after = ground (arith, before, after, ap (Sets.contains channel) l)

  replayed :
      (plain : AppState)
      → is_cache (from_name channel) ≡ true
      → conn.app.enable_cache_channels ≡ true
      → st.now < at_publish.now + at_publish.cache_ttl * nanos
      → spares (cache_key ext conn channel) st.now changes ≡ true
      → st.cache
        ≡ changed changes (published ext conn name payload channel socket_id at_publish).cache
      → SameCache st plain
      → replay_if ext (is_cache (from_name channel)) conn channel plain
        ≡ tell_raw ext conn (message ext conn name payload channel socket_id at_publish) plain
  replayed plain kind enabled fresh s c (now, cache) = rw kind (
      replay_cache_cached ext conn channel _ plain enabled (
        ap (λ t. Cache.get (cache_key ext conn channel) t plain.cache) now
        ∙ ap (Cache.get (cache_key ext conn channel) st.now) (cache ∙ c)
        ∙ get-changed (cache_key ext conn channel) _ st.now changes _ s
            (stored ext conn name payload channel socket_id at_publish st.now kind enabled fresh)))

  -- What the checks of the name and of the list leave of `handle`.
  module _ (msg : ClientMessage) (obj : Fields) (held : extract_data ext msg ≡ some obj)
      (named : text_field (bytes "channel") obj ≡ some channel) where
    invalid :
        (not (is_valid_channel_name channel)
            || ltb conn.app.max_channel_name_length (length channel))
          ≡ true
        → Subscribe.handle ext conn msg st
          ≡ Subscribe.refuse ext conn (bytes "Invalid channel name") st
    unfolding Subscribe.handle
    invalid e = rw (held, named, e, Subscribe.handle) refl

    valid :
        (not (is_valid_channel_name channel)
            || ltb conn.app.max_channel_name_length (length channel))
          ≡ false
        → is_subscribed channel (at conn st) ≡ false
        → Subscribe.handle ext conn msg st
          ≡ subscribe_kind ext (from_name channel) obj conn channel st
    unfolding Subscribe.handle
    valid e before = rw (held, named, e, before, Subscribe.handle) refl

  -- If the channel is a cache channel, the app has caching enabled, the time to live of the event
  -- has not passed, and the cache is that which the event left, changed only by events under other
  -- keys and by clean-ups of the past: a subscribe message that brings the client into the channel
  -- does all that it does on the same channel without a cache, and then the client is sent the very
  -- message that was published.
  pub publish-handle :
      (msg : ClientMessage) (obj : Fields)
      → is_cache (from_name channel) ≡ true
      → conn.app.enable_cache_channels ≡ true
      → st.now < at_publish.now + at_publish.cache_ttl * nanos
      → spares (cache_key ext conn channel) st.now changes ≡ true
      → st.cache
        ≡ changed changes (published ext conn name payload channel socket_id at_publish).cache
      → extract_data ext msg ≡ some obj
      → text_field (bytes "channel") obj ≡ some channel
      → is_subscribed channel (at conn st) ≡ false
      → is_subscribed channel (at conn (Subscribe.handle ext conn msg st)) ≡ true
      → Subscribe.handle ext conn msg st
        ≡ tell_raw ext conn
            (message ext conn name payload channel socket_id at_publish)
            (subscribe_kind ext (uncached (from_name channel)) obj conn channel st)
  publish-handle msg obj kind enabled fresh s c held named before after =
      elim (Bool-cases (
        not (is_valid_channel_name channel)
        || ltb conn.app.max_channel_name_length (length channel))) [
          | inl e ↦
              elim (not_in (Subscribe.handle ext conn msg st)
                (ap (listed conn.address) (invalid msg obj held named e)
                  ∙ listed-tell ext conn _ conn.address st)
                before after) [ ]
          | inr e ↦ elim (subscribe_kind-Joins ext conn channel (from_name channel) obj st) [
            | inl l ↦
                elim (not_in (Subscribe.handle ext conn msg st)
                  (ap (listed conn.address) (valid msg obj held named e before) ∙ l) before
                  after) [ ]
            | inr (h, k) ↦
                valid msg obj held named e before ∙ h ∙ replayed _ kind enabled fresh s c k
          ]
        ]
