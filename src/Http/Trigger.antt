-- ===== src/Http/Trigger.antt =====
-- src/http/routes/events.rs and src/http/routes/batch_events.rs: the routes that publish events.
pub mod Replay
use rushsocket.Base.{
  Str, bytes, show, str_eq, Bool, true, false, not, ◌&&◌, ◌++◌, ◌||◌, ◌*◌, ℕ, Option, none, some,
  List, [], ◌∷◌, any, length, ltb, is_some, inl, inr, if◌then◌else◌, ◌>>=◌,
}
use rushsocket.Base.Assoc
use rushsocket.Base.Assoc.{Assoc}
use rushsocket.Cache
use rushsocket.Externals.{Externals}
use rushsocket.App.{App}
use rushsocket.App.Manager.{StaticAppManager}
use rushsocket.Protocol.Channels.{from_name, is_cache, is_presence}
use rushsocket.Protocol.Json.{string}
use rushsocket.Protocol.Messages.{channel_event, to_json}
use rushsocket.RateLimit.{check_backend_event}
use rushsocket.Http.Requests.{
  TriggerRequest, BatchEvent, Bodies, Counts, Reply, empty, channel_counts, batch_counts, refused,
  wants, when_signed, when_intact, when_admitted,
}
use rushsocket.Adapter.Local
use rushsocket.State.{AppState}

abbrev or_else : Option Str → Option Str → Option Str
or_else (some a) b = some a
or_else none b = b

module _ (ext : Externals) where
  -- The event goes into the cache, for a cache channel, and to the sockets of the channel.
  unfoldable pub publish : App → Str → Str → Str → Str → Option Str → AppState → AppState
  publish app app_id name payload channel socket_id st =
      let msg_json = to_json ext (channel_event name channel (string payload) none) in
      let key = bytes "cache:" ++ (app_id ++ (bytes ":" ++ channel)) in
      record st {
        cache =
            if is_cache (from_name channel) && app.enable_cache_channels
            then Cache.set key msg_json st.cache_ttl st.now st.cache
            else st.cache;
        heap = Local.send_to_channel ext app_id channel msg_json socket_id st.adapter st.heap;
      }

  -- The counts that are asked for.
  unfoldable pub counts : Bool → Bool → Str → Str → AppState → Counts
  counts want_subscription_count want_user_count app_id channel st = record {
    subscription_count =
        if want_subscription_count
        then some (Local.get_channel_socket_count app_id channel st.adapter)
        else none;
    user_count =
        if want_user_count && is_presence (from_name channel)
        then some (Local.get_presence_user_count app_id channel st.adapter)
        else none;
  }

  -- The loop of `trigger` over the channels.
  unfoldable pub publish_all :
      App
      → Str
      → TriggerRequest
      → Bool
      → Bool
      → List Str
      → Assoc Counts
      → AppState
      → Assoc Counts × AppState
  publish_all app app_id req subs users [] info st = (info, st)
  publish_all app app_id req subs users (channel ∷ channels) info st =
      let st1 = publish app app_id req.name req.payload channel req.socket_id st in
      let info1 =
        if subs || users
        then Assoc.insert channel (counts subs users app_id channel st1) info
        else info in
      publish_all app app_id req subs users channels info1 st1

  -- `channels`, or else the one `channel`.
  unfoldable pub channels_of : TriggerRequest → Option (List Str)
  channels_of req = elim req.channels [
    | some channels ↦ some channels
    | none ↦ elim req.channel [ none ↦ none | some channel ↦ some (channel ∷ []) ]
  ]

  abbrev pub too_large : App → Str
  too_large app =
      bytes "The data content of this event exceeds the allowed maximum ("
      ++ (show (app.max_event_payload_in_kb * 1024) ++ bytes ")")

  unfoldable pub has_want : Str → Option Str → Bool
  has_want name none = false
  has_want name (some info) = wants name info

  -- `trigger`, from the body that was read to the reply.
  unfoldable pub trigger_channels :
      App → Str → Assoc Str → TriggerRequest → AppState → Option (Reply × AppState)
  trigger_channels app app_id params req st = elim (channels_of req) [
    | none ↦ refused 400 (bytes "No channels specified") st
    | some channels ↦
        if ltb app.max_event_channels_at_once (length channels)
        then refused 400 (bytes "Too many channels") st
        else if ltb app.max_event_name_length (length req.name)
        then refused 400 (bytes "Event name too long") st
        else if ltb (app.max_event_payload_in_kb * 1024) (length req.payload)
        then refused 413 (too_large app) st
        else (let info = or_else req.info (Assoc.lookup (bytes "info") params) in
            let r =
              publish_all app app_id req (has_want (bytes "subscription_count") info)
                (has_want (bytes "user_count") info) channels [] st in
            some (
              record { status = 200; body = elim r.0 [ [] ↦ empty | _ ∷ _ ↦ channel_counts r.0 ] },
              r.1,
            ))
  ]

  -- The loop of `trigger_batch`: whether any counts were asked for, and the counts for each event.
  unfoldable pub publish_batch :
      App
      → Str
      → Option Str
      → List BatchEvent
      → Bool
      → List Counts
      → AppState
      → Bool × List Counts × AppState
  publish_batch app app_id global_info [] has_any results st = (has_any, results, st)
  publish_batch app app_id global_info (event ∷ events) has_any results st =
      let st1 = publish app app_id event.name event.payload event.channel event.socket_id st in
      let info = or_else event.info global_info in
      let result =
        counts (has_want (bytes "subscription_count") info) (has_want (bytes "user_count") info)
          app_id event.channel st1 in
      publish_batch app app_id global_info events (has_any || is_some info) (results ++ result ∷ [])
        st1

  unfoldable pub trigger_events :
      App → Str → Assoc Str → List BatchEvent → AppState → Option (Reply × AppState)
  trigger_events app app_id params batch st =
      if ltb app.max_event_batch_size (length batch)
      then refused 400 (bytes "Batch too large") st
      else if any (λ (e : BatchEvent). ltb (app.max_event_payload_in_kb * 1024) (length e.payload))
          batch
      then refused 413 (too_large app) st
      else (let r =
            publish_batch app app_id (Assoc.lookup (bytes "info") params) batch false [] st in
          some (record { status = 200; body = if r.0 then batch_counts r.1 else empty }, r.2))

  module _ (bodies : Bodies) (manager : StaticAppManager) (app_id : Str) (params : Assoc Str)
      (body : Str) where
    -- What is checked before a body is read.
    unfoldable pub when_accepted :
        Str → (App → AppState → Option (Reply × AppState)) → AppState → Option (Reply × AppState)
    when_accepted route next st =
        when_signed ext manager app_id params (bytes "POST")
          (bytes "/apps/" ++ (app_id ++ (bytes "/" ++ route)))
          (λ (app : App).
            when_intact ext manager app_id params bodies.body_md5 body (λ (st1 : AppState).
              when_admitted
                (check_backend_event ext st1.rate_limiter app_id app.max_backend_events_per_sec
                  st1.now)
                (next app) st1))
          st

    unfoldable pub trigger : AppState → Option (Reply × AppState)
    trigger st =
        when_accepted (bytes "events")
          (λ (app : App) (st1 : AppState). elim (bodies.parse_trigger body) [
            | inl req ↦ trigger_channels app app_id params req st1
            | inr e ↦ refused 400 (bytes "Invalid body: " ++ e) st1
          ])
          st

    unfoldable pub trigger_batch : AppState → Option (Reply × AppState)
    trigger_batch st =
        when_accepted (bytes "batch_events")
          (λ (app : App) (st1 : AppState). elim (bodies.parse_batch body) [
            | inl batch ↦ trigger_events app app_id params batch st1
            | inr e ↦ refused 400 (bytes "Invalid body: " ++ e) st1
          ])
          st
