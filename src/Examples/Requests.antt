-- ===== src/Examples/Requests.antt =====
-- The routes of src/http/routes on concrete requests.
use rushsocket.Base.{
  Str, bytes, ◌++◌, true, none, some, List, [], ◌∷◌, ◌≡◌, ◌↔◌, ◌⊎◌, inl, refl, arith, get_or,
}
use rushsocket.Base.Sets
use rushsocket.Cache
use rushsocket.Websocket.Events.Payload.{extract_data, text_field}
use rushsocket.Protocol.Json.{get_field}
use rushsocket.Protocol.Channels.{is_valid_channel_name, is_name_byte}
use rushsocket.Websocket.Connection.{write, send, send_raw}
use rushsocket.State.{send_subscription_count, on_conn, tell, hook}
use rushsocket.Base.Assoc
use rushsocket.Base.Assoc.{Assoc}
use rushsocket.Examples.{app, alice, news, ext, state_of}
use rushsocket.App.{default_app_config}
use rushsocket.App.Manager
use rushsocket.App.Manager.{StaticAppManager}
use rushsocket.Adapter.Local
use rushsocket.Adapter.Local.Apps.{apply_local}
use rushsocket.Adapter.Namespace.Histories.{joins}
use rushsocket.Adapter.Effects.{in_channel}
use rushsocket.App.{from_config, limit_to_usize}
use rushsocket.Auth.{sign, sign_http_request}
use rushsocket.Base.{str_eq, starts_with, strip_prefix}
use rushsocket.Http.Signature.{verify_http_signature, join_params, signed_params}
use rushsocket.Protocol.Channels.{from_name, from_name_no_cache, is_cache}
use rushsocket.RateLimit
use rushsocket.RateLimit.{check_backend_event, check_read_request}
use rushsocket.Http.Reads.{when_readable}
use rushsocket.Http.Trigger.{
  when_accepted, trigger_channels, trigger_events, channels_of, publish_all, publish,
}
use rushsocket.Http.Requests.{
  when_signed, when_intact, when_admitted, TriggerRequest, BatchEvent, Bodies, Reply, empty,
}
use rushsocket.Http.Outcomes.{Rejected}
use rushsocket.Http.Trigger.{trigger, trigger_batch}
use rushsocket.Http.Published.{Triggered, Batched, trigger_outcome, trigger_batch_outcome}
use rushsocket.Http.Trigger.Replay.{
  Change, stores, cleans_up, changed, spares, message, published, publish-handle,
}
use rushsocket.Http.Reads.{get_channel}
use rushsocket.Http.Answers.{get_channel_info-in_channel}
use rushsocket.Websocket.Connection.{WsConnection, is_subscribed}
use rushsocket.Websocket.Events.Subscribe
use rushsocket.Websocket.Events.Subscribe.{subscribe_kind, cache_key}
use rushsocket.Websocket.Events.Subscribe.Cached.{uncached}
use rushsocket.Externals.{ClientMessage}
use rushsocket.Protocol.Json.{object, field, string, end}
use rushsocket.State.{AppState, at, tell_raw}

abbrev manager : StaticAppManager
manager = Manager.new (default_app_config ∷ [])

abbrev event : TriggerRequest
event = record {
  name = bytes "greeting";
  payload = bytes "hi";
  channels = none;
  channel = some news;
  socket_id = none;
  info = none;
}

abbrev batch : List BatchEvent
batch =
    record {
      name = bytes "greeting";
      payload = bytes "hi";
      channel = news;
      socket_id = none;
      info = none;
    }
    ∷ []

abbrev bodies : Bodies
bodies = record {
  body_md5 = λ body. bytes "md5";
  parse_trigger = λ body. inl event;
  parse_batch = λ body. inl batch;
}

-- The parameters of a request that is signed for the method and the path.
abbrev signed : Str → Str → Assoc Str
signed method path =
    (bytes "auth_signature", app.secret ++ (method ++ (bytes "\n" ++ (path ++ bytes "\n")))) ∷ []

abbrev quiet : AppState
quiet = state_of (apply_local app.id (joins alice.socket_id news) [])

abbrev to_events : Assoc Str
to_events = signed (bytes "POST") (bytes "/apps/rushsocket-id/events")

abbrev triggered : Reply × AppState
triggered =
    get_or (trigger ext bodies manager app.id to_events [] quiet)
      (record { status = 0; body = empty }, quiet)

-- What the checks compute with.
unfoldable checks : Unit {0}
unfolding when_accepted when_readable when_signed when_intact when_admitted Manager.find_by_id
    Manager.new Manager.insert_apps Assoc.lookup Assoc.insert str_eq from_config limit_to_usize
    verify_http_signature join_params signed_params sign sign_http_request check_backend_event
    check_read_request RateLimit.check RateLimit.get_or_create trigger_channels channels_of
    trigger_events
checks = tt

triggers : trigger ext bodies manager app.id to_events [] quiet ≡ some triggered
unfolding checks trigger
triggers = refl

-- It is not an error.
is_ok : triggered.0.status ≡ 200
unfolding checks trigger publish_all publish
is_ok = refl

trigger_outcome_example :
    Rejected quiet triggered ⊎ Triggered ext bodies manager app.id to_events [] quiet triggered
trigger_outcome_example =
    trigger_outcome ext bodies manager app.id to_events [] quiet triggered triggers

abbrev to_batch : Assoc Str
to_batch = signed (bytes "POST") (bytes "/apps/rushsocket-id/batch_events")

abbrev batched : Reply × AppState
batched =
    get_or (trigger_batch ext bodies manager app.id to_batch [] quiet)
      (record { status = 0; body = empty }, quiet)

batches : trigger_batch ext bodies manager app.id to_batch [] quiet ≡ some batched
unfolding checks trigger_batch
batches = refl

trigger_batch_outcome_example :
    Rejected quiet batched ⊎ Batched ext bodies manager app.id to_batch [] quiet batched
trigger_batch_outcome_example =
    trigger_batch_outcome ext bodies manager app.id to_batch [] quiet batched batches

abbrev to_channel : Assoc Str
to_channel = signed (bytes "GET") (bytes "/apps/rushsocket-id/channels/news")

abbrev answered : Reply × AppState
answered =
    get_or (get_channel ext manager app.id to_channel news quiet)
      (record { status = 0; body = empty }, quiet)

answers : get_channel ext manager app.id to_channel news quiet ≡ some answered
unfolding checks get_channel
answers = refl

get_channel_info-in_channel_example :
    ((Local.get_channel_info app.id news quiet.adapter).occupied ≡ true)
    ↔ ((s : Str) × (in_channel app.id s news quiet.adapter ≡ true))
get_channel_info-in_channel_example = get_channel_info-in_channel app.id news quiet.adapter

-- A cache channel, and a client of an app that has caching enabled.
abbrev kept : Str
kept = bytes "cache-news"

is_kept : is_cache (from_name kept) ≡ true
unfolding from_name strip_prefix from_name_no_cache starts_with
is_kept = refl

abbrev reader : WsConnection
reader = record alice { app = record app { enable_cache_channels = true } }

abbrev to_kept : ClientMessage
to_kept = record {
  event = bytes "pusher:subscribe";
  payload = object (field (bytes "channel") (string kept) end);
  channel = none;
}

-- Another event goes out, and the clean-up task runs, before the client comes.
abbrev meanwhile : List Change
meanwhile = stores (bytes "cache:a:cache-b") (bytes "x") 1 5 ∷ cleans_up 6 ∷ []

unfoldable later : AppState
later = record quiet {
  cache =
      changed meanwhile
        (published ext reader (bytes "greeting") (bytes "hi") kept none quiet).cache;
  now = 7;
}

comes_in : is_subscribed kept (at reader (Subscribe.handle ext reader to_kept later)) ≡ true
unfolding Subscribe.handle later from_name strip_prefix from_name_no_cache starts_with Sets.contains
    extract_data text_field get_field str_eq is_valid_channel_name is_name_byte from_config
    subscribe_kind Subscribe.join_channel Subscribe.replay_cache Cache.get Assoc.lookup Sets.insert
    send_subscription_count on_conn tell tell_raw hook write send send_raw changed publish Cache.set
    Assoc.insert Cache.clean_up limit_to_usize cache_key Local.is_channel_globally_occupied
    Local.add_to_channel rushsocket.Adapter.Namespace.add_to_channel Assoc.entry
    Local.get_or_create_ns apply_local
comes_in = refl

publish-handle_example :
    Subscribe.handle ext reader to_kept later
    ≡ tell_raw ext reader (message ext reader (bytes "greeting") (bytes "hi") kept none quiet) (
        subscribe_kind ext
          (uncached (from_name kept))
          (field (bytes "channel") (string kept) end)
          reader
          kept
          later)
unfolding later spares cache_key str_eq changed from_config extract_data Sets.contains text_field
    get_field limit_to_usize
publish-handle_example =
    publish-handle ext reader (bytes "greeting") (bytes "hi") kept none later quiet meanwhile
      to_kept (field (bytes "channel") (string kept) end) is_kept refl (ground arith) refl refl refl
      refl refl comes_in
