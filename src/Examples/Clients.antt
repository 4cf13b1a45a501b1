-- ===== src/Examples/Clients.antt =====
-- The handlers of src/websocket on concrete messages.
use rushsocket.Base.{false, str_eq, some, true, refl, not, ◌&&◌, ◌≡◌, ◌⊎◌, [], get_or, arith}
use rushsocket.Examples.{app, alice, bob, news, subscribe_text, hello, ext, state_of}
use rushsocket.Base.Assoc
use rushsocket.Protocol.Json
use rushsocket.Protocol.Channels.{is_name_byte}
use rushsocket.App.{from_config}
use rushsocket.Websocket.Connection
use rushsocket.Websocket.Connection.{add_channel}
use rushsocket.RateLimit
use rushsocket.RateLimit.{check_client_event, check, get_or_create}
use rushsocket.Websocket.Events.ClientEvents.{forward, is_barred}
use rushsocket.Websocket.Events.ClientEvents.Outcome.{
  Allowed, Forwarded, Refused, handle_outcome, handle-Allowed,
}
use rushsocket.Websocket.Events.Payload.{estimate_json_size}
use rushsocket.Base.Sets
use rushsocket.Websocket.Events.Subscribe
use rushsocket.Websocket.Events.Subscribe.{subscribe_kind, join_channel}
use rushsocket.Websocket.Events.Payload.{extract_data, text_field}
use rushsocket.Adapter.Local
use rushsocket.Adapter.Namespace
use rushsocket.State.{send_subscription_count, tell, on_conn, hook}
use rushsocket.Websocket.Connection.{send, send_raw, write}
use rushsocket.Websocket.Lifecycle.{dispatch}
use rushsocket.Base.{starts_with, strip_prefix}
use rushsocket.Adapter.Namespace.Membership.{subscribed}
use rushsocket.Adapter.Namespace.{shared_id}
use rushsocket.Protocol.Channels.{from_name, from_name_no_cache, is_valid_channel_name}
use rushsocket.State.{AppState}
use rushsocket.Adapter.Local.{LocalAdapter, get_or_create_ns, get_ns}
use rushsocket.Adapter.Local.Apps.{apply_local}
use rushsocket.Adapter.Namespace.Histories.{adds_socket, joins}
use rushsocket.Adapter.Namespace.Invariant.{new-IsMirrored}
use rushsocket.Adapter.Effects.{AllMirrored, apply_local-AllMirrored, in_channel}
use rushsocket.Websocket.Lifecycle.{dispatch, on_message, on_close}
use rushsocket.Websocket.Lifecycle.Grants.{TextGrants, on_message-Others, on_message_grants}
use rushsocket.Websocket.Lifecycle.Close.{on_close_subscriptions}

empty-AllMirrored : AllMirrored []
unfolding get_or_create_ns Assoc.lookup
empty-AllMirrored j = new-IsMirrored

-- Alice is connected.
abbrev connected : LocalAdapter
connected = apply_local app.id (adds_socket alice) []

connected-AllMirrored : AllMirrored connected
connected-AllMirrored =
    apply_local-AllMirrored alice (λ c. ⊥) (adds_socket alice) [] empty-AllMirrored

-- Alice is in the channel.
abbrev joined : LocalAdapter
joined = apply_local app.id (joins alice.socket_id news) connected

joined-AllMirrored : AllMirrored joined
joined-AllMirrored =
    apply_local-AllMirrored alice (λ c. ⊥) (joins alice.socket_id news) connected
      connected-AllMirrored

abbrev before : AppState
before = state_of connected

abbrev after : AppState
after = get_or (on_message ext alice subscribe_text before) before

subscribes : on_message ext alice subscribe_text before ≡ some after
unfolding on_message dispatch Subscribe.handle extract_data text_field subscribe_kind join_channel
    send_subscription_count tell on_conn hook send send_raw in_channel str_eq starts_with subscribed
    get_or_create_ns Local.add_to_channel Namespace.add_to_channel Local.add_socket
    Namespace.add_socket shared_id apply_local Assoc.lookup Assoc.insert Assoc.entry Sets.insert
    Sets.contains write from_name from_name_no_cache strip_prefix is_valid_channel_name
    Local.is_channel_globally_occupied
subscribes = refl

is_in : in_channel app.id alice.socket_id news after.adapter ≡ true
unfolding on_message dispatch Subscribe.handle extract_data text_field subscribe_kind join_channel
    send_subscription_count tell on_conn hook send send_raw in_channel str_eq starts_with subscribed
    get_or_create_ns Local.add_to_channel Namespace.add_to_channel Local.add_socket
    Namespace.add_socket shared_id apply_local Assoc.lookup Assoc.insert Assoc.entry Sets.insert
    Sets.contains write from_name from_name_no_cache strip_prefix is_valid_channel_name
    Local.is_channel_globally_occupied Json.get_field is_name_byte from_config
is_in = refl

on_message_grants_example :
    (in_channel app.id alice.socket_id news before.adapter ≡ true)
    ⊎ ((app.id ≡ app.id)
        × (alice.socket_id ≡ alice.socket_id)
        × TextGrants ext alice subscribe_text news)
on_message_grants_example =
    on_message_grants ext alice subscribe_text before after app.id alice.socket_id news
      connected-AllMirrored subscribes is_in

on_close_subscriptions_example :
    in_channel app.id alice.socket_id news (on_close ext alice (state_of joined)).adapter ≡ (
      not (str_eq app.id app.id && str_eq alice.socket_id alice.socket_id)
      && in_channel app.id alice.socket_id news joined)
on_close_subscriptions_example =
    on_close_subscriptions ext alice (state_of joined) app.id alice.socket_id news
      joined-AllMirrored

-- Bob is in the channel, as far as his connection knows.
abbrev talking : AppState
talking = record (state_of []) {
  heap = write bob.address (add_channel news Connection.new) (λ p. Connection.new);
}

allowed : Allowed ext bob hello news RateLimit.new talking
unfolding str_eq is_barred Sets.contains check_client_event from_config write Sets.insert check
    get_or_create starts_with estimate_json_size
allowed = record {
  enabled = refl;
  named = refl;
  subscribed = refl;
  open_to = refl;
  admitted = refl;
  prefixed = refl;
  short = ground arith;
  small = ground arith;
}

handle_outcome_example :
    Forwarded ext bob hello talking
      (forward ext bob hello news (record talking { rate_limiter = RateLimit.new }))
    ⊎ Refused ext bob hello talking
        (forward ext bob hello news (record talking { rate_limiter = RateLimit.new }))
handle_outcome_example =
    handle_outcome ext bob hello talking
      (forward ext bob hello news (record talking { rate_limiter = RateLimit.new }))
      (handle-Allowed ext bob hello talking news RateLimit.new allowed)

another : (str_eq app.id app.id && str_eq alice.socket_id bob.socket_id) ≡ false
unfolding str_eq from_config
another = refl

on_message-Others_example :
    in_channel app.id bob.socket_id news after.adapter
    ≡ in_channel app.id bob.socket_id news before.adapter
on_message-Others_example =
    on_message-Others ext alice subscribe_text before after app.id bob.socket_id news
      connected-AllMirrored subscribes another
