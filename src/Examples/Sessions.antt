-- ===== src/Examples/Sessions.antt =====
-- Connections of src/websocket on concrete events.
use rushsocket.Base.{bytes, str_eq, false, true, none, some, [], ◌∷◌, ◌≡◌, ◌⊎◌, refl, arith, get_or}
use rushsocket.Base.Assoc
use rushsocket.Base.Sets
use rushsocket.Examples.{app, alice, news, subscribe_text, ext, state_of}
use rushsocket.App.Manager
use rushsocket.App.Manager.{StaticAppManager, find_by_key}
use rushsocket.Websocket.Connection.{write, should_close}
use rushsocket.Websocket.Task.{text, deadline, register, receive, round, run_connection}
use rushsocket.Websocket.Task.Admission.{arrived, Enters, StaysOut, arrive_outcome}
use rushsocket.Websocket.Task.Endings.{IsGone, run_connection-IsGone}
use rushsocket.Websocket.Task.Rounds.{Round, EventGrants, round-Round}
use rushsocket.Websocket.Sessions.{
  World, IsFresh, enters, goes_on, Reach, here, next, IsStart, put, with_shared,
}
use rushsocket.Websocket.Sessions.Sound.{IsSound}
use rushsocket.Websocket.Sessions.Steps.{Reach-IsSound}
use rushsocket.Websocket.Sessions.Granted.{Granted, Reach-Granted}
use rushsocket.Adapter.Local
use rushsocket.Adapter.Local.{get_or_create_ns}
use rushsocket.Adapter.Namespace
use rushsocket.Adapter.Effects.{AllMirrored, in_channel}
use rushsocket.App.{from_config, default_app_config}
use rushsocket.Websocket.Lifecycle.{on_message, dispatch}
use rushsocket.Websocket.Lifecycle.Close.{found}
use rushsocket.Protocol.Json
use rushsocket.Protocol.Channels.{
  from_name, from_name_no_cache, is_valid_channel_name, is_name_byte,
}
use rushsocket.Adapter.Namespace.{shared_id}
use rushsocket.Adapter.Namespace.Membership.{subscribed}
use rushsocket.Websocket.Connection.{send, send_raw}
use rushsocket.Websocket.Events.Subscribe
use rushsocket.Websocket.Events.Subscribe.{subscribe_kind, join_channel}
use rushsocket.Websocket.Events.Payload.{extract_data, text_field}
use rushsocket.Base.{starts_with, strip_prefix}
use rushsocket.State.{send_subscription_count, tell, on_conn, hook}
use rushsocket.State.{at, AppState}

abbrev start : World
start = record { shared = state_of []; live = λ p. none }

start-IsStart : IsStart start
start-IsStart = (refl, λ p. refl)

-- Alice is connected.
abbrev connected : World
connected = record {
  shared = (register ext alice start.shared).0;
  live = put alice.address (some alice) start.live;
}

alice-IsFresh : IsFresh alice start
alice-IsFresh = record { unused = refl; unique = λ q other h. ground (arith, h) }

alice_admitted : (register ext alice start.shared).1 ≡ true
unfolding register Local.try_add_socket Namespace.try_add_socket from_config
alice_admitted = refl

alice_live : connected.live alice.address ≡ some alice
unfolding put
alice_live = refl

-- And has subscribed.
abbrev subscribed_state : AppState
subscribed_state =
    (get_or (round ext alice (text subscribe_text) [] connected.shared)
      (true, [], connected.shared)).2

subscribes :
    round ext alice (text subscribe_text) [] connected.shared ≡ some (true, [], subscribed_state)
unfolding round receive from_config on_message str_eq dispatch
subscribes = refl

-- She is still to be open.
alice_open : should_close (at alice connected.shared) ≡ false
unfolding register write
alice_open = refl

history : Reach ext start (with_shared subscribed_state connected)
history = next (next here (enters alice start alice-IsFresh alice_admitted)) (
    goes_on alice (text subscribe_text) [] [] subscribed_state connected alice_live alice_open
      subscribes)

Reach-IsSound_example : IsSound (with_shared subscribed_state connected)
Reach-IsSound_example =
    Reach-IsSound ext start (with_shared subscribed_state connected) start-IsStart history

is_in : in_channel app.id alice.socket_id news subscribed_state.adapter ≡ true
unfolding in_channel subscribed Sets.contains Assoc.entry Assoc.lookup get_or_create_ns round
    receive register from_config on_message str_eq dispatch Subscribe.handle extract_data text_field
    Json.get_field subscribe_kind join_channel send_subscription_count tell on_conn hook send
    send_raw starts_with Local.add_to_channel Namespace.add_to_channel Local.try_add_socket
    Namespace.try_add_socket shared_id Assoc.insert Sets.insert write from_name from_name_no_cache
    strip_prefix is_valid_channel_name is_name_byte Local.is_channel_globally_occupied
is_in = refl

Reach-Granted_example : Granted ext app.id alice.socket_id news history
Reach-Granted_example =
    Reach-Granted ext app.id alice.socket_id news start (with_shared subscribed_state connected)
      history start-IsStart is_in

connected-AllMirrored : AllMirrored connected.shared.adapter
connected-AllMirrored =
    (Reach-IsSound ext start connected start-IsStart
      (next here (enters alice start alice-IsFresh alice_admitted))).mirrored

round-Round_example :
    Round alice (EventGrants ext alice (text subscribe_text)) connected.shared subscribed_state
round-Round_example =
    round-Round ext alice (text subscribe_text) [] connected.shared true [] subscribed_state
      connected-AllMirrored subscribes

not_found : found ext alice start.shared.adapter ≡ none
unfolding get_or_create_ns Assoc.lookup
not_found = refl

run_connection-IsGone_example :
    IsGone ext alice
      (run_connection ext alice 120 true (deadline true ∷ deadline true ∷ []) start.shared)
run_connection-IsGone_example =
    run_connection-IsGone ext alice 120 true (deadline true ∷ deadline true ∷ []) start.shared
      not_found refl (ground arith)

abbrev manager : StaticAppManager
manager = Manager.new (default_app_config ∷ [])

arrive_outcome_example :
    ((arrived ext manager false app.key none (bytes "7.7") 7 start.shared).1 ≡ true)
      × Enters ext manager false app.key none (bytes "7.7") 7 start.shared
    ⊎ ((arrived ext manager false app.key none (bytes "7.7") 7 start.shared).1 ≡ false)
      × StaysOut ext manager false app.key none (bytes "7.7") 7 start.shared
arrive_outcome_example = arrive_outcome ext manager false app.key none (bytes "7.7") 7 start.shared
