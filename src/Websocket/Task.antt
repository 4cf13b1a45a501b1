-- ===== src/Websocket/Task.antt =====
-- The task of a connection (`handle_socket` and `run_connection` of src/websocket/mod.rs). What the
-- client, the queue and the clock do is a list of events; whether the socket takes a frame is part of
-- the event. Frames that are written to the socket are collected in `sent`.
pub mod Rounds
pub mod Deadlines
pub mod Endings
pub mod Admission
use rushsocket.Base.{
  Str, bytes, Bool, true, false, not, Option, none, some, ℕ, ◌*◌, ◌%◌, ◌^◌, ◌++◌, length, ltb, List,
  [], ◌∷◌, if◌then◌else◌, ◌>>=◌,
}
use rushsocket.Externals.{Externals}
use rushsocket.App.{App}
use rushsocket.App.Manager.{StaticAppManager, find_by_key}
use rushsocket.Protocol.Messages.{ServerMessage, error, connection_established, to_json, ping_json}
use rushsocket.Websocket.Origins.{validate_origin}
use rushsocket.Websocket.Connection
use rushsocket.Websocket.Connection.{
  WsConnection, ConnState, write, should_close, is_stale, mark_pinged, clear_pinged,
}
use rushsocket.Websocket.Lifecycle.{on_message, on_close}
use rushsocket.Adapter.Local
use rushsocket.State.{AppState, is_closing, at, on_conn, tell}

-- Dropped without a word, turned away with a message, or let in to an app.
pub data Entry : Type 0 where
  dropped : Entry
  turned_away : ServerMessage → Entry
  let_in : App → Entry

-- `memory_full` is the comparison of the memory in use with the threshold, both floats.
unfoldable pub handle_socket :
    Externals → StaticAppManager → Bool → Str → Option Str → AppState → Entry
handle_socket ext manager memory_full key origin st =
    if is_closing st then dropped else elim (find_by_key key manager) [
      | none ↦ turned_away (error ext (bytes "Could not find app") 4001)
      | some app ↦
          if not app.enabled
          then turned_away (error ext (bytes "Application is disabled") 4003)
          else if not (validate_origin origin app.allowed_origins)
          then turned_away (error ext (bytes "Origin not allowed") 4009)
          else if memory_full
          then turned_away (error ext (bytes "Memory usage too high") 4009)
          else let_in app
    ]

-- A message of the client, with whether its bytes are UTF-8 if it is binary; a pong or ping frame;
-- the end of the stream; the next message of the queue; the deadline.
pub data Event : Type 0 where
  text : Str → Event
  binary : Str → Bool → Event
  pong_frame stream_end : Event
  outgoing deadline : Bool → Event

unfoldable pub pop_outbox : ConnState → ConnState
pop_outbox c = elim c.outbox [ [] ↦ c | m ∷ rest ↦ record c { outbox = rest } ]

module _ (ext : Externals) (conn : WsConnection) where
  -- A message, and the answer to one that is too large; `none` is a panic of the rate limiter.
  unfoldable pub receive : Str → Bool → List Str → AppState → Option (Bool × List Str × AppState)
  receive message is_utf8 sent st =
      if ltb (conn.app.max_message_size_in_kb * 1024) (length message)
      then some (false, sent, tell ext conn (error ext (bytes "Message too large") 4009) st)
      else let st1 = on_conn conn clear_pinged st in
        if is_utf8
        then (do st2 ← on_message ext conn message st1; some (true, sent, st2))
        else some (true, sent, st1)

  -- One round of the loop behind its test: whether it goes on, the frames, and the state.
  unfoldable pub round : Event → List Str → AppState → Option (Bool × List Str × AppState)
  round (text message) sent st = receive message true sent st
  round (binary message is_utf8) sent st = receive message is_utf8 sent st
  round pong_frame sent st = some (true, sent, on_conn conn clear_pinged st)
  round stream_end sent st = some (false, sent, st)
  round (outgoing ok) sent st = elim (at conn st).outbox [
    | [] ↦ some (true, sent, st)
    | message ∷ rest ↦
        some (ok, (if ok then sent ++ message ∷ [] else sent), on_conn conn pop_outbox st)
  ]
  round (deadline ok) sent st =
      if is_stale (at conn st)
      then (let reason = to_json ext (error ext (bytes "Pong reply not received") 4201) in
          some (false, (if ok then sent ++ reason ∷ [] else sent), st))
      else some (ok, (if ok then sent ++ ping_json ∷ [] else sent), on_conn conn mark_pinged st)

  -- The loop is still running, or it has ended.
  pub data Outcome : Type 0 where
    running ended : List Str → AppState → Outcome

  unfoldable pub run_loop : List Event → List Str → AppState → Option Outcome
  run_loop [] sent st = some (if should_close (at conn st) then ended sent st else running sent st)
  run_loop (event ∷ events) sent st = if should_close (at conn st) then some (ended sent st) else do
    next ← round event sent st
    if next.0 then run_loop events next.1 next.2 else some (ended next.1 next.2)

  -- What follows the loop.
  unfoldable pub finish : Outcome → Outcome
  finish (running sent st) = running sent st
  finish (ended sent st) = ended sent (on_close ext conn st)

  -- A new cell for the connection, and the reservation of its slot.
  unfoldable pub register : AppState → AppState × Bool
  register st =
      let r = Local.try_add_socket conn.app.id conn conn.app.max_connections st.adapter in
      (record st { adapter = r.0; heap = write conn.address Connection.new st.heap }, r.1)

  unfoldable pub run_connection : ℕ → Bool → List Event → AppState → Option Outcome
  run_connection activity_timeout established events st =
      let (st1, admitted) = register st in
      if not admitted
      then some (ended (to_json ext (error ext (bytes "Over connection quota") 4100) ∷ []) st1)
      else if not established
      then some (
          ended [] (record st1 {
            adapter = (Local.remove_socket conn.app.id conn.socket_id st1.adapter).0;
          }))
      else do
        let hello =
            to_json ext (connection_established ext conn.socket_id (activity_timeout % 2 ^ 32))
        outcome ← run_loop events (hello ∷ []) st1
        some (finish outcome)

-- The end of `handle_socket`: a client that is let in becomes a connection, with a new socket id and
-- a new address, and tries to register.
unfoldable pub arrive :
    Externals → StaticAppManager → Bool → Str → Option Str → Str → ℕ → AppState → AppState × Bool
arrive ext manager memory_full key origin socket_id address st =
    elim (handle_socket ext manager memory_full key origin st) [
      | dropped ↦ (st, false)
      | turned_away message ↦ (st, false)
      | let_in app ↦
          register ext (record { socket_id = socket_id; app = app; address = address }) st
    ]
