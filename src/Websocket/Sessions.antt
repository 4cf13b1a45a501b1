-- ===== src/Websocket/Sessions.antt =====
-- All connections of a node together: the tasks of src/websocket/mod.rs, one to a connection, take
-- turns on the shared state of src/state.rs, a whole round at a time, and requests to the routes of
-- src/http/routes that publish events or terminate users come in between.
pub mod Sound
pub mod Leaving
pub mod Entering
pub mod Steps
pub mod Granted
use rushsocket.Base.{
  [], Str, Bool, true, false, Option, none, some, ℕ, ◌≤◌, List, ◌≡◌, ◌==◌, if◌then◌else◌,
}
use rushsocket.Base.Assoc.{Assoc}
use rushsocket.App.Manager.{StaticAppManager}
use rushsocket.Http.Requests.{Bodies, Reply}
use rushsocket.Http.Trigger.{trigger, trigger_batch}
use rushsocket.Http.Terminate.{terminate}
use rushsocket.Externals.{Externals}
use rushsocket.Websocket.Connection
use rushsocket.Websocket.Connection.{WsConnection, should_close}
use rushsocket.Websocket.Lifecycle.{on_close}
use rushsocket.Websocket.Task.{Event, round, register}
use rushsocket.Adapter.Effects.Channels.{own}
use rushsocket.Adapter.Local
use rushsocket.State.{AppState, at, set_closing}

-- The shared state, and the connections whose tasks are in their loops, by the address of their cells.
pub record World : Type 0 where
  pub shared : AppState
  pub live : ℕ → Option WsConnection

unfoldable pub put : ℕ → Option WsConnection → (ℕ → Option WsConnection) → ℕ → Option WsConnection
put p c live q = if p == q then c else live q

-- The cell is not in use, and no connection of the app has the socket id (which is drawn at random).
pub record IsFresh (conn : WsConnection) (w : World) : Type 0 where
  pub unused : w.live conn.address ≡ none
  pub unique :
      (q : ℕ) (other : WsConnection)
      → w.live q ≡ some other
      → own conn.app.id conn.socket_id other.app.id other.socket_id ≡ false

abbrev pub with_shared : AppState → World → World
with_shared st w = record w { shared = st }

module _ (ext : Externals) where
  -- The connection leaves its loop.
  abbrev pub left_by : WsConnection → AppState → World → World
  left_by conn st w = record { shared = on_close ext conn st; live = put conn.address none w.live }

  pub data Step : World → World → Type 0 where
    enters :
        (conn : WsConnection) (w : World)
        → IsFresh conn w
        → (register ext conn w.shared).1 ≡ true
        → Step w (record {
          shared = (register ext conn w.shared).0;
          live = put conn.address (some conn) w.live;
        })
    over_quota :
        (conn : WsConnection) (w : World)
        → IsFresh conn w
        → (register ext conn w.shared).1 ≡ false
        → Step w (with_shared (register ext conn w.shared).0 w)
    not_greeted :
        (conn : WsConnection) (w : World)
        → IsFresh conn w
        → (register ext conn w.shared).1 ≡ true
        → Step w (
            with_shared
              (record (register ext conn w.shared).0 {
                adapter =
                    (Local.remove_socket conn.app.id conn.socket_id
                      (register ext conn w.shared).0.adapter).0;
              })
              w)
    goes_on :
        (conn : WsConnection) (event : Event) (sent sent' : List Str) (st : AppState) (w : World)
        → w.live conn.address ≡ some conn
        → should_close (at conn w.shared) ≡ false
        → round ext conn event sent w.shared ≡ some (true, sent', st)
        → Step w (with_shared st w)
    breaks_off :
        (conn : WsConnection) (event : Event) (sent sent' : List Str) (st : AppState) (w : World)
        → w.live conn.address ≡ some conn
        → should_close (at conn w.shared) ≡ false
        → round ext conn event sent w.shared ≡ some (false, sent', st)
        → Step w (left_by conn st w)
    is_closed :
        (conn : WsConnection) (w : World)
        → w.live conn.address ≡ some conn
        → should_close (at conn w.shared) ≡ true
        → Step w (left_by conn w.shared w)
    elapses :
        (now : ℕ) (w : World)
        → w.shared.now ≤ now
        → Step w (with_shared (record w.shared { now = now }) w)
    triggered :
        (bodies : Bodies) (manager : StaticAppManager) (app_id : Str) (params : Assoc Str)
        (body : Str) (r : Reply × AppState) (w : World)
        → trigger ext bodies manager app_id params body w.shared ≡ some r
        → Step w (with_shared r.1 w)
    batch_triggered :
        (bodies : Bodies) (manager : StaticAppManager) (app_id : Str) (params : Assoc Str)
        (body : Str) (r : Reply × AppState) (w : World)
        → trigger_batch ext bodies manager app_id params body w.shared ≡ some r
        → Step w (with_shared r.1 w)
    terminated :
        (manager : StaticAppManager) (app_id user_id : Str) (params : Assoc Str) (w : World)
        → Step w (with_shared (terminate ext manager app_id user_id params w.shared).1 w)
    shuts_down : (w : World) → Step w (with_shared (set_closing w.shared) w)

  pub data Reach (start : World) : World → Type 0 where
    here : Reach start start
    next : {w w' : World} → Reach start w → Step w w' → Reach start w'

-- No apps, no connections.
abbrev pub IsStart : World → Type 0
IsStart w = (w.shared.adapter ≡ []) × ((p : ℕ) → w.live p ≡ none)
