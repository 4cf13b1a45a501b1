-- ===== src/Websocket/Task/Endings.antt =====
-- Where a connection's task ends (`run_connection` of src/websocket/mod.rs).
use rushsocket.Base.{
  Bool, true, false, not, Option, none, some, ℕ, ◌≤◌, List, ◌≡◌, arith, Bool-cases, str_eq_refl,
  inl, inr, ◌>>=◌,
}
use rushsocket.Base.Int.{ℤ}
use rushsocket.Externals.{Externals}
use rushsocket.Websocket.Connection.{WsConnection}
use rushsocket.Websocket.Lifecycle.Close.{found, found-remove_socket, on_close_socket}
use rushsocket.Websocket.Task.{
  Event, Outcome, running, ended, run_loop, finish, register, run_connection,
}
use rushsocket.Websocket.Task.Deadlines.{all_silent, deadlines, has_ended, silent-Ends}
use rushsocket.Adapter.Local
use rushsocket.Adapter.Local.{LocalAdapter, get_or_create_ns}
use rushsocket.Adapter.Local.Apps.{apply_local, apply_local-Acts}
use rushsocket.Adapter.Namespace
use rushsocket.Adapter.Namespace.{Namespace}
use rushsocket.Adapter.Namespace.Histories.{tries_socket, apply}
use rushsocket.State.{AppState}

-- A refused connection is not put into the table.
refused-sockets :
    (conn : WsConnection) (limit : ℤ) (ns : Namespace)
    → (Namespace.try_add_socket conn limit ns).1 ≡ false
    → (Namespace.try_add_socket conn limit ns).0.sockets ≡ ns.sockets
unfolding Namespace.try_add_socket
refused-sockets conn limit ns h = ground (arith, h)

module _ (ext : Externals) (conn : WsConnection) where
  -- The task has ended, and its socket is not in the app's table.
  abbrev pub IsGone : Option (Outcome ext conn) → Type 0
  IsGone (some (ended sent st)) = found ext conn st.adapter ≡ none
  IsGone _ = ⊥

  refused-found :
      (st : AppState)
      → found ext conn st.adapter ≡ none
      → (register ext conn st).1 ≡ false
      → found ext conn (register ext conn st).0.adapter ≡ none
  unfolding register apply_local apply Local.try_add_socket
  refused-found st h r =
      rw
        (
          apply_local-Acts conn.app.id (tries_socket conn conn.app.max_connections) st.adapter
              conn.app.id,
          str_eq_refl conn.app.id,
          refused-sockets conn conn.app.max_connections (get_or_create_ns conn.app.id st.adapter) r,
        )
        h

  finished-IsGone :
      (o : Option (Outcome ext conn))
      → has_ended ext conn o ≡ true
      → IsGone (do outcome ← o; some (finish ext conn outcome))
  unfolding finish
  finished-IsGone none h = ground arith
  finished-IsGone (some (running sent st)) h = ground arith
  finished-IsGone (some (ended sent st)) h = on_close_socket ext conn st

  -- If the client's socket is not in its app's table, and the client neither speaks nor hangs up
  -- while at least two deadlines pass: the task of the connection ends, without a panic, and the
  -- socket is not in the table then.
  pub run_connection-IsGone :
      (activity_timeout : ℕ) (established : Bool) (events : List Event) (st : AppState)
      → found ext conn st.adapter ≡ none
      → all_silent events ≡ true
      → 2 ≤ deadlines events
      → IsGone (run_connection ext conn activity_timeout established events st)
  unfolding run_connection
  run_connection-IsGone activity_timeout established events st f s d =
      elim (Bool-cases (register ext conn st).1) [
        | inr e ↦ rw (e, run_connection) (refused-found st f e)
        | inl e ↦ elim (Bool-cases (not established)) [
          | inl g ↦ rw (e, g, run_connection) (found-remove_socket ext conn _)
          | inr g ↦
              rw (e, g, run_connection)
                (finished-IsGone (run_loop ext conn events _ _)
                  (silent-Ends ext conn events s _ _ (ground arith)))
        ]
      ]
