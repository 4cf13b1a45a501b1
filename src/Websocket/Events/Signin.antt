-- ===== src/Websocket/Events/Signin.antt =====
-- src/websocket/events/signin.rs
pub mod Outcome
use rushsocket.Base.{Str, bytes, true, not, none, some, if◌then◌else◌, ◌>>=◌}
use rushsocket.Auth.{verify_signin_auth}
use rushsocket.Externals.{Externals, ClientMessage}
use rushsocket.Protocol.Json.{Json, get}
use rushsocket.Protocol.Messages.{error, signin_success}
use rushsocket.Websocket.Connection.{WsConnection}
use rushsocket.Websocket.Events.Payload.{extract_data, text_field}
use rushsocket.Websocket.Events.Subscribe.{id_text}
use rushsocket.Adapter.Local
use rushsocket.State.{AppState, on_conn, tell}

module _ (ext : Externals) where
  abbrev pub refuse : WsConnection → Str → AppState → AppState
  refuse conn reason st = tell ext conn (error ext reason 4009) st

  -- The connection's user, the adapter's table of users, and the answer.
  unfoldable pub accept : WsConnection → Str → Json → Str → AppState → AppState
  accept conn user_id user_data user_data_str st =
      let st1 =
        on_conn conn
          (λ c. record c {
            user = some (record { id = user_id; user_data = user_data });
            user_authenticated = true;
          })
          st in
      let st2 = record st1 {
        adapter = Local.add_user conn.app.id user_id conn.socket_id st1.adapter;
      } in
      tell ext conn (signin_success ext user_data_str) st2

  unfoldable pub verified : WsConnection → Str → AppState → AppState
  verified conn user_data_str st = elim (ext.parse user_data_str) [
    | none ↦ refuse conn (bytes "Invalid user_data JSON") st
    | some user_data ↦ elim (get (bytes "id") user_data >>= id_text) [
      | none ↦ refuse conn (bytes "user_data must contain id") st
      | some user_id ↦ accept conn user_id user_data user_data_str st
    ]
  ]

  unfoldable pub handle : WsConnection → ClientMessage → AppState → AppState
  handle conn msg st =
      if not conn.app.enable_user_authentication
      then refuse conn (bytes "User authentication is not enabled") st
      else elim (extract_data ext msg) [
        | none ↦ refuse conn (bytes "Invalid signin data") st
        | some obj ↦ elim (text_field (bytes "auth") obj) [
          | none ↦ refuse conn (bytes "No auth provided") st
          | some auth_str ↦ elim (text_field (bytes "user_data") obj) [
            | none ↦ refuse conn (bytes "No user_data provided") st
            | some user_data_str ↦
                if not (
                  verify_signin_auth ext.hex_hmac conn.app.key conn.app.secret conn.socket_id
                    user_data_str auth_str)
                then refuse conn (bytes "Signin authentication failed") st
                else verified conn user_data_str st
          ]
        ]
      ]
