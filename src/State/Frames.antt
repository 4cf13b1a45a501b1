-- ===== src/State/Frames.antt =====
-- What the helpers of src/state.rs leave alone: none of them changes the adapter.
use rushsocket.Base.{Str, Bool, true, false, ◌≡◌, refl, arith}
use rushsocket.Externals.{Externals}
use rushsocket.Protocol.Messages.{ServerMessage}
use rushsocket.Websocket.Connection.{WsConnection, ConnState}
use rushsocket.Webhook.{WebhookEvent}
use rushsocket.State.{
  AppState, on_conn, hook, hook_if, send_subscription_count, tell, tell_raw, broadcast,
}

pub adapter-on_conn :
    (conn : WsConnection) (f : ConnState → ConnState) (st : AppState)
    → (on_conn conn f st).adapter ≡ st.adapter
unfolding on_conn
adapter-on_conn conn f st = refl

pub adapter-hook :
    (app_id : Str) (event : WebhookEvent) (st : AppState)
    → (hook app_id event st).adapter ≡ st.adapter
unfolding hook
adapter-hook app_id event st = refl

pub adapter-hook_if :
    (b : Bool) (app_id : Str) (event : WebhookEvent) (st : AppState)
    → (hook_if b app_id event st).adapter ≡ st.adapter
adapter-hook_if true app_id event st = adapter-hook app_id event st
adapter-hook_if false app_id event st = refl

pub adapter-send_subscription_count :
    (app_id channel : Str) (enabled : Bool) (st : AppState)
    → (send_subscription_count app_id channel enabled st).adapter ≡ st.adapter
unfolding send_subscription_count hook
adapter-send_subscription_count app_id channel enabled st = ground arith

module _ (ext : Externals) where
  pub adapter-tell :
      (conn : WsConnection) (msg : ServerMessage) (st : AppState)
      → (tell ext conn msg st).adapter ≡ st.adapter
  unfolding tell on_conn
  adapter-tell conn msg st = refl

  pub adapter-tell_raw :
      (conn : WsConnection) (json : Str) (st : AppState)
      → (tell_raw ext conn json st).adapter ≡ st.adapter
  unfolding tell_raw on_conn
  adapter-tell_raw conn json st = refl

  pub adapter-broadcast :
      (app_id channel : Str) (msg : ServerMessage) (excepting : Str) (st : AppState)
      → (broadcast ext app_id channel msg excepting st).adapter ≡ st.adapter
  unfolding broadcast
  adapter-broadcast app_id channel msg excepting st = refl

pub ruleset frames = (
  adapter-on_conn, adapter-hook, adapter-send_subscription_count, adapter-tell, adapter-tell_raw,
  adapter-broadcast,
)
