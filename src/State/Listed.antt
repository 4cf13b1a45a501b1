-- ===== src/State/Listed.antt =====
-- The channels that the connections themselves list (`subscribed_channels` of
-- src/websocket/connection.rs), and which helpers of src/state.rs leave them alone.
use rushsocket.Base.{
  Str, Bool, true, false, ℕ, List, [], ◌∷◌, Option, some, ◌≡◌, refl, ◌∙◌, arith, ◌==◌,
  if◌then◌else◌, Bool-cases, Option-cases, inl, inr,
}
use rushsocket.Base.Assoc
use rushsocket.Base.Assoc.{Assoc}
use rushsocket.Externals.{Externals}
use rushsocket.Protocol.Messages.{ServerMessage, to_json}
use rushsocket.Websocket.Connection.{WsConnection, ConnState, Heap, write, send, send_raw}
use rushsocket.Webhook.{WebhookEvent}
use rushsocket.Adapter.Local
use rushsocket.Adapter.Namespace
use rushsocket.Adapter.Namespace.{send_one, send_each, is_excepted}
use rushsocket.State.{
  AppState, at, on_conn, hook, hook_if, send_subscription_count, tell, tell_raw, broadcast,
}

-- The list of the connection at an address.
abbrev pub listed : ℕ → AppState → List Str
listed q st = (st.heap q).subscribed_channels

pub listed-on_conn :
    (conn : WsConnection) (f : ConnState → ConnState) (q : ℕ) (st : AppState)
    → listed q (on_conn conn f st)
      ≡ (if conn.address == q then (f (at conn st)).subscribed_channels else listed q st)
unfolding on_conn write
listed-on_conn conn f q st = ground arith

pub listed-hook :
    (app_id : Str) (event : WebhookEvent) (q : ℕ) (st : AppState)
    → listed q (hook app_id event st) ≡ listed q st
unfolding hook
listed-hook app_id event q st = refl

pub listed-hook_if :
    (b : Bool) (app_id : Str) (event : WebhookEvent) (q : ℕ) (st : AppState)
    → listed q (hook_if b app_id event st) ≡ listed q st
listed-hook_if true app_id event q st = listed-hook app_id event q st
listed-hook_if false app_id event q st = refl

pub listed-send_subscription_count :
    (app_id channel : Str) (enabled : Bool) (q : ℕ) (st : AppState)
    → listed q (send_subscription_count app_id channel enabled st) ≡ listed q st
unfolding send_subscription_count hook
listed-send_subscription_count app_id channel enabled q st = ground arith

module _ (ext : Externals) where
  -- A write of a connection that lists the same channels.
  listed-write :
      (p : ℕ) (message : Str) (heap : Heap) (q : ℕ)
      → (write p (send_raw ext message (heap p)).0 heap q).subscribed_channels
        ≡ (heap q).subscribed_channels
  unfolding write send_raw
  listed-write p message heap q = ground arith

  pub listed-tell :
      (conn : WsConnection) (msg : ServerMessage) (q : ℕ) (st : AppState)
      → listed q (tell ext conn msg st) ≡ listed q st
  unfolding tell on_conn send
  listed-tell conn msg q st = listed-write conn.address (to_json ext msg) st.heap q

  pub listed-tell_raw :
      (conn : WsConnection) (json : Str) (q : ℕ) (st : AppState)
      → listed q (tell_raw ext conn json st) ≡ listed q st
  unfolding tell_raw on_conn
  listed-tell_raw conn json q st = listed-write conn.address json st.heap q

  listed-send_each :
      (sockets : Assoc WsConnection) (excepting_id : Option Str) (message : Str) (sids : List Str)
      (heap : Heap) (q : ℕ)
      → (send_each ext sockets excepting_id message sids heap q).subscribed_channels
        ≡ (heap q).subscribed_channels
  unfolding send_each send_one
  listed-send_each sockets excepting_id message [] heap q = refl
  listed-send_each sockets excepting_id message (sid ∷ sids) heap q =
      listed-send_each sockets excepting_id message sids
        (send_one ext sockets excepting_id message sid heap) q
      ∙ one
    where
      one :
          (send_one ext sockets excepting_id message sid heap q).subscribed_channels
          ≡ (heap q).subscribed_channels
      one = elim (Bool-cases (is_excepted excepting_id sid)) [
        | inl e ↦ rw (e, send_one) refl
        | inr e ↦ elim (Option-cases (Assoc.lookup sid sockets)) [
          | inl f ↦ rw (e, f, send_one) refl
          | inr (d, f) ↦ rw (e, f, send_one) (listed-write d.address message heap q)
        ]
      ]

  pub listed-send_to_channel :
      (app_id channel message : Str) (excepting_id : Option Str) (a : Local.LocalAdapter)
      (heap : Heap) (q : ℕ)
      → (Local.send_to_channel ext app_id channel message excepting_id a heap q).subscribed_channels
        ≡ (heap q).subscribed_channels
  unfolding Local.send_to_channel Namespace.send_to_channel
  listed-send_to_channel app_id channel message excepting_id a heap q =
      elim (Option-cases (Assoc.lookup app_id a)) [
        | inl e ↦ rw (e, Local.send_to_channel) refl
        | inr (ns, e) ↦ elim (Option-cases (Assoc.lookup channel ns.channels)) [
          | inl f ↦ rw (e, f, Local.send_to_channel, Namespace.send_to_channel) refl
          | inr (sids, f) ↦
              rw (e, f, Local.send_to_channel, Namespace.send_to_channel)
                (listed-send_each ns.sockets excepting_id message sids heap q)
        ]
      ]

  pub listed-broadcast :
      (app_id channel : Str) (msg : ServerMessage) (excepting : Str) (q : ℕ) (st : AppState)
      → listed q (broadcast ext app_id channel msg excepting st) ≡ listed q st
  unfolding broadcast
  listed-broadcast app_id channel msg excepting q st =
      listed-send_to_channel app_id channel (to_json ext msg) (some excepting) st.adapter st.heap q

pub ruleset listed_frames =
    (listed-hook, listed-send_subscription_count, listed-tell, listed-tell_raw, listed-broadcast)
