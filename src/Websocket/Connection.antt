-- ===== src/Websocket/Connection.antt =====
-- src/websocket/connection.rs. A connection is shared between its own task, the adapter's maps and
-- the tasks that send to it, so it is two things here: the handle with the fields that never change
-- (`WsConnection`), and the cell with those that do (`ConnState`), which stands in a heap at the
-- address that the handle holds. Every `Arc` of a connection is the same handle.
use rushsocket.Base.{
  arith, ◌≡◌, ◌≢◌, Str, Bool, true, false, Option, none, ℕ, List, [], ◌∷◌, ◌++◌, if◌then◌else◌,
  ◌==◌,
}
use rushsocket.Base.Assoc
use rushsocket.Base.Assoc.{Assoc}
use rushsocket.Base.Sets
use rushsocket.App.{App}
use rushsocket.Externals.{Externals}
use rushsocket.Protocol.Json.{Json}
use rushsocket.Protocol.Messages.{ServerMessage, to_json}

pub record UserInfo : Type 0 where
  pub id : Str
  pub user_data : Json

pub record WsConnection : Type 0 where
  pub socket_id : Str
  pub app : App
  pub address : ℕ

-- `outbox` holds the messages in the channel behind `tx` that the connection's task has not taken.
pub record ConnState : Type 0 where
  pub outbox : List Str
  pub subscribed_channels : List Str
  pub presence : Assoc (Str × Json)
  pub user : Option UserInfo
  pub user_authenticated : Bool
  pub pinged : Bool
  pub force_close : Bool

abbrev pub new : ConnState
new = record {
  outbox = [];
  subscribed_channels = [];
  presence = [];
  user = none;
  user_authenticated = false;
  pinged = false;
  force_close = false;
}

module _ (ext : Externals) where
  unfoldable pub send_raw : Str → ConnState → ConnState × Bool
  send_raw json c =
      if ext.has_room c.outbox
      then (record c { outbox = c.outbox ++ json ∷ [] }, true)
      else (record c { force_close = true }, false)

  unfoldable pub send : ServerMessage → ConnState → ConnState × Bool
  send msg c = send_raw (to_json ext msg) c

abbrev pub should_close : ConnState → Bool
should_close c = c.force_close

abbrev pub force_closed : ConnState → ConnState
force_closed c = record c { force_close = true }

abbrev pub mark_pinged : ConnState → ConnState
mark_pinged c = record c { pinged = true }

abbrev pub clear_pinged : ConnState → ConnState
clear_pinged c = record c { pinged = false }

abbrev pub is_stale : ConnState → Bool
is_stale c = c.pinged

abbrev pub add_channel : Str → ConnState → ConnState
add_channel channel c = record c { subscribed_channels = Sets.insert channel c.subscribed_channels }

abbrev pub remove_channel : Str → ConnState → ConnState
remove_channel channel c = record c {
  subscribed_channels = Sets.remove channel c.subscribed_channels;
}

abbrev pub is_subscribed : Str → ConnState → Bool
is_subscribed channel c = Sets.contains channel c.subscribed_channels

abbrev pub get_channels : ConnState → List Str
get_channels c = c.subscribed_channels

abbrev pub set_presence : Str → Str → Json → ConnState → ConnState
set_presence channel user_id user_info c = record c {
  presence = Assoc.insert channel (user_id, user_info) c.presence;
}

-- The entry that was removed, and the connection without it.
abbrev pub remove_presence : Str → ConnState → ConnState × Option (Str × Json)
remove_presence channel c =
    (record c { presence = Assoc.remove channel c.presence }, Assoc.lookup channel c.presence)

abbrev pub get_presence : Str → ConnState → Option (Str × Json)
get_presence channel c = Assoc.lookup channel c.presence

-- The cells of all connections, by address.
abbrev pub Heap : Type 0
Heap = ℕ → ConnState

unfoldable pub write : ℕ → ConnState → Heap → Heap
write p c heap q = if p == q then c else heap q

pub write_self : (p : ℕ) (c : ConnState) (heap : Heap) → write p c heap p ≡ c
unfolding write
write_self p c heap = ground arith

pub write_other : (p q : ℕ) (c : ConnState) (heap : Heap) → p ≢ q → write p c heap q ≡ heap q
unfolding write
write_other p q c heap h = ground arith
