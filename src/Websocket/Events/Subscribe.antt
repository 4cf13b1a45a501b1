-- ===== src/Websocket/Events/Subscribe.antt =====
-- src/websocket/events/subscribe.rs
pub mod Authorised
pub mod Cached
pub mod Reach
use rushsocket.Base.{
  Str, bytes, Bool, true, false, not, ◌||◌, Option, none, some, ◌*◌, ◌++◌, length, ltb,
  if◌then◌else◌, ◌>>=◌, get_or, [], ◌∷◌,
}
use rushsocket.Base.Assoc
use rushsocket.Base.Assoc.{Assoc}
use rushsocket.Auth.{verify_channel_auth}
use rushsocket.Externals.{Externals, ClientMessage}
use rushsocket.Protocol.Channels.{
  ChannelKind, public, presence, cache_public, cache_presence, from_name, is_cache,
  is_valid_channel_name,
}
use rushsocket.Protocol.Json.{Json, Fields, object, as_str, get, int_text, end, field}
use rushsocket.Protocol.Messages.{
  error, subscription_succeeded, presence_subscription_succeeded, member_added, cache_miss,
}
use rushsocket.Websocket.Connection.{
  WsConnection, ConnState, add_channel, set_presence, is_subscribed,
}
use rushsocket.Websocket.Events.Payload.{extract_data, text_field}
use rushsocket.Adapter.Local
use rushsocket.Cache
use rushsocket.State.{
  AppState, at, on_conn, hook, hook_if, send_subscription_count, tell, tell_raw, broadcast,
}
use rushsocket.Webhook

-- `json!(members)`
abbrev pub members_json : Assoc Json → Fields
members_json [] = end
members_json ((uid, info) ∷ rest) = field uid info (members_json rest)

-- `v.as_str()`, or the text of an integer
abbrev pub id_text : Json → Option Str
id_text v = elim (as_str v) [ some s ↦ some s | none ↦ int_text v ]

abbrev pub authenticated : ConnState → ConnState
authenticated c = record c { user_authenticated = true }

module _ (ext : Externals) where
  abbrev pub refuse : WsConnection → Str → AppState → AppState
  refuse conn reason st = tell ext conn (error ext reason 4009) st

  unfoldable pub cache_key : WsConnection → Str → Str
  cache_key conn channel = bytes "cache:" ++ (conn.app.id ++ (bytes ":" ++ channel))

  unfoldable pub replay_cache : WsConnection → Str → AppState → AppState
  replay_cache conn channel st =
      if not conn.app.enable_cache_channels
      then st
      else elim (Cache.get (cache_key conn channel) st.now st.cache) [
        | some cached ↦ tell_raw ext conn cached st
        | none ↦
            hook conn.app.id (Webhook.cache_miss channel) (tell ext conn (cache_miss channel) st)
      ]

  abbrev pub replay_if : Bool → WsConnection → Str → AppState → AppState
  replay_if b conn channel st = if b then replay_cache conn channel st else st

  -- What the arms for public and for private channels have in common once the client may join;
  -- the arm for private channels marks the connection in between.
  unfoldable pub join_channel : Bool → ChannelKind → WsConnection → Str → AppState → AppState
  join_channel marks kind conn channel st =
      let app_id = conn.app.id in
      let (adapter, occupied) = Local.add_to_channel app_id conn.socket_id channel st.adapter in
      let st1 = on_conn conn (add_channel channel) (record st { adapter = adapter }) in
      let st2 = if marks then on_conn conn authenticated st1 else st1 in
      let st3 = tell ext conn (subscription_succeeded channel) st2 in
      let globally = Local.is_channel_globally_occupied app_id channel occupied st3.adapter in
      let st4 = hook_if globally app_id (Webhook.channel_occupied channel) st3 in
      let st5 =
        send_subscription_count app_id channel conn.app.enable_subscription_count_webhook st4 in
      replay_if (is_cache kind) conn channel st5

  unfoldable pub subscribe_private : ChannelKind → Fields → WsConnection → Str → AppState → AppState
  subscribe_private kind obj conn channel st = elim (text_field (bytes "auth") obj) [
    | none ↦ refuse conn (bytes "Authorization required") st
    | some auth_str ↦
        if not (
          verify_channel_auth ext.hex_hmac conn.app.key conn.app.secret conn.socket_id channel none
            auth_str)
        then refuse conn (bytes "Authorization failed") st
        else join_channel true kind conn channel st
  ]

  -- Once the member is in the adapter: the channel, the answer, and the news to the others.
  unfoldable pub join_presence :
      ChannelKind → WsConnection → Str → Str → Json → Bool → Assoc Json → AppState → AppState
  join_presence kind conn channel user_id user_info is_new_member members st =
      let app_id = conn.app.id in
      let (adapter, occupied) = Local.add_to_channel app_id conn.socket_id channel st.adapter in
      let st1 =
        on_conn conn
          (λ c. authenticated (set_presence channel user_id user_info (add_channel channel c)))
          (record st { adapter = adapter }) in
      let st2 = hook_if occupied app_id (Webhook.channel_occupied channel) st1 in
      let st3 =
        tell ext conn
          (presence_subscription_succeeded ext channel (Assoc.keys members)
            (object (members_json members)) (length members))
          st2 in
      let st4 =
        if is_new_member
        then hook app_id (Webhook.member_added channel user_id) (
            broadcast ext app_id channel (member_added ext channel user_id user_info) conn.socket_id
              st3)
        else st3 in
      replay_if (is_cache kind) conn channel st4

  -- The admission of the member, with its user id and the value that holds it.
  unfoldable pub admit_member : ChannelKind → WsConnection → Str → Str → Json → AppState → AppState
  admit_member kind conn channel user_id channel_data st =
      let user_info = get_or (get (bytes "user_info") channel_data) (object end) in
      if ltb (conn.app.max_presence_member_size_in_kb * 1024) (length (ext.print channel_data))
      then refuse conn (bytes "Member data too large") st
      else let (adapter, outcome) =
          Local.try_add_presence_member conn.app.id channel conn.socket_id user_id user_info
            conn.app.max_presence_members_per_channel st.adapter in
        let st1 = record st { adapter = adapter } in
        elim outcome [
          | none ↦ refuse conn (bytes "Over presence member limit") st1
          | some (is_new_member, members) ↦
              join_presence kind conn channel user_id user_info is_new_member members st1
        ]

  unfoldable pub subscribe_presence :
      ChannelKind → Fields → WsConnection → Str → AppState → AppState
  subscribe_presence kind obj conn channel st = elim (text_field (bytes "auth") obj) [
    | none ↦ refuse conn (bytes "Authorization required") st
    | some auth_str ↦ elim (text_field (bytes "channel_data") obj) [
      | none ↦ refuse conn (bytes "Presence channel requires channel_data") st
      | some channel_data_str ↦
          if not (
            verify_channel_auth ext.hex_hmac conn.app.key conn.app.secret conn.socket_id channel
              (some channel_data_str) auth_str)
          then refuse conn (bytes "Authorization failed") st
          else elim (ext.parse channel_data_str) [
            | none ↦ refuse conn (bytes "Invalid channel_data JSON") st
            | some channel_data ↦ elim (get (bytes "user_id") channel_data >>= id_text) [
              | none ↦ refuse conn (bytes "channel_data must contain user_id") st
              | some user_id ↦ admit_member kind conn channel user_id channel_data st
            ]
          ]
    ]
  ]

  -- The match on the kind of the channel.
  unfoldable pub subscribe_kind : ChannelKind → Fields → WsConnection → Str → AppState → AppState
  subscribe_kind public obj conn channel st = join_channel false public conn channel st
  subscribe_kind cache_public obj conn channel st = join_channel false cache_public conn channel st
  subscribe_kind presence obj conn channel st = subscribe_presence presence obj conn channel st
  subscribe_kind cache_presence obj conn channel st =
      subscribe_presence cache_presence obj conn channel st
  subscribe_kind kind obj conn channel st = subscribe_private kind obj conn channel st

  unfoldable pub handle : WsConnection → ClientMessage → AppState → AppState
  handle conn msg st = elim (extract_data ext msg) [
    | none ↦ refuse conn (bytes "Invalid data") st
    | some obj ↦ elim (text_field (bytes "channel") obj) [
      | none ↦ refuse conn (bytes "No channel provided") st
      | some channel ↦
          if not (is_valid_channel_name channel)
            || ltb conn.app.max_channel_name_length (length channel)
          then refuse conn (bytes "Invalid channel name") st
          else if is_subscribed channel (at conn st)
          then st
          else subscribe_kind (from_name channel) obj conn channel st
    ]
  ]
