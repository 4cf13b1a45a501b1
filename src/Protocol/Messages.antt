-- ===== src/Protocol/Messages.antt =====
-- src/protocol/messages.rs: the messages to the clients. `data` is the field `payload`.
use rushsocket.Base.{Str, bytes, Option, none, some, ℕ, ◌∷◌, [], List}
use rushsocket.Protocol.Json.{
  Json, Fields, Items, pos_int, number, string, array, object, nil, item, end, field,
}
use rushsocket.Externals.{Externals}

pub record ServerMessage : Type 0 where
  pub event : Str
  pub payload : Option Json
  pub channel : Option Str
  pub user_id : Option Str

abbrev pub pong_json : Str
pong_json = bytes "{\"event\":\"pusher:pong\"}"

abbrev pub ping_json : Str
ping_json = bytes "{\"event\":\"pusher:ping\"}"

abbrev nat : ℕ → Json
nat n = number (pos_int n)

abbrev strings : List Str → Items
strings [] = nil
strings (s ∷ rest) = item (string s) (strings rest)

-- A field that is skipped when it is none.
abbrev optional : Str → Option Json → Fields → Fields
optional k none rest = rest
optional k (some v) rest = field k v rest

abbrev as_string : Option Str → Option Json
as_string none = none
as_string (some s) = some (string s)

module _ (ext : Externals) where
  open ext use {print}

  -- A message whose data is the text of a JSON value.
  abbrev wrapped : Str → Json → Option Str → ServerMessage
  wrapped event inner channel = record {
    event = event;
    payload = some (string (print inner));
    channel = channel;
    user_id = none;
  }

  unfoldable pub connection_established : Str → ℕ → ServerMessage
  connection_established socket_id activity_timeout =
      wrapped (bytes "pusher:connection_established")
        (object (
          field (bytes "socket_id") (string socket_id)
            (field (bytes "activity_timeout") (nat activity_timeout) end)))
        none

  unfoldable pub error : Str → ℕ → ServerMessage
  error message code =
      wrapped (bytes "pusher:error")
        (object (field (bytes "message") (string message) (field (bytes "code") (nat code) end)))
        none

  unfoldable pub presence_subscription_succeeded : Str → List Str → Json → ℕ → ServerMessage
  presence_subscription_succeeded channel ids hash count =
      wrapped (bytes "pusher_internal:subscription_succeeded")
        (object (
          field (bytes "presence")
            (object (
              field (bytes "ids") (array (strings ids))
                (field (bytes "hash") hash (field (bytes "count") (nat count) end))))
            end))
        (some channel)

  unfoldable pub member_added : Str → Str → Json → ServerMessage
  member_added channel user_id user_info =
      wrapped (bytes "pusher_internal:member_added")
        (object
          (field (bytes "user_id") (string user_id) (field (bytes "user_info") user_info end)))
        (some channel)

  unfoldable pub member_removed : Str → Str → ServerMessage
  member_removed channel user_id =
      wrapped (bytes "pusher_internal:member_removed")
        (object (field (bytes "user_id") (string user_id) end)) (some channel)

  unfoldable pub signin_success : Str → ServerMessage
  signin_success user_data =
      wrapped (bytes "pusher:signin_success")
        (object (field (bytes "user_data") (string user_data) end)) none

  -- `Serialize` of the message, without the fields that are none.
  unfoldable pub to_json : ServerMessage → Str
  to_json m = print (
      object (
        field (bytes "event") (string m.event) (
          optional (bytes "data") m.payload (
            optional (bytes "channel") (as_string m.channel)
              (optional (bytes "user_id") (as_string m.user_id) end)))))

unfoldable pub subscription_succeeded : Str → ServerMessage
subscription_succeeded channel = record {
  event = bytes "pusher_internal:subscription_succeeded";
  payload = some (string (bytes "{}"));
  channel = some channel;
  user_id = none;
}

unfoldable pub channel_event : Str → Str → Json → Option Str → ServerMessage
channel_event event channel payload user_id = record {
  event = event;
  payload = some payload;
  channel = some channel;
  user_id = user_id;
}

unfoldable pub cache_miss : Str → ServerMessage
cache_miss channel = record {
  event = bytes "pusher:cache_miss";
  payload = none;
  channel = some channel;
  user_id = none;
}
