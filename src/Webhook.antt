-- ===== src/Webhook.antt =====
-- src/webhook/mod.rs: the events that are sent to an app's webhook, and the queues that they enter.
pub mod Worker
use rushsocket.Base.{Str, bytes, Option, none, some, ℕ, List, [], ◌∷◌, ◌++◌}
use rushsocket.Base.Assoc
use rushsocket.Base.Assoc.{Assoc}
use rushsocket.Externals.{Externals}
use rushsocket.Protocol.Json.{Json}

-- `data` is the field `payload`.
pub record WebhookEvent : Type 0 where
  pub name : Str
  pub channel : Str
  pub user_id : Option Str
  pub payload : Option Str
  pub event : Option Str
  pub socket_id : Option Str
  pub subscription_count : Option ℕ

abbrev bare : Str → Str → WebhookEvent
bare name channel = record {
  name = name;
  channel = channel;
  user_id = none;
  payload = none;
  event = none;
  socket_id = none;
  subscription_count = none;
}

unfoldable pub channel_occupied : Str → WebhookEvent
channel_occupied channel = bare (bytes "channel_occupied") channel

unfoldable pub channel_vacated : Str → WebhookEvent
channel_vacated channel = bare (bytes "channel_vacated") channel

unfoldable pub cache_miss : Str → WebhookEvent
cache_miss channel = bare (bytes "cache_miss") channel

unfoldable pub member_added : Str → Str → WebhookEvent
member_added channel user_id = record (bare (bytes "member_added") channel) {
  user_id = some user_id;
}

unfoldable pub member_removed : Str → Str → WebhookEvent
member_removed channel user_id = record (bare (bytes "member_removed") channel) {
  user_id = some user_id;
}

unfoldable pub client_event : Externals → Str → Str → Json → Str → Option Str → WebhookEvent
client_event ext channel event_name value socket_id user_id = record {
  name = bytes "client_event";
  channel = channel;
  user_id = user_id;
  payload = some (ext.print value);
  event = some event_name;
  socket_id = some socket_id;
  subscription_count = none;
}

unfoldable pub subscription_count : Str → ℕ → WebhookEvent
subscription_count channel count = record (bare (bytes "subscription_count") channel) {
  subscription_count = some count;
}

-- app id -> the events in the app's unbounded queue; `none` if no app has a webhook.
abbrev pub Webhooks : Type 0
Webhooks = Option (Assoc (List WebhookEvent))

-- `if let Some(wh) = state.webhooks.as_ref().and_then(|w| w.get(app_id)) { wh.send(event) }`
unfoldable pub notify : Str → WebhookEvent → Webhooks → Webhooks
notify app_id event none = none
notify app_id event (some senders) = elim (Assoc.lookup app_id senders) [
  | none ↦ some senders
  | some queue ↦ some (Assoc.insert app_id (queue ++ event ∷ []) senders)
]
