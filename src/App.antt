-- ===== src/App.antt =====
-- src/app/mod.rs and src/config/mod.rs: the settings of one app, and their conversion.
pub mod Manager
use rushsocket.Base.{Str, bytes, Bool, true, false, Option, none, ℕ, List, [], if◌then◌else◌}
use rushsocket.Base.Int.{ℤ, pos, negsuc, is_negative, to_nat, usize_max}

pub record AppConfig : Type 0 where
  pub id : Str
  pub key : Str
  pub secret : Str
  pub enabled : Bool
  pub client_event_mode : Str
  pub enable_user_authentication : Bool
  pub max_connections : ℤ
  pub max_backend_events_per_sec : ℤ
  pub max_client_events_per_sec : ℤ
  pub max_read_req_per_sec : ℤ
  pub max_presence_members_per_channel : ℤ
  pub max_presence_member_size_in_kb : ℕ
  pub max_channel_name_length : ℕ
  pub max_event_channels_at_once : ℤ
  pub max_event_name_length : ℕ
  pub max_event_payload_in_kb : ℕ
  pub max_event_batch_size : ℤ
  pub enable_cache_channels : Bool
  pub allowed_origins : List Str
  pub max_message_size_in_kb : ℕ
  pub webhook_url : Option Str
  pub webhook_batch_ms : ℕ
  pub enable_subscription_count_webhook : Bool

pub record App : Type 0 where
  pub id : Str
  pub key : Str
  pub secret : Str
  pub enabled : Bool
  pub client_event_mode : Str
  pub enable_user_authentication : Bool
  pub max_connections : ℤ
  pub max_backend_events_per_sec : ℤ
  pub max_client_events_per_sec : ℤ
  pub max_read_req_per_sec : ℤ
  pub max_presence_members_per_channel : ℕ
  pub max_presence_member_size_in_kb : ℕ
  pub max_channel_name_length : ℕ
  pub max_event_channels_at_once : ℕ
  pub max_event_name_length : ℕ
  pub max_event_payload_in_kb : ℕ
  pub max_event_batch_size : ℕ
  pub enable_cache_channels : Bool
  pub allowed_origins : List Str
  pub max_message_size_in_kb : ℕ
  pub webhook_url : Option Str
  pub webhook_batch_ms : ℕ
  pub enable_subscription_count_webhook : Bool

unfoldable pub limit_to_usize : ℤ → ℕ
limit_to_usize v = if is_negative v then usize_max else to_nat v

unfoldable pub from_config : AppConfig → App
from_config c = record {
  id = c.id;
  key = c.key;
  secret = c.secret;
  enabled = c.enabled;
  client_event_mode = c.client_event_mode;
  enable_user_authentication = c.enable_user_authentication;
  max_connections = c.max_connections;
  max_backend_events_per_sec = c.max_backend_events_per_sec;
  max_client_events_per_sec = c.max_client_events_per_sec;
  max_read_req_per_sec = c.max_read_req_per_sec;
  max_presence_members_per_channel = limit_to_usize c.max_presence_members_per_channel;
  max_presence_member_size_in_kb = c.max_presence_member_size_in_kb;
  max_channel_name_length = c.max_channel_name_length;
  max_event_channels_at_once = limit_to_usize c.max_event_channels_at_once;
  max_event_name_length = c.max_event_name_length;
  max_event_payload_in_kb = c.max_event_payload_in_kb;
  max_event_batch_size = limit_to_usize c.max_event_batch_size;
  enable_cache_channels = c.enable_cache_channels;
  allowed_origins = c.allowed_origins;
  max_message_size_in_kb = c.max_message_size_in_kb;
  webhook_url = c.webhook_url;
  webhook_batch_ms = c.webhook_batch_ms;
  enable_subscription_count_webhook = c.enable_subscription_count_webhook;
}

-- `AppConfig::default`
abbrev pub default_app_config : AppConfig
default_app_config = record {
  id = bytes "rushsocket-id";
  key = bytes "rushsocket-key";
  secret = bytes "rushsocket-secret";
  enabled = true;
  client_event_mode = bytes "all";
  enable_user_authentication = true;
  max_connections = negsuc 0;
  max_backend_events_per_sec = negsuc 0;
  max_client_events_per_sec = negsuc 0;
  max_read_req_per_sec = negsuc 0;
  max_presence_members_per_channel = pos 200;
  max_presence_member_size_in_kb = 2;
  max_channel_name_length = 256;
  max_event_channels_at_once = pos 200;
  max_event_name_length = 256;
  max_event_payload_in_kb = 32;
  max_event_batch_size = pos 20;
  enable_cache_channels = true;
  allowed_origins = [];
  max_message_size_in_kb = 40;
  webhook_url = none;
  webhook_batch_ms = 1000;
  enable_subscription_count_webhook = false;
}
