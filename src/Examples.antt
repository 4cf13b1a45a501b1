-- ===== src/Examples.antt =====
-- Two clients of the default app of src/config/mod.rs, on which the theorems are tried.
pub mod Clients
pub mod Tables
pub mod Tokens
pub mod Limits
pub mod Entry
pub mod Sessions
pub mod Requests
pub mod Nodes
use rushsocket.Base.{
  false, Str, bytes, str_eq, none, some, ℕ, ltb, length, List, [], ◌∷◌, ◌++◌, if◌then◌else◌,
}
use rushsocket.Externals.{Externals, ClientMessage}
use rushsocket.App.{limit_to_usize, App, from_config, default_app_config}
use rushsocket.Protocol.Json.{Json, object, string, field, end, null}
use rushsocket.Websocket.Connection
use rushsocket.Websocket.Connection.{WsConnection}
use rushsocket.Adapter.Namespace
use rushsocket.Adapter.Namespace.{Namespace}
use rushsocket.Adapter.Namespace.Histories.{Op, run, adds_socket, joins, tries_member}
use rushsocket.Adapter.Effects.{AllMirrored, apply_local-AllMirrored}
use rushsocket.Adapter.Local.{LocalAdapter, get_or_create_ns}
use rushsocket.Adapter.Local.Apps.{apply_local}
use rushsocket.RateLimit
use rushsocket.State.{AppState}

abbrev pub app : App
app = from_config default_app_config

abbrev pub alice : WsConnection
alice = record { socket_id = bytes "1.1"; app = app; address = 0 }

abbrev pub bob : WsConnection
bob = record { socket_id = bytes "2.2"; app = app; address = 1 }

abbrev pub news : Str
news = bytes "news"

abbrev pub room : Str
room = bytes "presence-room"

-- A client subscribes to the public channel.
abbrev pub subscribe_text : Str
subscribe_text = bytes "{\"event\":\"pusher:subscribe\",\"data\":{\"channel\":\"news\"}}"

abbrev pub subscribe_message : ClientMessage
subscribe_message = record {
  event = bytes "pusher:subscribe";
  payload = object (field (bytes "channel") (string news) end);
  channel = none;
}

abbrev pub hello : ClientMessage
hello = record { event = bytes "client-hello"; payload = null; channel = some news }

-- A MAC that is the secret and the message, a queue of 512 messages, a limiter that counts calls.
abbrev pub ext : Externals
ext = record {
  hex_hmac = λ secret message. secret ++ message;
  parse = λ text. none;
  print = λ value. bytes "{}";
  parse_message = λ text. if str_eq text subscribe_text then some subscribe_message else none;
  has_room = λ queue. ltb (length queue) 512;
  admits = λ quota checks now. ltb (length checks) quota;
}

-- Both are connected; bob is in the channel, and a member of the room.
abbrev pub history : List Op
history =
    adds_socket alice
    ∷ adds_socket bob
    ∷ joins bob.socket_id news
    ∷ tries_member room bob.socket_id (bytes "bob") null 10
    ∷ []

abbrev pub table : Namespace
table = run history Namespace.new

abbrev pub state_of : LocalAdapter → AppState
state_of adapter = record {
  adapter = adapter;
  heap = λ p. Connection.new;
  rate_limiter = RateLimit.new;
  cache = [];
  webhooks = none;
  closing = false;
  cache_ttl = 3600;
  now = 5;
}
