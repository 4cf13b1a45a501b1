-- ===== src/Externals.antt =====
-- What the program takes from other crates, as one parameter of the model.
use rushsocket.Base.{Str, Bool, Option, List, ℕ}
use rushsocket.Protocol.Json.{Json}

-- An incoming message, `ClientMessage` of src/protocol/messages.rs.
pub record ClientMessage : Type 0 where
  pub event : Str
  pub payload : Json
  pub channel : Option Str

pub record Externals : Type 0 where
  -- hmac, sha2 and hex: the hex text of HMAC-SHA256 under a secret
  pub hex_hmac : Str → Str → Str
  -- serde_json: text to value, value to text, and text to `ClientMessage`
  pub parse : Str → Option Json
  pub print : Json → Str
  pub parse_message : Str → Option ClientMessage
  -- tokio::sync::mpsc: whether `try_send` finds room behind the messages that are queued
  pub has_room : List Str → Bool
  -- governor: whether a limiter admits a call, by its quota per second, the times of the earlier
  -- calls, the latest first, and the time of this one
  pub admits : ℕ → List ℕ → ℕ → Bool
