-- ===== src/Auth.antt =====
-- src/auth/mod.rs: signatures, and the tokens that a client presents to join a channel or to sign
-- in. `hex_hmac secret message` is the hex text of HMAC-SHA256 from the crates hmac, sha2 and hex,
-- of which nothing is assumed; a message fed to it in pieces is their concatenation.
pub mod Tokens
pub mod Scope
use rushsocket.Base.{
  Str, bytes, str_eq, strip_prefix, Bool, false, not, Option, none, some, ◌++◌, if◌then◌else◌,
  length, ◌==◌,
}

-- Slices of equal length are compared by `ct_eq` of the crate subtle, which is equality.
unfoldable pub constant_time_eq : Str → Str → Bool
constant_time_eq a b = if not (length a == length b) then false else str_eq a b

-- What `verify_channel_auth` feeds to the MAC, in order.
unfoldable pub channel_message : Str → Str → Option Str → Str
channel_message socket_id channel none = socket_id ++ (bytes ":" ++ channel)
channel_message socket_id channel (some x) =
    socket_id ++ (bytes ":" ++ (channel ++ (bytes ":" ++ x)))

unfoldable pub signin_message : Str → Str → Str
signin_message socket_id user_data = socket_id ++ (bytes "::user::" ++ user_data)

module _ (hex_hmac : Str → Str → Str) where
  unfoldable pub sign : Str → Str → Str
  sign secret message = hex_hmac secret message

  unfoldable pub verify_channel_auth : Str → Str → Str → Str → Option Str → Str → Bool
  verify_channel_auth app_key app_secret socket_id channel channel_data auth =
      elim (strip_prefix auth app_key) [
        | none ↦ false
        | some rest ↦ elim (strip_prefix rest (bytes ":")) [
          | none ↦ false
          | some signature ↦
              constant_time_eq signature
                (hex_hmac app_secret (channel_message socket_id channel channel_data))
        ]
      ]

  unfoldable pub verify_signin_auth : Str → Str → Str → Str → Str → Bool
  verify_signin_auth app_key app_secret socket_id user_data auth =
      elim (strip_prefix auth app_key) [
        | none ↦ false
        | some rest ↦ elim (strip_prefix rest (bytes ":")) [
          | none ↦ false
          | some signature ↦
              constant_time_eq signature (hex_hmac app_secret (signin_message socket_id user_data))
        ]
      ]

  unfoldable pub sign_http_request : Str → Str → Str → Str → Str
  sign_http_request secret method path query_params =
      sign secret (method ++ (bytes "\n" ++ (path ++ (bytes "\n" ++ query_params))))
