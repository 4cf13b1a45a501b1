-- ===== src/Examples/Tokens.antt =====
-- Tokens and channel names (src/auth/mod.rs, src/protocol/channels.rs) on examples.
use rushsocket.Base.{Str, bytes, Option, none, true, refl, ◌++◌, starts_with, ◌≡◌, ◌⊎◌, ◌↔◌, str_eq}
use rushsocket.Base.{strip_prefix}
use rushsocket.Auth.{
  constant_time_eq, verify_channel_auth, verify_signin_auth, channel_message, signin_message, sign,
}
use rushsocket.Auth.Tokens.{verify_channel_auth_iff}
use rushsocket.Auth.Scope.{channel_token_scope, signin_token_scope, Collides}
use rushsocket.Protocol.Channels.{is_name_byte, from_name, is_valid_channel_name}
use rushsocket.Protocol.Channels.Kinds.{HasKind, base_name, from_name-HasKind}
use rushsocket.Protocol.Channels.Names.{IsName, is_valid_channel_name_iff}

abbrev mac : Str → Str → Str
mac secret message = secret ++ message

-- A MAC that ignores its input, so that one token does for all.
abbrev weak : Str → Str → Str
weak secret message = bytes "0"

abbrev token : Str
token = bytes "key:0"

verify_channel_auth_iff_example :
    (verify_channel_auth mac
        (bytes "key")
        (bytes "s")
        (bytes "1.1")
        (bytes "private-a")
        none
        (bytes "key:s1.1:private-a")
      ≡ true)
    ↔ (bytes "key:s1.1:private-a"
        ≡ bytes "key"
          ++ (bytes ":"
              ++ mac (bytes "s") (channel_message (bytes "1.1") (bytes "private-a") none)))
verify_channel_auth_iff_example =
    verify_channel_auth_iff mac (bytes "key") (bytes "s") (bytes "1.1") (bytes "private-a") none
      (bytes "key:s1.1:private-a")

accepted :
    verify_channel_auth mac
      (bytes "key")
      (bytes "s")
      (bytes "1.1")
      (bytes "private-a")
      none
      (bytes "key:s1.1:private-a")
    ≡ true
unfolding verify_channel_auth channel_message sign str_eq strip_prefix constant_time_eq
accepted = refl

valid : is_valid_channel_name (bytes "private-a") ≡ true
unfolding is_valid_channel_name is_name_byte
valid = refl

abbrev no_data : Option Str
no_data = none

channel_token_scope_example :
    ((bytes "1.1" ≡ bytes "1.1") × (bytes "private-a" ≡ bytes "private-a") × (no_data ≡ no_data))
    ⊎ Collides mac
        (bytes "s")
        (channel_message (bytes "1.1") (bytes "private-a") none)
        (channel_message (bytes "1.1") (bytes "private-a") none)
channel_token_scope_example =
    channel_token_scope mac (bytes "key") (bytes "s") (bytes "1.1") (bytes "1.1")
      (bytes "private-a") (bytes "private-a") none none (bytes "key:s1.1:private-a") refl refl valid
      valid accepted accepted

weak_channel :
    verify_channel_auth weak (bytes "key") (bytes "s") (bytes "1.1") (bytes "private-a") none token
    ≡ true
unfolding verify_channel_auth channel_message sign str_eq strip_prefix constant_time_eq
weak_channel = refl

weak_signin :
    verify_signin_auth weak (bytes "key") (bytes "s") (bytes "2.2") (bytes "{}") token ≡ true
unfolding verify_signin_auth signin_message sign str_eq strip_prefix constant_time_eq
weak_signin = refl

signin_token_scope_example :
    Collides weak
      (bytes "s")
      (channel_message (bytes "1.1") (bytes "private-a") none)
      (signin_message (bytes "2.2") (bytes "{}"))
signin_token_scope_example =
    signin_token_scope weak (bytes "key") (bytes "s") (bytes "1.1") (bytes "2.2")
      (bytes "private-a") none (bytes "{}") token refl refl valid weak_channel weak_signin

from_name-HasKind_example :
    HasKind
      (base_name (bytes "cache-private-a"))
      (starts_with (bytes "cache-private-a") (bytes "cache-"))
      (from_name (bytes "cache-private-a"))
from_name-HasKind_example = from_name-HasKind (bytes "cache-private-a")

is_valid_channel_name_iff_example :
    (is_valid_channel_name (bytes "#news") ≡ true) ↔ ((body : Str) × IsName (bytes "#news") body)
is_valid_channel_name_iff_example = is_valid_channel_name_iff (bytes "#news")
