-- ===== src/Protocol/Channels.antt =====
-- src/protocol/channels.rs: the kind of a channel by its name, and the valid names.
pub mod Kinds
pub mod Names
use rushsocket.Base.{
  Str, bytes, strip_prefix, starts_with, Bool, true, false, ◌||◌, ◌&&◌, Option, none, some, ltb,
  leb, ◌==◌, if◌then◌else◌, is_empty, length, all, drop, ℕ, [], ◌∷◌,
}

pub data ChannelKind : Type 0 where
  public private presence encrypted_private : ChannelKind
  cache_public cache_private cache_presence cache_encrypted_private : ChannelKind

unfoldable pub from_name_no_cache : Str → ChannelKind
from_name_no_cache name =
    if starts_with name (bytes "presence-")
    then presence
    else if starts_with name (bytes "private-encrypted-")
    then encrypted_private
    else if starts_with name (bytes "private-")
    then private
    else public

-- The arms of the match on a name behind "cache-".
abbrev pub cached : ChannelKind → ChannelKind
cached public = cache_public
cached private = cache_private
cached presence = cache_presence
cached encrypted_private = cache_encrypted_private
cached other = other

unfoldable pub from_name : Str → ChannelKind
from_name name = elim (strip_prefix name (bytes "cache-")) [
  | some rest ↦ cached (from_name_no_cache rest)
  | none ↦ from_name_no_cache name
]

abbrev pub is_private : ChannelKind → Bool
is_private private = true
is_private encrypted_private = true
is_private cache_private = true
is_private cache_encrypted_private = true
is_private _ = false

abbrev pub is_presence : ChannelKind → Bool
is_presence presence = true
is_presence cache_presence = true
is_presence _ = false

abbrev pub is_cache : ChannelKind → Bool
is_cache cache_public = true
is_cache cache_private = true
is_cache cache_presence = true
is_cache cache_encrypted_private = true
is_cache _ = false

abbrev pub requires_auth : ChannelKind → Bool
requires_auth kind = is_private kind || is_presence kind

abbrev pub is_ascii_alphanumeric : ℕ → Bool
is_ascii_alphanumeric b =
    (leb b'0' b && leb b b'9') || (leb b'A' b && leb b b'Z') || (leb b'a' b && leb b b'z')

-- One byte of a name, behind a leading '#'.
unfoldable pub is_name_byte : ℕ → Bool
is_name_byte b =
    is_ascii_alphanumeric b
    || (b == b'-' || b == b'_' || b == b'=' || b == b'@' || b == b',' || b == b'.' || b == b';')

-- `if bytes[0] == b'#' { 1 } else { 0 }`, on a name that is not empty.
abbrev pub name_start : Str → ℕ
name_start [] = 0
name_start (b ∷ s) = if b == b'#' then 1 else 0

unfoldable pub is_valid_channel_name : Str → Bool
is_valid_channel_name name =
    if is_empty name || ltb 200 (length name)
    then false
    else if name_start name == length name
    then false
    else all is_name_byte (drop (name_start name) name)
