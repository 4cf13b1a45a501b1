-- ===== src/Protocol/Channels/Kinds.antt =====
-- Which names give which kind (src/protocol/channels.rs, `from_name` and the predicates).
use rushsocket.Base.{
  inr, inl, Str, bytes, strip_prefix, starts_with, Bool, true, false, ◌||◌, none, some, ◌≡◌, refl,
  arith, Option-cases, ◌++◌, is_some, [], ◌∷◌,
}
use rushsocket.Protocol.Channels.{
  ChannelKind, from_name, from_name_no_cache, cached, is_presence, is_cache, requires_auth,
}

-- What is left of a name when a leading "cache-" is taken off.
abbrev pub base_name : Str → Str
base_name name = elim (strip_prefix name (bytes "cache-")) [ some rest ↦ rest | none ↦ name ]

starts_with_shorter : (p q s : Str) → starts_with s (p ++ q) ≡ true → starts_with s p ≡ true
unfolding starts_with
starts_with_shorter [] q s h = refl
starts_with_shorter (c ∷ p) q [] h = ground arith
starts_with_shorter (c ∷ p) q (d ∷ s) h = ground (arith, starts_with_shorter p q s)

is_some-strip_prefix : (s p : Str) → is_some (strip_prefix s p) ≡ starts_with s p
unfolding starts_with strip_prefix
is_some-strip_prefix s [] = refl
is_some-strip_prefix [] (c ∷ p) = refl
is_some-strip_prefix (d ∷ s) (c ∷ p) = ground (arith, is_some-strip_prefix s p)

-- What the kind of a name says, by the prefixes of the name.
abbrev pub HasKind : Str → Bool → ChannelKind → Type 0
HasKind rest cache kind =
    (is_cache kind ≡ cache)
    × (is_presence kind ≡ starts_with rest (bytes "presence-"))
    × (requires_auth kind
        ≡ (starts_with rest (bytes "private-") || starts_with rest (bytes "presence-")))

from_name_no_cache-HasKind : (rest : Str) → HasKind rest false (from_name_no_cache rest)
unfolding from_name_no_cache
from_name_no_cache-HasKind rest =
    ground (arith, starts_with_shorter (bytes "private-") (bytes "encrypted-") rest)

cached-HasKind : (rest : Str) → HasKind rest true (cached (from_name_no_cache rest))
unfolding from_name_no_cache
cached-HasKind rest =
    ground (arith, starts_with_shorter (bytes "private-") (bytes "encrypted-") rest)

-- For every name: the kind is a cache kind exactly if the name begins with "cache-"; and with that
-- prefix taken off, the kind is a presence kind exactly if the rest begins with "presence-", and
-- asks for authorisation exactly if the rest begins with "private-" or "presence-".
pub from_name-HasKind :
    (name : Str) → HasKind (base_name name) (starts_with name (bytes "cache-")) (from_name name)
unfolding from_name
from_name-HasKind name = elim (Option-cases (strip_prefix name (bytes "cache-"))) [
  | inl plain ↦
      ground
        (arith, plain, is_some-strip_prefix name (bytes "cache-"), from_name_no_cache-HasKind name)
  | inr (rest, found) ↦
      ground (arith, found, is_some-strip_prefix name (bytes "cache-"), cached-HasKind rest)
]
