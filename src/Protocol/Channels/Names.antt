-- ===== src/Protocol/Channels/Names.antt =====
-- The valid channel names (src/protocol/channels.rs, `is_valid_channel_name`).
use rushsocket.Base.{
  Bool-cases, Str, Bool, true, not, ◌≡◌, refl, ◌↔◌, ◌⊎◌, inl, inr, arith, ◌≤◌, ◌==◌, ℕ, [], ◌∷◌,
  all, length,
}
use rushsocket.Protocol.Channels.{is_valid_channel_name, is_name_byte}

-- `b` is no byte of the text.
abbrev pub lacks : ℕ → Str → Bool
lacks b = all (λ c. not (c == b))

-- A body of 1 to 200 name bytes, with or without a leading '#' within the 200.
abbrev pub IsName : Str → Str → Type 0
IsName name body =
    ((name ≡ body) ⊎ (name ≡ b'#' ∷ body))
    × (1 ≤ length body)
    × (length name ≤ 200)
    × (all is_name_byte body ≡ true)

IsName-of_valid : (name : Str) → is_valid_channel_name name ≡ true → (body : Str) × IsName name body
unfolding is_valid_channel_name
IsName-of_valid [] h = ground arith
IsName-of_valid (b ∷ []) h = (b ∷ [], ground arith)
IsName-of_valid (b ∷ c ∷ s) h = elim (Bool-cases (b == b'#')) [
  | inl e ↦ (c ∷ s, ground arith)
  | inr e ↦ (b ∷ c ∷ s, ground arith)
]

valid_of_name : (name body : Str) → IsName name body → is_valid_channel_name name ≡ true
unfolding is_valid_channel_name is_name_byte
valid_of_name name [] h = ground arith
valid_of_name name (b ∷ body) (inl e, p, q, h) = ground arith
valid_of_name name (b ∷ body) (inr e, p, q, h) = ground arith

all-lacks : (s : Str) → all is_name_byte s ≡ true → lacks b':' s ≡ true
unfolding is_name_byte
all-lacks [] h = refl
all-lacks (b ∷ s) h = ground (arith, all-lacks s)

-- A name is valid exactly if it is a body of at least one name byte (an ASCII letter or digit, or
-- one of "-_=@,.;"), or such a body behind one '#', and has at most 200 bytes in all.
pub is_valid_channel_name_iff :
    (name : Str) → (is_valid_channel_name name ≡ true) ↔ ((body : Str) × IsName name body)
is_valid_channel_name_iff name = (IsName-of_valid name, λ (body, h). valid_of_name name body h)

pub lacks-colon : (name : Str) → is_valid_channel_name name ≡ true → lacks b':' name ≡ true
lacks-colon name h =
    let (body, named) = IsName-of_valid name h in ground (arith, all-lacks body named.3)

pub valid_nonempty : (name : Str) → is_valid_channel_name name ≡ true → 1 ≤ length name
unfolding is_valid_channel_name
valid_nonempty name h = ground arith
