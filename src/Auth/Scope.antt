-- ===== src/Auth/Scope.antt =====
-- What one token stands for (src/auth/mod.rs): two requests that accept the same token are the same
-- request, or the MAC has a collision.
use rushsocket.Base.{
  length, ◌≤◌, ap, Str, bytes, str_eq, str_eq_iff, Option, none, some, ◌++◌, ◌≡◌, ◌≢◌, ◌⊎◌, inl,
  inr, refl, sym, ◌∙◌, true, false, arith, [], ◌∷◌, Bool-cases,
}
use rushsocket.Protocol.Channels.{is_valid_channel_name}
use rushsocket.Protocol.Channels.Names.{lacks, lacks-colon, valid_nonempty}
use rushsocket.Auth.{verify_signin_auth, verify_channel_auth, signin_message, channel_message}
use rushsocket.Auth.Tokens.{verify_channel_auth_iff, verify_signin_auth_iff}

-- The text before the first colon, and the text behind it.
split_colon :
    (a b s t : Str)
    → lacks b':' a ≡ true
    → lacks b':' b ≡ true
    → a ++ (bytes ":" ++ s) ≡ b ++ (bytes ":" ++ t)
    → (a ≡ b) × (s ≡ t)
split_colon [] [] s t ha hb e = ground arith
split_colon [] (c ∷ b) s t ha hb e = ground arith
split_colon (c ∷ a) [] s t ha hb e = ground arith
split_colon (c ∷ a) (d ∷ b) s t ha hb e = ground (arith, split_colon a b s t)

has_colon : (a s : Str) → lacks b':' (a ++ (bytes ":" ++ s)) ≡ false
has_colon [] s = refl
has_colon (c ∷ a) s = ground (arith, has_colon a s)

tail_eq :
    (c d : Str) (x y : Option Str)
    → lacks b':' c ≡ true
    → lacks b':' d ≡ true
    → channel_message [] c x ≡ channel_message [] d y
    → (c ≡ d) × (x ≡ y)
unfolding channel_message
tail_eq c d none none hc hd e = ground arith
tail_eq c d none (some y) hc hd e = ground (arith, has_colon d y)
tail_eq c d (some x) none hc hd e = ground (arith, has_colon c x)
tail_eq c d (some x) (some y) hc hd e = ground (arith, split_colon c d x y hc hd)

-- The MAC gives one text for two messages.
abbrev pub Collides : (Str → Str → Str) → Str → Str → Str → Type 0
Collides hex_hmac secret m n = (m ≢ n) × (hex_hmac secret m ≡ hex_hmac secret n)

append_cancel : (a s t : Str) → a ++ s ≡ a ++ t → s ≡ t
append_cancel [] s t e = e
append_cancel (c ∷ a) s t e = append_cancel a s t (ground arith)

same_or_Collides :
    (hex_hmac : Str → Str → Str) (key secret m n auth : Str)
    → auth ≡ key ++ (bytes ":" ++ hex_hmac secret m)
    → auth ≡ key ++ (bytes ":" ++ hex_hmac secret n)
    → (m ≡ n) ⊎ Collides hex_hmac secret m n
same_or_Collides hex_hmac key secret m n auth e f =
    let same : hex_hmac secret m ≡ hex_hmac secret n =
      append_cancel (bytes ":") _ _ (append_cancel key _ _ (sym e ∙ f)) in
    elim (Bool-cases (str_eq m n)) [
      | inl eq ↦ inl ((str_eq_iff m n).0 eq)
      | inr ne ↦ inr (λ p. ground (arith, str_eq_iff m n, p), same)
    ]

channel_message_cons :
    (socket_id c : Str) (x : Option Str)
    → channel_message socket_id c x ≡ socket_id ++ channel_message [] c x
unfolding channel_message
channel_message_cons socket_id c none = refl
channel_message_cons socket_id c (some x) = refl

-- The message determines the socket, the channel and the data.
pub channel_message-injective :
    (a b c d : Str) (x y : Option Str)
    → lacks b':' a ≡ true
    → lacks b':' b ≡ true
    → lacks b':' c ≡ true
    → lacks b':' d ≡ true
    → channel_message a c x ≡ channel_message b d y
    → (a ≡ b) × (c ≡ d) × (x ≡ y)
unfolding channel_message
channel_message-injective a b c d x y ha hb hc hd e =
    let (rest_c, ec) = parts c x in
    let (rest_d, ed) = parts d y in
    let split = split_colon a b rest_c rest_d ha hb (
      ap (λ r. a ++ r) (sym ec)
      ∙ sym (channel_message_cons a c x)
      ∙ e
      ∙ channel_message_cons b d y
      ∙ ap (λ r. b ++ r) ed) in
    let rest = tail_eq c d x y hc hd (ec ∙ ap (λ r. bytes ":" ++ r) split.1 ∙ sym ed) in
    (split.0, rest.0, rest.1)
  where
    parts : (c : Str) (x : Option Str) → (rest : Str) × (channel_message [] c x ≡ bytes ":" ++ rest)
    parts c none = (c, refl)
    parts c (some x) = (c ++ (bytes ":" ++ x), refl)

-- No message for a channel with a valid name is a message for signing in.
pub channel_message-ne-signin_message :
    (a b c : Str) (x : Option Str) (u : Str)
    → lacks b':' a ≡ true
    → lacks b':' b ≡ true
    → lacks b':' c ≡ true
    → 1 ≤ length c
    → channel_message a c x ≢ signin_message b u
unfolding channel_message signin_message
channel_message-ne-signin_message a b [] x u ha hb hc one e = absurd (omega arith)
channel_message-ne-signin_message a b (ch ∷ c) none u ha hb hc one e =
    ground (arith, split_colon a b (ch ∷ c) (bytes ":user::" ++ u) ha hb e)
channel_message-ne-signin_message a b (ch ∷ c) (some x) u ha hb hc one e =
    ground (arith, split_colon a b ((ch ∷ c) ++ (bytes ":" ++ x)) (bytes ":user::" ++ u) ha hb e)

module _ (hex_hmac : Str → Str → Str) where
  -- A token that is accepted for two channel requests of sockets whose ids hold no colon, on
  -- channels with valid names, is for one request: socket, channel and channel data agree; or else
  -- the MAC gives one text for their two messages.
  pub channel_token_scope :
      (key secret a b c d : Str) (x y : Option Str) (auth : Str)
      → lacks b':' a ≡ true
      → lacks b':' b ≡ true
      → is_valid_channel_name c ≡ true
      → is_valid_channel_name d ≡ true
      → verify_channel_auth hex_hmac key secret a c x auth ≡ true
      → verify_channel_auth hex_hmac key secret b d y auth ≡ true
      → ((a ≡ b) × (c ≡ d) × (x ≡ y))
        ⊎ Collides hex_hmac secret (channel_message a c x) (channel_message b d y)
  channel_token_scope key secret a b c d x y auth ha hb hc hd p q =
      elim (same_or_Collides hex_hmac key secret (channel_message a c x) (channel_message b d y)
        auth ((verify_channel_auth_iff hex_hmac key secret a c x auth).0 p)
        ((verify_channel_auth_iff hex_hmac key secret b d y auth).0 q)) [
          | inl e ↦
              inl (
                channel_message-injective a b c d x y ha hb (lacks-colon c hc) (lacks-colon d hd) e)
          | inr collides ↦ inr collides
        ]

  -- A token that is accepted for a channel with a valid name is not accepted for signing in, by
  -- sockets whose ids hold no colon, unless the MAC gives one text for the two messages.
  pub signin_token_scope :
      (key secret a b c : Str) (x : Option Str) (u auth : Str)
      → lacks b':' a ≡ true
      → lacks b':' b ≡ true
      → is_valid_channel_name c ≡ true
      → verify_channel_auth hex_hmac key secret a c x auth ≡ true
      → verify_signin_auth hex_hmac key secret b u auth ≡ true
      → Collides hex_hmac secret (channel_message a c x) (signin_message b u)
  signin_token_scope key secret a b c x u auth ha hb hc p q =
      elim (same_or_Collides hex_hmac key secret (channel_message a c x) (signin_message b u) auth
        ((verify_channel_auth_iff hex_hmac key secret a c x auth).0 p)
        ((verify_signin_auth_iff hex_hmac key secret b u auth).0 q)) [
          | inl e ↦ absurd (
              channel_message-ne-signin_message a b c x u ha hb (lacks-colon c hc)
                (valid_nonempty c hc) e)
          | inr collides ↦ collides
        ]
