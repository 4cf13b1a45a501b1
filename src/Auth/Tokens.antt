-- ===== src/Auth/Tokens.antt =====
-- Exactly one token is accepted for each request (src/auth/mod.rs).
use rushsocket.Base.{
  Str, bytes, str_eq_iff, str_eq_refl, strip_prefix, strip_prefix-append, strip_prefix-eq-some,
  Option, none, some, ◌++◌, ◌≡◌, ◌↔◌, true, arith, inl, inr, Option-cases,
}
use rushsocket.Auth.{
  false, Bool, constant_time_eq, channel_message, signin_message, verify_channel_auth,
  verify_signin_auth,
}

constant_time_eq_refl : (a : Str) → constant_time_eq a a ≡ true
unfolding constant_time_eq
constant_time_eq_refl a = ground (arith, str_eq_refl a)

eq_of_constant_time_eq : (a b : Str) → constant_time_eq a b ≡ true → a ≡ b
unfolding constant_time_eq
eq_of_constant_time_eq a b h = ground (arith, str_eq_iff a b)

-- The common part of the two verifiers.
abbrev accepts : Str → Str → Str → Bool
accepts app_key expected auth = elim (strip_prefix auth app_key) [
  | none ↦ false
  | some rest ↦ elim (strip_prefix rest (bytes ":")) [
    | none ↦ false
    | some signature ↦ constant_time_eq signature expected
  ]
]

accepts_self :
    (app_key expected : Str) → accepts app_key expected (app_key ++ (bytes ":" ++ expected)) ≡ true
accepts_self app_key expected = ground (
  arith,
  strip_prefix-append app_key (bytes ":" ++ expected),
  strip_prefix-append (bytes ":") expected,
  constant_time_eq_refl expected,
)

eq_of_accepts :
    (app_key expected auth : Str)
    → accepts app_key expected auth ≡ true
    → auth ≡ app_key ++ (bytes ":" ++ expected)
eq_of_accepts app_key expected auth h = elim (Option-cases (strip_prefix auth app_key)) [
  | inl e ↦ ground (arith, e)
  | inr (rest, e) ↦ elim (Option-cases (strip_prefix rest (bytes ":"))) [
    | inl f ↦ ground (arith, e, f)
    | inr (signature, f) ↦ ground (
      arith,
      e,
      f,
      strip_prefix-eq-some auth app_key rest,
      strip_prefix-eq-some rest (bytes ":") signature,
      eq_of_constant_time_eq signature expected,
    )
  ]
]

module _ (hex_hmac : Str → Str → Str) where
  -- A channel token is accepted exactly if it is the app key, a colon, and the hex MAC, under the
  -- app's secret, of the message for this socket, this channel and this channel data.
  pub verify_channel_auth_iff :
      (app_key app_secret socket_id channel : Str) (channel_data : Option Str) (auth : Str)
      → (verify_channel_auth hex_hmac app_key app_secret socket_id channel channel_data auth ≡ true)
        ↔ (auth
            ≡ app_key
              ++ (bytes ":"
                  ++ hex_hmac app_secret (channel_message socket_id channel channel_data)))
  unfolding verify_channel_auth
  verify_channel_auth_iff app_key app_secret socket_id channel channel_data auth =
      (eq_of_accepts app_key _ auth, λ e. rw e (accepts_self app_key _))

  -- A sign-in token is accepted exactly if it is the app key, a colon, and the hex MAC, under the
  -- app's secret, of the message for this socket and this user data.
  pub verify_signin_auth_iff :
      (app_key app_secret socket_id user_data auth : Str)
      → (verify_signin_auth hex_hmac app_key app_secret socket_id user_data auth ≡ true) ↔ (
          auth ≡ app_key ++ (bytes ":" ++ hex_hmac app_secret (signin_message socket_id user_data)))
  unfolding verify_signin_auth
  verify_signin_auth_iff app_key app_secret socket_id user_data auth =
      (eq_of_accepts app_key _ auth, λ e. rw e (accepts_self app_key _))
