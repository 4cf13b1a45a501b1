-- ===== src/RateLimit/Limits.antt =====
-- Which limits are enforced (src/rate_limit/local.rs).
use rushsocket.Base.{
  get_or, Str, str_eq, true, none, some, ℕ, [], ◌∷◌, ◌≡◌, ◌↔◌, refl, arith, ◌%◌, ◌^◌, ◌<◌,
  if◌then◌else◌,
}
use rushsocket.Base.Assoc
use rushsocket.Base.Assoc.{Assoc, lookup-insert}
use rushsocket.Base.Int.{pos, negsuc}
use rushsocket.Externals.{Externals}
use rushsocket.RateLimit.{Limiter, get_or_create, quota_of, check}

module _ (ext : Externals) (m : Assoc Limiter) (key : Str) where
  -- A limit of 0 or below is no limit: every call is admitted and no limiter is made or asked.
  pub check_unlimited :
      (n : ℕ) (now : ℕ)
      → (check ext m key (pos 0) now ≡ some (true, m))
        × (check ext m key (negsuc n) now ≡ some (true, m))
  unfolding check get_or_create
  check_unlimited n now = (refl, refl)

  -- A first call under a positive limit panics exactly if the limit is a multiple of 2 ^ 32.
  pub check_panics :
      (max now : ℕ)
      → 0 < max
      → Assoc.lookup key m ≡ none
      → (check ext m key (pos max) now ≡ none) ↔ (max % 2 ^ 32 ≡ 0)
  unfolding check get_or_create quota_of
  check_panics max now h e = (λ p. ground arith, λ p. ground arith)

  -- Under a limit that fits 32 bits a call is answered by the limiter of its key alone, with that
  -- quota if it is the first call, and with the quota and the calls so far if it is not; the call is
  -- recorded under its key, and the limiters of the other keys are as they were.
  pub check_answer :
      (max now : ℕ)
      → 0 < max
      → max < 2 ^ 32
      → let l = get_or (Assoc.lookup key m) (record { quota = max; checks = [] }) in
        (after : Assoc Limiter) × (check ext m key (pos max) now
          ≡ some (ext.admits l.quota l.checks now, after))
        × ((j : Str)
            → Assoc.lookup j after ≡ (
                if str_eq key j
                then some (record l { checks = now ∷ l.checks })
                else Assoc.lookup j m))
  unfolding check get_or_create quota_of
  check_answer max now h k =
      let l : Limiter = get_or (Assoc.lookup key m) (record { quota = max; checks = [] }) in
      (
        Assoc.insert key (record l { checks = now ∷ l.checks }) m,
        ground arith,
        λ j. lookup-insert key j (record l { checks = now ∷ l.checks }) m,
      )
