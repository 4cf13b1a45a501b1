-- ===== src/RateLimit.antt =====
-- src/rate_limit/local.rs: one limiter for each key, made at its first use. What a limiter of the
-- crate governor admits is a parameter; `none` is a panic.
pub mod Limits
use rushsocket.Base.{
  Str, Bool, true, false, Option, none, some, ℕ, List, [], ◌∷◌, ◌%◌, ◌^◌, ◌==◌, if◌then◌else◌, leb,
  ◌>>=◌,
}
use rushsocket.Base.Assoc
use rushsocket.Base.Assoc.{Assoc}
use rushsocket.Base.Int.{ℤ, pos, negsuc}
use rushsocket.Externals.{Externals}

-- A limiter by its quota and the times at which it was asked, the latest first.
pub record Limiter : Type 0 where
  pub quota : ℕ
  pub checks : List ℕ

pub record LocalRateLimiter : Type 0 where
  pub backend_limiters : Assoc Limiter
  pub client_limiters : Assoc Limiter
  pub read_limiters : Assoc Limiter

abbrev pub new : LocalRateLimiter
new = record { backend_limiters = []; client_limiters = []; read_limiters = [] }

-- `NonZeroU32::new(max_per_sec as u32).unwrap()`: the cast drops the upper bits.
unfoldable pub quota_of : ℕ → Option ℕ
quota_of max = if max % 2 ^ 32 == 0 then none else some (max % 2 ^ 32)

-- The limiter under the key, if the limit is positive; `some none` is no limit.
unfoldable pub get_or_create : Assoc Limiter → Str → ℤ → Option (Option Limiter)
get_or_create m key (negsuc n) = some none
get_or_create m key (pos max) = if max == 0 then some none else elim (Assoc.lookup key m) [
  | some limiter ↦ some (some limiter)
  | none ↦ do q ← quota_of max; some (some (record { quota = q; checks = [] }))
]

module _ (ext : Externals) where
  -- The answer, and the limiters after it.
  unfoldable pub check : Assoc Limiter → Str → ℤ → ℕ → Option (Bool × Assoc Limiter)
  check m key max_per_sec now = do
    found ← get_or_create m key max_per_sec
    some (elim found [
      | none ↦ (true, m)
      | some l ↦ (
        ext.admits l.quota l.checks now,
        Assoc.insert key (record l { checks = now ∷ l.checks }) m,
      )
    ])

  unfoldable pub check_backend_event :
      LocalRateLimiter → Str → ℤ → ℕ → Option (Bool × LocalRateLimiter)
  check_backend_event r app_id max_per_sec now = do
    answer ← check r.backend_limiters app_id max_per_sec now
    some (answer.0, record r { backend_limiters = answer.1 })

  unfoldable pub check_client_event :
      LocalRateLimiter → Str → ℤ → ℕ → Option (Bool × LocalRateLimiter)
  check_client_event r socket_id max_per_sec now = do
    answer ← check r.client_limiters socket_id max_per_sec now
    some (answer.0, record r { client_limiters = answer.1 })

  unfoldable pub check_read_request :
      LocalRateLimiter → Str → ℤ → ℕ → Option (Bool × LocalRateLimiter)
  check_read_request r app_id max_per_sec now = do
    answer ← check r.read_limiters app_id max_per_sec now
    some (answer.0, record r { read_limiters = answer.1 })

unfoldable pub remove_socket : Str → LocalRateLimiter → LocalRateLimiter
remove_socket socket_id r = record r { client_limiters = Assoc.remove socket_id r.client_limiters }
