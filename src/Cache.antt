-- ===== src/Cache.antt =====
-- src/cache: the driver's interface and the driver in memory (src/cache/memory.rs). Times are in
-- nanoseconds; the clock is an argument.
pub mod Expiry
use rushsocket.Base.{Str, Option, none, some, ℕ, ◌+◌, ◌*◌, ltb, if◌then◌else◌, [], ◌∷◌}
use rushsocket.Base.Assoc
use rushsocket.Base.Assoc.{Assoc}

pub record CacheEntry : Type 0 where
  pub value : Str
  pub expires_at : ℕ

abbrev pub Store : Type 0
Store = Assoc CacheEntry

abbrev pub nanos : ℕ
nanos = 1000000000

unfoldable pub get : Str → ℕ → Store → Option Str
get key now store = elim (Assoc.lookup key store) [
  | none ↦ none
  | some entry ↦ if ltb now entry.expires_at then some entry.value else none
]

unfoldable pub set : Str → Str → ℕ → ℕ → Store → Store
set key value ttl_secs now store =
    Assoc.insert key (record { value = value; expires_at = now + ttl_secs * nanos }) store

unfoldable pub forget : Str → Store → Store
forget key store = Assoc.remove key store

-- `retain` of the clean-up task.
unfoldable pub clean_up : ℕ → Store → Store
clean_up now [] = []
clean_up now ((k, entry) ∷ rest) =
    let kept = clean_up now rest in if ltb now entry.expires_at then (k, entry) ∷ kept else kept
