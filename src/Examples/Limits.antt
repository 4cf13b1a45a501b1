-- ===== src/Examples/Limits.antt =====
-- The rate limiter and the cache (src/rate_limit/local.rs, src/cache/memory.rs) on examples.
use rushsocket.Base.{
  Str, bytes, str_eq, none, some, true, refl, get_or, ◌≡◌, ◌↔◌, ◌%◌, ◌^◌, ◌+◌, ◌*◌, ltb,
  if◌then◌else◌, [], ◌∷◌, arith,
}
use rushsocket.Base.Assoc
use rushsocket.Base.Assoc.{Assoc}
use rushsocket.Base.Int.{pos}
use rushsocket.Examples.{ext}
use rushsocket.RateLimit.{Limiter, check}
use rushsocket.RateLimit.Limits.{check_panics, check_answer}
use rushsocket.Cache
use rushsocket.Cache.{Store, nanos}
use rushsocket.Cache.Expiry.{get-set, get-clean_up}

abbrev key : Str
key = bytes "1.1"

nothing_there : Assoc.lookup {V = Limiter} key [] ≡ none
unfolding Assoc.lookup
nothing_there = refl

check_panics_example : (check ext [] key (pos (2 ^ 32)) 7 ≡ none) ↔ ((2 ^ 32) % 2 ^ 32 ≡ 0)
check_panics_example = check_panics ext [] key (2 ^ 32) 7 (ground arith) nothing_there

check_answer_example :
    let l = get_or {A = Limiter} (Assoc.lookup key []) (record { quota = 2; checks = [] }) in
    (after : Assoc Limiter) × (check ext [] key (pos 2) 7
      ≡ some (ext.admits l.quota l.checks 7, after))
    × ((j : Str)
        → Assoc.lookup j after
          ≡ (if str_eq key j then some (record l { checks = 7 ∷ l.checks }) else Assoc.lookup j []))
check_answer_example = check_answer ext [] key 2 7 (ground arith) (ground arith)

get-set_example : Cache.get key 8 (Cache.set key (bytes "v") 1 7 []) ≡ (
    if str_eq key key
    then (if ltb 8 (7 + 1 * nanos) then some (bytes "v") else none)
    else Cache.get key 8 [])
get-set_example = get-set key key (bytes "v") 1 7 8 []

abbrev stored : Store
stored = (key, record { value = bytes "v"; expires_at = 9 }) ∷ []

stored-distinct : Assoc.distinct stored ≡ true
unfolding Assoc.distinct Assoc.lookup
stored-distinct = refl

get-clean_up_example : Cache.get key 8 (Cache.clean_up 7 stored) ≡ Cache.get key 8 stored
get-clean_up_example = get-clean_up key 7 8 stored stored-distinct (ground arith)
