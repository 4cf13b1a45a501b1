-- ===== src/Cache/Expiry.antt =====
-- What the cache in memory answers (src/cache/memory.rs).
use rushsocket.Base.{
  Str, str_eq, str_eq_iff, true, none, some, ℕ, ◌+◌, ◌*◌, ◌≤◌, [], ◌∷◌, ◌≡◌, refl, arith, ltb,
  if◌then◌else◌,
}
use rushsocket.Base.Assoc
use rushsocket.Base.Assoc.{lookup-insert, lookup-remove}
use rushsocket.Cache.{Store, nanos, get, set, forget, clean_up}

-- A value that was set is there, under its own key, exactly until its time to live has passed; the
-- other keys answer as before.
pub get-set :
    (k j v : Str) (ttl now later : ℕ) (store : Store)
    → get j later (set k v ttl now store) ≡ (
        if str_eq k j
        then (if ltb later (now + ttl * nanos) then some v else none)
        else get j later store)
unfolding get set
get-set k j v ttl now later store =
    ground (arith, lookup-insert k j (record { value = v; expires_at = now + ttl * nanos }) store)

-- A key that was forgotten answers with nothing, and the other keys answer as before.
pub get-forget :
    (k j : Str) (now : ℕ) (store : Store)
    → get j now (forget k store) ≡ (if str_eq k j then none else get j now store)
unfolding get forget
get-forget k j now store = ground (arith, lookup-remove k j store)

lookup_absent :
    (k : Str) (now : ℕ) (store : Store)
    → Assoc.lookup k store ≡ none
    → Assoc.lookup k (clean_up now store) ≡ none
unfolding Assoc.lookup clean_up
lookup_absent k now [] h = refl
lookup_absent k now ((j, e) ∷ rest) h = ground (arith, lookup_absent k now rest)

-- In a store with one entry to a key, the clean-up at a time changes no answer at that time or
-- later.
pub get-clean_up :
    (k : Str) (now later : ℕ) (store : Store)
    → Assoc.distinct store ≡ true
    → now ≤ later
    → get k later (clean_up now store) ≡ get k later store
unfolding get Assoc.lookup Assoc.distinct clean_up
get-clean_up k now later [] d h = refl
get-clean_up k now later ((j, e) ∷ rest) d h = ground (
  arith,
  get-clean_up k now later rest,
  lookup_absent j now rest,
  str_eq_iff j k,
  lookup_absent k now rest,
)
