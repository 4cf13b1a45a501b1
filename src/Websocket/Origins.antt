-- ===== src/Websocket/Origins.antt =====
-- The check of the Origin header (`origin_matches` and `validate_origin` of src/websocket/mod.rs).
use rushsocket.Base.{
  Str, bytes, str_eq, str_eq_iff, Bool, true, false, ◌&&◌, ◌||◌, Option, some, none, ℕ, ◌+◌, leb,
  if◌then◌else◌, List, [], ◌∷◌, ◌≡◌, ◌⊎◌, ◌↔◌, inl, inr, refl, ap, Bool-cases, str_eq_refl, arith,
  is_empty,
}
use mathlib.Core.Option.{some-injective}
use rushsocket.Base.Sets

-- `u8::to_ascii_lowercase`
abbrev pub to_ascii_lowercase : ℕ → ℕ
to_ascii_lowercase b = if leb 65 b && leb b 90 then b + 32 else b

abbrev pub lowercase : Str → Str
lowercase [] = []
lowercase (b ∷ s) = to_ascii_lowercase b ∷ lowercase s

-- `str::eq_ignore_ascii_case`
unfoldable pub eq_ignore_ascii_case : Str → Str → Bool
eq_ignore_ascii_case s t = str_eq (lowercase s) (lowercase t)

unfoldable pub origin_matches : Str → Str → Bool
origin_matches origin pattern =
    if str_eq pattern (bytes "*") then true else eq_ignore_ascii_case origin pattern

-- `allowed_origins.iter().any(|p| origin_matches(origin, p))`
unfoldable pub any_matches : Str → List Str → Bool
any_matches origin [] = false
any_matches origin (p ∷ rest) = origin_matches origin p || any_matches origin rest

unfoldable pub validate_origin : Option Str → List Str → Bool
validate_origin origin allowed_origins =
    if is_empty allowed_origins
    then true
    else elim origin [ none ↦ false | some o ↦ any_matches o allowed_origins ]

-- A pattern of the list is "*" or the origin, but for the case of ASCII letters.
abbrev pub Listed : Str → List Str → Type 0
Listed origin patterns =
    (p : Str) × (Sets.contains p patterns ≡ true)
    × ((p ≡ bytes "*") ⊎ (lowercase origin ≡ lowercase p))

Listed-later : (origin q : Str) (rest : List Str) → Listed origin rest → Listed origin (q ∷ rest)
Listed-later origin q rest (p, m, h) = (p, ground (arith, Sets.contains_cons q p rest), h)

matches_Listed :
    (origin : Str) (patterns : List Str)
    → any_matches origin patterns ≡ true
    → Listed origin patterns
unfolding any_matches origin_matches eq_ignore_ascii_case
matches_Listed origin [] h = ground arith
matches_Listed origin (p ∷ rest) h = elim (Bool-cases (str_eq p (bytes "*"))) [
  | inl e ↦ (p, first, inl ((str_eq_iff p (bytes "*")).0 e))
  | inr e ↦ elim (Bool-cases (str_eq (lowercase origin) (lowercase p))) [
    | inl f ↦ (p, first, inr ((str_eq_iff (lowercase origin) (lowercase p)).0 f))
    | inr f ↦ Listed-later origin p rest (matches_Listed origin rest (ground (arith, e, f)))
  ]
]
  where
    first : Sets.contains p (p ∷ rest) ≡ true
    first = ground (arith, Sets.contains_cons p p rest, str_eq_refl p)

Listed_matches :
    (origin : Str) (patterns : List Str) (p : Str)
    → Sets.contains p patterns ≡ true
    → (p ≡ bytes "*") ⊎ (lowercase origin ≡ lowercase p)
    → any_matches origin patterns ≡ true
unfolding any_matches origin_matches eq_ignore_ascii_case
Listed_matches origin [] p m h = ground (arith, Sets.contains_nil p)
Listed_matches origin (q ∷ rest) p m h = ground (
  arith,
  Sets.contains_cons q p rest,
  str_eq_iff q p,
  str_eq_iff q (bytes "*"),
  str_eq_iff (lowercase origin) (lowercase q),
  Listed_matches origin rest p,
  ap lowercase {x = q} {y = p},
)

-- `validate_origin` accepts exactly if no origins are listed, or there is an origin and one of the
-- patterns is "*" or that origin, but for the case of ASCII letters.
pub validate_origin_iff :
    (origin : Option Str) (allowed : List Str)
    → (validate_origin origin allowed ≡ true)
      ↔ ((allowed ≡ []) ⊎ ((o : Str) × (origin ≡ some o) × Listed o allowed))
unfolding validate_origin
validate_origin_iff origin [] = ((λ h. inl refl), (λ h. refl))
validate_origin_iff none (p ∷ rest) = (ground arith, ground arith)
validate_origin_iff (some o) (p ∷ rest) =
    ((λ h. inr (o, refl, matches_Listed o (p ∷ rest) h)), back)
  where
    back :
        ((p ∷ rest ≡ []) ⊎ ((q : Str) × (some o ≡ some q) × Listed q (p ∷ rest)))
        → any_matches o (p ∷ rest) ≡ true
    back (inl e) = ground arith
    back (inr (q, e, (r, m, h))) = rw (some-injective o q e) (Listed_matches q (p ∷ rest) r m h)
