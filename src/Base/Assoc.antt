-- ===== src/Base/Assoc.antt =====
-- `HashMap<String, V>` and `DashMap<String, V>` as association lists. The order of the entries
-- stands for the order in which the map is iterated, of which nothing is assumed.
use Prim.Native.Nat.{◌+◌}
use mathlib.Core.Path.{◌≡◌, refl}
use mathlib.Core.Bool.{Bool, true, not, ◌&&◌}
use mathlib.Core.List.{List, [], ◌∷◌}
use mathlib.Core.Option.{Option, none, some}
use native.Mathlib.Omega.{arith}
use rushsocket.Base.Tests.{get_or, if◌then◌else◌, is_some}
use rushsocket.Base.Lists.{length}
use rushsocket.Base.Text.{Str, str_eq, str_eq_iff}

abbrev pub Assoc {ℓ} : Type ℓ → Type ℓ
Assoc V = List (Str × V)

module _ {ℓ} {V : Type ℓ} where
  unfoldable pub lookup : Str → Assoc V → Option V
  lookup k [] = none
  lookup k ((j, v) ∷ m) = if str_eq j k then some v else lookup k m

  abbrev pub contains_key : Str → Assoc V → Bool
  contains_key k m = is_some (lookup k m)

  unfoldable pub insert : Str → V → Assoc V → Assoc V
  insert k v [] = (k, v) ∷ []
  insert k v ((j, w) ∷ m) = if str_eq j k then (k, v) ∷ m else (j, w) ∷ insert k v m

  unfoldable pub remove : Str → Assoc V → Assoc V
  remove k [] = []
  remove k ((j, v) ∷ m) = let rest = remove k m in if str_eq j k then rest else (j, v) ∷ rest

  abbrev pub keys : Assoc V → List Str
  keys [] = []
  keys ((k, v) ∷ m) = k ∷ keys m

  -- No key stands twice.
  unfoldable pub distinct : Assoc V → Bool
  distinct [] = true
  distinct ((k, v) ∷ m) = not (contains_key k m) && distinct m

  pub lookup-insert :
      (k j : Str) (v : V) (m : Assoc V)
      → lookup j (insert k v m) ≡ (if str_eq k j then some v else lookup j m)
  unfolding lookup insert
  lookup-insert k j v [] = refl
  lookup-insert k j v ((i, w) ∷ m) =
      ground (arith, str_eq_iff k j, str_eq_iff i k, str_eq_iff i j, lookup-insert k j v m)

  pub lookup-remove :
      (k j : Str) (m : Assoc V) → lookup j (remove k m) ≡ (if str_eq k j then none else lookup j m)
  unfolding lookup remove
  lookup-remove k j [] = ground arith
  lookup-remove k j ((i, w) ∷ m) =
      ground (arith, str_eq_iff k j, str_eq_iff i k, str_eq_iff i j, lookup-remove k j m)

  pub length-insert :
      (k : Str) (v : V) (m : Assoc V)
      → length (insert k v m) ≡ (if contains_key k m then length m else length m + 1)
  unfolding lookup insert
  length-insert k v [] = omega arith
  length-insert k v ((i, w) ∷ m) = ground (arith, length-insert k v m)

  pub length-remove_absent :
      (k : Str) (m : Assoc V) → lookup k m ≡ none → length (remove k m) ≡ length m
  unfolding lookup remove
  length-remove_absent k [] h = refl
  length-remove_absent k ((i, w) ∷ m) h = ground (arith, length-remove_absent k m)

  pub length-remove :
      (k : Str) (m : Assoc V)
      → distinct m ≡ true
      → contains_key k m ≡ true
      → length (remove k m) + 1 ≡ length m
  unfolding lookup remove distinct
  length-remove k [] d h = ground arith
  length-remove k ((i, w) ∷ m) d h =
      ground (arith, length-remove k m, length-remove_absent k m, str_eq_iff i k)

  pub distinct-insert :
      (k : Str) (v : V) (m : Assoc V) → distinct m ≡ true → distinct (insert k v m) ≡ true
  unfolding distinct insert lookup
  distinct-insert k v [] d = refl
  distinct-insert k v ((i, w) ∷ m) d =
      ground (arith, distinct-insert k v m, lookup-insert k i v m, str_eq_iff i k, str_eq_iff k i)

  pub distinct-remove : (k : Str) (m : Assoc V) → distinct m ≡ true → distinct (remove k m) ≡ true
  unfolding distinct remove
  distinct-remove k [] d = refl
  distinct-remove k ((i, w) ∷ m) d = ground (arith, distinct-remove k m, lookup-remove k i m)

-- `entry(k).or_default()` of a map of sets, as far as it is read.
unfoldable pub entry : Str → Assoc (List Str) → List Str
entry k m = get_or (lookup k m) []

pub entry-insert :
    (k j : Str) (s : List Str) (m : Assoc (List Str))
    → entry j (insert k s m) ≡ (if str_eq k j then s else entry j m)
unfolding entry
entry-insert k j s m = ground (arith, lookup-insert k j s m)

pub entry-remove :
    (k j : Str) (m : Assoc (List Str))
    → entry j (remove k m) ≡ (if str_eq k j then [] else entry j m)
unfolding entry
entry-remove k j m = ground (arith, lookup-remove k j m)
