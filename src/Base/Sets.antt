-- ===== src/Base/Sets.antt =====
-- `HashSet<String>` as a list without repetitions, in the order of iteration.
use Prim.Native.Nat.{◌+◌}
use mathlib.Core.Path.{◌≡◌, refl}
use mathlib.Core.Bool.{Bool, true, false, ◌||◌, not, ◌&&◌}
use mathlib.Core.List.{List, [], ◌∷◌, ◌++◌}
use native.Mathlib.Omega.{arith}
use rushsocket.Base.Tests.{if◌then◌else◌}
use rushsocket.Base.Lists.{length, is_empty}
use rushsocket.Base.Text.{Str, str_eq, str_eq_iff, str_eq_refl}

unfoldable pub contains : Str → List Str → Bool
contains a [] = false
contains a (x ∷ s) = str_eq x a || contains a s

unfoldable pub insert : Str → List Str → List Str
insert a s = if contains a s then s else a ∷ s

unfoldable pub remove : Str → List Str → List Str
remove a [] = []
remove a (x ∷ s) = let rest = remove a s in if str_eq x a then rest else x ∷ rest

-- No element stands twice.
unfoldable pub distinct : List Str → Bool
distinct [] = true
distinct (x ∷ s) = not (contains x s) && distinct s

pub contains-insert :
    (a b : Str) (s : List Str) → contains b (insert a s) ≡ (str_eq a b || contains b s)
unfolding insert contains
contains-insert a b s = ground (arith, str_eq_iff a b)

pub contains-remove :
    (a b : Str) (s : List Str) → contains b (remove a s) ≡ (not (str_eq a b) && contains b s)
unfolding contains remove
contains-remove a b [] = ground arith
contains-remove a b (x ∷ s) =
    ground (arith, contains-remove a b s, str_eq_iff a b, str_eq_iff x a, str_eq_iff x b)

pub is_empty-insert : (a : Str) (s : List Str) → is_empty (insert a s) ≡ false
unfolding insert contains
is_empty-insert a [] = refl
is_empty-insert a (x ∷ s) = ground arith

pub contains_empty : (a : Str) (s : List Str) → is_empty s ≡ true → contains a s ≡ false
unfolding contains
contains_empty a [] h = refl
contains_empty a (x ∷ s) h = ground arith

-- A set that is not empty has an element.
pub contains_some : (s : List Str) → is_empty s ≡ false → (a : Str) × (contains a s ≡ true)
unfolding contains
contains_some [] h = ground arith
contains_some (x ∷ s) h = (x, ground (arith, str_eq_refl x))

pub distinct-insert : (a : Str) (s : List Str) → distinct s ≡ true → distinct (insert a s) ≡ true
unfolding distinct insert
distinct-insert a s h = ground arith

pub distinct-remove : (a : Str) (s : List Str) → distinct s ≡ true → distinct (remove a s) ≡ true
unfolding distinct remove
distinct-remove a [] h = refl
distinct-remove a (x ∷ s) h = ground (arith, distinct-remove a s, contains-remove a x s)

pub length-insert :
    (a : Str) (s : List Str)
    → length (insert a s) ≡ (if contains a s then length s else length s + 1)
unfolding insert
length-insert a s = ground arith

pub contains-append :
    (a : Str) (s t : List Str) → contains a (s ++ t) ≡ (contains a s || contains a t)
unfolding contains
contains-append a [] t = refl
contains-append a (x ∷ s) t = ground (arith, contains-append a s t)

pub remove-remove : (a : Str) (s : List Str) → remove a (remove a s) ≡ remove a s
unfolding remove
remove-remove a [] = refl
remove-remove a (x ∷ s) = ground (arith, remove-remove a s)

pub remove_absent : (a : Str) (s : List Str) → contains a s ≡ false → remove a s ≡ s
unfolding remove contains
remove_absent a [] h = refl
remove_absent a (x ∷ s) h = ground (arith, remove_absent a s)

pub contains_nil : (a : Str) → contains a [] ≡ false
unfolding contains
contains_nil a = refl

pub remove_nil : (a : Str) → remove a [] ≡ []
unfolding remove
remove_nil a = refl

pub contains_cons : (x a : Str) (s : List Str) → contains a (x ∷ s) ≡ (str_eq x a || contains a s)
unfolding contains
contains_cons x a s = refl

pub is_empty-remove : (a : Str) (s : List Str) → is_empty s ≡ true → is_empty (remove a s) ≡ true
unfolding remove
is_empty-remove a [] h = refl
is_empty-remove a (x ∷ s) h = ground arith

pub insert_nil : (a : Str) → insert a [] ≡ a ∷ []
unfolding insert contains
insert_nil a = refl

pub is_nil : (s : List Str) → is_empty s ≡ true → s ≡ []
is_nil [] h = refl
is_nil (x ∷ s) h = ground arith
