-- ===== src/Base/Text.antt =====
-- Rust's `str`: the list of its UTF-8 bytes. `len` is `length`.
use Prim.Native.Nat.{ℕ, zero, suc, ◌+◌, ◌/◌, ◌%◌}
use Prim.Native.Char.{code}
use Prim.Native.String.{String}
use mathlib.Core.Path.{◌≡◌, refl}
use mathlib.Core.Logic.{◌↔◌, ◌≢◌}
use mathlib.Core.Bool.{Bool, true, false, ◌&&◌}
use mathlib.Core.List.{List, [], ◌∷◌, ◌++◌}
use mathlib.Core.Option.{Option, none, some}
use native.Mathlib.Omega.{arith}
use rushsocket.Base.Tests.{◌==◌, if◌then◌else◌}

abbrev pub Str : Type 0
Str = List ℕ

-- The bytes of an ASCII literal.
abbrev pub bytes : String → Str
bytes String.[] = []
bytes (String.◌∷◌ c s) = code c ∷ bytes s

unfoldable pub str_eq : Str → Str → Bool
str_eq [] [] = true
str_eq [] (b ∷ t) = false
str_eq (a ∷ s) [] = false
str_eq (a ∷ s) (b ∷ t) = a == b && str_eq s t

pub str_eq_iff : (s t : Str) → (str_eq s t ≡ true) ↔ (s ≡ t)
unfolding str_eq
str_eq_iff [] [] = ground arith
str_eq_iff [] (b ∷ t) = ground arith
str_eq_iff (a ∷ s) [] = ground arith
str_eq_iff (a ∷ s) (b ∷ t) = ground (arith, str_eq_iff s t)

pub str_eq_refl : (s : Str) → str_eq s s ≡ true
str_eq_refl s = (str_eq_iff s s).1 refl

pub str_eq_ne : (s t : Str) → s ≢ t → str_eq s t ≡ false
str_eq_ne s t h = ground (arith, str_eq_iff s t)

-- `strip_prefix`: what follows the prefix.
unfoldable pub strip_prefix : Str → Str → Option Str
strip_prefix s [] = some s
strip_prefix [] (p ∷ ps) = none
strip_prefix (c ∷ s) (p ∷ ps) = let rest = strip_prefix s ps in if c == p then rest else none

unfoldable pub starts_with : Str → Str → Bool
starts_with s [] = true
starts_with [] (p ∷ ps) = false
starts_with (c ∷ s) (p ∷ ps) = c == p && starts_with s ps

pub strip_prefix-append : (p s : Str) → strip_prefix (p ++ s) p ≡ some s
unfolding strip_prefix
strip_prefix-append [] s = refl
strip_prefix-append (c ∷ p) s = ground (arith, strip_prefix-append p s)

pub strip_prefix-eq-some : (s p r : Str) → strip_prefix s p ≡ some r → s ≡ p ++ r
unfolding strip_prefix
strip_prefix-eq-some s [] r h = ground arith
strip_prefix-eq-some [] (c ∷ p) r h = ground arith
strip_prefix-eq-some (d ∷ s) (c ∷ p) r h = ground (arith, strip_prefix-eq-some s p r)

pub starts_with-append : (p s : Str) → starts_with (p ++ s) p ≡ true
unfolding starts_with
starts_with-append [] s = refl
starts_with-append (c ∷ p) s = ground (arith, starts_with-append p s)

-- The decimal digits of `n`, least significant last; `n + 1` rounds are more than enough.
abbrev show_from : ℕ → ℕ → Str → Str
show_from zero n acc = acc
show_from (suc fuel) n acc =
    let more = show_from fuel (n / 10) ((48 + n % 10) ∷ acc) in
    if n / 10 == 0 then (48 + n % 10) ∷ acc else more

unfoldable pub show : ℕ → Str
show n = show_from (suc n) n []
