-- ===== src/Base/Trim.antt =====
-- Rust's `str::split` at a comma and `str::trim`, on the UTF-8 bytes.
use Prim.Native.Nat.{ℕ, zero, suc}
use mathlib.Core.Bool.{Bool, ◌&&◌, ◌||◌}
use mathlib.Core.List.{List, [], ◌∷◌}
use rushsocket.Base.Tests.{◌==◌, leb, if◌then◌else◌}
use rushsocket.Base.Lists.{is_empty, length, drop}
use rushsocket.Base.Text.{Str}

-- `split(',')`
unfoldable pub split_commas : Str → List Str
split_commas [] = [] ∷ []
split_commas (c ∷ s) =
    let parts = split_commas s in
    if c == 44
    then [] ∷ parts
    else elim parts [ [] ↦ (c ∷ []) ∷ [] | part ∷ rest ↦ (c ∷ part) ∷ rest ]

-- The characters with the property White_Space, by the length of their encoding.
abbrev white1 : ℕ → Bool
white1 a = (leb 9 a && leb a 13) || (a == 32)

abbrev white2 : ℕ → ℕ → Bool
white2 a b = a == 194 && ((b == 133) || (b == 160))

abbrev white3 : ℕ → ℕ → ℕ → Bool
white3 a b c =
    (a == 225 && (b == 154 && c == 128))
    || ((a == 226
          && ((b == 128 && ((leb 128 c && leb c 138) || ((c == 168) || ((c == 169) || (c == 175)))))
              || (b == 129 && c == 159)))
        || (a == 227 && (b == 128 && c == 128)))

-- How many bytes of white space the text begins with, one character of it at most.
unfoldable pub white_len : Str → ℕ
white_len [] = 0
white_len (a ∷ []) = if white1 a then 1 else 0
white_len (a ∷ b ∷ []) = if white1 a then 1 else if white2 a b then 2 else 0
white_len (a ∷ b ∷ c ∷ s) =
    if white1 a then 1 else if white2 a b then 2 else if white3 a b c then 3 else 0

-- By the number of bytes that are looked at.
unfoldable pub trim_start_from : ℕ → Str → Str
trim_start_from zero s = s
trim_start_from (suc n) s = elim (white_len s) [
  | zero ↦ s
  | suc k ↦ trim_start_from n (drop (suc k) s)
]

unfoldable pub trim_start : Str → Str
trim_start s = trim_start_from (length s) s

unfoldable pub trim_end : Str → Str
trim_end [] = []
trim_end (c ∷ s) = let rest = trim_end s in if is_empty (trim_start (c ∷ s)) then [] else c ∷ rest

unfoldable pub trim : Str → Str
trim s = trim_end (trim_start s)
