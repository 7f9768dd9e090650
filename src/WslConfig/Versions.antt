-- ===== src/WslConfig/Versions.antt =====
-- src/main/wsl/wsl-config.ts: comparison of dotted versions.
pub mod Order
use wslpad.Base.{
  ℕ, suc, ◌+◌, ◌-◌, ◌*◌, Bool, true, false, ◌&&◌, ◌||◌, Text, List, [], ◌∷◌, map, Option, none,
  some, ltb, ◌==◌, if◌then◌else◌, is_digit, is_empty, trim_start, split, read,
}
use wslpad.Base.Int.{ℤ, pos, negsuc}

-- The run of digits at the start of a text.
unfoldable pub leading_digits : Text → Text
leading_digits [] = []
leading_digits (c ∷ s) = if is_digit c then c ∷ leading_digits s else []

abbrev negate : ℕ → ℤ
negate ℕ.zero = pos 0
negate (suc n) = negsuc n

abbrev signed : Bool → Text → Option ℤ
signed negative digits =
    if is_empty digits
    then none
    else some (if negative then negate (read digits) else pos (read digits))

abbrev unsigned_or_signed : Text → Option ℤ
unsigned_or_signed [] = none
unsigned_or_signed (c ∷ s) =
    if c == b'-'
    then signed true (leading_digits s)
    else if c == b'+'
    then signed false (leading_digits s)
    else signed false (leading_digits (c ∷ s))

-- `Number.parseInt(p, 10)`; `none` is NaN.
unfoldable pub parse_int : Text → Option ℤ
unfolding leading_digits
parse_int p = unsigned_or_signed (trim_start p)

-- `Number.isFinite(x) ? x : 0`.
abbrev pub finite_or_zero : Option ℤ → ℤ
finite_or_zero none = pos 0
finite_or_zero (some n) = n

abbrev pub lt_ℤ : ℤ → ℤ → Bool
lt_ℤ (pos a) (pos b) = ltb a b
lt_ℤ (pos a) (negsuc b) = false
lt_ℤ (negsuc a) (pos b) = true
lt_ℤ (negsuc a) (negsuc b) = ltb b a

abbrev pub eq_ℤ : ℤ → ℤ → Bool
eq_ℤ (pos a) (pos b) = a == b
eq_ℤ (pos a) (negsuc b) = false
eq_ℤ (negsuc a) (pos b) = false
eq_ℤ (negsuc a) (negsuc b) = a == b

abbrev pub one_step : ℤ → ℤ → ℤ → ℤ
one_step l r rest = if eq_ℤ l r then rest else if lt_ℤ l r then negsuc 0 else pos 1

-- The loop over the positions of the longer list; a missing part is 0.
unfoldable pub compare_parts : List ℤ → List ℤ → ℤ
compare_parts [] [] = pos 0
compare_parts [] (r ∷ rs) = one_step (pos 0) r (compare_parts [] rs)
compare_parts (l ∷ ls) [] = one_step l (pos 0) (compare_parts ls [])
compare_parts (l ∷ ls) (r ∷ rs) = one_step l r (compare_parts ls rs)

unfoldable pub parts : Text → List ℤ
unfolding parse_int
parts version = map (λ p. finite_or_zero (parse_int p)) (split b'.' version)

unfoldable pub compare_versions : Text → Text → ℤ
unfolding compare_parts parts
compare_versions a b = compare_parts (parts a) (parts b)
