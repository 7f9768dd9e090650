-- ===== src/Base/Strings.antt =====
-- Texts as the language has them, lists of code units, and the methods of `String` that the source
-- calls. Case mapping is that of the ASCII letters; every other unit is its own image.
use Prim.Native.Nat.{ℕ, zero, suc, ◌+◌, ◌-◌, ◌*◌, ◌/◌, ◌%◌, ◌<◌}
use Prim.Native.Char.{code}
use Prim.Native.String.{String}
use mathlib.Core.Path.{◌≡◌, refl, sym, ap, ◌∙◌}
use mathlib.Core.Logic.{◌↔◌}
use mathlib.Core.Bool.{Bool, true, false, not, ◌&&◌, ◌||◌}
use mathlib.Core.List.{List, [], ◌∷◌, ◌++◌}
use native.Mathlib.Omega.{arith}
use wslpad.Base.Bools.{==_iff, if_elim, Bool_ext, ltb, ◌==◌, within, if◌then◌else◌}
use mathlib.Core.Option.{Option, none, some}
use wslpad.Base.Lists.{is_empty, any, every}

abbrev pub Text : Type 0
Text = List ℕ

-- A text literal. It stays folded, so that a long sentence is one term.
unfoldable pub lit : String → Text
lit String.[] = []
lit (String.◌∷◌ c s) = code c ∷ lit s

-- `===` on texts.
unfoldable pub same : Text → Text → Bool
same [] [] = true
same [] (y ∷ ys) = false
same (x ∷ xs) [] = false
same (x ∷ xs) (y ∷ ys) = x == y && same xs ys

pub same_iff : (s t : Text) → (same s t ≡ true) ↔ (s ≡ t)
unfolding same
same_iff [] [] = ground arith
same_iff [] (y ∷ ys) = ground arith
same_iff (x ∷ xs) [] = ground arith
same_iff (x ∷ xs) (y ∷ ys) = ground (arith, same_iff xs ys)

pub same_refl : (s : Text) → same s s ≡ true
same_refl s = (same_iff s s).1 refl

pub same_sym : (s t : Text) → same s t ≡ same t s
same_sym s t =
    Bool_ext (same s t) (same t s) (λ e. (same_iff t s).1 (sym ((same_iff s t).0 e)))
      (λ e. (same_iff s t).1 (sym ((same_iff t s).0 e)))

unfoldable pub starts_with : Text → Text → Bool
starts_with s [] = true
starts_with [] (c ∷ p) = false
starts_with (d ∷ s) (c ∷ p) = d == c && starts_with s p

-- `s.includes(p)`.
unfoldable pub includes : Text → Text → Bool
unfolding starts_with
includes [] p = is_empty p
includes (c ∷ s) p = starts_with (c ∷ s) p || includes s p

-- The array's `includes`.
abbrev pub one_of : Text → List Text → Bool
one_of s ts = any (same s) ts

-- `s.includes(c)` for one unit.
abbrev pub has : ℕ → Text → Bool
has c s = any (λ d. d == c) s

abbrev pub glue : ℕ → List Text → List Text
glue c [] = (c ∷ []) ∷ []
glue c (w ∷ ws) = (c ∷ w) ∷ ws

-- `s.split(sep)` for a separator of one unit.
unfoldable pub split : ℕ → Text → List Text
split sep [] = [] ∷ []
split sep (c ∷ s) = let rest = split sep s in if c == sep then [] ∷ rest else glue c rest

-- `ts.join(sep)`.
unfoldable pub join : Text → List Text → Text
join sep [] = []
join sep (t ∷ []) = t
join sep (t ∷ u ∷ ts) = t ++ (sep ++ join sep (u ∷ ts))

abbrev pub lower : ℕ → ℕ
lower c = if within b'A' b'Z' c then c + 32 else c

abbrev pub upper : ℕ → ℕ
upper c = if within b'a' b'z' c then c - 32 else c

unfoldable pub to_lower : Text → Text
to_lower [] = []
to_lower (c ∷ s) = lower c ∷ to_lower s

unfoldable pub to_upper : Text → Text
to_upper [] = []
to_upper (c ∷ s) = upper c ∷ to_upper s

abbrev pub is_digit : ℕ → Bool
is_digit c = within b'0' b'9' c

abbrev pub is_letter : ℕ → Bool
is_letter c = within b'A' b'Z' c || within b'a' b'z' c

-- White space as `trim` and `\s` read it.
unfoldable pub is_space : ℕ → Bool
is_space c =
    within 9 13 c
    || c == 32
    || c == 0xa0
    || c == 0x1680
    || within 0x2000 0x200a c
    || within 0x2028 0x2029 c
    || c == 0x202f
    || c == 0x205f
    || c == 0x3000
    || c == 0xfeff

-- The ends of lines of the language's regular expressions.
abbrev pub ends_line : ℕ → Bool
ends_line c = c == 10 || c == 13 || c == 0x2028 || c == 0x2029

unfoldable pub trim_start : Text → Text
trim_start [] = []
trim_start (c ∷ s) = if is_space c then trim_start s else c ∷ s

-- Drops the longest tail of units that pass the test.
unfoldable pub drop_tail : (ℕ → Bool) → Text → Text
drop_tail p [] = []
drop_tail p (c ∷ s) = let rest = drop_tail p s in if p c && is_empty rest then [] else c ∷ rest

unfoldable pub trim : Text → Text
unfolding trim_start drop_tail
trim s = drop_tail is_space (trim_start s)

-- The longest run of units that pass the test, and what follows it.
unfoldable pub span : (ℕ → Bool) → Text → Text × Text
span p [] = ([], [])
span p (c ∷ s) = let rest = span p s in if p c then (c ∷ rest.0, rest.1) else ([], c ∷ s)

-- `/^\d+$/`.
abbrev pub is_number : Text → Bool
is_number [] = false
is_number (c ∷ s) = every is_digit (c ∷ s)

abbrev begins_with_space : Text → Bool
begins_with_space [] = false
begins_with_space (c ∷ s) = is_space c

-- `s.split(/\s+/)`.
unfoldable pub split_spaces : Text → List Text
split_spaces [] = [] ∷ []
split_spaces (c ∷ s) =
    let rest = split_spaces s in
    if not (is_space c) then glue c rest else if begins_with_space s then rest else [] ∷ rest

abbrev split_before : ℕ → ℕ → Text → Option (Text × Text) → Option (Text × Text)
split_before sep c s (some (left, right)) = some (c ∷ left, right)
split_before sep c s none = if c == sep then some ([], s) else none

-- The text before and after the last `sep`.
unfoldable pub split_last : ℕ → Text → Option (Text × Text)
split_last sep [] = none
split_last sep (c ∷ s) = let rest = split_last sep s in split_before sep c s rest

-- The decimal digits of a number: `${n}`. A number has fewer digits than it has successors.
show_from : ℕ → ℕ → Text
show_from zero n = []
show_from (suc fuel) n =
    let rest = show_from fuel (n / 10) in
    if ltb n 10 then (b'0' + n) ∷ [] else rest ++ (b'0' + n % 10) ∷ []

unfoldable pub show : ℕ → Text
unfolding show_from
show n = show_from (suc n) n

-- `Number.parseInt` of a run of digits, with what was read so far.
unfoldable pub read_from : ℕ → Text → ℕ
read_from acc [] = acc
read_from acc (c ∷ s) = read_from (acc * 10 + (c - b'0')) s

unfoldable pub read : Text → ℕ
unfolding read_from
read s = read_from 0 s

read_from-append : (acc : ℕ) (s t : Text) → read_from acc (s ++ t) ≡ read_from (read_from acc s) t
unfolding read_from
read_from-append acc [] t = refl
read_from-append acc (c ∷ s) t = read_from-append (acc * 10 + (c - b'0')) s t

read-show_from : (fuel n : ℕ) → n < fuel → read_from 0 (show_from fuel n) ≡ n
unfolding show_from read_from
read-show_from zero n h = elim h [ ]
read-show_from (suc fuel) n h = ground (
  arith,
  read-show_from fuel (n / 10),
  read_from-append 0 (show_from fuel (n / 10)) ((b'0' + n % 10) ∷ []),
)

-- A printed number is read back.
pub read-show : (n : ℕ) → read (show n) ≡ n
unfolding read show
read-show n = read-show_from (suc n) n (omega arith)

pub same-show : (p q : ℕ) → same (show p) (show q) ≡ (p == q)
same-show p q =
    Bool_ext (same (show p) (show q)) (p == q)
      (λ e.
        let shown : show p ≡ show q = (same_iff (show p) (show q)).0 e in
        let read_back : p ≡ q = sym (read-show p) ∙ (ap read shown ∙ read-show q) in
        (==_iff p q).1 read_back)
      (λ e. rw ((==_iff p q).0 e) (same_refl (show q)))

is_number-snoc :
    (s : Text) (d : ℕ) → is_number s ≡ true → is_digit d ≡ true → is_number (s ++ d ∷ []) ≡ true
is_number-snoc [] d h k = ground arith
is_number-snoc (c ∷ []) d h k = ground arith
is_number-snoc (c ∷ e ∷ s) d h k = ground (arith, is_number-snoc (e ∷ s) d)

is_number-show_from : (fuel n : ℕ) → n < fuel → is_number (show_from fuel n) ≡ true
unfolding show_from
is_number-show_from zero n h = elim h [ ]
is_number-show_from (suc fuel) n h =
    if_elim (λ (t : Text). is_number t ≡ true) (ltb n 10) (λ e. ground arith)
      (λ e.
        is_number-snoc (show_from fuel (n / 10)) (b'0' + n % 10)
          (is_number-show_from fuel (n / 10) (ground arith)) (ground arith))

pub is_number-show : (n : ℕ) → is_number (show n) ≡ true
unfolding show
is_number-show n = is_number-show_from (suc n) n (omega arith)

show_1203 : show 1203 ≡ lit "1203"
unfolding show lit
show_1203 = refl

trim_both : trim (lit "  a b \r") ≡ lit "a b"
unfolding trim lit is_space
trim_both = refl

spaces_run :
    (split_spaces (lit "a  b\t c") ≡ lit "a" ∷ lit "b" ∷ lit "c" ∷ [])
    × (split_spaces (lit " a ") ≡ [] ∷ lit "a" ∷ [] ∷ [])
    × (split_last b':' (lit "::1:80") ≡ some (lit "::1", lit "80"))
unfolding split_spaces split_last lit is_space
spaces_run = (refl, refl, refl)
