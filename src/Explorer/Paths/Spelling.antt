-- ===== src/Explorer/Paths/Spelling.antt =====
-- What the conversions of src/main/explorer/path-convert.ts do to a path, unit by unit.
use wslpad.Base.{
  ℕ, ◌≡◌, refl, ap, true, false, Text, [], ◌∷◌, arith, starts_with, lower, upper, is_letter, ◌==◌,
  drop_tail, has, every,
}
use wslpad.Boundary.{slash, is_separator}
use wslpad.Explorer.Paths.{
  is_inline, is_tail, is_slash, to_backslashes, to_slashes, or_backslash, clean,
}

pub to_slashes-to_backslashes : (s : Text) → to_slashes (to_backslashes s) ≡ to_slashes s
unfolding to_slashes to_backslashes
to_slashes-to_backslashes [] = refl
to_slashes-to_backslashes (c ∷ s) = ground (arith, to_slashes-to_backslashes s)

pub clean-to_backslashes : (s : Text) → clean (to_backslashes s) ≡ clean s
unfolding clean
clean-to_backslashes s = ap (drop_tail is_slash) (to_slashes-to_backslashes s)

pub clean-or_backslash : (s : Text) → clean (or_backslash s) ≡ clean s
unfolding clean to_slashes drop_tail starts_with
clean-or_backslash [] = refl
clean-or_backslash (c ∷ s) = refl

pub has-to_backslashes :
    (u : ℕ) (s : Text)
    → (u == slash) ≡ false
    → (u == 92) ≡ false
    → has u (to_backslashes s) ≡ has u s
unfolding to_backslashes
has-to_backslashes u [] h k = refl
has-to_backslashes u (c ∷ s) h k = ground (arith, has-to_backslashes u s h k)

pub is_inline-to_backslashes : (s : Text) → every is_inline (to_backslashes s) ≡ every is_inline s
unfolding to_backslashes
is_inline-to_backslashes [] = refl
is_inline-to_backslashes (c ∷ s) = ground (arith, is_inline-to_backslashes s)

pub is_tail-to_backslashes :
    (s : Text) → is_tail is_slash s ≡ true → is_tail is_separator (to_backslashes s) ≡ true
unfolding is_tail to_backslashes
is_tail-to_backslashes [] h = refl
is_tail-to_backslashes (c ∷ s) h = ground (arith, is_inline-to_backslashes s)

pub is_tail-or_backslash :
    (s : Text) → is_tail is_separator s ≡ true → is_tail is_separator (or_backslash s) ≡ true
unfolding is_tail
is_tail-or_backslash [] h = refl
is_tail-or_backslash (c ∷ s) h = h

pub has-or_backslash : (u : ℕ) (s : Text) → (u == 92) ≡ false → has u (or_backslash s) ≡ has u s
has-or_backslash u [] h = ground arith
has-or_backslash u (c ∷ s) h = refl

pub lower-upper : (c : ℕ) → is_letter c ≡ true → lower c ≡ c → lower (upper c) ≡ c
lower-upper c h k = ground arith

pub upper-is_letter : (c : ℕ) → is_letter c ≡ true → is_letter (upper c) ≡ true
upper-is_letter c h = ground arith

pub upper-== : (c u : ℕ) → is_letter c ≡ true → is_letter u ≡ false → (upper c == u) ≡ false
upper-== c u h k = ground arith
