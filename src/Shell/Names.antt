-- ===== src/Shell/Names.antt =====
-- What the guards on names and paths admit.
use wslpad.Base.{
  ℕ, ◌≤◌, ◌<◌, ◌≡◌, ◌≢◌, refl, Bool, true, Text, [], ◌∷◌, ◌++◌, some, arith, every, length,
  append_assoc, append-nil, ◌==◌, starts_with, not, ◌&&◌, ◌||◌, ◌∙◌, below, below-In, every-In,
}
use mathlib.Core.Bool.{and-eq-true_iff}
use wslpad.Base.Results.{ok}
use wslpad.Shell.{is_alphanumeric, is_name_unit, matches_distro_name, assert_valid_distro_name}
use wslpad.Shell.Words.{between, word, lex, words, is_active, is_blank}

-- A unit of a name means nothing of its own to a shell.
abbrev is_plain : ℕ → Bool
is_plain c = not (c == 39) && not (c == 92) && not (is_blank c) && not (is_active c)

abbrev name_unit_is_plain : ℕ → Bool
name_unit_is_plain c = not (is_name_unit c) || is_plain c

name_units : every name_unit_is_plain (below 123) ≡ true
unfolding is_active
name_units = refl

is_name_unit-is_plain : (c : ℕ) → is_name_unit c ≡ true → is_plain c ≡ true
is_name_unit-is_plain c h =
    let bound : c < 123 = ground arith in
    let entry = every-In name_unit_is_plain (below 123) name_units (below-In 123 c bound) in
    rw h at entry

lex-is_plain :
    (w s : Text) (c : ℕ) → is_plain c ≡ true → lex (word w) (c ∷ s) ≡ lex (word (w ++ c ∷ [])) s
unfolding lex
lex-is_plain w s c h = ground arith

lex-is_name_unit :
    (w s : Text) → every is_name_unit s ≡ true → lex (word w) s ≡ some ((w ++ s) ∷ [])
unfolding lex
lex-is_name_unit w [] h = rw append-nil
lex-is_name_unit w (c ∷ s) h =
    let (here, later) = (and-eq-true_iff _ _).0 h in
    lex-is_plain w s c (is_name_unit-is_plain c here)
    ∙ lex-is_name_unit (w ++ c ∷ []) s later
    ∙ rw append_assoc

is_alphanumeric-is_name_unit : (c : ℕ) → is_alphanumeric c ≡ true → is_name_unit c ≡ true
is_alphanumeric-is_name_unit c h = rw h

lex-between : (s : Text) (c : ℕ) → is_plain c ≡ true → lex between (c ∷ s) ≡ lex (word (c ∷ [])) s
unfolding lex
lex-between s c h = ground arith

lex-matches_distro_name :
    (name : Text) → matches_distro_name name ≡ true → lex between name ≡ some (name ∷ [])
lex-matches_distro_name [] h = cc
lex-matches_distro_name (c ∷ s) h =
    let (first, later) = (and-eq-true_iff _ _).0 h in
    lex-between s c (is_name_unit-is_plain c (is_alphanumeric-is_name_unit c first))
    ∙ lex-is_name_unit (c ∷ []) s later

-- A name that the guard lets pass has 1 to 128 units, does not begin with a dash, so that no
-- program takes it for an option, and is one literal word of a shell without any quoting.
pub assert_valid_distro_name_sound :
    (name : Text)
    → assert_valid_distro_name name ≡ ok tt
    → (0 < length name)
      × (length name ≤ 128)
      × (starts_with name (b'-' ∷ []) ≢ true)
      × (words name ≡ some (name ∷ []))
unfolding assert_valid_distro_name words starts_with
assert_valid_distro_name_sound [] h = ground arith
assert_valid_distro_name_sound (c ∷ s) h =
    let named : matches_distro_name (c ∷ s) ≡ true = ground arith in
    (ground arith, ground arith, ground arith, lex-matches_distro_name (c ∷ s) named)
