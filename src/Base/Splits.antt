-- ===== src/Base/Splits.antt =====
-- How `split` and `join` undo one another.
use Prim.Native.Nat.{ℕ}
use mathlib.Core.Path.{◌≡◌, refl}
use mathlib.Core.Logic.{inl, inr}
use mathlib.Core.Bool.{false}
use mathlib.Core.List.{List, [], ◌∷◌, ◌++◌}
use native.Mathlib.Omega.{arith}
use wslpad.Base.Bools.{◌==◌, ==_iff, ==_refl, Bool-cases, if_elim}
use wslpad.Base.Lists.{is_empty}
use wslpad.Base.Strings.{Text, split, join, glue, has}

glue-append :
    (c : ℕ) (xs ys : List Text) → is_empty xs ≡ false → glue c (xs ++ ys) ≡ glue c xs ++ ys
glue-append c [] ys h = cc
glue-append c (x ∷ xs) ys h = refl

is_empty-glue : (c : ℕ) (xs : List Text) → is_empty (glue c xs) ≡ false
is_empty-glue c [] = refl
is_empty-glue c (x ∷ xs) = refl

pub is_empty-split : (sep : ℕ) (s : Text) → is_empty (split sep s) ≡ false
unfolding split
is_empty-split sep [] = refl
is_empty-split sep (c ∷ s) =
    if_elim (λ (xs : List Text). is_empty xs ≡ false) (c == sep) (λ _. refl)
      (λ _. is_empty-glue c (split sep s))

-- A separator between two texts separates their pieces.
pub split-append : (sep : ℕ) (s t : Text) → split sep (s ++ sep ∷ t) ≡ split sep s ++ split sep t
unfolding split
split-append sep [] t = ground (arith, ==_refl sep)
split-append sep (c ∷ s) t = elim (Bool-cases (c == sep)) [
  | inl e ↦ ground (arith, split-append sep s t)
  | inr e ↦ ground (
    arith,
    split-append sep s t,
    glue-append c (split sep s) (split sep t) (is_empty-split sep s),
  )
]

pub split-free : (sep : ℕ) (s : Text) → has sep s ≡ false → split sep s ≡ s ∷ []
unfolding split
split-free sep [] h = refl
split-free sep (c ∷ s) h = ground (arith, split-free sep s)

join-cons :
    (sep : ℕ) (xs : List Text)
    → is_empty xs ≡ false
    → join (sep ∷ []) ([] ∷ xs) ≡ sep ∷ join (sep ∷ []) xs
unfolding join
join-cons sep [] h = cc
join-cons sep (x ∷ xs) h = refl

join-glue :
    (sep c : ℕ) (xs : List Text)
    → is_empty xs ≡ false
    → join (sep ∷ []) (glue c xs) ≡ c ∷ join (sep ∷ []) xs
unfolding join
join-glue sep c [] h = cc
join-glue sep c (x ∷ []) h = refl
join-glue sep c (x ∷ y ∷ xs) h = refl

pub join-split : (sep : ℕ) (s : Text) → join (sep ∷ []) (split sep s) ≡ s
unfolding split join
join-split sep [] = refl
join-split sep (c ∷ s) = elim (Bool-cases (c == sep)) [
  | inl e ↦ ground (
    arith,
    (==_iff c sep).0 e,
    join-split sep s,
    join-cons sep (split sep s) (is_empty-split sep s),
  )
  | inr e ↦ ground (arith, join-split sep s, join-glue sep c (split sep s) (is_empty-split sep s))
]
