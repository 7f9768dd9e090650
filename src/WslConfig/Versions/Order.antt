-- ===== src/WslConfig/Versions/Order.antt =====
-- Versions are compared at the first part where they differ.
use wslpad.Base.{
  ℕ, zero, suc, ◌<◌, ◌≡◌, ◌≢◌, ◌↔◌, ap, refl, sym, ◌∙◌, true, Bool-cases, inl, inr, Text, List, [],
  ◌∷◌, arith,
}
use wslpad.Base.Int.{ℤ, pos, negsuc}
use wslpad.WslConfig.Versions.{lt_ℤ, eq_ℤ, one_step, compare_parts, parts, compare_versions}

-- Part `i` of a version, 0 past its end.
abbrev pub part : List ℤ → ℕ → ℤ
part [] i = pos 0
part (x ∷ xs) zero = x
part (x ∷ xs) (suc i) = part xs i

-- The parts agree before `i`, and the first list has the smaller part there.
pub record FirstLess (xs ys : List ℤ) : Type 0 where
  pub at : ℕ
  pub agree : (j : ℕ) → j < at → part xs j ≡ part ys j
  pub less : lt_ℤ (part xs at) (part ys at) ≡ true

eq_ℤ-eq : (x y : ℤ) → eq_ℤ x y ≡ true → x ≡ y
eq_ℤ-eq x y h = ground arith

eq_ℤ_refl : (x : ℤ) → eq_ℤ x x ≡ true
eq_ℤ_refl x = ground arith

-- One position of the loop: two lists and what is left of them.
module _ (xs ys xs' ys' : List ℤ) (left : (j : ℕ) → part xs (suc j) ≡ part xs' j)
    (right : (j : ℕ) → part ys (suc j) ≡ part ys' j) where
  FirstLess-later : part xs zero ≡ part ys zero → FirstLess xs' ys' → FirstLess xs ys
  FirstLess-later e f = record {
    at = suc f.at;
    agree = elim [ zero ↦ λ _. e | suc j ↦ λ h. left j ∙ f.agree j (omega arith) ∙ sym (right j) ];
    less = rw (left f.at, right f.at) f.less;
  }

  one_step-less :
      {c : ℤ}
      → (c ≡ negsuc 0 → FirstLess xs' ys')
      → one_step (part xs zero) (part ys zero) c ≡ negsuc 0
      → FirstLess xs ys
  one_step-less ih h = elim (Bool-cases (eq_ℤ (part xs zero) (part ys zero))) [
    | inl e ↦ FirstLess-later (eq_ℤ-eq _ _ e) (ih (rw e at h))
    | inr e ↦ record { at = 0; agree = λ j below. absurd (omega arith); less = ground arith }
  ]

  less_at-one_step :
      {c : ℤ}
      → (FirstLess xs' ys' → c ≡ negsuc 0)
      → (n : ℕ) → ((j : ℕ) → j < n → part xs j ≡ part ys j)
      → lt_ℤ (part xs n) (part ys n) ≡ true
      → one_step (part xs zero) (part ys zero) c ≡ negsuc 0
  less_at-one_step ih zero agree less = ground arith
  less_at-one_step ih (suc n) agree less =
      rw (agree 0 (omega arith), eq_ℤ_refl (part ys zero))
        (ih (record {
          at = n;
          agree = λ j h. sym (left j) ∙ agree (suc j) (omega arith) ∙ right j;
          less = rw (← left n, ← right n) less;
        }))

  less-one_step :
      {c : ℤ}
      → (FirstLess xs' ys' → c ≡ negsuc 0)
      → FirstLess xs ys
      → one_step (part xs zero) (part ys zero) c ≡ negsuc 0
  less-one_step ih f = less_at-one_step ih f.at f.agree f.less

compare_parts-less : (xs ys : List ℤ) → compare_parts xs ys ≡ negsuc 0 → FirstLess xs ys
unfolding compare_parts
compare_parts-less [] [] h = cc
compare_parts-less [] (y ∷ ys) h =
    one_step-less [] (y ∷ ys) [] ys (λ j. refl) (λ j. refl) (compare_parts-less [] ys) h
compare_parts-less (x ∷ xs) [] h =
    one_step-less (x ∷ xs) [] xs [] (λ j. refl) (λ j. refl) (compare_parts-less xs []) h
compare_parts-less (x ∷ xs) (y ∷ ys) h =
    one_step-less (x ∷ xs) (y ∷ ys) xs ys (λ j. refl) (λ j. refl) (compare_parts-less xs ys) h

lt_ℤ_irrefl : (x : ℤ) → lt_ℤ x x ≢ true
lt_ℤ_irrefl x h = ground arith

less-compare_parts : (xs ys : List ℤ) → FirstLess xs ys → compare_parts xs ys ≡ negsuc 0
unfolding compare_parts
less-compare_parts [] [] f = absurd (lt_ℤ_irrefl (pos 0) f.less)
less-compare_parts [] (y ∷ ys) f =
    less-one_step [] (y ∷ ys) [] ys (λ j. refl) (λ j. refl) (less-compare_parts [] ys) f
less-compare_parts (x ∷ xs) [] f =
    less-one_step (x ∷ xs) [] xs [] (λ j. refl) (λ j. refl) (less-compare_parts xs []) f
less-compare_parts (x ∷ xs) (y ∷ ys) f =
    less-one_step (x ∷ xs) (y ∷ ys) xs ys (λ j. refl) (λ j. refl) (less-compare_parts xs ys) f

-- The sign of a comparison, turned round.
abbrev flip : ℤ → ℤ
flip (pos zero) = pos 0
flip (pos (suc n)) = negsuc n
flip (negsuc n) = pos (suc n)

one_step-flip : (x y c d : ℤ) → d ≡ flip c → one_step y x d ≡ flip (one_step x y c)
one_step-flip x y c d h = ground arith

compare_parts-flip : (xs ys : List ℤ) → compare_parts ys xs ≡ flip (compare_parts xs ys)
unfolding compare_parts
compare_parts-flip [] [] = refl
compare_parts-flip [] (y ∷ ys) = one_step-flip (pos 0) y _ _ (compare_parts-flip [] ys)
compare_parts-flip (x ∷ xs) [] = one_step-flip x (pos 0) _ _ (compare_parts-flip xs [])
compare_parts-flip (x ∷ xs) (y ∷ ys) = one_step-flip x y _ _ (compare_parts-flip xs ys)

compare_parts-greater_iff : (xs ys : List ℤ) → (compare_parts xs ys ≡ pos 1) ↔ FirstLess ys xs
compare_parts-greater_iff xs ys = (
  λ h. compare_parts-less ys xs (compare_parts-flip xs ys ∙ ap flip h),
  λ f. compare_parts-flip ys xs ∙ ap flip (less-compare_parts ys xs f),
)

one_step-zero : (x y c : ℤ) → one_step x y c ≡ pos 0 → (x ≡ y) × (c ≡ pos 0)
one_step-zero x y c h = ground arith

compare_parts-zero :
    (xs ys : List ℤ) → compare_parts xs ys ≡ pos 0 → (i : ℕ) → part xs i ≡ part ys i
unfolding compare_parts
compare_parts-zero [] [] h i = refl
compare_parts-zero [] (y ∷ ys) h zero = (one_step-zero (pos 0) y _ h).0
compare_parts-zero [] (y ∷ ys) h (suc i) =
    compare_parts-zero [] ys (one_step-zero (pos 0) y _ h).1 i
compare_parts-zero (x ∷ xs) [] h zero = (one_step-zero x (pos 0) _ h).0
compare_parts-zero (x ∷ xs) [] h (suc i) =
    compare_parts-zero xs [] (one_step-zero x (pos 0) _ h).1 i
compare_parts-zero (x ∷ xs) (y ∷ ys) h zero = (one_step-zero x y _ h).0
compare_parts-zero (x ∷ xs) (y ∷ ys) h (suc i) =
    compare_parts-zero xs ys (one_step-zero x y _ h).1 i

zero-one_step : (x y c : ℤ) → x ≡ y → c ≡ pos 0 → one_step x y c ≡ pos 0
zero-one_step x y c e h = rw (e, eq_ℤ_refl y) h

zero-compare_parts :
    (xs ys : List ℤ) → ((i : ℕ) → part xs i ≡ part ys i) → compare_parts xs ys ≡ pos 0
unfolding compare_parts
zero-compare_parts [] [] h = refl
zero-compare_parts [] (y ∷ ys) h =
    zero-one_step (pos 0) y _ (h 0) (zero-compare_parts [] ys (λ i. h (suc i)))
zero-compare_parts (x ∷ xs) [] h =
    zero-one_step x (pos 0) _ (h 0) (zero-compare_parts xs [] (λ i. h (suc i)))
zero-compare_parts (x ∷ xs) (y ∷ ys) h =
    zero-one_step x y _ (h 0) (zero-compare_parts xs ys (λ i. h (suc i)))

-- Two versions compare as -1 exactly when at the first part where they differ the first has the
-- smaller number, as 1 exactly when the second has, and as 0 exactly when they agree at every part;
-- a part that is missing or does not begin with a number is 0.
pub compare_versions_iff :
    (a b : Text)
    → ((compare_versions a b ≡ negsuc 0) ↔ FirstLess (parts a) (parts b))
      × ((compare_versions a b ≡ pos 1) ↔ FirstLess (parts b) (parts a))
      × ((compare_versions a b ≡ pos 0) ↔ ((i : ℕ) → part (parts a) i ≡ part (parts b) i))
unfolding compare_versions
compare_versions_iff a b = (
  (compare_parts-less (parts a) (parts b), less-compare_parts (parts a) (parts b)),
  compare_parts-greater_iff (parts a) (parts b),
  (compare_parts-zero (parts a) (parts b), zero-compare_parts (parts a) (parts b)),
)
