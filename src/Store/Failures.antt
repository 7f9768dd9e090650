-- ===== src/Store/Failures.antt =====
-- The list of failed collectors in src/main/state/store.ts.
use wslpad.Base.{
  sym, ap, ◌⊎◌, inl, inr, take, select, ltb→lt, ℕ, suc, ◌-◌, ◌≤◌, ◌≡◌, refl, true, false, not, Text,
  List, [], ◌∷◌, ◌++◌, arith, length, drop, same, same_refl, same_sym, one_of, ltb, if_elim,
  length-select,
}
use wslpad.Store.{newest, without, note_runner_failure, clear_runner_failure}

-- No command twice.
abbrev pub Distinct : List Text → Type 0
Distinct [] = Unit
Distinct (c ∷ cs) = (one_of c cs ≡ false) × Distinct cs

abbrev pub IsTracked : List Text → Type 0
IsTracked failures = (length failures ≤ 20) × Distinct failures

one_of-without :
    (x c : Text) (cs : List Text) → one_of x cs ≡ false → one_of x (without c cs) ≡ false
one_of-without x c [] h = refl
one_of-without x c (d ∷ cs) h = ground (arith, one_of-without x c cs)

without-absent : (c : Text) (cs : List Text) → one_of c (without c cs) ≡ false
without-absent c [] = refl
without-absent c (d ∷ cs) =
    if_elim (λ xs. one_of c xs ≡ false) (not (same d c))
      (λ h. ground (arith, same_sym c d, without-absent c cs)) (λ _. without-absent c cs)

Distinct-without : (c : Text) (cs : List Text) → Distinct cs → Distinct (without c cs)
Distinct-without c [] h = tt
Distinct-without c (d ∷ cs) (h, k) =
    if_elim Distinct (not (same d c)) (λ _. (one_of-without d c cs h, Distinct-without c cs k))
      (λ _. Distinct-without c cs k)

one_of-append :
    (x c : Text) (cs : List Text)
    → one_of x cs ≡ false
    → same x c ≡ false
    → one_of x (cs ++ c ∷ []) ≡ false
one_of-append x c [] h k = ground arith
one_of-append x c (d ∷ cs) h k = ground (arith, one_of-append x c cs)

pub Distinct-append :
    (c : Text) (cs : List Text) → Distinct cs → one_of c cs ≡ false → Distinct (cs ++ c ∷ [])
Distinct-append c [] h k = (refl, tt)
Distinct-append c (d ∷ cs) (h, l) k =
    (one_of-append d c cs h (ground (arith, same_sym d c)), Distinct-append c cs l (ground arith))

Distinct-drop : (n : ℕ) (cs : List Text) → Distinct cs → Distinct (drop n cs)
Distinct-drop ℕ.zero cs h = h
Distinct-drop (suc n) [] h = tt
Distinct-drop (suc n) (c ∷ cs) (h, k) = Distinct-drop n cs k

length-drop : {A : Type 0} (n : ℕ) (xs : List A) → length (drop n xs) ≡ length xs - n
length-drop ℕ.zero xs = omega arith
length-drop (suc n) [] = omega arith
length-drop (suc n) (x ∷ xs) = omega (arith, length-drop n xs)

length-newest : (cs : List Text) → length (newest cs) ≤ 20
length-newest cs = omega (arith, length-drop (length cs - 20) cs)

one_of-append_last : (c : Text) (cs : List Text) → one_of c (cs ++ c ∷ []) ≡ true
one_of-append_last c [] = ground (arith, same_refl c)
one_of-append_last c (d ∷ cs) = ground (arith, one_of-append_last c cs)

pub note-IsTracked :
    (c : Text) (cs : List Text) → IsTracked cs → IsTracked (note_runner_failure c cs)
unfolding note_runner_failure
note-IsTracked c cs (h, k) =
    let noted = without c cs ++ c ∷ [] in
    let distinct =
      Distinct-append c (without c cs) (Distinct-without c cs k) (without-absent c cs) in
    if_elim IsTracked (ltb 20 (length noted))
      (λ _. (length-newest noted, Distinct-drop (length noted - 20) noted distinct))
      (λ short. (ground arith, distinct))

pub clear-IsTracked :
    (c : Text) (cs : List Text) → IsTracked cs → IsTracked (clear_runner_failure c cs)
unfolding clear_runner_failure
clear-IsTracked c cs (h, k) =
    if_elim IsTracked (not (one_of c cs)) (λ _. (h, k))
      (λ _. (omega (arith, length-select (λ d. not (same d c)) cs), Distinct-without c cs k))

take-append_drop : {A : Type 0} (n : ℕ) (xs : List A) → take n xs ++ drop n xs ≡ xs
take-append_drop ℕ.zero xs = refl
take-append_drop (suc n) [] = refl
take-append_drop (suc n) (x ∷ xs) = ap (λ ys. x ∷ ys) (take-append_drop n xs)

-- The latest of the elements, in their order: all of them, or else 20.
abbrev pub AreLatest : List Text → List Text → Type 0
AreLatest all kept =
    (older : List Text) × (older ++ kept ≡ all) × ((older ≡ []) ⊎ (length kept ≡ 20))

-- The other commands, in their order.
abbrev pub others : Text → List Text → List Text
others c cs = select (λ d. not (same d c)) cs

note-AreLatest :
    (c : Text) (cs : List Text) → AreLatest (others c cs ++ c ∷ []) (note_runner_failure c cs)
unfolding note_runner_failure
note-AreLatest c cs =
    let noted = without c cs ++ c ∷ [] in
    if_elim (AreLatest noted) (ltb 20 (length noted))
      (λ long. (
        take (length noted - 20) noted,
        take-append_drop (length noted - 20) noted,
        inr (
            let more = ltb→lt 20 (length noted) long in
            let kept = length-drop (length noted - 20) noted in omega (arith, more, kept)),
      ))
      (λ _. ([], refl, inl refl))

absent-others : (c : Text) (cs : List Text) → one_of c cs ≡ false → others c cs ≡ cs
absent-others c [] h = refl
absent-others c (d ∷ cs) h = ground (arith, same_sym c d, absent-others c cs)

clear-others : (c : Text) (cs : List Text) → clear_runner_failure c cs ≡ others c cs
unfolding clear_runner_failure
clear-others c cs =
    if_elim (λ xs. xs ≡ others c cs) (not (one_of c cs))
      (λ h. sym (absent-others c cs (ground arith))) (λ _. refl)

-- From a list of at most 20 commands, none of them twice, noting a failed collector and clearing one
-- lead to such a list again. Noting moves the command to the end, and of what is then there keeps the
-- latest: everything, or else exactly 20. Clearing keeps just the other commands. Both keep the order.
pub runner_failures-IsTracked :
    (c : Text) (cs : List Text)
    → IsTracked cs
    → IsTracked (note_runner_failure c cs)
      × IsTracked (clear_runner_failure c cs)
      × AreLatest (others c cs ++ c ∷ []) (note_runner_failure c cs)
      × (clear_runner_failure c cs ≡ others c cs)
runner_failures-IsTracked c cs h =
    (note-IsTracked c cs h, clear-IsTracked c cs h, note-AreLatest c cs, clear-others c cs)
