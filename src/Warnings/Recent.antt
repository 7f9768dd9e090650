-- ===== src/Warnings/Recent.antt =====
-- The warnings on failed collectors, from the list that the store keeps.
use wslpad.Base.{
  ℕ, suc, ◌+◌, ◌≡◌, refl, sym, ap, ◌∙◌, false, Text, List, [], ◌∷◌, ◌++◌, append-nil, append_assoc,
  any-append, length-append, arith, length, one_of, same, same_sym, take,
}
use mathlib.Core.List.{reverse, reverse-cons}
use wslpad.Store.Failures.{Distinct, Distinct-append}
use wslpad.Warnings.{distinct_from, recent}

one_of-reverse : (c : Text) (cs : List Text) → one_of c (reverse cs) ≡ one_of c cs
one_of-reverse c [] = refl
one_of-reverse c (d ∷ cs) =
    rw (reverse-cons d cs, any-append (same c) (reverse cs) (d ∷ []), one_of-reverse c cs)
      (ground arith)

Distinct-reverse : (cs : List Text) → Distinct cs → Distinct (reverse cs)
Distinct-reverse [] h = tt
Distinct-reverse (c ∷ cs) (h, k) =
    rw (reverse-cons c cs)
      (Distinct-append c (reverse cs) (Distinct-reverse cs k) (one_of-reverse c cs ∙ h))

-- An element in the middle is not among those before it.
Distinct-before :
    (before : List Text) (c : Text) (after : List Text)
    → Distinct (before ++ c ∷ after)
    → one_of c before ≡ false
Distinct-before [] c after h = refl
Distinct-before (b ∷ before) c after (h, k) =
    ground (
      arith,
      any-append (same b) before (c ∷ after),
      same_sym b c,
      Distinct-before before c after k,
    )

distinct_from-take :
    (older distinct : List Text) (k : ℕ)
    → Distinct (distinct ++ older)
    → length distinct + suc k ≡ 3
    → distinct_from older distinct ≡ distinct ++ take (suc k) older
unfolding distinct_from
distinct_from-take [] distinct k h room = sym (append-nil distinct)
distinct_from-take (cmd ∷ older) distinct ℕ.zero h room =
    let fresh = Distinct-before distinct cmd older h in
    ground (arith, length-append distinct (cmd ∷ []))
distinct_from-take (cmd ∷ older) distinct (suc k) h room =
    let fresh = Distinct-before distinct cmd older h in
    let longer = length-append distinct (cmd ∷ []) in
    let again =
      distinct_from-take older (distinct ++ cmd ∷ []) k
        (rw (append_assoc distinct (cmd ∷ []) older) h) (omega arith) in
    rw fresh (ground (arith, again ∙ append_assoc distinct (cmd ∷ []) (take (suc k) older)))

-- From a list that names no command twice, as the store keeps it, the warnings name its last three.
pub recent-last :
    (failures : List Text)
    → Distinct failures
    → recent failures ≡ reverse (take 3 (reverse failures))
unfolding recent
recent-last failures h =
    ap reverse
      (distinct_from-take (reverse failures) [] 2 (Distinct-reverse failures h) (omega arith))
