-- ===== src/WslConfig/Distance/Scripts.antt =====
-- What an edit distance is: the least number of edits of a script that turns one text into another.
use wslpad.Base.{
  ℕ, suc, ◌+◌, ◌≤◌, min, ◌≡◌, refl, ap, Text, [], ◌∷◌, arith, length, ◌==◌, Bool-cases, inl, inr,
  ==_iff, leb, leb→le,
}
use wslpad.WslConfig.Distance.{cost}

pub data Script : Text → Text → Type 0 where
  done : Script [] []
  keep : {c d : ℕ} {s t : Text} → c ≡ d → Script s t → Script (c ∷ s) (d ∷ t)
  replace : {c d : ℕ} {s t : Text} → Script s t → Script (c ∷ s) (d ∷ t)
  insert : {d : ℕ} {s t : Text} → Script s t → Script s (d ∷ t)
  delete : {c : ℕ} {s t : Text} → Script s t → Script (c ∷ s) t

unfoldable pub edits : {s t : Text} → Script s t → ℕ
edits done = 0
edits (keep e k) = edits k
edits (replace k) = suc (edits k)
edits (insert k) = suc (edits k)
edits (delete k) = suc (edits k)

-- The recursion that a table of distances fills in.
unfoldable pub lev : Text → Text → ℕ
lev [] t = length t
lev (c ∷ s) [] = suc (length s)
lev (c ∷ s) (d ∷ t) = min (min (lev s (d ∷ t) + 1) (lev (c ∷ s) t + 1)) (lev s t + cost c d)

lev-nil : (s : Text) → lev s [] ≡ length s
unfolding lev
lev-nil [] = refl
lev-nil (c ∷ s) = refl

-- No script is shorter.
pub lev-le-edits : {s t : Text} (k : Script s t) → lev s t ≤ edits k
unfolding lev edits
lev-le-edits done = omega arith
lev-le-edits (keep e k) = ground (arith, lev-le-edits k)
lev-le-edits (replace k) = ground (arith, lev-le-edits k)
lev-le-edits (insert {s = []} k) = omega (arith, lev-le-edits k)
lev-le-edits (insert {s = c ∷ s} k) = omega (arith, lev-le-edits k)
lev-le-edits (delete {s = s} {t = []} k) = omega (arith, lev-le-edits k, lev-nil s)
lev-le-edits (delete {t = d ∷ t} k) = omega (arith, lev-le-edits k)

insert_all : (t : Text) → (k : Script [] t) × (edits k ≡ length t)
unfolding edits
insert_all [] = (done, refl)
insert_all (d ∷ t) = let (k, e) = insert_all t in (insert k, ap suc e)

delete_all : (s : Text) → (k : Script s []) × (edits k ≡ length s)
unfolding edits
delete_all [] = (done, refl)
delete_all (c ∷ s) = let (k, e) = delete_all s in (delete k, ap suc e)

diagonal :
    (c d : ℕ) {s t : Text} (k : Script s t)
    → (m : Script (c ∷ s) (d ∷ t)) × (edits m ≡ edits k + cost c d)
unfolding edits
diagonal c d k = elim (Bool-cases (c == d)) [
  | inl e ↦ (keep ((==_iff c d).0 e) k, rw e (omega arith))
  | inr e ↦ (replace k, rw e (omega arith))
]

-- The better of two scripts.
better : {s t : Text} (k m : Script s t) → (b : Script s t) × (edits b ≡ min (edits k) (edits m))
better k m = elim (Bool-cases (leb (edits k) (edits m))) [
  | inl h ↦ (k, omega (arith, leb→le _ _ h))
  | inr h ↦ (m, ground arith)
]

-- Some script has that length.
pub shortest : (s t : Text) → (k : Script s t) × (edits k ≡ lev s t)
unfolding lev edits
shortest [] t = insert_all t
shortest (c ∷ s) [] = let (k, e) = delete_all s in (delete k, ap suc e)
shortest (c ∷ s) (d ∷ t) =
    let (k, ek) = shortest s (d ∷ t) in
    let (l, el) = shortest (c ∷ s) t in
    let (m, em) = shortest s t in
    let (n, en) = diagonal c d m in
    let (b, eb) = better (delete {c = c} k) (insert {d = d} l) in
    let (r, er) = better b n in (r, omega arith)

-- The units of a text, one by one, in front of another.
unfoldable pub onto : Text → Text → Text
onto [] s = s
onto (c ∷ t) s = onto t (c ∷ s)

-- A script read backwards, in front of another.
pub turn :
    {s t u v : Text} (k : Script s t) (m : Script u v)
    → (n : Script (onto s u) (onto t v)) × (edits n ≡ edits k + edits m)
unfolding onto edits
turn done m = (m, omega arith)
turn (keep e k) m = let (n, h) = turn k (keep e m) in (n, h)
turn (replace {c} {d} k) m = let (n, h) = turn k (replace {c = c} {d = d} m) in (n, omega arith)
turn (insert {d} k) m = let (n, h) = turn k (insert {d = d} m) in (n, omega arith)
turn (delete {c} k) m = let (n, h) = turn k (delete {c = c} m) in (n, omega arith)

-- Backwards twice is forwards.
pub onto-onto : (s u : Text) → onto (onto s u) [] ≡ onto u s
unfolding onto
onto-onto [] u = refl
onto-onto (c ∷ s) u = onto-onto s (c ∷ u)
