-- ===== src/WslConfig/Distance/Correct.antt =====
-- The two-row table computes the edit distance.
use wslpad.Base.{ℕ, suc, ◌+◌, min, ◌≤◌, ◌≡◌, refl, ap, ◌∙◌, Text, List, [], ◌∷◌, arith, length}
use wslpad.WslConfig.Distance.{row_from, rows, first_row, last_or, edit_distance, cost}
use wslpad.WslConfig.Distance.Scripts.{
  Script, done, edits, lev, lev-le-edits, shortest, onto, turn, onto-onto,
}

-- The row of the text read so far, `p` backwards, from the entry after `q` on.
row_tail : Text → Text → Text → List ℕ
row_tail p q [] = []
row_tail p q (d ∷ b) = lev p (d ∷ q) ∷ row_tail p (d ∷ q) b

first_row-row_tail : (q b : Text) → first_row (length q) b ≡ length q ∷ row_tail [] q b
unfolding first_row row_tail lev
first_row-row_tail q [] = refl
first_row-row_tail q (d ∷ b) = ap (λ r. length q ∷ r) (first_row-row_tail (d ∷ q) b)

lev_step :
    (c d : ℕ) (p q : Text)
    → min (min (lev p (d ∷ q) + 1) (lev (c ∷ p) q + 1)) (lev p q + cost c d) ≡ lev (c ∷ p) (d ∷ q)
unfolding lev
lev_step c d p q = refl

lev-cons-nil : (c : ℕ) (p : Text) → suc (length p) ≡ lev (c ∷ p) []
unfolding lev
lev-cons-nil c p = refl

row_from-row_tail :
    (c : ℕ) (p q b : Text)
    → row_from c b (lev p q ∷ row_tail p q b) (lev (c ∷ p) q) ≡ row_tail (c ∷ p) q b
unfolding row_from row_tail
row_from-row_tail c p q [] = refl
row_from-row_tail c p q (d ∷ b) =
    rw (lev_step c d p q) (ap (λ r. lev (c ∷ p) (d ∷ q) ∷ r) (row_from-row_tail c p (d ∷ q) b))

rows-row_tail :
    (p a b : Text)
    → rows (length p) a b (lev p [] ∷ row_tail p [] b)
      ≡ lev (onto a p) [] ∷ row_tail (onto a p) [] b
unfolding rows onto
rows-row_tail p [] b = refl
rows-row_tail p (c ∷ a) b =
    ap (λ e. rows (suc (length p)) a b (e ∷ row_from c b (lev p [] ∷ row_tail p [] b) e))
      (lev-cons-nil c p)
    ∙ ap (λ r. rows (suc (length p)) a b (lev (c ∷ p) [] ∷ r)) (row_from-row_tail c p [] b)
    ∙ rows-row_tail (c ∷ p) a b

last_or-row_tail : (e : ℕ) (p q b : Text) → last_or e (lev p q ∷ row_tail p q b) ≡ lev p (onto b q)
unfolding row_tail onto
last_or-row_tail e p q [] = refl
last_or-row_tail e p q (d ∷ b) = last_or-row_tail (lev p q) p (d ∷ q) b

-- The table holds the distance of the texts read backwards.
edit_distance-lev : (a b : Text) → edit_distance a b ≡ lev (onto a []) (onto b [])
unfolding edit_distance lev
edit_distance-lev a b =
    ap (λ r. last_or 0 (rows 0 a b r)) (first_row-row_tail [] b)
    ∙ ap (last_or 0) (rows-row_tail [] a b)
    ∙ last_or-row_tail 0 (onto a []) [] b

edit_distance-le : (a b : Text) (k : Script a b) → edit_distance a b ≤ edits k
unfolding edits
edit_distance-le a b k =
    let (n, h) = turn k done in omega (arith, edit_distance-lev a b, lev-le-edits n)

edit_distance_attained : (a b : Text) → (k : Script a b) × (edits k ≡ edit_distance a b)
unfolding onto edits
edit_distance_attained a b =
    let (k, e) = shortest (onto a []) (onto b []) in
    let (n, h) = turn k done in
    let turned : (m : Script (onto (onto a []) []) (onto (onto b []) [])) × (edits m
          ≡ edit_distance a b) =
      (n, omega (arith, edit_distance-lev a b)) in
    rw (onto-onto a [], onto-onto b []) at turned

-- The number that the table ends with is the length of some script of replacements, insertions and
-- deletions that turns `a` into `b`, and no script from `a` to `b` is shorter.
pub edit_distance_least :
    (a b : Text)
    → ((k : Script a b) × (edits k ≡ edit_distance a b))
      × ((k : Script a b) → edit_distance a b ≤ edits k)
edit_distance_least a b = (edit_distance_attained a b, edit_distance-le a b)
