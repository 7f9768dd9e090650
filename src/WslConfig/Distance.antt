-- ===== src/WslConfig/Distance.antt =====
-- src/main/wsl/wsl-config.ts: the edit distance, and the suggestion for a misspelt key.
pub mod Scripts
pub mod Correct
pub mod Suggestion
use wslpad.Base.{
  ℕ, suc, ◌+◌, min, Bool, Text, List, [], ◌∷◌, Option, none, some, ltb, ◌==◌, if◌then◌else◌,
  to_lower,
}
use wslpad.Settings.{Scope, windows, linux}
use wslpad.WslConfig.Catalog.{KnownKey, known_keys}

abbrev pub cost : ℕ → ℕ → ℕ
cost c d = if c == d then 0 else 1

-- The inner loop for one unit of `a`: what is left of `b`, of the previous row from the entry above
-- to the left, and the entry just written.
unfoldable pub row_from : ℕ → Text → List ℕ → ℕ → List ℕ
row_from c (d ∷ ds) (diagonal ∷ above ∷ prev) left =
    let entry = min (min (above + 1) (left + 1)) (diagonal + cost c d) in
    entry ∷ row_from c ds (above ∷ prev) entry
row_from c _ _ left = []

-- The outer loop: `i` units are read, and `prev` is their row.
unfoldable pub rows : ℕ → Text → Text → List ℕ → List ℕ
unfolding row_from
rows i [] b prev = prev
rows i (c ∷ a) b prev = rows (suc i) a b (suc i ∷ row_from c b prev (suc i))

-- 0, 1, …, the length of `b`, from `j` on.
unfoldable pub first_row : ℕ → Text → List ℕ
first_row j [] = j ∷ []
first_row j (d ∷ b) = j ∷ first_row (suc j) b

abbrev pub last_or : ℕ → List ℕ → ℕ
last_or d [] = d
last_or d (x ∷ xs) = last_or x xs

unfoldable pub edit_distance : Text → Text → ℕ
unfolding rows first_row
edit_distance a b = last_or 0 (rows 0 a b (first_row 0 b))

abbrev pub same_scope : Scope → Scope → Bool
same_scope windows windows = Bool.true
same_scope linux linux = Bool.true
same_scope _ _ = Bool.false

-- The loop over the catalog, with the best key so far.
unfoldable pub suggest_from : List KnownKey → Text → Scope → Option Text → ℕ → Option Text
suggest_from [] key scope best best_distance = best
suggest_from (known ∷ keys) key scope best best_distance =
    let distance = edit_distance key (to_lower known.key) in
    let closer = suggest_from keys key scope (some known.key) distance in
    let kept = suggest_from keys key scope best best_distance in
    if same_scope known.scope scope
    then (if ltb distance best_distance then closer else kept)
    else kept

unfoldable pub suggest_key : Text → Scope → Option Text
unfolding suggest_from edit_distance
suggest_key key scope = suggest_from known_keys (to_lower key) scope none 3
