-- ===== src/WslConfig/Reconcile/Collapse.antt =====
-- Duplicated declarations.
use wslpad.Base.{
  ℕ, suc, ◌+◌, ◌≡◌, refl, ap, ◌∙◌, ◌⊎◌, inl, inr, true, false, List, [], ◌∷◌, Option, none, some,
  arith, same_iff, to_lower, find, last?, select, length, Bool-cases, if◌then◌else◌,
}
use wslpad.WslConfig.Ini.{IniEntry}
use wslpad.WslConfig.Reconcile.{same_entry, count_entry, collapse_from, collapse_duplicates}

-- The declarations of the same key as `entry`, in file order.
abbrev pub declarations : IniEntry → List IniEntry → List IniEntry
declarations entry entries = select (same_entry entry) entries

-- What the table holds for the key of `entry`.
abbrev pub looked_up : IniEntry → List (IniEntry × ℕ) → Option (IniEntry × ℕ)
looked_up entry table = find (λ p. same_entry entry p.0) table

-- The last of some declarations, and how many there are.
abbrev pub summary : List IniEntry → Option (IniEntry × ℕ)
summary ds = elim (last? ds) [ none ↦ none | some d ↦ some (d, length ds) ]

same_entry-right : (e x p : IniEntry) → same_entry x p ≡ true → same_entry e x ≡ same_entry e p
same_entry-right e x p h =
    let section = (same_iff x.section p.section).0 (ground arith) in
    let key = (same_iff (to_lower x.key) (to_lower p.key)).0 (ground arith) in rw (section, key)

same_entry-left : (e x y : IniEntry) → same_entry e x ≡ true → same_entry e y ≡ same_entry x y
same_entry-left e x y h =
    let section = (same_iff e.section x.section).0 (ground arith) in
    let key = (same_iff (to_lower e.key) (to_lower x.key)).0 (ground arith) in rw (section, key)

abbrev last_of : IniEntry → List IniEntry → IniEntry
last_of d [] = d
last_of d (e ∷ ds) = last_of e ds

abbrev counted : Option (IniEntry × ℕ) → ℕ
counted none = 0
counted (some p) = p.1

looked_up-count_entry :
    (e x : IniEntry) (table : List (IniEntry × ℕ))
    → looked_up e (count_entry x table)
      ≡ (if same_entry e x then some (x, suc (counted (looked_up e table))) else looked_up e table)
unfolding count_entry
looked_up-count_entry e x [] = refl
looked_up-count_entry e x ((y, n) ∷ table) = elim (Bool-cases (same_entry x y)) [
  | inl h ↦ elim (Bool-cases (same_entry e y)) [
    | inl g ↦ rw (h, same_entry-right e x y h, g)
    | inr g ↦ rw (h, same_entry-right e x y h, g)
  ]
  | inr h ↦ elim (Bool-cases (same_entry e x)) [
    | inl g ↦ rw (h, same_entry-left e x y g ∙ h, g) (looked_up-count_entry e x table ∙ rw g)
    | inr g ↦ elim (Bool-cases (same_entry e y)) [
      | inl k ↦ rw (h, k, g)
      | inr k ↦ rw (h, k, g) (looked_up-count_entry e x table ∙ rw g)
    ]
  ]
]

-- The summary of what the table held before and of later declarations.
tally : Option (IniEntry × ℕ) → List IniEntry → Option (IniEntry × ℕ)
tally acc [] = acc
tally acc (d ∷ ds) = tally (some (d, suc (counted acc))) ds

looked_up-collapse_from :
    (e : IniEntry) (entries : List IniEntry) (table : List (IniEntry × ℕ))
    → looked_up e (collapse_from table entries) ≡ tally (looked_up e table) (declarations e entries)
unfolding collapse_from tally
looked_up-collapse_from e [] table = refl
looked_up-collapse_from e (x ∷ entries) table =
    looked_up-collapse_from e entries (count_entry x table)
    ∙ ap (λ t. tally t (declarations e entries)) (looked_up-count_entry e x table)
    ∙ tally_step (Bool-cases (same_entry e x))
  where
    tally_step :
        (same_entry e x ≡ true) ⊎ (same_entry e x ≡ false)
        → tally
            (if same_entry e x
              then some (x, suc (counted (looked_up e table)))
              else looked_up e table)
            (declarations e entries)
          ≡ tally (looked_up e table) (declarations e (x ∷ entries))
    tally_step (inl h) = rw h
    tally_step (inr h) = rw h

tally-summary :
    (d : IniEntry) (n : ℕ) (ds : List IniEntry)
    → tally (some (d, n)) ds ≡ some (last_of d ds, n + length ds)
unfolding tally
tally-summary d n [] = ap (λ m. some (d, m)) (omega arith)
tally-summary d n (e ∷ ds) =
    tally-summary e (suc n) ds ∙ ap (λ m. some (last_of e ds, m)) (omega arith)

last?-last_of : (d : IniEntry) (ds : List IniEntry) → last? (d ∷ ds) ≡ some (last_of d ds)
last?-last_of d [] = refl
last?-last_of d (e ∷ ds) = last?-last_of e ds

tally-none : (ds : List IniEntry) → tally none ds ≡ summary ds
unfolding tally
tally-none [] = refl
tally-none (d ∷ ds) =
    tally-summary d 1 ds
    ∙ rw (last?-last_of d ds, summary) (ap (λ m. some (last_of d ds, m)) (omega arith))

-- For every key the collapsed list holds the last declaration of that key in the file with the
-- number of its declarations, and nothing if the file does not declare it.
pub looked_up-collapse_duplicates :
    (entry : IniEntry) (entries : List IniEntry)
    → looked_up entry (collapse_duplicates entries) ≡ summary (declarations entry entries)
unfolding collapse_duplicates
looked_up-collapse_duplicates entry entries =
    looked_up-collapse_from entry entries [] ∙ tally-none (declarations entry entries)
