-- ===== src/Boundary/Roots.antt =====
-- The automount root that paths are judged by.
use wslpad.Base.{
  ℕ, ◌≡◌, ◌≢◌, refl, true, false, Text, lit, List, [], ◌∷◌, ◌++◌, Option, none, some, arith, ◌==◌,
  Option-cases, Bool-cases, inl, inr, starts_with, trim, is_empty, find, not, ◌&&◌, ◌||◌, ap, ◌∙◌,
}
use wslpad.Settings.{WslSettingInfo}
use wslpad.Boundary.{
  slash, collapse, close_root, ends_with_slash, normalize_automount_root,
  automount_root_from_settings, default_automount_root, is_automount_root, effective_or_declared,
}

-- No two slashes side by side.
abbrev pub IsSingle : Text → Type 0
IsSingle [] = Unit
IsSingle (c ∷ []) = Unit
IsSingle (c ∷ d ∷ s) = ((c ≡ slash → d ≢ slash)) × IsSingle (d ∷ s)

abbrev pub IsAbsolute : Text → Type 0
IsAbsolute [] = ⊥
IsAbsolute (c ∷ s) = c ≡ slash

abbrev pub EndsWithSlash : Text → Type 0
EndsWithSlash s = ends_with_slash s ≡ true

-- A prefix under which drives can be looked for.
abbrev pub IsRoot : Text → Type 0
IsRoot root = IsAbsolute root × IsSingle root × EndsWithSlash root

collapse-head : (c : ℕ) (s : Text) → (t : Text) × (collapse (c ∷ s) ≡ c ∷ t)
unfolding collapse
collapse-head c [] = ([], refl)
collapse-head c (d ∷ s) = elim (Bool-cases (c == slash && d == slash)) [
  | inl both ↦ let (t, e) = collapse-head d s in (t, rw both (e ∙ ap (λ x. x ∷ t) (ground arith)))
  | inr other ↦ (collapse (d ∷ s), rw other)
]

collapse-IsSingle : (s : Text) → IsSingle (collapse s)
unfolding collapse
collapse-IsSingle [] = tt
collapse-IsSingle (c ∷ []) = tt
collapse-IsSingle (c ∷ d ∷ s) = elim (Bool-cases (c == slash && d == slash)) [
  | inl both ↦ rw both (collapse-IsSingle (d ∷ s))
  | inr other ↦
      let (t, e) = collapse-head d s in
      let later : IsSingle (d ∷ t) = rw e at (collapse-IsSingle (d ∷ s)) in
      rw other (rw e ((λ p q. ground arith), later))
]

-- A slash after a text that does not end with one.
concat-IsSingle : (s : Text) → IsSingle s → ends_with_slash s ≡ false → IsSingle (s ++ slash ∷ [])
unfolding ends_with_slash
concat-IsSingle [] h e = tt
concat-IsSingle (c ∷ []) h e = ((λ p q. ground arith), tt)
concat-IsSingle (c ∷ d ∷ s) h e = (h.0, concat-IsSingle (d ∷ s) h.1 e)

concat-EndsWithSlash : (s : Text) → EndsWithSlash (s ++ slash ∷ [])
unfolding ends_with_slash
concat-EndsWithSlash [] = refl
concat-EndsWithSlash (c ∷ []) = refl
concat-EndsWithSlash (c ∷ d ∷ s) = concat-EndsWithSlash (d ∷ s)

concat-IsAbsolute : (s : Text) → IsAbsolute s → IsAbsolute (s ++ slash ∷ [])
concat-IsAbsolute [] h = elim h [ ]
concat-IsAbsolute (c ∷ s) h = h

close_root-IsRoot : (s : Text) → IsAbsolute s → IsSingle s → IsRoot (close_root s)
unfolding close_root
close_root-IsRoot s a h = elim (Bool-cases (ends_with_slash s)) [
  | inl e ↦ rw e (a, h, e)
  | inr e ↦ rw e (concat-IsAbsolute s a, concat-IsSingle s h e, concat-EndsWithSlash s)
]

collapse-IsAbsolute : (s : Text) → IsAbsolute s → IsAbsolute (collapse s)
collapse-IsAbsolute [] h = elim h [ ]
collapse-IsAbsolute (c ∷ s) h = let (t, e) = collapse-head c s in rw e h

default_automount_root-IsRoot : IsRoot default_automount_root
unfolding lit ends_with_slash
default_automount_root-IsRoot = (refl, omega arith, refl)

starts_with-IsAbsolute : (s : Text) → starts_with s (slash ∷ []) ≡ true → IsAbsolute s
unfolding starts_with
starts_with-IsAbsolute [] h = cc
starts_with-IsAbsolute (c ∷ s) h = ground arith

-- Whatever the configuration says, the root that paths are compared with is absolute, ends with a
-- slash and holds no two slashes side by side.
pub normalize_automount_root-IsRoot : (root : Option Text) → IsRoot (normalize_automount_root root)
unfolding normalize_automount_root
normalize_automount_root-IsRoot none = default_automount_root-IsRoot
normalize_automount_root-IsRoot (some root) =
    elim (Bool-cases (is_empty (trim root) || not (starts_with (trim root) (slash ∷ [])))) [
      | inl e ↦ rw e default_automount_root-IsRoot
      | inr e ↦
          let absolute = starts_with-IsAbsolute (trim root) (ground arith) in
          rw e (
            close_root-IsRoot (collapse (trim root)) (collapse-IsAbsolute _ absolute)
              (collapse-IsSingle (trim root)))
    ]

-- So is the root that is read off the settings table, an empty table included.
pub automount_root_from_settings-IsRoot :
    (settings : List WslSettingInfo) → IsRoot (automount_root_from_settings settings)
unfolding automount_root_from_settings
automount_root_from_settings-IsRoot settings =
    elim (Option-cases (find is_automount_root settings)) [
      | inl e ↦ rw (e, automount_root_from_settings) default_automount_root-IsRoot
      | inr (entry, e) ↦
          rw (e, automount_root_from_settings)
            (normalize_automount_root-IsRoot (effective_or_declared entry))
    ]
