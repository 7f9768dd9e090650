-- ===== src/Boundary/Sides.antt =====
-- The verdict on a path, against a description of the paths that have it.
use wslpad.Base.{
  ℕ, suc, ◌≡◌, ◌↔◌, ◌⊎◌, inl, inr, refl, ap, true, false, Text, [], ◌∷◌, ◌++◌, Option, arith,
  Bool-cases, starts_with, to_lower, is_letter, is_empty, drop, length,
}
use wslpad.Boundary.Roots.{IsAbsolute, normalize_automount_root-IsRoot}
use wslpad.Boundary.{
  windows_mount, unc, slash, is_drive, is_drive_under, starts_as_unc, is_wsl_unc,
  normalize_automount_root, classify_path_side, is_cross_boundary,
}

-- The end of a path, or a slash.
abbrev pub Ends : Text → Type 0
Ends [] = Unit
Ends (d ∷ s) = d ≡ slash

-- `path` is `root`, up to the case of letters, and then the directory of one drive or something in it.
pub record IsDriveUnder (root path : Text) : Type 0 where
  pub prefix : Text
  pub drive : ℕ
  pub rest : Text
  pub splits : path ≡ prefix ++ drive ∷ rest
  pub under : to_lower prefix ≡ to_lower root
  pub letter : is_letter drive ≡ true
  pub ends : Ends rest

to_lower-length : (s t : Text) → to_lower s ≡ to_lower t → length s ≡ length t
unfolding to_lower
to_lower-length [] [] e = refl
to_lower-length (c ∷ s) (d ∷ t) e = ap suc (to_lower-length s t (cc))
to_lower-length [] (d ∷ t) e = cc
to_lower-length (c ∷ s) [] e = cc

is_drive_iff :
    (s : Text)
    → is_drive s ≡ true
    → (c : ℕ) × (r : Text) × (s ≡ c ∷ r) × (is_letter c ≡ true) × Ends r
unfolding is_drive
is_drive_iff [] h = cc
is_drive_iff (c ∷ []) h = (c, [], refl, h, tt)
is_drive_iff (c ∷ d ∷ s) h = (c, d ∷ s, refl, ground arith, ground arith)

is_drive_of : (c : ℕ) (r : Text) → is_letter c ≡ true → Ends r → is_drive (c ∷ r) ≡ true
unfolding is_drive
is_drive_of c [] h e = h
is_drive_of c (d ∷ s) h e = ground arith

prefix_split :
    (path root : Text)
    → starts_with (to_lower path) (to_lower root) ≡ true
    → (p : Text) × (path ≡ p ++ drop (length root) path) × (to_lower p ≡ to_lower root)
unfolding starts_with to_lower
prefix_split path [] h = ([], refl, refl)
prefix_split [] (c ∷ r) h = cc
prefix_split (d ∷ path) (c ∷ r) h =
    let (p, e, q) = prefix_split path r (ground arith) in (d ∷ p, ap (λ x. d ∷ x) e, ground arith)

prefix_join :
    (p root rest : Text)
    → to_lower p ≡ to_lower root
    → (starts_with (to_lower (p ++ rest)) (to_lower root) ≡ true)
      × (drop (length root) (p ++ rest) ≡ rest)
unfolding starts_with to_lower
prefix_join [] [] rest e = (refl, refl)
prefix_join (d ∷ p) (c ∷ r) rest e = ground (arith, prefix_join p r rest)
prefix_join [] (c ∷ r) rest e = cc
prefix_join (d ∷ p) [] rest e = cc

is_drive_under-IsDriveUnder :
    (root path : Text) → is_drive_under root path ≡ true → IsDriveUnder root path
unfolding is_drive_under
is_drive_under-IsDriveUnder root path h =
    let (p, e, q) = prefix_split path root (ground arith) in
    let (c, r, s, letter, ends) = is_drive_iff (drop (length root) path) (ground arith) in
    record {
      prefix = p;
      drive = c;
      rest = r;
      splits = rw (← s) e;
      under = q;
      letter = letter;
      ends = ends;
    }

starts_with-is_empty : (s : Text) → starts_with s (slash ∷ []) ≡ true → is_empty s ≡ false
unfolding starts_with
starts_with-is_empty [] h = cc
starts_with-is_empty (c ∷ s) h = refl

IsDriveUnder-is_drive_under :
    (root path : Text) → IsDriveUnder root path → is_drive_under root path ≡ true
unfolding is_drive_under
IsDriveUnder-is_drive_under root path d =
    let joined = prefix_join d.prefix root (d.drive ∷ d.rest) d.under in
    rw (d.splits, joined.0, joined.1) (is_drive_of d.drive d.rest d.letter d.ends)

IsAbsolute-prefix :
    (p root rest : Text)
    → IsAbsolute root
    → to_lower p ≡ to_lower root
    → starts_with (p ++ rest) (slash ∷ []) ≡ true
unfolding starts_with to_lower
IsAbsolute-prefix (d ∷ p) (c ∷ root) rest a e = ground arith
IsAbsolute-prefix [] (c ∷ root) rest a e = cc
IsAbsolute-prefix p [] rest a e = elim a [ ]

IsDriveUnder-starts_with :
    (root path : Text)
    → IsAbsolute root
    → IsDriveUnder root path
    → starts_with path (slash ∷ []) ≡ true
IsDriveUnder-starts_with root path a d =
    rw d.splits (IsAbsolute-prefix d.prefix root (d.drive ∷ d.rest) a d.under)

module _ (path : Text) (root : Option Text) where
  mount_sound :
      classify_path_side path root ≡ windows_mount
      → (starts_as_unc path ≡ false) × IsDriveUnder (normalize_automount_root root) path
  unfolding classify_path_side
  mount_sound h = (
    ground arith,
    is_drive_under-IsDriveUnder (normalize_automount_root root) path (ground arith),
  )

  mount_complete :
      starts_as_unc path ≡ false
      → IsDriveUnder (normalize_automount_root root) path
      → classify_path_side path root ≡ windows_mount
  unfolding classify_path_side
  mount_complete u d =
      let absolute = (normalize_automount_root-IsRoot root).0 in
      let begins = IsDriveUnder-starts_with (normalize_automount_root root) path absolute d in
      let under = IsDriveUnder-is_drive_under (normalize_automount_root root) path d in
      let filled = starts_with-is_empty path begins in rw (filled, u, begins, under)

starts_as_unc-is_empty : (s : Text) → starts_as_unc s ≡ true → is_empty s ≡ false
starts_as_unc-is_empty [] h = cc
starts_as_unc-is_empty (c ∷ s) h = refl

module _ (path : Text) (root : Option Text) where
  cross_sound :
      is_cross_boundary (classify_path_side path root) ≡ true
      → ((starts_as_unc path ≡ true) × (is_wsl_unc path ≡ true))
        ⊎ ((starts_as_unc path ≡ false) × IsDriveUnder (normalize_automount_root root) path)
  unfolding classify_path_side is_cross_boundary
  cross_sound h = elim (Bool-cases (starts_as_unc path)) [
    | inl u ↦ inl (u, ground arith)
    | inr u ↦ inr (mount_sound path root (ground arith))
  ]

  unc_complete :
      starts_as_unc path ≡ true → is_wsl_unc path ≡ true → classify_path_side path root ≡ unc
  unfolding classify_path_side
  unc_complete u w = rw (starts_as_unc-is_empty path u, u, w)

  cross_complete :
      ((starts_as_unc path ≡ true) × (is_wsl_unc path ≡ true))
        ⊎ ((starts_as_unc path ≡ false) × IsDriveUnder (normalize_automount_root root) path)
      → is_cross_boundary (classify_path_side path root) ≡ true
  unfolding is_cross_boundary
  cross_complete (inl (u, w)) = rw (unc_complete u w)
  cross_complete (inr (u, d)) = rw (mount_complete path root u d)

-- A path is on a Windows drive exactly when it does not begin like a UNC path and reads as the
-- automount root in force, up to the case of letters, then one drive letter, and then nothing or a
-- slash.
pub classify_path_side-windows_mount_iff :
    (path : Text) (root : Option Text)
    → (classify_path_side path root ≡ windows_mount)
      ↔ ((starts_as_unc path ≡ false) × IsDriveUnder (normalize_automount_root root) path)
classify_path_side-windows_mount_iff path root =
    (mount_sound path root, λ h. mount_complete path root h.0 h.1)

-- A path crosses the boundary exactly when it begins like a UNC path and names one of the two WSL
-- hosts, or does not begin like one and is on a Windows drive under the automount root in force.
pub is_cross_boundary-classify_path_side_iff :
    (path : Text) (root : Option Text)
    → (is_cross_boundary (classify_path_side path root) ≡ true) ↔ (
        ((starts_as_unc path ≡ true) × (is_wsl_unc path ≡ true))
        ⊎ ((starts_as_unc path ≡ false) × IsDriveUnder (normalize_automount_root root) path))
is_cross_boundary-classify_path_side_iff path root =
    (cross_sound path root, cross_complete path root)
