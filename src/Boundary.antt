-- ===== src/Boundary.antt =====
-- src/shared/path-boundary.ts: which side of the WSL filesystem boundary a path lives on.
pub mod Roots
pub mod Sides
use wslpad.Base.{
  span, ℕ, Bool, true, false, ◌&&◌, ◌||◌, not, Text, lit, List, [], ◌∷◌, ◌++◌, Option, none, some,
  find, starts_with, same, one_of, to_lower, trim, is_letter, is_empty, drop, length, ◌==◌,
  if◌then◌else◌, or_else, drop_tail,
}
use wslpad.Settings.{WslSettingInfo}

pub data PathSide : Type 0 where
  ext4 windows_mount unc unknown : PathSide

abbrev pub slash : ℕ
slash = b'/'

abbrev pub default_automount_root : Text
default_automount_root = lit "/mnt/"

abbrev pub wsl_unc_hosts : List Text
wsl_unc_hosts = lit "wsl.localhost" ∷ lit "wsl$" ∷ []

-- `[\\/]`.
abbrev pub is_separator : ℕ → Bool
is_separator c = c == 92 || c == slash

-- `collapsed = trimmed.replace(/\/{2,}/g, '/')`.
unfoldable pub collapse : Text → Text
collapse [] = []
collapse (c ∷ []) = c ∷ []
collapse (c ∷ d ∷ s) =
    let rest = collapse (d ∷ s) in if c == slash && d == slash then rest else c ∷ rest

unfoldable pub ends_with_slash : Text → Bool
ends_with_slash [] = false
ends_with_slash (c ∷ []) = c == slash
ends_with_slash (c ∷ d ∷ s) = ends_with_slash (d ∷ s)

unfoldable pub close_root : Text → Text
unfolding ends_with_slash
close_root collapsed = if ends_with_slash collapsed then collapsed else collapsed ++ slash ∷ []

-- An absent root is `none`.
unfoldable pub normalize_automount_root : Option Text → Text
unfolding starts_with close_root collapse
normalize_automount_root none = default_automount_root
normalize_automount_root (some root) =
    let trimmed = trim root in
    if is_empty trimmed || not (starts_with trimmed (slash ∷ []))
    then default_automount_root
    else close_root (collapse trimmed)

abbrev share_of : Text → Option Text
share_of [] = none
share_of (c ∷ s) = some (c ∷ s)

-- The second group of `UNC_RE`, on what follows the host: separators, and then a share.
abbrev unc_share : Text → Option Text
unc_share [] = none
unc_share (c ∷ s) =
    if is_separator c
    then share_of (span (λ d. not (is_separator d)) (span is_separator (c ∷ s)).1).0
    else none

abbrev unc_host : Text × Text → Option (Text × Option Text)
unc_host ([], rest) = none
unc_host (c ∷ host, rest) = some (c ∷ host, unc_share rest)

abbrev pub starts_as_unc : Text → Bool
starts_as_unc [] = false
starts_as_unc (c ∷ []) = false
starts_as_unc (c ∷ d ∷ s) = is_separator c && is_separator d

-- `UNC_RE.exec(path)`: the host, and the share if there is one.
unfoldable pub match_unc : Text → Option (Text × Option Text)
unfolding span
match_unc path =
    if starts_as_unc path then unc_host (span (λ d. not (is_separator d)) (drop 2 path)) else none

unfoldable pub wsl_unc_distro : Text → Option Text
unfolding match_unc
wsl_unc_distro path = elim (match_unc path) [
  | none ↦ none
  | some (host, share) ↦ if not (one_of (to_lower host) wsl_unc_hosts) then none else share
]

unfoldable pub is_wsl_unc : Text → Bool
unfolding match_unc
is_wsl_unc path = elim (match_unc path) [
  | none ↦ false
  | some (host, share) ↦ one_of (to_lower host) wsl_unc_hosts
]

-- `[a-z](/|$)`, without regard to case.
unfoldable pub is_drive : Text → Bool
is_drive [] = false
is_drive (c ∷ []) = is_letter c
is_drive (c ∷ d ∷ s) = is_letter c && d == slash

-- `new RegExp(^<root>[a-z](/|$), 'i').test(path)`: the escaped root stands for itself.
unfoldable pub is_drive_under : Text → Text → Bool
is_drive_under root path =
    starts_with (to_lower path) (to_lower root) && is_drive (drop (length root) path)

unfoldable pub classify_path_side : Text → Option Text → PathSide
classify_path_side path automount_root =
    if is_empty path
    then unknown
    else if starts_as_unc path
    then (if is_wsl_unc path then unc else unknown)
    else if not (starts_with path (slash ∷ []))
    then unknown
    else if is_drive_under (normalize_automount_root automount_root) path
    then windows_mount
    else ext4

-- `path` is null or no string.
unfoldable pub classify_optional : Option Text → Option Text → PathSide
classify_optional none root = unknown
classify_optional (some path) root = classify_path_side path root

unfoldable pub is_cross_boundary : PathSide → Bool
is_cross_boundary windows_mount = true
is_cross_boundary unc = true
is_cross_boundary ext4 = false
is_cross_boundary unknown = false

abbrev is_automount_root : WslSettingInfo → Bool
is_automount_root s = same s.section (lit "automount") && same (to_lower s.key) (lit "root")

-- `a ?? b` where both may be null.
abbrev effective_or_declared : WslSettingInfo → Option Text
effective_or_declared entry = elim entry.effective_value [
  | none ↦ entry.declared_value
  | some value ↦ some value
]

-- No settings at all are the empty list.
unfoldable pub automount_root_from_settings : List WslSettingInfo → Text
automount_root_from_settings settings = elim (find is_automount_root settings) [
  | none ↦ default_automount_root
  | some entry ↦ normalize_automount_root (effective_or_declared entry)
]
