-- ===== src/Explorer/Paths.antt =====
-- src/main/explorer/path-convert.ts: Linux and Windows spellings of a path.
pub mod Spelling
pub mod Drives
pub mod Canonical
use wslpad.Base.{
  span, ℕ, ◌-◌, suc, max, Bool, true, false, ◌&&◌, ◌||◌, not, Text, lit, List, [], ◌∷◌, ◌++◌,
  Option, none, some, starts_with, same, one_of, to_lower, lower, upper, is_letter, is_empty, drop,
  take, length, ◌==◌, leb, if◌then◌else◌, drop_tail, has, every,
}
use wslpad.Base.Results.{Result, ok, err}
use wslpad.Shell.{Refusal, assert_valid_linux_path}
use wslpad.Boundary.{slash, is_separator, wsl_unc_hosts}

-- What `.` matches.
abbrev pub is_inline : ℕ → Bool
is_inline c = not (c == 10) && not (c == 13) && not (c == 0x2028) && not (c == 0x2029)

-- `(\/.*)?$` and `([\\/].*)?$`: nothing, or a separator and the rest of a line.
unfoldable pub is_tail : (ℕ → Bool) → Text → Bool
is_tail opens [] = true
is_tail opens (c ∷ s) = opens c && every is_inline s

abbrev pub is_slash : ℕ → Bool
is_slash c = c == slash

abbrev pub drive_mount_tail : Text → Option (ℕ × Text)
drive_mount_tail [] = none
drive_mount_tail (c ∷ rest) = if is_letter c && is_tail is_slash rest then some (c, rest) else none

-- `DRIVE_MOUNT_RE.exec`: the letter of the drive, and what follows it.
unfoldable pub match_drive_mount : Text → Option (ℕ × Text)
unfolding is_tail
match_drive_mount path =
    if starts_with path (lit "/mnt/") then drive_mount_tail (drop 5 path) else none

-- `WIN_DRIVE_RE.exec`.
unfoldable pub match_win_drive : Text → Option (ℕ × Text)
unfolding is_tail
match_win_drive [] = none
match_win_drive (c ∷ []) = none
match_win_drive (c ∷ d ∷ rest) =
    if is_letter c && (d == b':' && is_tail is_separator rest) then some (c, rest) else none

-- The groups of `WSL_UNC_RE` behind the host.
abbrev pub unc_groups : Text → Option (Text × Text)
unc_groups [] = none
unc_groups (c ∷ s) =
    let share = span (λ d. not (is_separator d)) s in
    if is_separator c && (not (is_empty share.0) && is_tail is_separator share.1)
    then some share
    else none

-- `WSL_UNC_RE.exec`: the name of the distribution, and what follows it. No host holds a separator,
-- so that the host is all that stands before the third one.
unfoldable pub match_wsl_unc : Text → Option (Text × Text)
unfolding span is_tail
match_wsl_unc [] = none
match_wsl_unc (c ∷ []) = none
match_wsl_unc (c ∷ d ∷ s) =
    let host = span (λ u. not (is_separator u)) s in
    if is_separator c && (is_separator d && one_of (to_lower host.0) wsl_unc_hosts)
    then unc_groups host.1
    else none

-- `replace(/\//g, '\\')`.
unfoldable pub to_backslashes : Text → Text
to_backslashes [] = []
to_backslashes (c ∷ s) = (if c == slash then 92 else c) ∷ to_backslashes s

-- `replace(/[\\/]+/g, '/')`.
unfoldable pub to_slashes : Text → Text
to_slashes [] = []
to_slashes (c ∷ s) =
    let rest = to_slashes s in
    if is_separator c
    then (if starts_with rest (slash ∷ []) then rest else slash ∷ rest)
    else c ∷ rest

abbrev or_backslash : Text → Text
or_backslash [] = 92 ∷ []
or_backslash (c ∷ s) = c ∷ s

abbrev or_slash : Text → Text
or_slash [] = slash ∷ []
or_slash (c ∷ s) = c ∷ s

abbrev windows_of : Text → Text → Option (ℕ × Text) → Text
windows_of distro path none = lit "\\\\wsl.localhost\\" ++ (distro ++ to_backslashes path)
windows_of distro path (some (c, rest)) = upper c ∷ b':' ∷ or_backslash (to_backslashes rest)

unfoldable pub convert_linux_to_windows : Text → Text → Result Refusal Text
unfolding to_backslashes match_drive_mount
convert_linux_to_windows distro path = elim (assert_valid_linux_path path) [
  | err refusal ↦ err refusal
  | ok _ ↦ ok (windows_of distro path (match_drive_mount path))
]

-- `rest.replace(/[\\/]+/g, '/').replace(/\/+$/, '')`.
unfoldable pub clean : Text → Text
unfolding to_slashes drop_tail
clean rest = drop_tail is_slash (to_slashes rest)

abbrev linux_of_unc : Text → Option (Text × Text) → Option Text
linux_of_unc distro none = none
linux_of_unc distro (some (name, rest)) =
    if not (same (to_lower name) (to_lower distro)) then none else some (or_slash (clean rest))

abbrev linux_of : Text → Text → Option (ℕ × Text) → Option Text
linux_of distro path (some (c, rest)) = some (lit "/mnt/" ++ lower c ∷ clean rest)
linux_of distro path none = linux_of_unc distro (match_wsl_unc path)

unfoldable pub convert_windows_to_linux : Text → Text → Option Text
unfolding clean match_win_drive match_wsl_unc
convert_windows_to_linux distro path =
    if has 0 path || has 10 path then none else linux_of distro path (match_win_drive path)

-- One more than `s.lastIndexOf(c)`.
unfoldable pub after_last : ℕ → Text → ℕ
after_last c [] = 0
after_last c (d ∷ s) =
    let rest = after_last c s in if leb 1 rest then suc rest else if d == c then 1 else 0

unfoldable pub join_linux_path : Text → Text → Text
join_linux_path dir name = drop_tail is_slash dir ++ slash ∷ name

unfoldable pub parent_linux_path : Text → Text
unfolding after_last
parent_linux_path path =
    let trimmed = drop_tail is_slash path in
    let past = after_last slash trimmed in
    if leb past 1 then slash ∷ [] else take (past - 1) trimmed

unfoldable pub linux_basename : Text → Text
unfolding after_last
linux_basename path =
    let trimmed = drop_tail is_slash path in or_slash (drop (after_last slash trimmed) trimmed)

unfoldable pub windows_basename : Text → Text
unfolding after_last
windows_basename path =
    let trimmed = drop_tail is_separator path in
    drop (max (after_last 92 trimmed) (after_last slash trimmed)) trimmed
