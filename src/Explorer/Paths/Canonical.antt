-- ===== src/Explorer/Paths/Canonical.antt =====
-- Paths that survive the two conversions of src/main/explorer/path-convert.ts.
use wslpad.Base.{
  ℕ, ◌≡◌, refl, ap, ◌∙◌, sym, true, false, ◌||◌, Text, lit, [], ◌∷◌, ◌++◌, Option, none, some,
  arith, starts_with, has, every,
}
use wslpad.Base.Results.{ok}
use wslpad.Shell.{assert_valid_linux_path}
use wslpad.Boundary.{slash}
use wslpad.Explorer.Paths.{
  is_inline, is_tail, match_drive_mount, or_slash, windows_of, convert_linux_to_windows, clean,
  convert_windows_to_linux,
}
use wslpad.Explorer.Paths.Drives.{
  has-append, clean-drive, drive-cases, of_drive, of_unc, IsCanonical, IsShare,
}

valid-printed :
    (path : Text) → assert_valid_linux_path path ≡ ok tt → has 0 path || has 10 path ≡ false
unfolding assert_valid_linux_path
valid-printed path h = ground arith

has-drive : (u c : ℕ) (rest : Text) → has u (lit "/mnt/" ++ c ∷ rest) ≡ false → has u rest ≡ false
has-drive u c rest h = ground (arith, has-append u (lit "/mnt/") (c ∷ rest))

-- A valid path begins with a slash.
valid-opens : (path : Text) → assert_valid_linux_path path ≡ ok tt → (s : Text) × (path ≡ slash ∷ s)
unfolding assert_valid_linux_path starts_with
valid-opens [] h = ground arith
valid-opens (c ∷ s) h = (s, ground arith)

back_from_drive :
    (distro path : Text) (c : ℕ) (rest : Text)
    → IsCanonical path
    → match_drive_mount path ≡ some (c, rest)
    → convert_windows_to_linux distro (windows_of distro path (some (c, rest))) ≡ some path
unfolding lit
back_from_drive distro path c rest canonical matched =
    let (spelled, letter, tail) = drive-cases path c rest matched in
    let printed = valid-printed path canonical.valid in
    let zero = has-drive 0 c rest (ap (has 0) (sym spelled) ∙ ground arith) in
    let ten = has-drive 10 c rest (ap (has 10) (sym spelled) ∙ ground arith) in
    of_drive distro c rest letter (canonical.small c rest matched) tail (ground (arith, zero, ten))
    ∙ ap (λ p. some (or_slash p)) (sym (clean-drive c rest letter) ∙ ap clean (sym spelled))
    ∙ ap some canonical.cleaned

back_from_unc :
    (distro path : Text)
    → IsShare distro
    → IsCanonical path
    → convert_windows_to_linux distro (windows_of distro path none) ≡ some path
unfolding is_tail
back_from_unc distro path share canonical =
    let (s, opens) = valid-opens path canonical.valid in
    let printed = valid-printed path canonical.valid in
    let inline : every is_inline (slash ∷ s) ≡ true =
      ap (every is_inline) (sym opens) ∙ canonical.inline in
    let later : has 0 s || has 10 s ≡ false = ap (λ p. has 0 p || has 10 p) (sym opens) ∙ printed in
    ap (λ p. convert_windows_to_linux distro (windows_of distro p none)) opens
    ∙ of_unc distro s share (ground arith) later
    ∙ ap (λ p. some (or_slash (clean p))) (sym opens)
    ∙ ap some canonical.cleaned

back_from :
    (distro path : Text) (m : Option (ℕ × Text))
    → IsShare distro
    → IsCanonical path
    → match_drive_mount path ≡ m
    → convert_windows_to_linux distro (windows_of distro path m) ≡ some path
back_from distro path none share canonical matched = back_from_unc distro path share canonical
back_from distro path (some (c, rest)) share canonical matched =
    back_from_drive distro path c rest canonical matched

-- A canonical Linux path (valid, on one line, without backslashes, without two slashes in a row or
-- a slash at the end but in the root, and with a small letter for a mounted drive) has a Windows
-- spelling, and that spelling is read back as the same path, for a distribution whose name is not
-- empty and holds no separator, NUL or line end.
pub convert_windows_to_linux-convert_linux_to_windows :
    (distro path : Text)
    → IsShare distro
    → IsCanonical path
    → (windows : Text) × (convert_linux_to_windows distro path ≡ ok windows)
      × (convert_windows_to_linux distro windows ≡ some path)
unfolding convert_linux_to_windows
convert_windows_to_linux-convert_linux_to_windows distro path share canonical = (
  windows_of distro path (match_drive_mount path),
  rw (canonical.valid, convert_linux_to_windows),
  back_from distro path (match_drive_mount path) share canonical refl,
)
