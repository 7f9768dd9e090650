-- ===== src/Explorer/Paths/Drives.antt =====
-- The Windows spellings that src/main/explorer/path-convert.ts reads back.
use wslpad.Base.{
  span, ℕ, ◌≡◌, refl, ap, ◌∙◌, Bool, true, false, ◌||◌, not, Text, lit, [], ◌∷◌, ◌++◌, none, some,
  arith, starts_with, same, same_refl, to_lower, lower, upper, is_letter, is_empty, drop,
  if◌then◌else◌, drop_tail, has, every, Bool-cases, length, inl, inr,
}
use wslpad.Base.Results.{ok}
use wslpad.Shell.{assert_valid_linux_path}
use wslpad.Boundary.{slash, is_separator}
use wslpad.Explorer.Paths.{
  is_inline, is_tail, is_slash, drive_mount_tail, match_drive_mount, match_win_drive, match_wsl_unc,
  to_backslashes, to_slashes, or_backslash, or_slash, clean, linux_of, linux_of_unc,
  convert_windows_to_linux,
}
use wslpad.Explorer.Paths.Spelling.{
  clean-to_backslashes, clean-or_backslash, has-to_backslashes, is_tail-to_backslashes,
  is_tail-or_backslash, has-or_backslash, lower-upper, upper-is_letter, upper-==,
}

-- The path is its own clean spelling: no backslash, no two slashes in a row, and none at the end
-- but in the root. It stands on one line, and the letter of a drive is a small one.
pub record IsCanonical (path : Text) : Type 0 where
  pub valid : assert_valid_linux_path path ≡ ok tt
  pub cleaned : or_slash (clean path) ≡ path
  pub inline : every is_inline path ≡ true
  pub small : (c : ℕ) (rest : Text) → match_drive_mount path ≡ some (c, rest) → lower c ≡ c

-- A name without separators and line ends.
pub record IsShare (distro : Text) : Type 0 where
  pub given : is_empty distro ≡ false
  pub solid : every (λ c. not (is_separator c)) distro ≡ true
  pub printed : has 0 distro || has 10 distro ≡ false

pub span-append :
    (p : ℕ → Bool) (s : Text) (c : ℕ) (t : Text)
    → every p s ≡ true
    → p c ≡ false
    → span p (s ++ c ∷ t) ≡ (s, c ∷ t)
unfolding span
span-append p [] c t h k = ground arith
span-append p (d ∷ s) c t h k = ground (arith, span-append p s c t)

pub has-append : (u : ℕ) (s t : Text) → has u (s ++ t) ≡ has u s || has u t
has-append u [] t = refl
has-append u (c ∷ s) t = ground (arith, has-append u s t)

pub clean-drive :
    (c : ℕ) (rest : Text)
    → is_letter c ≡ true
    → clean (lit "/mnt/" ++ c ∷ rest) ≡ lit "/mnt/" ++ c ∷ clean rest
unfolding clean to_slashes drop_tail lit starts_with
clean-drive c rest h = ground arith

pub starts_with-drop : (s p : Text) → starts_with s p ≡ true → s ≡ p ++ drop (length p) s
unfolding starts_with
starts_with-drop s [] h = refl
starts_with-drop [] (c ∷ p) h = cc
starts_with-drop (d ∷ s) (c ∷ p) h = ground (arith, starts_with-drop s p)

pub tail-cases :
    (t : Text) (c : ℕ) (rest : Text)
    → drive_mount_tail t ≡ some (c, rest)
    → (t ≡ c ∷ rest) × (is_letter c ≡ true) × (is_tail is_slash rest ≡ true)
tail-cases [] c rest h = cc
tail-cases (d ∷ s) c rest h = ground arith

-- What a match of the drive's pattern says of the path.
pub drive-cases :
    (path : Text) (c : ℕ) (rest : Text)
    → match_drive_mount path ≡ some (c, rest)
    → (path ≡ lit "/mnt/" ++ c ∷ rest) × (is_letter c ≡ true) × (is_tail is_slash rest ≡ true)
unfolding match_drive_mount starts_with lit
drive-cases path c rest h = elim (Bool-cases (starts_with path (lit "/mnt/"))) [
  | inl e ↦
      let found = tail-cases (drop 5 path) c rest (ground arith) in
      (starts_with-drop path (lit "/mnt/") e ∙ ap (λ t. lit "/mnt/" ++ t) found.0, found.1, found.2)
  | inr e ↦ absurd (ground arith)
]

pub of_drive :
    (distro : Text) (c : ℕ) (rest : Text)
    → is_letter c ≡ true
    → lower c ≡ c
    → is_tail is_slash rest ≡ true
    → has 0 rest || has 10 rest ≡ false
    → convert_windows_to_linux distro (upper c ∷ b':' ∷ or_backslash (to_backslashes rest))
      ≡ some (lit "/mnt/" ++ c ∷ clean rest)
unfolding convert_windows_to_linux match_win_drive
of_drive distro c rest letter small tail printed =
    let r : Text = or_backslash (to_backslashes rest) in
    let w : Text = upper c ∷ b':' ∷ r in
    let zero : has 0 w ≡ false =
      ground (
        arith,
        has-or_backslash 0 (to_backslashes rest),
        has-to_backslashes 0 rest,
        upper-== c 0,
      ) in
    let ten : has 10 w ≡ false = ground (
      arith,
      has-or_backslash 10 (to_backslashes rest),
      has-to_backslashes 10 rest,
      upper-== c 10,
    ) in
    let printed_w : has 0 w || has 10 w ≡ false = ground (arith, zero, ten) in
    let matched : match_win_drive w ≡ some (upper c, r) = ground (
      arith,
      upper-is_letter c,
      is_tail-or_backslash (to_backslashes rest),
      is_tail-to_backslashes rest,
    ) in
    let spelled : clean r ≡ clean rest =
      clean-or_backslash (to_backslashes rest) ∙ clean-to_backslashes rest in
    ap (λ b. if b then none else linux_of distro w (match_win_drive w)) printed_w
    ∙ ap (linux_of distro w) matched
    ∙ ap (λ d. some (lit "/mnt/" ++ d ∷ clean r)) (lower-upper c letter small)
    ∙ ap (λ t. some (lit "/mnt/" ++ c ∷ t)) spelled

pub of_unc :
    (distro s : Text)
    → IsShare distro
    → is_tail is_slash (slash ∷ s) ≡ true
    → has 0 s || has 10 s ≡ false
    → convert_windows_to_linux distro
        (lit "\\\\wsl.localhost\\" ++ (distro ++ to_backslashes (slash ∷ s)))
      ≡ some (or_slash (clean (slash ∷ s)))
unfolding convert_windows_to_linux match_win_drive match_wsl_unc lit span to_lower same
    to_backslashes
of_unc distro s share tail printed =
    let t : Text = to_backslashes (slash ∷ s) in
    let w : Text = lit "\\\\wsl.localhost\\" ++ (distro ++ t) in
    let zero : has 0 w ≡ false = ground (arith, has-append 0 distro t, has-to_backslashes 0 s) in
    let ten : has 10 w ≡ false = ground (arith, has-append 10 distro t, has-to_backslashes 10 s) in
    let printed_w : has 0 w || has 10 w ≡ false = ground (arith, zero, ten) in
    let split_share : span (λ c. not (is_separator c)) (distro ++ t) ≡ (distro, t) =
      span-append (λ c. not (is_separator c)) distro 92 (to_backslashes s) share.solid refl in
    let grouped : match_wsl_unc w ≡ some (distro, t) =
      rw split_share (ground (arith, is_tail-to_backslashes (slash ∷ s))) in
    ap (λ b. if b then none else linux_of distro w (match_win_drive w)) printed_w
    ∙ ap (linux_of_unc distro) grouped
    ∙ ap (λ b. if not b then none else some (or_slash (clean t))) (same_refl (to_lower distro))
    ∙ ap (λ r. some (or_slash r)) (clean-to_backslashes (slash ∷ s))
