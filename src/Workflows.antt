-- ===== src/Workflows.antt =====
-- src/shared/recovery-workflows.ts: the commands that back up, restore and clone a distribution.
pub mod Arguments
pub mod Words
pub mod Commands
use wslpad.Base.{
  ℕ, ◌+◌, ◌*◌, ◌/◌, Bool, true, false, not, ◌&&◌, ◌||◌, Text, lit, List, [], ◌∷◌, ◌++◌, Option,
  none, some, any, drop, drop_tail, every, has, includes, is_digit, is_empty, is_letter, leb,
  length, ltb, same, starts_with, to_lower, trim, if◌then◌else◌, ◌==◌,
}
use wslpad.Base.Results.{Result, ok, err, and_then}

-- `DISTRO`: `[A-Za-z0-9]`, then at most 63 of `[A-Za-z0-9._ -]`.
abbrev is_name_start : ℕ → Bool
is_name_start c = is_letter c || is_digit c

abbrev is_name_unit : ℕ → Bool
is_name_unit c = is_name_start c || c == b'.' || c == b'_' || c == b' ' || c == b'-'

abbrev is_distro : Text → Bool
is_distro [] = false
is_distro (c ∷ s) = is_name_start c && (leb (length s) 63 && every is_name_unit s)

-- `INVALID_PATH_TAIL`: `[<>:"|?*\r\n]`.
abbrev is_invalid_unit : ℕ → Bool
is_invalid_unit c =
    c == b'<'
    || c == b'>'
    || c == b':'
    || c == b'"'
    || c == b'|'
    || c == b'?'
    || c == b'*'
    || c == 13
    || c == 10

-- `/^[A-Za-z]:\\/`.
abbrev is_on_drive : Text → Bool
is_on_drive (c ∷ d ∷ e ∷ s) = is_letter c && d == b':' && e == b'\\'
is_on_drive _ = false

unfoldable ends_with : Text → Text → Bool
unfolding same
ends_with [] p = is_empty p
ends_with (c ∷ s) p = same (c ∷ s) p || ends_with s p

unfoldable pub distro_name_error : Text → Option Text
distro_name_error name =
    let value = trim name in
    if is_empty value
    then some (lit "Distribution name is required.")
    else if not (is_distro value)
    then some (lit "Use 1-64 letters, numbers, spaces, dot, underscore, or hyphen.")
    else none

unfoldable pub windows_path_error : Text → Bool → Option Text
unfolding ends_with
windows_path_error path require_tar =
    let value = trim path in
    if not (is_on_drive value)
    then some (lit "Use an absolute Windows drive path such as D:\\WSL\\Backup.tar.")
    else if any is_invalid_unit (drop 3 value) || includes value (lit "..\\")
    then some (lit "Path contains unsupported or unsafe characters.")
    else if require_tar && not (ends_with (to_lower value) (lit ".tar"))
    then some (lit "Backup path must end in .tar.")
    else none

abbrev pub refused_by : Option Text → Text → Result Text Text
refused_by (some error) value = err error
refused_by none value = ok value

unfoldable pub checked_name : Text → Result Text Text
unfolding distro_name_error
checked_name name = refused_by (distro_name_error name) (trim name)

unfoldable pub checked_path : Text → Bool → Result Text Text
unfolding windows_path_error
checked_path path require_tar =
    refused_by (windows_path_error path require_tar) (drop_tail (λ c. c == b'\\') (trim path))

abbrev pub quote : Text → Text
quote value = b'"' ∷ (value ++ b'"' ∷ [])

unfoldable pub build_backup_command : Text → Text → Result Text Text
unfolding checked_name checked_path
build_backup_command distro tar_path = and_then (checked_name distro) (λ name.
    and_then (checked_path tar_path true)
      (λ path. ok (lit "wsl.exe --export " ++ (quote name ++ b' ' ∷ quote path))))

unfoldable pub build_backup_verification_command : Text → Result Text Text
unfolding checked_path
build_backup_verification_command tar_path = and_then (checked_path tar_path true) (λ path.
    ok (lit "Get-Item -LiteralPath " ++ (quote path ++ lit " | Select-Object FullName,Length")))

-- The lower case of the host's locale is `toLocaleLowerCase`, a function of the host.
module _ (to_locale_lower_case : Text → Text) where
  unfoldable pub has_distro_collision : Text → List Text → Bool
  has_distro_collision name existing_names =
      let target = to_locale_lower_case (trim name) in
      any (λ existing. same (to_locale_lower_case (trim existing)) target) existing_names

  unfoldable pub build_import_command : Text → Text → Text → List Text → Result Text Text
  unfolding checked_name checked_path has_distro_collision
  build_import_command new_name install_dir tar_path existing_names =
      and_then (checked_name new_name) (λ name.
        if has_distro_collision name existing_names
        then err (lit "A distribution with that name already exists.")
        else and_then (checked_path install_dir false) (λ dir.
          and_then (checked_path tar_path true) (λ path. ok (
            lit "wsl.exe --import "
            ++ (quote name ++ b' ' ∷ (quote dir ++ b' ' ∷ (quote path ++ lit " --version 2")))))))

unfoldable pub build_verification_commands : Text → Result Text (List Text)
unfolding checked_name
build_verification_commands new_name = and_then (checked_name new_name) (λ name. ok (
    (lit "wsl.exe -d " ++ (quote name ++ lit " -- uname -a"))
    ∷ (lit "wsl.exe -d "
        ++ (quote name ++ lit " -- sh -lc \"id -un && test -d /etc && printf verified\""))
    ∷ []))

pub record CloneCommands : Type 0 where
  pub export_command : Text
  pub import_command : Text
  pub verification_commands : List Text

unfoldable pub build_clone_commands :
    (Text → Text) → Text → Text → Text → Text → List Text → Result Text CloneCommands
unfolding build_backup_command build_import_command build_verification_commands
build_clone_commands to_locale_lower_case source_distro new_name install_dir tar_path
      existing_names =
    and_then (build_backup_command source_distro tar_path) (λ exporting.
      and_then
        (build_import_command to_locale_lower_case new_name install_dir tar_path existing_names)
        (λ importing. and_then (build_verification_commands new_name) (λ verifying. ok record {
          export_command = exporting;
          import_command = importing;
          verification_commands = verifying;
        })))

pub data RecoveryHeadroomStatus : Type 0 where
  unknown critical warning enough : RecoveryHeadroomStatus

pub record RecoveryHeadroom : Type 0 where
  pub status : RecoveryHeadroomStatus
  pub free_bytes : Option ℕ
  pub required_bytes : Option ℕ
  pub recommended_bytes : Option ℕ

-- `Math.ceil(bytes * 1.5)`, of a number of bytes.
abbrev with_half_more : ℕ → ℕ
with_half_more bytes = (3 * bytes + 1) / 2

unfoldable pub recovery_headroom : Option ℕ → Option ℕ → RecoveryHeadroom
recovery_headroom none free = record {
  status = unknown;
  free_bytes = free;
  required_bytes = none;
  recommended_bytes = none;
}
recovery_headroom (some image) none = record {
  status = unknown;
  free_bytes = none;
  required_bytes = some image;
  recommended_bytes = some (with_half_more image);
}
recovery_headroom (some image) (some free) = record {
  status =
      if ltb free image
      then critical
      else if ltb free (with_half_more image)
      then warning
      else enough;
  free_bytes = some free;
  required_bytes = some image;
  recommended_bytes = some (with_half_more image);
}
