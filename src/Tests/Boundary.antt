-- ===== src/Tests/Boundary.antt =====
-- Runs of src/shared/path-boundary.ts.
use wslpad.Base.{
  ◌≡◌, ◌↔◌, refl, false, lit, [], ◌∷◌, none, some, same, to_lower, starts_with, trim, is_space,
}
use wslpad.Settings.{WslSettingInfo, linux, SettingOrigin, SettingProvenance, SettingVerdict}
use wslpad.Boundary.{
  windows_mount, unc, ext4, unknown, classify_path_side, normalize_automount_root, is_wsl_unc,
  starts_as_unc, automount_root_from_settings, wsl_unc_distro, is_drive_under, is_drive,
}
use wslpad.Boundary.Roots.{IsRoot, normalize_automount_root-IsRoot}
use wslpad.Boundary.Sides.{IsDriveUnder, classify_path_side-windows_mount_iff}

sides :
    (classify_path_side (lit "/mnt/c/Users") none ≡ windows_mount)
    × (classify_path_side (lit "/mnt/cache") none ≡ ext4)
    × (classify_path_side (lit "/c/Users") (some (lit "/")) ≡ windows_mount)
    × (classify_path_side (lit "\\\\wsl.localhost\\Ubuntu\\home") none ≡ unc)
    × (classify_path_side (lit "C:\\Users") none ≡ unknown)
unfolding classify_path_side is_drive_under is_drive starts_with to_lower normalize_automount_root
    trim is_space is_wsl_unc same lit
sides = (refl, refl, refl, refl, refl)

shares :
    (wsl_unc_distro (lit "//wsl$/Debian/root") ≡ some (lit "Debian"))
    × (wsl_unc_distro (lit "\\\\server\\share") ≡ none)
unfolding wsl_unc_distro to_lower same lit
shares = (refl, refl)

abbrev declared_root : WslSettingInfo
declared_root = record {
  key = lit "Root";
  section = lit "automount";
  scope = linux;
  declared_value = some (lit " /win//drives");
  effective_value = none;
  origin = SettingOrigin.wsl_conf;
  provenance = SettingProvenance.user;
  verdict = SettingVerdict.unknown;
  note = none;
}

root_run : automount_root_from_settings (declared_root ∷ []) ≡ lit "/win/drives/"
unfolding automount_root_from_settings normalize_automount_root trim is_space to_lower same
    starts_with lit
root_run = refl

normalize_automount_root-IsRoot_example :
    IsRoot (normalize_automount_root (some (lit " /win//drives")))
normalize_automount_root-IsRoot_example =
    normalize_automount_root-IsRoot (some (lit " /win//drives"))

classify_path_side-windows_mount_iff_example :
    (classify_path_side (lit "/mnt/c/Users") none ≡ windows_mount) ↔ (
      (starts_as_unc (lit "/mnt/c/Users") ≡ false)
      × IsDriveUnder (normalize_automount_root none) (lit "/mnt/c/Users"))
classify_path_side-windows_mount_iff_example =
    classify_path_side-windows_mount_iff (lit "/mnt/c/Users") none
