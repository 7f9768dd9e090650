-- ===== src/Tests/Explorer.antt =====
-- Runs of src/main/explorer.
use wslpad.Base.{◌≡◌, refl, arith, Text, lit, some, starts_with, drop_tail}
use wslpad.Base.Results.{ok}
use wslpad.Shell.{assert_valid_linux_path}
use wslpad.Explorer.Paths.{
  convert_linux_to_windows, convert_windows_to_linux, clean, match_drive_mount, linux_basename,
  parent_linux_path, windows_basename,
}
use wslpad.Explorer.Paths.Drives.{IsCanonical, IsShare}
use wslpad.Explorer.Paths.Canonical.{convert_windows_to_linux-convert_linux_to_windows}

names_run :
    (linux_basename (lit "/home/me/a.txt/") ≡ lit "a.txt")
    × (parent_linux_path (lit "/home/me/") ≡ lit "/home")
    × (windows_basename (lit "C:\\Users/me\\") ≡ lit "me")
unfolding linux_basename parent_linux_path windows_basename lit drop_tail
names_run = (refl, refl, refl)

drive_run : convert_windows_to_linux (lit "Ubuntu") (lit "D:\\\\a/b\\") ≡ some (lit "/mnt/d/a/b")
unfolding convert_windows_to_linux lit drop_tail starts_with
drive_run = refl

Ubuntu-IsShare : IsShare (lit "Ubuntu")
unfolding lit
Ubuntu-IsShare = record { given = refl; solid = refl; printed = refl }

home-IsCanonical : IsCanonical (lit "/mnt/c/me")
unfolding assert_valid_linux_path clean drop_tail starts_with match_drive_mount lit
home-IsCanonical = record {
  valid = refl;
  cleaned = refl;
  inline = refl;
  small = λ c rest e. ground arith;
}

convert_windows_to_linux-convert_linux_to_windows_example :
    (windows : Text) × (convert_linux_to_windows (lit "Ubuntu") (lit "/mnt/c/me") ≡ ok windows)
    × (convert_windows_to_linux (lit "Ubuntu") windows ≡ some (lit "/mnt/c/me"))
convert_windows_to_linux-convert_linux_to_windows_example =
    convert_windows_to_linux-convert_linux_to_windows (lit "Ubuntu") (lit "/mnt/c/me")
      Ubuntu-IsShare home-IsCanonical
