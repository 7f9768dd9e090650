-- ===== src/Tests/Workflows.antt =====
-- Runs of the commands that back up and clone a distribution.
use wslpad.Base.{
  ◌≡◌, refl, lit, [], ◌∷◌, some, map, same, starts_with, to_lower, trim, includes, drop_tail,
  trim_start, is_space,
}
use wslpad.Base.Results.{ok, err}
use wslpad.Workflows.{
  CloneCommands, warning, build_backup_command, build_backup_verification_command,
  build_clone_commands, build_import_command, recovery_headroom,
}
use wslpad.Workflows.Arguments.{arguments}
use wslpad.Workflows.Commands.{plain_path, verifications, build_clone_commands-arguments}

backup_run :
    build_backup_command (lit " Ubuntu 24 ") (lit "D:\\my backups\\u.tar")
    ≡ ok (lit "wsl.exe --export \"Ubuntu 24\" \"D:\\my backups\\u.tar\"")
unfolding build_backup_command lit trim is_space trim_start drop_tail same starts_with to_lower
    includes
backup_run = refl

collision_run :
    build_import_command to_lower (lit "ubuntu") (lit "D:\\u") (lit "D:\\u.tar") (lit "Ubuntu" ∷ [])
    ≡ err (lit "A distribution with that name already exists.")
unfolding build_import_command lit trim is_space trim_start drop_tail same starts_with to_lower
    includes
collision_run = refl

verification_run :
    build_backup_verification_command (lit "D:\\u.zip") ≡ err (lit "Backup path must end in .tar.")
unfolding build_backup_verification_command lit trim is_space trim_start drop_tail same starts_with
    to_lower includes
verification_run = refl

headroom_run : (recovery_headroom (some 3) (some 4)).status ≡ warning
unfolding recovery_headroom
headroom_run = refl

build_clone_commands-arguments_example :
    (commands : CloneCommands) × (build_clone_commands to_lower
        (lit "Ubuntu")
        (lit "Copy of it")
        (lit "D:\\new one\\")
        (lit "D:\\a b.tar")
        (lit "Ubuntu" ∷ [])
      ≡ ok commands)
    × (arguments commands.export_command
        ≡ lit "wsl.exe"
          ∷ lit "--export"
          ∷ trim (lit "Ubuntu")
          ∷ plain_path (lit "D:\\a b.tar")
          ∷ [])
    × (arguments commands.import_command
        ≡ lit "wsl.exe"
          ∷ lit "--import"
          ∷ trim (lit "Copy of it")
          ∷ plain_path (lit "D:\\new one\\")
          ∷ plain_path (lit "D:\\a b.tar")
          ∷ lit "--version"
          ∷ lit "2"
          ∷ [])
    × (map arguments commands.verification_commands ≡ verifications (trim (lit "Copy of it")))
unfolding build_clone_commands lit trim is_space trim_start drop_tail same starts_with to_lower
    includes
build_clone_commands-arguments_example =
    build_clone_commands-arguments to_lower (lit "Ubuntu") (lit "Copy of it") (lit "D:\\new one\\")
      (lit "D:\\a b.tar") (lit "Ubuntu" ∷ []) refl refl refl refl refl
