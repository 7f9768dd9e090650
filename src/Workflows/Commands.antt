-- ===== src/Workflows/Commands.antt =====
-- The commands of the workflows, as the program that is started reads them.
use wslpad.Base.{
  ◌≡◌, refl, sym, ap, ap₂, ◌∙◌, true, false, Text, lit, List, [], ◌∷◌, ◌++◌, append-nil, none,
  drop_tail, map, trim,
}
use wslpad.Base.Results.{ok}
use wslpad.Workflows.{
  distro_name_error, windows_path_error, quote, build_backup_command, build_import_command,
  has_distro_collision, build_verification_commands, build_clone_commands, CloneCommands,
}
use wslpad.Workflows.Arguments.{
  arguments, closed, Splitting, repeat_slash, IsWord, scan, scan-quoted, scan-separated,
}
use wslpad.Workflows.Words.{is_slash, checked_name-IsWord, checked_path-IsWord}

-- What is left of a path: it is trimmed, and loses the backslashes at its end.
abbrev pub plain_path : Text → Text
plain_path path = drop_tail is_slash (trim path)

abbrev exporting : Text → Text → Text
exporting name path = lit "wsl.exe --export " ++ (quote name ++ b' ' ∷ quote path)

abbrev importing : Text → Text → Text → Text
importing name dir path =
    lit "wsl.exe --import "
    ++ (quote name ++ b' ' ∷ (quote dir ++ b' ' ∷ (quote path ++ lit " --version 2")))

abbrev verifying : Text → List Text
verifying name =
    (lit "wsl.exe -d " ++ (quote name ++ lit " -- uname -a"))
    ∷ (lit "wsl.exe -d "
        ++ (quote name ++ lit " -- sh -lc \"id -un && test -d /etc && printf verified\""))
    ∷ []

abbrev pub verifications : Text → List (List Text)
verifications name =
    (lit "wsl.exe" ∷ lit "-d" ∷ name ∷ lit "--" ∷ lit "uname" ∷ lit "-a" ∷ [])
    ∷ (lit "wsl.exe"
        ∷ lit "-d"
        ∷ name
        ∷ lit "--"
        ∷ lit "sh"
        ∷ lit "-lc"
        ∷ lit "id -un && test -d /etc && printf verified"
        ∷ [])
    ∷ []

abbrev split_at : Splitting → List Text
split_at s = s.before ++ (s.current ++ repeat_slash s.slashes) ∷ []

export_command-arguments :
    (name path : Text)
    → IsWord name
    → IsWord path
    → arguments (exporting name path) ≡ lit "wsl.exe" ∷ lit "--export" ∷ name ∷ path ∷ []
unfolding arguments lit
export_command-arguments name path h k =
    let start : List Text = lit "wsl.exe" ∷ lit "--export" ∷ [] in
    let last =
      scan-separated start name (quote path) h
      ∙ ap (scan (closed (start ++ name ∷ []) [])) (sym (append-nil (quote path)))
      ∙ scan-quoted (start ++ name ∷ []) path [] k in
    ap split_at last ∙ ap (λ t. lit "wsl.exe" ∷ lit "--export" ∷ name ∷ t ∷ []) (append-nil path)

import_command-arguments :
    (name dir path : Text)
    → IsWord name
    → IsWord dir
    → IsWord path
    → arguments (importing name dir path)
      ≡ lit "wsl.exe" ∷ lit "--import" ∷ name ∷ dir ∷ path ∷ lit "--version" ∷ lit "2" ∷ []
unfolding arguments lit
import_command-arguments name dir path h j k =
    let start : List Text = lit "wsl.exe" ∷ lit "--import" ∷ [] in
    let last =
      scan-separated start name (quote dir ++ b' ' ∷ (quote path ++ lit " --version 2")) h
      ∙ scan-separated (start ++ name ∷ []) dir (quote path ++ lit " --version 2") j
      ∙ scan-separated (start ++ name ∷ dir ∷ []) path (lit "--version 2") k in
    ap split_at last

verification_commands-arguments :
    (name : Text) → IsWord name → map arguments (verifying name) ≡ verifications name
unfolding arguments lit
verification_commands-arguments name h =
    let start : List Text = lit "wsl.exe" ∷ lit "-d" ∷ [] in
    ap₂ (λ s t. split_at s ∷ split_at t ∷ []) (scan-separated start name (lit "-- uname -a") h)
      (scan-separated start name (lit "-- sh -lc \"id -un && test -d /etc && printf verified\"") h)

-- With names and paths that pass their checks, and a new name that no distribution has, there are
-- commands to clone a distribution; and each, split as a Windows program splits its command line, is
-- the intended program with the intended arguments: the name and the paths stay whole and add none.
pub build_clone_commands-arguments :
    (to_locale_lower_case : Text → Text) (source_distro new_name install_dir tar_path : Text)
    (existing_names : List Text)
    → distro_name_error source_distro ≡ none
    → distro_name_error new_name ≡ none
    → windows_path_error install_dir false ≡ none
    → windows_path_error tar_path true ≡ none
    → has_distro_collision to_locale_lower_case (trim new_name) existing_names ≡ false
    → (commands : CloneCommands) × (build_clone_commands to_locale_lower_case source_distro new_name
          install_dir tar_path existing_names
        ≡ ok commands)
      × (arguments commands.export_command
          ≡ lit "wsl.exe" ∷ lit "--export" ∷ trim source_distro ∷ plain_path tar_path ∷ [])
      × (arguments commands.import_command
          ≡ lit "wsl.exe"
            ∷ lit "--import"
            ∷ trim new_name
            ∷ plain_path install_dir
            ∷ plain_path tar_path
            ∷ lit "--version"
            ∷ lit "2"
            ∷ [])
      × (map arguments commands.verification_commands ≡ verifications (trim new_name))
unfolding build_clone_commands build_backup_command build_import_command build_verification_commands
build_clone_commands-arguments to_locale_lower_case source_distro new_name install_dir tar_path
      existing_names h j k l free =
    let source = checked_name-IsWord source_distro h in
    let fresh = checked_name-IsWord new_name j in
    let dir = checked_path-IsWord install_dir false k in
    let tar = checked_path-IsWord tar_path true l in
    (
      record {
        export_command = exporting (trim source_distro) (plain_path tar_path);
        import_command = importing (trim new_name) (plain_path install_dir) (plain_path tar_path);
        verification_commands = verifying (trim new_name);
      },
      rw (source.0, tar.0, fresh.0) (rw (free, dir.0) refl),
      export_command-arguments (trim source_distro) (plain_path tar_path) source.1 tar.1,
      import_command-arguments (trim new_name) (plain_path install_dir) (plain_path tar_path)
          fresh.1 dir.1 tar.1,
      verification_commands-arguments (trim new_name) fresh.1,
    )
