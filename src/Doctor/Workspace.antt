-- ===== src/Doctor/Workspace.antt =====
-- src/shared/doctor.ts: the checks of the project path, of shadowed tools, of PATH, and of Git and
-- SSH.
use wslpad.Base.{
  Bool, true, false, not, ◌&&◌, ◌||◌, Text, lit, List, [], ◌∷◌, ◌++◌, Option, none, some, find,
  select, length, same, one_of, starts_with, split, join, show, map, is_empty, is_none, or_else,
  if◌then◌else◌,
}
use wslpad.Boundary.{PathSide, ext4, windows_mount, unc}
use wslpad.Doctor.{
  DoctorVerdict, healthy, warning, error, unknown, DoctorCheckResult, EnvironmentVariableInfo,
  ToolInfo, ConfigurationFileInfo, DashboardSnapshot, truthy,
}

abbrev path_result : DoctorVerdict → Text → DoctorCheckResult
path_result verdict evidence = record {
  id = lit "project-path";
  title = lit "Project path filesystem";
  verdict = verdict;
  evidence = evidence;
  command = none;
}

abbrev no_pwd : DoctorCheckResult
no_pwd = path_result unknown (
    lit
      "Current working directory (PWD) was not collected, so workspace filesystem placement is unknown.")

unfoldable pub judge_pwd : EnvironmentVariableInfo → DoctorCheckResult
judge_pwd pwd =
    if pwd.is_secret || is_empty pwd.masked_value
    then no_pwd
    else if starts_with pwd.masked_value (lit "/mnt/")
    then path_result warning (
        lit "Current working directory "
        ++ (pwd.masked_value
            ++ lit
                " is on a Windows mount (/mnt). Developer workloads are usually faster on the native WSL filesystem."))
    else if starts_with pwd.masked_value (lit "/")
    then path_result healthy (
        lit "Current working directory "
        ++ (pwd.masked_value ++ lit " is on the Linux filesystem rather than /mnt."))
    else path_result unknown (
        lit "Current working directory '"
        ++ (pwd.masked_value ++ lit "' could not be classified safely."))

abbrev pub judge_found : Option EnvironmentVariableInfo → DoctorCheckResult
judge_found none = no_pwd
judge_found (some pwd) = judge_pwd pwd

unfoldable pub check_project_path : DashboardSnapshot → DoctorCheckResult
unfolding judge_pwd
check_project_path dash = judge_found (find (λ e. same e.name (lit "PWD")) dash.environment)

abbrev shadowing_result : DoctorVerdict → Text → DoctorCheckResult
shadowing_result verdict evidence = record {
  id = lit "binary-shadowing";
  title = lit "Windows/WSL binary shadowing";
  verdict = verdict;
  evidence = evidence;
  command = none;
}

unfoldable pub check_binary_shadowing : DashboardSnapshot → DoctorCheckResult
check_binary_shadowing dash =
    let shadowed = select (λ t. t.installed && t.shadowed_by_windows) dash.tools in
    let installed = select (λ t. t.installed) dash.tools in
    let names = join (lit ", ") (map (λ t. t.display_name) shadowed) in
    if is_empty shadowed
    then (if is_empty installed
        then shadowing_result unknown (lit "No tools are installed; shadowing cannot be assessed.")
        else shadowing_result healthy (
            show (length installed)
            ++ lit " installed tool(s) checked; none are shadowed by a Windows binary on PATH."))
    else shadowing_result warning (
        show (length shadowed)
        ++ (lit " tool(s) shadowed by Windows binaries via /mnt: "
            ++ (names ++ lit ". The Windows version may differ from the one installed in WSL.")))

abbrev duplication_result : DoctorVerdict → Text → DoctorCheckResult
duplication_result verdict evidence = record {
  id = lit "path-duplication";
  title = lit "PATH duplication";
  verdict = verdict;
  evidence = evidence;
  command = none;
}

-- The entries that were seen before; `seen` is the set.
unfoldable pub repeated : List Text → List Text → List Text
repeated seen [] = []
repeated seen (e ∷ entries) =
    let rest = repeated (e ∷ seen) entries in if one_of e seen then e ∷ rest else rest

unfoldable pub judge_path : Text → DoctorCheckResult
unfolding repeated
judge_path value =
    let entries = split b':' value in
    let mounted = select (λ e. starts_with e (lit "/mnt/")) entries in
    let dupes = repeated [] entries in
    if is_empty mounted
    then duplication_result healthy
        (lit "No Windows PATH entries (/mnt/) detected in the Linux PATH.")
    else if not (is_empty dupes)
    then duplication_result warning (
        lit "PATH has "
        ++ (show (length mounted)
            ++ (lit " Windows entry/entries via /mnt and "
                ++ (show (length dupes) ++ lit " duplicate(s). Duplicates slow shell startup."))))
    else duplication_result healthy (
        lit "PATH has "
        ++ (show (length mounted) ++ lit " Windows entry/entries via /mnt; no duplicates found."))

abbrev pub judge_variable : Option EnvironmentVariableInfo → DoctorCheckResult
judge_variable none = duplication_result unknown (lit "PATH variable was not collected.")
judge_variable (some variable) = judge_path variable.masked_value

unfoldable pub check_path_duplication : DashboardSnapshot → DoctorCheckResult
unfolding judge_path
check_path_duplication dash = judge_variable (find (λ e. same e.name (lit "PATH")) dash.environment)

abbrev git_result : DoctorVerdict → Text → DoctorCheckResult
git_result verdict evidence = record {
  id = lit "git-ssh-config";
  title = lit "Git/SSH/credential configuration";
  verdict = verdict;
  evidence = evidence;
  command = none;
}

abbrev side_text : PathSide → Text
side_text ext4 = lit "ext4"
side_text windows_mount = lit "windows-mount"
side_text unc = lit "unc"
side_text PathSide.unknown = lit "unknown"

abbrev is_unknown_side : PathSide → Bool
is_unknown_side PathSide.unknown = true
is_unknown_side _ = false

-- `file.exists === false`.
abbrev pub is_missing : ConfigurationFileInfo → Bool
is_missing file = elim file.exists [ some present ↦ not present | none ↦ false ]

abbrev problem_if : Bool → Text → List Text
problem_if true problem = problem ∷ []
problem_if false problem = []

abbrev git_problems : ToolInfo → ConfigurationFileInfo → ConfigurationFileInfo → List Text
git_problems git config ssh =
    problem_if git.shadowed_by_windows (
      lit
        "Git is a Windows binary reached through /mnt — credentials and SSH keys may be from the Windows side")
    ++ (problem_if (is_missing config) (lit "~/.gitconfig does not exist")
        ++ problem_if (is_missing ssh) (lit "SSH configuration not found"))

-- The files and the tool's side and path are all known.
abbrev pub is_collected : ToolInfo → ConfigurationFileInfo → ConfigurationFileInfo → Bool
is_collected git config ssh = not (
    is_none config.exists
    || is_none ssh.exists
    || is_unknown_side git.side
    || not (truthy git.executable_path))

abbrev not_collected : DoctorCheckResult
not_collected = git_result unknown (
    lit
      "Git is installed, but its side/path or Git/SSH configuration presence was not fully collected.")

unfoldable pub judge_git :
    ToolInfo → ConfigurationFileInfo → ConfigurationFileInfo → DoctorCheckResult
judge_git git config ssh =
    let problems = git_problems git config ssh in
    if not (is_collected git config ssh)
    then not_collected
    else if is_empty problems
    then git_result healthy (
        lit "Git is installed at "
        ++ (or_else git.executable_path (lit "unknown path")
            ++ (lit " on " ++ (side_text git.side ++ lit "; configuration files present."))))
    else git_result (if git.shadowed_by_windows then error else warning)
        (join (lit ". ") problems ++ lit ".")

abbrev pub judge_files :
    ToolInfo → Option ConfigurationFileInfo → Option ConfigurationFileInfo → DoctorCheckResult
judge_files git (some config) (some ssh) = judge_git git config ssh
judge_files git none _ = not_collected
judge_files git (some config) none = not_collected

abbrev no_git : DoctorCheckResult
no_git = git_result unknown (lit "Git is not installed; cannot assess Git/SSH configuration.")

abbrev pub judge_tool :
    Option ToolInfo
    → Option ConfigurationFileInfo
    → Option ConfigurationFileInfo
    → DoctorCheckResult
judge_tool none config ssh = no_git
judge_tool (some git) config ssh = if not git.installed then no_git else judge_files git config ssh

unfoldable pub check_git_ssh_config : DashboardSnapshot → DoctorCheckResult
unfolding judge_git
check_git_ssh_config dash =
    let file : Text → Option ConfigurationFileInfo =
      λ id. find (λ c. same c.id id) dash.configuration in
    judge_tool (find (λ t. same t.id (lit "git")) dash.tools) (file (lit "gitconfig"))
      (file (lit "ssh-config"))
