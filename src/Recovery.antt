-- ===== src/Recovery.antt =====
-- src/main/state/recovery.ts: the steps that bring a distribution back, and which of them is advised.
pub mod Advice
use wslpad.Base.{
  ℕ, Bool, true, false, not, ◌&&◌, ◌||◌, Text, lit, List, [], ◌∷◌, ◌++◌, Option, none, some, any,
  find, head?, includes, is_empty, is_some, join, length, map, same, select, show, starts_with,
  to_lower, is_letter, is_digit, leb, drop, if◌then◌else◌, ◌==◌,
}
use wslpad.Shell.{shell_quote}
use wslpad.Snapshot.{
  DashboardSnapshot, DistroSummary, DistroState, running, unknown_state, ProcessInfo, ToolInfo,
}

pub data NetworkProbeStatus : Type 0 where
  pass fail unknown_status : NetworkProbeStatus

pub record NetworkProbeResult : Type 0 where
  pub id : Text
  pub status : NetworkProbeStatus

pub record NetworkCheckResult : Type 0 where
  pub distro : Text
  pub started_at : Text
  pub completed_at : Text
  pub probes : List NetworkProbeResult

pub data VsCodeServerRole : Type 0 where
  server_main extension_host pty_host file_watcher language_server other : VsCodeServerRole

pub record VsCodeServerProcess : Type 0 where
  pub pid : ℕ
  pub role : VsCodeServerRole
  pub cpu_tenths : ℕ
  pub mem_tenths : ℕ
  pub elapsed_seconds : ℕ

pub data RecoveryStepId : Type 0 where
  reload_window restart_vscode_server terminate_distro shutdown_wsl : RecoveryStepId

pub data RecoveryStepStatus : Type 0 where
  recommended available last_resort unavailable : RecoveryStepStatus

pub record RecoveryStep : Type 0 where
  pub id : RecoveryStepId
  pub status : RecoveryStepStatus
  pub command : Option Text
  pub reason : Text
  pub impact : Text

-- What the check reads of the whole snapshot.
pub record RecoveryInput : Type 0 where
  pub distros : List DistroSummary
  pub answering : Option Bool
  pub dashboard : Option DashboardSnapshot

pub record RecoveryResumeChange : Type 0 where
  pub id : Text
  pub before : Text
  pub after : Text

pub record RecoveryContext : Type 0 where
  pub resumed_at : Option Text
  pub resume_changes : List RecoveryResumeChange

pub record RecoveryCheckResult : Type 0 where
  pub distro : Text
  pub started_at : Text
  pub completed_at : Text
  pub network : NetworkCheckResult
  pub vscode_server_installed : Option Bool
  pub vscode_processes : List VsCodeServerProcess
  pub recommended_step : RecoveryStepId
  pub steps : List RecoveryStep
  pub resumed_at : Option Text
  pub resume_changes : List RecoveryResumeChange

-- `.vscode-server`, perhaps `-insiders`, and then a slash or the end.
abbrev ends_name : Text → Bool
ends_name [] = true
ends_name (c ∷ s) = c == b'/'

abbrev server_dir : Text → Bool
server_dir s =
    starts_with s (lit ".vscode-server")
    && (ends_name (drop 14 s)
        || (starts_with (drop 14 s) (lit "-insiders") && ends_name (drop 23 s)))

unfoldable after_slash : Text → Bool
after_slash [] = false
after_slash (c ∷ s) = (c == b'/' && server_dir s) || after_slash s

-- `VSCODE_ROOT_RE.test(text)`.
unfoldable pub has_vscode_root : Text → Bool
unfolding after_slash
has_vscode_root text = server_dir (to_lower text) || after_slash (to_lower text)

-- An expression without regard to case that asks for one of some words.
abbrev mentions : List Text → Text → Bool
mentions words command = any (λ w. includes (to_lower command) w) words

unfoldable pub vscode_role : Text → VsCodeServerRole
vscode_role command =
    if mentions (lit "extensionhost" ∷ []) command
    then extension_host
    else if mentions (lit "ptyhost" ∷ []) command
    then pty_host
    else if mentions (lit "filewatcher" ∷ []) command
    then file_watcher
    else if mentions (lit "server-main.js" ∷ lit "remote-cli/code" ∷ []) command
    then server_main
    else if mentions
        (lit "languageserver" ∷ lit "typescript-language-features" ∷ lit "tsserver" ∷ []) command
    then language_server
    else other

abbrev pub vscode_process : ProcessInfo → VsCodeServerProcess
vscode_process p = record {
  pid = p.pid;
  role = vscode_role p.command;
  cpu_tenths = p.cpu_tenths;
  mem_tenths = p.mem_tenths;
  elapsed_seconds = p.elapsed_seconds;
}

-- `sort` by process, which is stable.
unfoldable insert : VsCodeServerProcess → List VsCodeServerProcess → List VsCodeServerProcess
insert p [] = p ∷ []
insert p (q ∷ qs) = let rest = insert p qs in if leb p.pid q.pid then p ∷ q ∷ qs else q ∷ rest

unfoldable sort_pids : List VsCodeServerProcess → List VsCodeServerProcess
unfolding insert
sort_pids [] = []
sort_pids (p ∷ ps) = insert p (sort_pids ps)

unfoldable pub find_vs_code_server_processes : List ProcessInfo → List VsCodeServerProcess
unfolding sort_pids has_vscode_root vscode_role
find_vs_code_server_processes processes =
    sort_pids (map vscode_process (select (λ p. has_vscode_root p.command) processes))

abbrev code_configured : Option ToolInfo → Option Bool
code_configured none = none
code_configured (some code) = some (any has_vscode_root code.config_paths)

abbrev tools_server : Option DashboardSnapshot → Option Bool
tools_server none = none
tools_server (some dash) = code_configured (find (λ tool. same tool.id (lit "code")) dash.tools)

abbrev server_installed : Option DashboardSnapshot → List VsCodeServerProcess → Option Bool
server_installed dash processes = if not (is_empty processes) then some true else tools_server dash

abbrev pub same_step : RecoveryStepId → RecoveryStepId → Bool
same_step reload_window reload_window = true
same_step restart_vscode_server restart_vscode_server = true
same_step terminate_distro terminate_distro = true
same_step shutdown_wsl shutdown_wsl = true
same_step _ _ = false

unfoldable pub status_for : RecoveryStepId → RecoveryStepId → Bool → RecoveryStepStatus
status_for id advised is_available =
    if not is_available
    then unavailable
    else if same_step id advised
    then recommended
    else if same_step id shutdown_wsl
    then last_resort
    else available

abbrev is_fail : NetworkProbeStatus → Bool
is_fail status = elim status [ fail ↦ true | _ ↦ false ]

abbrev pub failed_probe : Option NetworkProbeResult → Bool
failed_probe none = false
failed_probe (some probe) = is_fail probe.status

abbrev pub wsl_network_failed : NetworkCheckResult → Bool
wsl_network_failed network =
    any
      (λ probe.
        (same probe.id (lit "wsl-dns") || same probe.id (lit "default-route"))
        && is_fail probe.status)
      network.probes

abbrev state_of : Option DistroSummary → DistroState
state_of none = unknown_state
state_of (some d) = d.state

abbrev is_running_state : DistroState → Bool
is_running_state state = elim state [ running ↦ true | _ ↦ false ]

abbrev is_off : Option Bool → Bool
is_off (some false) = true
is_off _ = false

abbrev pub is_server_main : VsCodeServerProcess → Bool
is_server_main p = elim p.role [ server_main ↦ true | _ ↦ false ]

-- The distribution does not run, does not answer, or its network is down.
abbrev pub is_broken : RecoveryInput → NetworkCheckResult → Bool
is_broken input network =
    not (is_running_state (state_of (find (λ d. same d.name network.distro) input.distros)))
    || is_off input.answering
    || failed_probe (find (λ probe. same probe.id (lit "distro")) network.probes)
    || wsl_network_failed network

abbrev pub orphaned : List VsCodeServerProcess → Bool
orphaned processes = not (is_empty processes) && not (any is_server_main processes)

unfoldable pub advised_step :
    RecoveryInput → NetworkCheckResult → List VsCodeServerProcess → RecoveryStepId
advised_step input network processes =
    if is_broken input network
    then terminate_distro
    else if orphaned processes
    then restart_vscode_server
    else reload_window

abbrev pub pids_of : List VsCodeServerProcess → List ℕ
pids_of processes = map (λ p. p.pid) processes

-- A live parent, or else the children that are left.
unfoldable pub vscode_pids : List VsCodeServerProcess → List ℕ
vscode_pids processes =
    let mains = pids_of (select is_server_main processes) in
    if not (is_empty mains) then mains else pids_of processes

unfoldable pub kill_command : List ℕ → Option Text
kill_command pids =
    if is_empty pids then none else some (lit "kill " ++ join (lit " ") (map show pids))

abbrev step : RecoveryStepId → RecoveryStepStatus → Option Text → Text → Text → RecoveryStep
step id status command reason impact = record {
  id = id;
  status = status;
  command = command;
  reason = reason;
  impact = impact;
}

unfoldable pub build_steps : Text → RecoveryStepId → List ℕ → List RecoveryStep
unfolding status_for kill_command
build_steps distro advised pids =
    step reload_window (status_for reload_window advised true) none
      (lit "Reload the editor window first when WSL itself still answers.")
      (lit "Only the current editor window reconnects.")
    ∷ step restart_vscode_server (status_for restart_vscode_server advised (not (is_empty pids)))
        (kill_command pids)
        (if not (is_empty pids)
          then lit "Only the "
            ++ (show (length pids) ++ lit " measured VS Code Server processes are targeted.")
          else lit "No process with a proven VS Code Server path was measured.")
        (lit "VS Code remote windows for this distribution reconnect; other WSL jobs keep running.")
    ∷ step terminate_distro (status_for terminate_distro advised true)
        (some (lit "wsl.exe --terminate " ++ shell_quote distro))
        (lit "Use only when the selected distribution or its WSL network path is not answering.")
        (lit "Stops terminals, tmux, services, containers and jobs in this distribution.")
    ∷ step shutdown_wsl (status_for shutdown_wsl advised true) (some (lit "wsl.exe --shutdown"))
        (lit "Global VM restart is reserved for failures that survive a selected-distro restart.")
        (lit "Stops every distribution and may interrupt Docker Desktop and background sessions.")
    ∷ []

abbrev pub processes_of : Option DashboardSnapshot → List ProcessInfo
processes_of none = []
processes_of (some dash) = dash.processes

abbrev pub measured : RecoveryInput → List VsCodeServerProcess
measured input = find_vs_code_server_processes (processes_of input.dashboard)

unfoldable pub build_recovery_check :
    RecoveryInput → NetworkCheckResult → RecoveryContext → RecoveryCheckResult
unfolding build_steps advised_step vscode_pids find_vs_code_server_processes
build_recovery_check input network context =
    let processes = measured input in
    let advised = advised_step input network processes in
    record {
      distro = network.distro;
      started_at = network.started_at;
      completed_at = network.completed_at;
      network = network;
      vscode_server_installed = server_installed input.dashboard processes;
      vscode_processes = processes;
      recommended_step = advised;
      steps = build_steps network.distro advised (vscode_pids processes);
      resumed_at = context.resumed_at;
      resume_changes = context.resume_changes;
    }
