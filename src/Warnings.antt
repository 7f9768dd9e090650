-- ===== src/Warnings.antt =====
-- src/main/state/warnings.ts: the warnings on a snapshot and on what the main process knows besides.
pub mod Recent
pub mod Causes
pub mod Keys
pub mod Conflicts
use wslpad.Base.{
  ℕ, ◌+◌, ◌-◌, Bool, true, false, not, ◌&&◌, ◌||◌, Text, lit, List, [], ◌∷◌, ◌++◌, Option, none,
  some, any, drop, drop_tail, filter_map, find, is_digit, is_empty, is_none, is_some, join, leb,
  length, ltb, map, one_of, or_else, same, select, show, take, to_lower, within, if◌then◌else◌,
  ◌==◌,
}
use mathlib.Core.List.{reverse}
use wslpad.Base.Int.{ℤ, abs}
use wslpad.Boundary.{is_cross_boundary, classify_path_side}
use wslpad.Ports.{PortInfo, PortProtocol, tcp, udp, tcp6, udp6}
use wslpad.Snapshot.{
  DashboardSnapshot, DistroSummary, DistroState, running, stopped, installing, unknown_state,
  DiskUsage, HermesInfo, ServiceInfo, ClockInfo, ToolInfo, ImportantPathInfo, SystemInfo,
}

pub data WarningSeverity : Type 0 where
  info warning error : WarningSeverity

-- A value of a message: a text or a number.
pub data Param : Type 0 where
  text : Text → Param
  number : ℕ → Param

pub record WarningInfo : Type 0 where
  pub id : Text
  pub severity : WarningSeverity
  pub message_key : Text
  pub params : List (Text × Param)
  pub message : Text

pub record WarningComputeInput : Type 0 where
  pub distros : List DistroSummary
  pub selected_distro : Option Text
  pub dashboard : Option DashboardSnapshot
  pub runner_failures : List Text
  pub mcp_error : Option Text
  pub missing_path_entries : List Text
  pub console_cwd : Option Text

abbrev max_runner_warnings : ℕ
max_runner_warnings = 3

abbrev max_cross_boundary_names : ℕ
max_cross_boundary_names = 6

abbrev clock_skew_warn_seconds : ℕ
clock_skew_warn_seconds = 10

abbrev is_word : ℕ → Bool
is_word c = within b'a' b'z' c || is_digit c

abbrev begins_with_dash : Text → Bool
begins_with_dash [] = false
begins_with_dash (c ∷ s) = c == b'-'

-- `replace(/[^a-z0-9]+/g, '-')`.
unfoldable dashed : Text → Text
dashed [] = []
dashed (c ∷ s) =
    let rest = dashed s in
    if is_word c then c ∷ rest else if begins_with_dash rest then rest else b'-' ∷ rest

-- `replace(/^-+|-+$/g, '')`, on a text without two dashes in a row.
abbrev drop_dashes : Text → Text
drop_dashes s = drop_tail (λ c. c == b'-') (if begins_with_dash s then drop 1 s else s)

unfoldable pub slug : Text → Text
unfolding dashed
slug t =
    let cleaned = take 48 (drop_dashes (dashed (to_lower t))) in
    if is_empty cleaned then lit "unknown" else cleaned

abbrev warn : Text → WarningSeverity → Text → List (Text × Param) → Text → WarningInfo
warn id severity message_key params message = record {
  id = id;
  severity = severity;
  message_key = message_key;
  params = params;
  message = message;
}

abbrev pub when : Bool → WarningInfo → List WarningInfo
when true w = w ∷ []
when false w = []

abbrev selected_in : List DistroSummary → Option Text → Option DistroSummary
selected_in distros none = none
selected_in distros (some []) = none
selected_in distros (some (c ∷ name)) = find (λ d. same d.name (c ∷ name)) distros

abbrev pub selected : WarningComputeInput → Option DistroSummary
selected input = selected_in input.distros input.selected_distro

abbrev is_running_state : DistroState → Bool
is_running_state state = elim state [ running ↦ true | _ ↦ false ]

abbrev is_stopped_state : DistroState → Bool
is_stopped_state state = elim state [ stopped ↦ true | _ ↦ false ]

abbrev pub is_running : Option DistroSummary → Bool
is_running none = false
is_running (some d) = is_running_state d.state

abbrev pub is_stopped : Option DistroSummary → Bool
is_stopped none = false
is_stopped (some d) = is_stopped_state d.state

unfoldable pub stopped_warnings : Option DistroSummary → List WarningInfo
stopped_warnings none = []
stopped_warnings (some d) = when (is_stopped_state d.state) (
    warn (lit "distro-stopped") warning (lit "warnings.distroStopped")
      ((lit "distro", text d.name) ∷ []) (lit "Distribution " ++ (d.name ++ lit " is stopped")))

abbrev pub is_disabled : Option Bool → Bool
is_disabled (some false) = true
is_disabled _ = false

unfoldable pub system_warnings : Bool → SystemInfo → List WarningInfo
system_warnings live system =
    when (is_disabled system.systemd_enabled) (
      warn (lit "systemd-disabled") info (lit "warnings.systemdDisabled") []
        (lit "systemd is not enabled"))
    ++ when (live && is_some system.user && is_none system.home) (
        warn (lit "home-inaccessible") warning (lit "warnings.homeInaccessible") []
          (lit "Home directory is not accessible"))

abbrev pub skew_of : Option ClockInfo → Option ℤ
skew_of none = none
skew_of (some clock) = clock.skew_seconds

unfoldable pub clock_warnings : Bool → Option ℤ → List WarningInfo
clock_warnings live none = []
clock_warnings live (some skew) = when (live && leb clock_skew_warn_seconds (abs skew)) (
    warn (lit "clock-skew") warning (lit "warnings.clockSkew")
      ((lit "seconds", number (abs skew)) ∷ [])
      (lit "WSL clock differs from Windows by " ++ (show (abs skew) ++ lit "s")))

abbrev pub disk_percent : DiskUsage → Option ℕ
disk_percent disk = elim disk.use_percent [
  | none ↦ none
  | some percent ↦ if disk.exists && leb 90 percent then some percent else none
]

abbrev disk_warning : DiskUsage → ℕ → WarningInfo
disk_warning disk percent =
    warn
      (lit "disk-low-"
        ++ (if same disk.mount_point (lit "/") then lit "root" else slug disk.mount_point))
      warning (lit "warnings.diskLow")
      ((lit "mount", text disk.mount_point) ∷ (lit "percent", number percent) ∷ [])
      (lit "Low disk space on "
        ++ (disk.mount_point ++ (lit ": " ++ (show percent ++ lit "% used"))))

abbrev disk_alarm : DiskUsage → Option WarningInfo
disk_alarm disk = elim (disk_percent disk) [
  | none ↦ none
  | some percent ↦ some (disk_warning disk percent)
]

unfoldable pub disk_warnings : List DiskUsage → List WarningInfo
disk_warnings disks = filter_map disk_alarm disks

unfoldable pub hermes_warnings : Option HermesInfo → List WarningInfo
hermes_warnings none = []
hermes_warnings (some hermes) =
    when (is_some hermes.executable_path && is_none hermes.data_dir) (
      warn (lit "hermes-no-config") warning (lit "warnings.hermesNoConfig") []
        (lit "Hermes executable found but ~/.hermes is missing"))
    ++ when (is_some hermes.data_dir && is_none hermes.executable_path) (
        warn (lit "hermes-no-exec") warning (lit "warnings.hermesNoExec") []
          (lit "Hermes data found but executable is missing"))

abbrev service_warning : ServiceInfo → WarningInfo
service_warning svc =
    warn (lit "service-failed-" ++ slug svc.name) error (lit "warnings.serviceFailed")
      ((lit "service", text svc.name) ∷ [])
      (lit "Service " ++ (svc.name ++ lit " is in failed state"))

abbrev pub is_failed : ServiceInfo → Bool
is_failed svc = same svc.active_state (lit "failed")

unfoldable pub service_warnings : List ServiceInfo → List WarningInfo
service_warnings services = map service_warning (select is_failed services)

abbrev pub show_protocol : PortProtocol → Text
show_protocol tcp = lit "tcp"
show_protocol udp = lit "udp"
show_protocol tcp6 = lit "tcp6"
show_protocol udp6 = lit "udp6"

-- `byPort`, in the order in which the ports come first.
pub record PortOwners : Type 0 where
  pub protocol : PortProtocol
  pub port : ℕ
  pub pids : List ℕ

abbrev port_key : PortProtocol → ℕ → Text
port_key protocol port = show_protocol protocol ++ b':' ∷ show port

abbrev add_pid : ℕ → List ℕ → List ℕ
add_pid pid pids = if any (λ p. p == pid) pids then pids else pids ++ pid ∷ []

unfoldable add_owner : List PortOwners → PortProtocol → ℕ → ℕ → List PortOwners
add_owner [] protocol port pid = record { protocol = protocol; port = port; pids = pid ∷ [] } ∷ []
add_owner (e ∷ es) protocol port pid =
    let rest = add_owner es protocol port pid in
    if same (port_key e.protocol e.port) (port_key protocol port)
    then record { protocol = e.protocol; port = e.port; pids = add_pid pid e.pids } ∷ es
    else e ∷ rest

abbrev note_port : List PortOwners → PortInfo → Option ℕ → List PortOwners
note_port es p none = es
note_port es p (some pid) = if p.listening then add_owner es p.protocol p.port pid else es

unfoldable pub port_owners : List PortOwners → List PortInfo → List PortOwners
unfolding add_owner
port_owners es [] = es
port_owners es (p ∷ ps) = port_owners (note_port es p p.pid) ps

abbrev conflict_warning : PortOwners → WarningInfo
conflict_warning e =
    warn (lit "port-conflict-" ++ (show_protocol e.protocol ++ b'-' ∷ show e.port)) warning
      (lit "warnings.portConflict")
      ((lit "port", number e.port) ∷ (lit "protocol", text (show_protocol e.protocol)) ∷ [])
      (lit "Possible port conflict on "
        ++ (show e.port ++ (lit " (" ++ (show_protocol e.protocol ++ lit ")"))))

abbrev pub is_conflict : PortOwners → Bool
is_conflict e = ltb 1 (length e.pids)

unfoldable pub conflict_warnings : List PortInfo → List WarningInfo
unfolding port_owners
conflict_warnings ports = map conflict_warning (select is_conflict (port_owners [] ports))

abbrev is_absent : Option Bool → Bool
is_absent (some false) = true
is_absent _ = false

unfoldable pub crossing : List ImportantPathInfo → List ToolInfo → List Text
crossing paths tools =
    map (λ p. p.label) (select (λ p. not (is_absent p.exists) && is_cross_boundary p.side) paths)
    ++ map (λ t. t.display_name) (select (λ t. t.installed && is_cross_boundary t.side) tools)

abbrev listed : List Text → Text
listed names =
    let shown = take max_cross_boundary_names names in
    join (lit ", ") shown
    ++ (if ltb (length shown) (length names)
        then lit ", +" ++ show (length names - length shown)
        else [])

unfoldable pub crossing_warnings : List Text → List WarningInfo
crossing_warnings names = when (ltb 0 (length names)) (
    warn (lit "cross-boundary-paths") info (lit "warnings.crossBoundaryPaths")
      ((lit "count", number (length names)) ∷ (lit "items", text (listed names)) ∷ [])
      (show (length names)
        ++ (lit
              " item(s) live on the Windows filesystem, where WSL file access is far slower than on the Linux disk: "
            ++ listed names)))

unfoldable pub dashboard_warnings : Bool → Option DashboardSnapshot → List WarningInfo
unfolding system_warnings clock_warnings disk_warnings hermes_warnings service_warnings
    conflict_warnings crossing_warnings crossing
dashboard_warnings live none = []
dashboard_warnings live (some dash) =
    system_warnings live dash.system
    ++ (clock_warnings live (skew_of dash.clock)
        ++ (disk_warnings dash.disks
            ++ (hermes_warnings dash.hermes
                ++ (service_warnings dash.services
                    ++ (conflict_warnings dash.ports
                        ++ crossing_warnings (crossing dash.paths dash.tools))))))

unfoldable pub cwd_warnings : Option Text → List WarningInfo
cwd_warnings none = []
cwd_warnings (some cwd) = when (is_cross_boundary (classify_path_side cwd none)) (
    warn (lit "console-cwd-cross-boundary") info (lit "warnings.consoleCwdCrossBoundary")
      ((lit "path", text cwd) ∷ [])
      (lit "The Console is working in "
        ++ (cwd
            ++ (lit
                  ", which is on the Windows filesystem — file-heavy work there is far slower than "
                ++ lit "on the Linux disk"))))

abbrev missing_warning : Text → WarningInfo
missing_warning entry =
    warn (lit "path-missing-" ++ slug entry) warning (lit "warnings.pathMissing")
      ((lit "path", text entry) ∷ []) (lit "PATH entry does not exist: " ++ entry)

-- The loop from the last failure back, with the distinct commands so far.
unfoldable distinct_from : List Text → List Text → List Text
distinct_from [] distinct = distinct
distinct_from (cmd ∷ older) distinct =
    let seen = if one_of cmd distinct then distinct else distinct ++ cmd ∷ [] in
    let rest = distinct_from older seen in
    if leb max_runner_warnings (length seen) then seen else rest

unfoldable pub recent : List Text → List Text
unfolding distinct_from
recent failures = reverse (distinct_from (reverse failures) [])

abbrev runner_warning : Text → WarningInfo
runner_warning cmd =
    warn (lit "runner-failed-" ++ slug cmd) warning (lit "warnings.runnerFailed")
      ((lit "command", text cmd) ∷ []) (lit "A background query failed: " ++ cmd)

unfoldable pub mcp_warnings : Option Text → List WarningInfo
mcp_warnings none = []
mcp_warnings (some failure) = when (ltb 0 (length failure)) (
    warn (lit "mcp-start-failed") error (lit "warnings.mcpStartFailed")
      ((lit "error", text failure) ∷ []) (lit "MCP server failed to start: " ++ failure))

unfoldable pub compute_warnings : WarningComputeInput → List WarningInfo
unfolding stopped_warnings dashboard_warnings cwd_warnings recent mcp_warnings
compute_warnings input =
    stopped_warnings (selected input)
    ++ (dashboard_warnings (is_running (selected input)) input.dashboard
        ++ (cwd_warnings input.console_cwd
            ++ (map missing_warning input.missing_path_entries
                ++ (map runner_warning (recent input.runner_failures)
                    ++ mcp_warnings input.mcp_error))))
