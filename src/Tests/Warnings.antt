-- ===== src/Tests/Warnings.antt =====
-- Runs of the warnings and of the advice on recovery.
use wslpad.Base.{
  ℕ, List, any, ◌≡◌, ◌≢◌, ◌↔◌, refl, true, false, Text, lit, [], ◌∷◌, Option, none, some, map, same,
  starts_with, includes, drop_tail, to_lower, show, join,
}
use wslpad.Boundary.{
  is_cross_boundary, classify_path_side, is_drive_under, normalize_automount_root, is_drive,
}
use wslpad.Ports.{PortInfo, tcp, unknown_reach}
use wslpad.Snapshot.{DashboardSnapshot, DistroSummary, DistroState, ProcessInfo}
use wslpad.Warnings.{WarningInfo, WarningComputeInput, compute_warnings, conflict_warnings, slug}
use wslpad.Warnings.Keys.{conflict_id}
use wslpad.Warnings.Conflicts.{Served, conflict_warnings_iff}
use wslpad.Recovery.{
  RecoveryInput, NetworkCheckResult, NetworkProbeStatus, RecoveryContext, restart_vscode_server,
  build_recovery_check, kill_command, vscode_pids, measured,
}

abbrev port : Option Text → PortInfo
port name = record {
  protocol = tcp;
  local_address = lit "*";
  port = 3000;
  pid = some 7;
  process_name = name;
  listening = true;
  localhost_url = none;
  windows_bound = none;
  windows_process = none;
  reachability = unknown_reach;
  reachability_reason = none;
}

abbrev node : ProcessInfo
node = record {
  pid = 41;
  cpu_tenths = 2;
  mem_tenths = 3;
  elapsed_seconds = 9;
  command = lit "/home/me/.vscode-server/bin/node extensionHost";
}

abbrev snapshot : DashboardSnapshot
snapshot = record {
  distro = record {
    name = lit "Ubuntu";
    state = DistroState.running;
    wsl_version = 2;
    is_default = true;
    os_name = none;
    unc_path = [];
  };
  system = record { user = some (lit "me"); home = none; systemd_enabled = some false };
  disks = record { mount_point = lit "/mnt/c"; exists = true; use_percent = some 97 } ∷ [];
  paths = [];
  hermes = none;
  configuration = [];
  tools = [];
  docker = none;
  environment = [];
  processes = node ∷ [];
  services = record { name = lit "cron.service"; active_state = lit "failed" } ∷ [];
  services_collected = true;
  ports = record (port none) { pid = some 8 } ∷ port none ∷ port (some (lit "node")) ∷ [];
  windows_ports = [];
  port_proxy = none;
  firewall = none;
  clock = none;
  dns = none;
}

abbrev ubuntu : DistroSummary
ubuntu = record {
  name = lit "Ubuntu";
  state = DistroState.running;
  wsl_version = 2;
  is_default = true;
}

abbrev input : WarningComputeInput
input = record {
  distros = ubuntu ∷ [];
  selected_distro = some (lit "Ubuntu");
  dashboard = some snapshot;
  runner_failures = lit "a" ∷ lit "b" ∷ lit "c" ∷ lit "d" ∷ [];
  mcp_error = some [];
  missing_path_entries = lit "/opt/bin" ∷ [];
  console_cwd = some (lit "/mnt/c/work");
}

warnings_run :
    map (λ (w : WarningInfo). w.id) (compute_warnings input)
    ≡ lit "systemd-disabled"
      ∷ lit "home-inaccessible"
      ∷ lit "disk-low-mnt-c"
      ∷ lit "service-failed-cron-service"
      ∷ lit "port-conflict-tcp-3000"
      ∷ lit "console-cwd-cross-boundary"
      ∷ lit "path-missing-opt-bin"
      ∷ lit "runner-failed-b"
      ∷ lit "runner-failed-c"
      ∷ lit "runner-failed-d"
      ∷ []
unfolding compute_warnings lit same slug drop_tail to_lower show starts_with is_cross_boundary
    classify_path_side is_drive_under normalize_automount_root is_drive
warnings_run = refl

-- One socket for each of the processes 8 and 7, at the port 3000.
abbrev sockets : List PortInfo
sockets = record (port none) { pid = some 8 } ∷ port none ∷ []

conflict_warnings_iff_example :
    (any (λ w. same w.id (conflict_id tcp 3000)) (conflict_warnings sockets) ≡ true)
    ↔ ((a : ℕ) × (b : ℕ) × (a ≢ b) × Served tcp 3000 sockets a × Served tcp 3000 sockets b)
conflict_warnings_iff_example = conflict_warnings_iff tcp 3000 sockets

abbrev seen : RecoveryInput
seen = record { distros = ubuntu ∷ []; answering = some true; dashboard = some snapshot }

abbrev network : NetworkCheckResult
network = record {
  distro = lit "Ubuntu";
  started_at = [];
  completed_at = [];
  probes = record { id = lit "distro"; status = NetworkProbeStatus.pass } ∷ [];
}

abbrev fresh : RecoveryContext
fresh = record { resumed_at = none; resume_changes = [] }

-- A child of the server without its parent: the server is restarted, and the child is what is ended.
recovery_run :
    ((build_recovery_check seen network fresh).recommended_step ≡ restart_vscode_server)
    × (kill_command (vscode_pids (measured seen)) ≡ some (lit "kill 41"))
unfolding build_recovery_check kill_command lit same show join starts_with to_lower includes
recovery_run = (refl, refl)
