-- ===== src/Tests/Doctor.antt =====
-- Runs of src/shared/doctor.ts.
use wslpad.Base.{
  ◌↔◌, false, ◌≡◌, refl, true, false, lit, [], ◌∷◌, none, some, map, same, split, starts_with,
}
use wslpad.Base.Int.{negsuc}
use wslpad.Doctor.{
  DashboardSnapshot, EnvironmentVariableInfo, DockerInfo, ClockInfo, ServiceInfo, DnsInfo,
  DoctorVerdict,
}
use wslpad.Snapshot.{DistroState}
use wslpad.Doctor.Workspace.{check_path_duplication}
use wslpad.Doctor.Runtime.{check_systemd_docker, failed_services}
use wslpad.Doctor.Report.{run_doctor, mask_evidence}
use wslpad.Doctor.Verdicts.{SystemdVerdict, check_systemd_docker-SystemdVerdict}
use wslpad.Doctor.Network.{check_dns}
use wslpad.Doctor.Resolver.{IsResolved, check_dns-healthy_iff}
use wslpad.Doctor.Suggestions.{prepared, shutdown_for, skew_of, run_doctor-commands}

abbrev docker : DockerInfo
docker = record {
  cli_installed = true;
  daemon_running = false;
  not_probed = none;
  server_version = none;
  failure = none;
}

abbrev path : EnvironmentVariableInfo
path = record {
  name = lit "PATH";
  masked_value = lit "/usr/bin:/mnt/c/bin:/usr/bin";
  is_secret = false;
}

abbrev clock : ClockInfo
clock = record { skew_seconds = some (negsuc 40) }

abbrev cron : ServiceInfo
cron = record { name = lit "cron.service"; active_state = lit "active" }

abbrev snapshot : DashboardSnapshot
snapshot = record {
  distro = record {
    name = lit "Ubuntu";
    state = DistroState.running;
    wsl_version = 2;
    is_default = true;
    os_name = none;
    unc_path = [];
  };
  system = record {
    user = some (lit "me");
    home = some (lit "/home/me");
    systemd_enabled = some true;
  };
  disks = [];
  paths = [];
  hermes = none;
  configuration = [];
  tools = [];
  docker = some docker;
  environment = path ∷ [];
  processes = [];
  services = cron ∷ [];
  services_collected = true;
  ports = [];
  windows_ports = [];
  port_proxy = none;
  firewall = none;
  clock = some clock;
  dns = none;
}

duplication_run : (check_path_duplication snapshot).verdict ≡ DoctorVerdict.warning
unfolding check_path_duplication same split starts_with lit
duplication_run = refl

systemd_run : (check_systemd_docker snapshot).verdict ≡ DoctorVerdict.warning
unfolding check_systemd_docker same lit
systemd_run = refl

-- A home is masked; a Windows profile is masked only with its backslashes doubled.
mask_run :
    (mask_evidence (lit "/home/me/a") ≡ lit "/home/••••••••/a")
    × (mask_evidence (lit "C:\\Users\\me") ≡ lit "C:\\Users\\me")
    × (mask_evidence (lit "C:\\\\Users\\\\me") ≡ lit "C:\\\\Users\\\\••••••••")
unfolding mask_evidence starts_with lit
mask_run = (refl, refl, refl)

check_systemd_docker-SystemdVerdict_example :
    SystemdVerdict
      (some true)
      (some docker)
      (failed_services (cron ∷ []))
      (check_systemd_docker snapshot).verdict
    × (check_systemd_docker (record snapshot { services_collected = false })
        ≡ check_systemd_docker snapshot)
check_systemd_docker-SystemdVerdict_example = check_systemd_docker-SystemdVerdict snapshot false

run_doctor-commands_example :
    map prepared (run_doctor [] [] snapshot).checks
    ≡ (lit "project-path", none)
      ∷ (lit "binary-shadowing", none)
      ∷ (lit "path-duplication", none)
      ∷ (lit "git-ssh-config", none)
      ∷ (lit "dns-config", none)
      ∷ (lit "port-firewall", none)
      ∷ (lit "vscode-server", none)
      ∷ (lit "clock-skew", shutdown_for (skew_of (some clock)))
      ∷ (lit "systemd-docker", none)
      ∷ []
run_doctor-commands_example = run_doctor-commands [] [] snapshot

abbrev resolver : DnsInfo
resolver = record {
  is_generated_symlink = some false;
  generate_resolv_conf = some false;
  dns_tunneling = some false;
  nameservers = lit "10.0.0.1" ∷ [];
  windows_adapter_dns = lit "10.0.0.1" ∷ lit "10.0.0.2" ∷ [];
  failure = none;
}

abbrev resolved : DashboardSnapshot
resolved = record snapshot { dns = some resolver }

resolver_healthy : (check_dns resolved).verdict ≡ DoctorVerdict.healthy
unfolding check_dns same lit
resolver_healthy = refl

check_dns-healthy_iff_example :
    ((check_dns resolved).verdict ≡ DoctorVerdict.healthy) ↔ IsResolved (some resolver)
check_dns-healthy_iff_example = check_dns-healthy_iff resolved
