-- ===== src/Snapshot.antt =====
-- The snapshot of a distribution, in src/shared/types.ts, with the fields that Doctor, Warnings,
-- Recovery and Ownership read. A load of the processor or of memory, which `ps` prints with one decimal,
-- is counted in tenths of a percent; the use of a disk, which `df` prints so, in whole percents.
use wslpad.Base.{ℕ, Bool, Text, List, Option}
use wslpad.Base.Int.{ℤ}
use wslpad.Boundary.{PathSide}
use wslpad.Ports.{PortInfo, WindowsPortInfo, PortProxyInfo, FirewallInfo}

pub record EnvironmentVariableInfo : Type 0 where
  pub name : Text
  pub masked_value : Text
  pub is_secret : Bool

pub record ToolInfo : Type 0 where
  pub id : Text
  pub display_name : Text
  pub installed : Bool
  pub executable_path : Option Text
  pub config_paths : List Text
  pub side : PathSide
  pub shadowed_by_windows : Bool

pub record ConfigurationFileInfo : Type 0 where
  pub id : Text
  pub exists : Option Bool

pub record DnsInfo : Type 0 where
  pub is_generated_symlink : Option Bool
  pub generate_resolv_conf : Option Bool
  pub dns_tunneling : Option Bool
  pub nameservers : List Text
  pub windows_adapter_dns : List Text
  pub failure : Option Text

pub record ProcessInfo : Type 0 where
  pub pid : ℕ
  pub cpu_tenths : ℕ
  pub mem_tenths : ℕ
  pub elapsed_seconds : ℕ
  pub command : Text

pub record ClockInfo : Type 0 where
  pub skew_seconds : Option ℤ

pub record DockerInfo : Type 0 where
  pub cli_installed : Bool
  pub daemon_running : Bool
  pub not_probed : Option Text
  pub server_version : Option Text
  pub failure : Option Text

pub record ServiceInfo : Type 0 where
  pub name : Text
  pub active_state : Text

pub record SystemInfo : Type 0 where
  pub user : Option Text
  pub home : Option Text
  pub systemd_enabled : Option Bool

pub record DiskUsage : Type 0 where
  pub mount_point : Text
  pub exists : Bool
  pub use_percent : Option ℕ

pub record ImportantPathInfo : Type 0 where
  pub label : Text
  pub exists : Option Bool
  pub side : PathSide

pub record HermesInfo : Type 0 where
  pub executable_path : Option Text
  pub data_dir : Option Text

pub data DistroState : Type 0 where
  running stopped installing unknown_state : DistroState

pub record DistroSummary : Type 0 where
  pub name : Text
  pub state : DistroState
  pub wsl_version : ℕ
  pub is_default : Bool

pub record DistroDetails : Type 0 where
  pub name : Text
  pub state : DistroState
  pub wsl_version : ℕ
  pub is_default : Bool
  pub os_name : Option Text
  pub unc_path : Text

pub record DashboardSnapshot : Type 0 where
  pub distro : DistroDetails
  pub system : SystemInfo
  pub disks : List DiskUsage
  pub paths : List ImportantPathInfo
  pub hermes : Option HermesInfo
  pub configuration : List ConfigurationFileInfo
  pub tools : List ToolInfo
  pub docker : Option DockerInfo
  pub environment : List EnvironmentVariableInfo
  pub processes : List ProcessInfo
  pub services : List ServiceInfo
  pub services_collected : Bool
  pub ports : List PortInfo
  pub windows_ports : List WindowsPortInfo
  pub port_proxy : Option PortProxyInfo
  pub firewall : Option FirewallInfo
  pub clock : Option ClockInfo
  pub dns : Option DnsInfo
