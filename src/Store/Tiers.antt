-- ===== src/Store/Tiers.antt =====
-- The tiers of src/main/state/store.ts: what a refresh takes hold of before it waits, and what its
-- collectors write afterwards.
use wslpad.Base.{true, ℕ, Text, List, Option, none, some, if◌then◌else◌, ◌==◌}
use wslpad.Ports.{FirewallInfo, PortInfo, PortProxyInfo, WindowsPortInfo}
use wslpad.Ports.Correlate.{correlate_ports}
use wslpad.Ports.Reach.{apply_reachability}
use wslpad.Snapshot.{
  ClockInfo, ConfigurationFileInfo, DashboardSnapshot, DiskUsage, DistroDetails, DnsInfo,
  DockerInfo, EnvironmentVariableInfo, HermesInfo, ImportantPathInfo, ProcessInfo, ServiceInfo,
  SystemInfo, ToolInfo,
}
use wslpad.Store.Selection.{StoreState, running_selected, recompute_warnings}

-- `distro` and `s` of a refresh: the name, and which object of sections.
pub record Capture : Type 0 where
  pub distro : Text
  pub selection : ℕ

abbrev with_sections : Text → ℕ → Option DashboardSnapshot → Option Capture
with_sections distro selection none = none
with_sections distro selection (some s) = some record { distro = distro; selection = selection }

abbrev pub capture_of : Option Text → ℕ → Option DashboardSnapshot → Option Capture
capture_of none selection sections = none
capture_of (some distro) selection sections = with_sections distro selection sections

unfoldable pub capture : StoreState → Option Capture
unfolding running_selected
capture st = capture_of (running_selected st) st.selection st.sections

-- A write to the captured object: it is seen if the store still has that object.
abbrev pub changed :
    (DashboardSnapshot → DashboardSnapshot) → Option DashboardSnapshot → Option DashboardSnapshot
changed f none = none
changed f (some s) = some (f s)

abbrev pub write_to : Capture → (DashboardSnapshot → DashboardSnapshot) → StoreState → StoreState
write_to c f st =
    if c.selection == st.selection then record st { sections = changed f st.sections } else st

-- What the collectors of the three tiers write, of what the model keeps.
pub data Collected : Type 0 where
  resources : List DiskUsage → Collected
  processes : List ProcessInfo → Collected
  ports : List PortInfo → Collected
  clock : ClockInfo → Collected
  services : List ServiceInfo → Collected
  hermes : HermesInfo → Collected
  dns : DnsInfo → Collected
  firewall : FirewallInfo → Collected
  port_forwarding : PortProxyInfo → Collected
  distro_details : DistroDetails → Collected
  system_info : SystemInfo → Collected
  tools : List ToolInfo → Collected
  environment : List EnvironmentVariableInfo → Collected
  important_paths : List ImportantPathInfo → Collected
  config_files : List ConfigurationFileInfo → Collected
  docker : DockerInfo → Collected

unfoldable pub apply : Collected → DashboardSnapshot → DashboardSnapshot
apply (resources v) s = record s { disks = v }
apply (processes v) s = record s { processes = v }
apply (ports v) s = record s { ports = v }
apply (clock v) s = record s { clock = some v }
apply (services v) s = record s { services = v; services_collected = true }
apply (hermes v) s = record s { hermes = some v }
apply (dns v) s = record s { dns = some v }
apply (firewall v) s = record s { firewall = some v }
apply (port_forwarding v) s = record s { port_proxy = some v }
apply (distro_details v) s = record s { distro = v }
apply (system_info v) s = record s { system = v }
apply (tools v) s = record s { tools = v }
apply (environment v) s = record s { environment = v }
apply (important_paths v) s = record s { paths = v }
apply (config_files v) s = record s { configuration = v }
apply (docker v) s = record s { docker = some v }

-- The end of a fast tick: the ports of both sides, and how far they carry, in the captured sections.
unfoldable pub joined :
    Option Text → Option (List WindowsPortInfo) → DashboardSnapshot → DashboardSnapshot
joined mode table s =
    let both = correlate_ports s.ports table in
    record s {
      windows_ports = both.windows_ports;
      ports = apply_reachability both.ports mode s.firewall;
    }

abbrev pub join_captured : Option Text → Option Capture → StoreState → StoreState
join_captured mode none st = st
join_captured mode (some c) st = write_to c (joined mode st.windows_port_table) st

-- `mode` is the networking mode in effect that the captured sections hold, as far as it is known.
unfoldable pub finish_fast : Option Text → Option Capture → StoreState → StoreState
unfolding recompute_warnings joined
finish_fast mode c st = recompute_warnings (join_captured mode c st)
