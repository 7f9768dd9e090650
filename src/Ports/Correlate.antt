-- ===== src/Ports/Correlate.antt =====
-- src/main/wsl/windows-ports.ts: correlatePorts, which joins the two tables of listeners on the family
-- of the protocol and the port.
use wslpad.Base.{
  ℕ, Bool, true, ◌&&◌, Text, lit, List, [], ◌∷◌, ◌++◌, Option, none, some, is_none, is_some, map,
  one_of, same, select, show, if◌then◌else◌,
}
use wslpad.Ports.{PortInfo, WindowsPortInfo, PortProtocol, tcp, udp, tcp6, udp6}

abbrev pub family : PortProtocol → Text
family tcp = lit "tcp"
family tcp6 = lit "tcp"
family udp = lit "udp"
family udp6 = lit "udp"

unfoldable pub key : PortProtocol → ℕ → Text
key protocol port = family protocol ++ b':' ∷ show port

pub record CorrelatedPorts : Type 0 where
  pub ports : List PortInfo
  pub windows_ports : List WindowsPortInfo

-- `byPort`, a map from keys to listeners. A key that is set again keeps its place.
abbrev pub ByPort : Type 0
ByPort = List (Text × WindowsPortInfo)

unfoldable pub get_port : ByPort → Text → Option WindowsPortInfo
get_port [] k = none
get_port ((l, w) ∷ m) k = if same l k then some w else get_port m k

unfoldable pub set_port : ByPort → Text → WindowsPortInfo → ByPort
set_port [] k w = (k, w) ∷ []
set_port ((l, v) ∷ m) k w =
    let rest = set_port m k w in if same l k then (l, w) ∷ m else (l, v) ∷ rest

abbrev pub is_better : Option WindowsPortInfo → WindowsPortInfo → Bool
is_better none w = true
is_better (some existing) w = is_none existing.process_name && is_some w.process_name

unfoldable pub index_port : ByPort → WindowsPortInfo → ByPort
index_port m w =
    let k = key w.protocol w.port in if is_better (get_port m k) w then set_port m k w else m

unfoldable pub index_ports : ByPort → List WindowsPortInfo → ByPort
unfolding index_port
index_ports m [] = m
index_ports m (w ∷ ws) = index_ports (index_port m w) ws

abbrev process_of : Option WindowsPortInfo → Option Text
process_of none = none
process_of (some w) = w.process_name

abbrev pub bind_to : PortInfo → Option WindowsPortInfo → PortInfo
bind_to p found = record p {
  windows_bound = some (is_some found);
  windows_process = process_of found;
}

abbrev unbind : PortInfo → PortInfo
unbind p = record p { windows_bound = none; windows_process = none }

abbrev pub wsl_keys : List PortInfo → List Text
wsl_keys ports = map (λ p. key p.protocol p.port) (select (λ p. p.listening) ports)

abbrev pub mark : Bool → WindowsPortInfo → WindowsPortInfo
mark from_wsl w = record w { from_wsl = from_wsl }

unfoldable pub correlate_ports : List PortInfo → Option (List WindowsPortInfo) → CorrelatedPorts
unfolding index_ports get_port
correlate_ports ports none = record { ports = map unbind ports; windows_ports = [] }
correlate_ports ports (some table) =
    let by_port = index_ports [] table in
    record {
      ports = map (λ p. bind_to p (get_port by_port (key p.protocol p.port))) ports;
      windows_ports = map (λ w. mark (one_of (key w.protocol w.port) (wsl_keys ports)) w) table;
    }
