-- ===== src/Ports.antt =====
-- The records of the listeners inside a distribution and on the Windows side, of the forwarding rules
-- and of the firewall, in src/shared/types.ts.
pub mod Reach
pub mod Verdicts
pub mod Listening
pub mod Windows
pub mod Collector
pub mod Named
pub mod Correlate
pub mod Joined
pub mod Proxy
pub mod ProxyHistory
use wslpad.Base.{ℕ, Bool, Text, List, Option}

pub data PortProtocol : Type 0 where
  tcp udp tcp6 udp6 : PortProtocol

pub data PortReachability : Type 0 where
  windows_only lan loopback_only unreachable unknown_reach : PortReachability

pub record PortInfo : Type 0 where
  pub protocol : PortProtocol
  pub local_address : Text
  pub port : ℕ
  pub pid : Option ℕ
  pub process_name : Option Text
  pub listening : Bool
  pub localhost_url : Option Text
  pub windows_bound : Option Bool
  pub windows_process : Option Text
  pub reachability : PortReachability
  pub reachability_reason : Option Text

pub record WindowsPortInfo : Type 0 where
  pub protocol : PortProtocol
  pub local_address : Text
  pub port : ℕ
  pub pid : Option ℕ
  pub process_name : Option Text
  pub listening : Bool
  pub localhost_url : Option Text
  pub from_wsl : Bool

pub data RuleVerdict : Type 0 where
  live stale elsewhere unverified : RuleVerdict

pub record PortProxyRule : Type 0 where
  pub listen_address : Text
  pub listen_port : ℕ
  pub connect_address : Text
  pub connect_port : ℕ
  pub verdict : RuleVerdict

pub record PortProxyInfo : Type 0 where
  pub rules : List PortProxyRule
  pub distro_ip : Option Text
  pub failure : Option Text

pub record FirewallInfo : Type 0 where
  pub enabled : Option Bool
  pub default_inbound : Option Text
  pub default_outbound : Option Text
  pub loopback_enabled : Option Bool
  pub rule_count : Option ℕ
  pub failure : Option Text
