-- ===== src/Doctor.antt =====
-- src/shared/doctor.ts: the verdicts on an environment from what was collected. Its input is
-- the snapshot, whose records are in Snapshot.
pub mod Workspace
pub mod Network
pub mod Runtime
pub mod Report
pub mod Verdicts
pub mod Suggestions
pub mod Resolver
use wslpad.Base.{
  ℕ, suc, Bool, true, false, Text, lit, List, [], ◌∷◌, ◌++◌, Option, none, some, is_empty, show,
  if◌then◌else◌,
}
use wslpad.Base.Int.{ℤ, pos, negsuc}
pub use wslpad.Snapshot.{
  EnvironmentVariableInfo, ToolInfo, ConfigurationFileInfo, DnsInfo, ProcessInfo, ClockInfo,
  DockerInfo, ServiceInfo, DashboardSnapshot,
}

pub data DoctorVerdict : Type 0 where
  healthy warning error unknown : DoctorVerdict

pub record DoctorCheckResult : Type 0 where
  pub id : Text
  pub title : Text
  pub verdict : DoctorVerdict
  pub evidence : Text
  pub command : Option Text

-- A text that a condition takes for true.
abbrev pub truthy : Option Text → Bool
truthy none = false
truthy (some []) = false
truthy (some (c ∷ s)) = true

abbrev pub show_ℤ : ℤ → Text
show_ℤ (pos n) = show n
show_ℤ (negsuc n) = b'-' ∷ show (suc n)
