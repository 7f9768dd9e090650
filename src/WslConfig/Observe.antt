-- ===== src/WslConfig/Observe.antt =====
-- src/main/wsl/wsl-config.ts: what the running system exhibits for a setting.
use wslpad.Base.{
  ℕ, Bool, true, false, ◌&&◌, ◌||◌, Text, lit, List, [], ◌∷◌, ◌++◌, Option, none, some, ltb, ◌==◌,
  if◌then◌else◌, is_empty, is_letter, to_lower, same, starts_with, includes, split, join, select,
  any, every, length,
}
use wslpad.WslConfig.Values.{format_size}

pub data InteropWord : Type 0 where
  enabled disabled : InteropWord

pub record WslObservations : Type 0 where
  pub wsl_conf_text : Text
  pub wsl_conf_exists : Bool
  pub wsl_conf_mtime_ms : Option ℕ
  pub uptime_seconds : Option ℕ
  pub networking_mode : Option Text
  pub pid1_comm : Option Text
  pub system_state : Option Text
  pub processors : Option Text
  pub mem_total_bytes : Option ℕ
  pub swap_total_bytes : Option ℕ
  pub drvfs_roots : Option (List Text)
  pub wslg_mounted : Option Bool
  pub path : Option Text
  pub user : Option Text
  pub kernel_release : Option Text
  pub kvm : Option Bool
  pub hostname : Option Text
  pub resolv_conf_header : Option Text
  pub hosts_header : Option Text
  pub interop_binfmt : Option InteropWord
  pub interop_binfmt_late : Option InteropWord
  pub default_uid : Option ℕ

unfoldable pub empty_observations : WslObservations
empty_observations = record {
  wsl_conf_text = [];
  wsl_conf_exists = false;
  wsl_conf_mtime_ms = none;
  uptime_seconds = none;
  networking_mode = none;
  pid1_comm = none;
  system_state = none;
  processors = none;
  mem_total_bytes = none;
  swap_total_bytes = none;
  drvfs_roots = none;
  wslg_mounted = none;
  path = none;
  user = none;
  kernel_release = none;
  kvm = none;
  hostname = none;
  resolv_conf_header = none;
  hosts_header = none;
  interop_binfmt = none;
  interop_binfmt_late = none;
  default_uid = none;
}

pub record Effective : Type 0 where
  pub value : Option Text
  pub evidence : Option Text

abbrev pub nothing : Effective
nothing = record { value = none; evidence = none }

abbrev pub found : Text → Text → Effective
found value evidence = record { value = some value; evidence = some evidence }

abbrev drive_end : Text → Bool
drive_end [] = false
drive_end (c ∷ []) = false
drive_end (c ∷ d ∷ []) = c == b'/' && is_letter d
drive_end (c ∷ d ∷ e ∷ s) = drive_end (d ∷ e ∷ s)

-- `driveMounts`: the points that end with a slash and one letter.
unfoldable pub drive_mounts : List Text → List Text
drive_mounts points = select drive_end points

-- Up to the last slash, that slash included; nothing if there is none.
unfoldable pub through_last_slash : Text → Text
through_last_slash [] = []
through_last_slash (c ∷ s) =
    let rest = through_last_slash s in
    if is_empty rest then (if c == b'/' then c ∷ [] else []) else c ∷ rest

-- The one parent of all the roots, if they have one.
unfoldable pub observed_automount_root : List Text → Option Text
unfolding through_last_slash
observed_automount_root [] = none
observed_automount_root (p ∷ ps) =
    if every (λ q. same (through_last_slash p) (through_last_slash q)) ps
    then some (through_last_slash p)
    else none

abbrev prefixes_of : Option (List Text) → List Text
prefixes_of none = lit "/mnt/c" ∷ []
prefixes_of (some []) = lit "/mnt/c" ∷ []
prefixes_of (some (r ∷ rs)) = r ∷ rs

unfoldable pub path_has_windows : Text → Option (List Text) → Bool
path_has_windows path_value roots =
    any
      (λ seg.
        any (λ root. same seg root || starts_with seg (root ++ b'/' ∷ [])) (prefixes_of roots))
      (split b':' path_value)

abbrev flag : Bool → Text
flag b = if b then lit "true" else lit "false"

-- A reading that is there, with one evidence.
abbrev with_evidence : Option Text → Text → Effective
with_evidence none evidence = nothing
with_evidence (some value) evidence = found value evidence

abbrev size_evidence : Option ℕ → Text → Effective
size_evidence none evidence = nothing
size_evidence (some bytes) evidence = found (format_size bytes) evidence

abbrev observe_gui : Option Bool → Effective
observe_gui (some true) = found (lit "true") (lit "/mnt/wslg is mounted.")
observe_gui (some false) = nothing
observe_gui none = nothing

abbrev observe_kvm : Option Bool → Effective
observe_kvm none = nothing
observe_kvm (some kvm) =
    found (flag kvm)
      (if kvm then lit "/dev/kvm exists in the guest." else lit "/dev/kvm is absent in the guest.")

abbrev observe_kernel : Option Text → Effective
observe_kernel none = nothing
observe_kernel (some release) = record {
  value = none;
  evidence = some (lit "The running kernel is " ++ (release ++ lit "."));
}

abbrev state_note : Option Text → Text
state_note none = []
state_note (some state) = lit " systemctl reports " ++ (state ++ lit ".")

abbrev observe_systemd : Option Text → Option Text → Effective
observe_systemd none state = nothing
observe_systemd (some comm) state =
    found (flag (same comm (lit "systemd")))
      (lit "PID 1 is " ++ (comm ++ (lit "." ++ state_note state)))

abbrev observe_automount : Option (List Text) → Effective
observe_automount none = nothing
observe_automount (some roots) =
    let drives = drive_mounts roots in
    found (flag (ltb 0 (length drives))) (
      if ltb 0 (length drives)
      then lit "Windows drives are mounted at " ++ (join (lit ", ") drives ++ lit ".")
      else lit "No Windows drive is mounted in /proc/mounts.")

abbrev observe_root : Option (List Text) → Effective
observe_root none = nothing
observe_root (some roots) =
    with_evidence (observed_automount_root (drive_mounts roots))
      (lit "Derived from the DrvFs mount points in /proc/mounts.")

abbrev observe_path : Option Text → Option (List Text) → Effective
observe_path none roots = nothing
observe_path (some path) roots =
    found (flag (path_has_windows path roots)) (lit "Checked for Windows directories in PATH.")

-- `/generated by WSL/i` on a header that is there.
abbrev observe_generated : Option Text → Text → Effective
observe_generated none evidence = nothing
observe_generated (some header) evidence =
    if includes (to_lower header) (lit "generated by wsl")
    then found (lit "true") evidence
    else nothing

-- The `switch` on `${section}.${key.toLowerCase()}`, as the list of its cases.
abbrev cases : WslObservations → List (Text × Effective)
cases obs =
    (lit "wsl2.memory", size_evidence obs.mem_total_bytes (lit "Read from MemTotal in the guest."))
    ∷ (lit "wsl2.processors", with_evidence obs.processors (lit "Counted with nproc in the guest."))
    ∷ (
      lit "wsl2.swap",
      size_evidence obs.swap_total_bytes (lit "Read from SwapTotal in the guest."),
    )
    ∷ (
      lit "wsl2.networkingmode",
      with_evidence obs.networking_mode (lit "Reported by wslinfo --networking-mode."),
    )
    ∷ (lit "wsl2.guiapplications", observe_gui obs.wslg_mounted)
    ∷ (lit "wsl2.nestedvirtualization", observe_kvm obs.kvm)
    ∷ (lit "wsl2.kernel", observe_kernel obs.kernel_release)
    ∷ (lit "boot.systemd", observe_systemd obs.pid1_comm obs.system_state)
    ∷ (lit "automount.enabled", observe_automount obs.drvfs_roots)
    ∷ (lit "automount.root", observe_root obs.drvfs_roots)
    ∷ (lit "interop.appendwindowspath", observe_path obs.path obs.drvfs_roots)
    ∷ (
      lit "user.default",
      with_evidence obs.user (lit "The distribution runs commands as this user."),
    )
    ∷ (
      lit "network.hostname",
      with_evidence obs.hostname (lit "Reported by hostname in the guest."),
    )
    ∷ (
      lit "network.generateresolvconf",
      observe_generated obs.resolv_conf_header
          (lit "/etc/resolv.conf carries the WSL generated header."),
    )
    ∷ (
      lit "network.generatehosts",
      observe_generated obs.hosts_header (lit "/etc/hosts carries the WSL generated header."),
    )
    ∷ []

unfoldable pub switch : Text → List (Text × Effective) → Effective
switch name [] = nothing
switch name ((c, e) ∷ rest) = if same name c then e else switch name rest

unfoldable pub observe_effective : Text → Text → WslObservations → Effective
unfolding switch
observe_effective section key obs = switch (section ++ (b'.' ∷ to_lower key)) (cases obs)
