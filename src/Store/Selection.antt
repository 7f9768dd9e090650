-- ===== src/Store/Selection.antt =====
-- The distribution that src/main/state/store.ts shows, and the sections kept for it. Events come one
-- after the other, as the event loop runs them.
use wslpad.Base.{
  suc, Bool, true, false, not, one_of, ℕ, ◌&&◌, ltb, Text, lit, List, [], ◌∷◌, ◌++◌, Option, none,
  some, find, head?, same, if◌then◌else◌,
}
use wslpad.Base.Results.{Result, ok, err}
use wslpad.Shell.{assert_valid_distro_name, Refusal}
use wslpad.Explorer.Outcomes.{refusal_message}
use wslpad.Ports.{WindowsPortInfo}
use wslpad.Snapshot.{DashboardSnapshot, DistroDetails, DistroSummary, DistroState, running}
use wslpad.Warnings.{WarningInfo, warning, compute_warnings, text}
use wslpad.Store.{ProbeState, fresh_probe, run_probe, note_runner_failure, clear_runner_failure}

-- The fields of the store that decide what is shown. `selection` tells one object of sections from
-- another: it grows whenever the store puts another object, or none, in the place of its sections.
pub record StoreState : Type 0 where
  pub distros : List DistroSummary
  pub selected : Option Text
  pub selection : ℕ
  pub sections : Option DashboardSnapshot
  pub mcp_error : Option Text
  pub console_cwd : Option Text
  pub windows_port_table : Option (List WindowsPortInfo)
  pub runner_failures : List Text
  pub probe : ProbeState
  pub warnings : List WarningInfo

abbrev pub initial : StoreState
initial = record {
  distros = [];
  selected = none;
  selection = 0;
  sections = none;
  mcp_error = none;
  console_cwd = none;
  windows_port_table = none;
  runner_failures = [];
  probe = fresh_probe;
  warnings = [];
}

unfoldable pub sections_for : DistroSummary → DashboardSnapshot
sections_for summary = record {
  distro = record {
    name = summary.name;
    state = summary.state;
    wsl_version = summary.wsl_version;
    is_default = summary.is_default;
    os_name = none;
    unc_path = lit "\\\\wsl.localhost\\" ++ summary.name;
  };
  system = record { user = none; home = none; systemd_enabled = none };
  disks = [];
  paths = [];
  hermes = none;
  configuration = [];
  tools = [];
  docker = none;
  environment = [];
  processes = [];
  services = [];
  services_collected = false;
  ports = [];
  windows_ports = [];
  port_proxy = none;
  firewall = none;
  clock = none;
  dns = none;
}

unfoldable pub select_internal : DistroSummary → StoreState → StoreState
unfolding sections_for
select_internal summary st = record st {
  selected = some summary.name;
  selection = suc st.selection;
  sections = some (sections_for summary);
  runner_failures = [];
  probe = fresh_probe;
}

abbrev refreshed_distro : DistroSummary → DistroDetails → DistroDetails
refreshed_distro cur distro = record distro {
  state = cur.state;
  wsl_version = cur.wsl_version;
  is_default = cur.is_default;
}

abbrev pub refreshed_sections : DistroSummary → Option DashboardSnapshot → Option DashboardSnapshot
refreshed_sections cur none = none
refreshed_sections cur (some s) = some (record s { distro = refreshed_distro cur s.distro })

abbrev pub or_first : Option DistroSummary → List DistroSummary → Option DistroSummary
or_first (some d) list = some d
or_first none list = head? list

abbrev pub default_in : List DistroSummary → Option DistroSummary
default_in list = or_first (find (λ d. d.is_default) list) list

abbrev pub select_next : List DistroSummary → Option DistroSummary → StoreState → StoreState
select_next list none st = record st {
  distros = list;
  selected = none;
  selection = suc st.selection;
  sections = none;
}
select_next list (some next) st = select_internal next (record st { distros = list })

-- The selected distribution in a list; an empty name counts as none.
abbrev pub current_in : List DistroSummary → Option Text → Option DistroSummary
current_in list none = none
current_in list (some []) = none
current_in list (some (c ∷ name)) = find (λ d. same d.name (c ∷ name)) list

abbrev pub keep_or_select : List DistroSummary → Option DistroSummary → StoreState → StoreState
keep_or_select list (some cur) st = record st {
  distros = list;
  sections = refreshed_sections cur st.sections;
}
keep_or_select list none st = select_next list (default_in list) st

unfoldable pub apply_distro_list : List DistroSummary → StoreState → StoreState
unfolding select_internal
apply_distro_list list st = keep_or_select list (current_in list st.selected) st

abbrev pub is_running_state : DistroState → Bool
is_running_state state = elim state [ running ↦ true | _ ↦ false ]

abbrev pub running_in : Option Text → Option DistroSummary → Option Text
running_in selected none = none
running_in selected (some d) = if is_running_state d.state then selected else none

unfoldable pub running_selected : StoreState → Option Text
running_selected st = running_in st.selected (current_in st.distros st.selected)

abbrev unresponsive : Option Text → ProbeState → List WarningInfo
unresponsive none probe = []
unresponsive (some distro) probe =
    if ltb 0 probe.failures
    then record {
      id = lit "distro-unresponsive";
      severity = warning;
      message_key = lit "warnings.distroUnresponsive";
      params = (lit "distro", text distro) ∷ [];
      message =
          lit "Distribution "
          ++ (distro ++ lit " is not answering; live data is paused until it replies");
    }
      ∷ []
    else []

unfoldable pub recompute_warnings : StoreState → StoreState
recompute_warnings st = record st {
  warnings =
      compute_warnings (record {
        distros = st.distros;
        selected_distro = st.selected;
        dashboard = st.sections;
        runner_failures = st.runner_failures;
        mcp_error = st.mcp_error;
        missing_path_entries = [];
        console_cwd = st.console_cwd;
      })
      ++ unresponsive st.selected st.probe;
}

-- `noteRunnerFailure` and `clearRunnerFailure` of the store.
unfoldable pub note_failure : Text → StoreState → StoreState
unfolding recompute_warnings
note_failure command st =
    recompute_warnings
      (record st { runner_failures = note_runner_failure command st.runner_failures })

unfoldable pub clear_failure : Text → StoreState → StoreState
unfolding recompute_warnings
clear_failure command st =
    let cleared = record st { runner_failures = clear_runner_failure command st.runner_failures } in
    if not (one_of command st.runner_failures) then st else recompute_warnings cleared

abbrev pub list_command : Text
list_command = lit "wsl --list --verbose"

-- `collect` of the list of distributions.
unfoldable pub collect_list : Result Text (List DistroSummary) → StoreState → StoreState
unfolding apply_distro_list note_failure clear_failure
collect_list (ok list) st = clear_failure list_command (apply_distro_list list st)
collect_list (err message) st = note_failure list_command st

unfoldable pub initialize : Result Text (List DistroSummary) → StoreState → StoreState
unfolding collect_list
initialize list st = recompute_warnings (collect_list list st)

abbrev pub picked : Text → Option DistroSummary → StoreState → Result Text (Unit {0}) × StoreState
picked name none st = (err (lit "Unknown WSL distro: " ++ name), st)
picked name (some summary) st = (ok tt, recompute_warnings (select_internal summary st))

abbrev pub is_selected : Text → Option Text → Bool
is_selected name none = false
is_selected name (some current) = same name current

abbrev pub validated :
    Text → Result Refusal (Unit {0}) → StoreState → Result Text (Unit {0}) × StoreState
validated name (err refusal) st = (err (refusal_message refusal), st)
validated name (ok valid) st =
    if is_selected name st.selected
    then (ok tt, st)
    else picked name (find (λ d. same d.name name) st.distros) st

-- `setDistro` up to its refreshes.
unfoldable pub set_distro : Text → StoreState → Result Text (Unit {0}) × StoreState
unfolding select_internal recompute_warnings
set_distro name st = validated name (assert_valid_distro_name name) st

-- A probe's reply at `now`, which recomputes the warnings unless nothing changed.
unfoldable pub probed : Bool → ℕ → StoreState → StoreState
unfolding run_probe recompute_warnings
probed alive now st =
    let next = record st { probe = run_probe alive now st.probe } in
    if alive && not (ltb 0 st.probe.failures) then next else recompute_warnings next
