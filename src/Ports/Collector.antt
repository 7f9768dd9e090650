-- ===== src/Ports/Collector.antt =====
-- src/main/wsl/windows-ports.ts: createWindowsPortCollector, with its table of the last scan and the
-- names of processes. What `netstat` and `tasklist` print, or throw, is given; calls come one after the
-- other, since a call while another is on its way gets the answer of that one.
use wslpad.Base.{
  ℕ, ◌+◌, Bool, not, ◌&&◌, ◌||◌, Text, List, [], ◌∷◌, ◌++◌, Option, none, some, any, filter_map,
  is_empty, is_none, is_some, ltb, map, if◌then◌else◌, ◌==◌,
}
use wslpad.Base.Results.{Result, ok, err}
use wslpad.Ports.{WindowsPortInfo}
use wslpad.Ports.Windows.{Names, name_of, parse_netstat, parse_tasklist_csv}

-- The last scan and its time, `nameByPid` and `unnamedPids`.
pub record Collector : Type 0 where
  pub cached : Option (List WindowsPortInfo × ℕ)
  pub names : Names
  pub unnamed : List ℕ

abbrev pub is_unnamed : Collector → ℕ → Bool
is_unnamed st pid = any (λ p. p == pid) st.unnamed

abbrev pub is_settled : Collector → ℕ → Bool
is_settled st pid = is_some (name_of st.names pid) || is_unnamed st pid

abbrev renamed : Collector → Names → Collector
renamed st parsed =
    if is_empty parsed then st else record { cached = st.cached; names = parsed; unnamed = [] }

-- A failed tasklist leaves the names alone.
unfoldable pub refresh_names : Result Text Text → Collector → Collector
refresh_names (ok out) st = renamed st (parse_tasklist_csv out)
refresh_names (err message) st = st

unfoldable pub note_unnamed : List ℕ → Collector → Collector
unfolding name_of
note_unnamed [] st = st
note_unnamed (pid ∷ pids) st = note_unnamed pids (
    if is_none (name_of st.names pid) && not (is_unnamed st pid)
    then record { cached = st.cached; names = st.names; unnamed = st.unnamed ++ pid ∷ [] }
    else st)

abbrev pub pids_of : List WindowsPortInfo → List ℕ
pids_of ports = filter_map (λ p. p.pid) ports

abbrev pub needs_names : Collector → List ℕ → Bool
needs_names st pids = any (λ pid. not (is_settled st pid)) pids

unfoldable pub settle_names : Result Text Text → List ℕ → Collector → Collector
unfolding refresh_names note_unnamed
settle_names tasklist pids st =
    if needs_names st pids then note_unnamed pids (refresh_names tasklist st) else st

abbrev lookup_pid : Names → Option ℕ → Option Text
lookup_pid names none = none
lookup_pid names (some pid) = name_of names pid

abbrev pub with_name : Names → WindowsPortInfo → WindowsPortInfo
with_name names p = record p { process_name = lookup_pid names p.pid }

abbrev stored :
    ℕ → List WindowsPortInfo → Collector → Result Text (List WindowsPortInfo) × Collector
stored later ports st =
    (ok ports, record { cached = some (ports, later); names = st.names; unnamed = st.unnamed })

unfoldable pub scan :
    ℕ
    → Result Text Text
    → Result Text Text
    → Collector
    → Result Text (List WindowsPortInfo) × Collector
unfolding settle_names
scan later (err message) tasklist st = (err message, st)
scan later (ok out) tasklist st =
    let ports = parse_netstat out in
    let settled = settle_names tasklist (pids_of ports) st in
    stored later (map (with_name settled.names) ports) settled

abbrev collect_with :
    Option (List WindowsPortInfo × ℕ)
    → ℕ
    → ℕ
    → Result Text (List WindowsPortInfo) × Collector
    → Collector
    → Result Text (List WindowsPortInfo) × Collector
collect_with none ttl now scanned st = scanned
collect_with (some (ports, at)) ttl now scanned st =
    if ltb now (at + ttl) then (ok ports, st) else scanned

-- `collect` at `now`, where a scan would end at `later`.
unfoldable pub collect_windows :
    ℕ
    → ℕ
    → ℕ
    → Result Text Text
    → Result Text Text
    → Collector
    → Result Text (List WindowsPortInfo) × Collector
unfolding scan
collect_windows ttl now later netstat tasklist st =
    collect_with st.cached ttl now (scan later netstat tasklist st) st
