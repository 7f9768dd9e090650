-- ===== src/Store/Events.antt =====
-- What happens to the store of src/main/state/store.ts, in the order in which it happens: refreshes wait
-- for their collectors, and lists and choices come in between.
use wslpad.Base.{ℕ, ◌≡◌, Bool, Text, lit, List, [], ◌∷◌, Option, none, some, In}
use wslpad.Base.Results.{Result}
use wslpad.Ports.{WindowsPortInfo}
use wslpad.Snapshot.{DistroSummary}
use wslpad.Store.Selection.{
  StoreState, initial, recompute_warnings, note_failure, clear_failure, collect_list, initialize,
  set_distro, probed,
}
use wslpad.Store.Tiers.{Capture, capture, Collected, distro_details, apply, write_to, finish_fast}

-- What may happen to the store: a reply or a failure of `wsl --list`, at the start or later, a choice of
-- the user, the failure of a collector, a reply to a probe; a refresh takes hold of the sections, one of
-- its collectors answers, the table of Windows' listeners is read, a fast refresh ends; and the status
-- of the MCP server or the directory of the console changes.
pub data Event : Type 0 where
  starts : Result Text (List DistroSummary) → Event
  lists : Result Text (List DistroSummary) → Event
  picks : Text → Event
  fails : Text → Event
  probes : Bool → ℕ → Event
  begins : Event
  collects : Capture → Text → Collected → Event
  tables : List WindowsPortInfo → Event
  ends : Option Text → Option Capture → Event
  serves : Option Text → Event
  visits : Option Text → Event

unfoldable pub step : Event → StoreState → StoreState
step (starts list) st = initialize list st
step (lists list) st = collect_list list st
step (picks name) st = (set_distro name st).1
step (fails command) st = note_failure command st
step (probes alive now) st = probed alive now st
step begins st = st
step (collects c command v) st = clear_failure command (write_to c (apply v) st)
step (tables table) st =
    clear_failure (lit "netstat -ano") (record st { windows_port_table = some table })
step (ends mode c) st = finish_fast mode c st
step (serves error) st = recompute_warnings (record st { mcp_error = error })
step (visits cwd) st = record st { console_cwd = cwd }

abbrev pub add_capture : Option Capture → List Capture → List Capture
add_capture none cs = cs
add_capture (some c) cs = c ∷ cs

-- What refreshes have taken hold of.
unfoldable pub held_after : Event → StoreState → List Capture → List Capture
unfolding capture
held_after begins st cs = add_capture (capture st) cs
held_after _ st cs = cs

-- The details of a distribution carry the name they were asked for.
abbrev pub Concerns : Capture → Collected → Type 0
Concerns c (distro_details d) = d.name ≡ c.distro
Concerns c _ = Unit

-- Writes go to what a refresh has taken hold of.
abbrev pub IsPossible : List Capture → Event → Type 0
IsPossible cs (collects c command v) = In c cs × Concerns c v
IsPossible cs (ends mode (some c)) = In c cs
IsPossible cs _ = Unit

-- The states of the store that such events lead to, with what refreshes have taken hold of.
pub data Reaches : StoreState → List Capture → Type 0 where
  start : Reaches initial []
  next :
      (e : Event) {st : StoreState} {cs : List Capture}
      → IsPossible cs e
      → Reaches st cs
      → Reaches (step e st) (held_after e st cs)
