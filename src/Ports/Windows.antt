-- ===== src/Ports/Windows.antt =====
-- src/main/wsl/windows-ports.ts: the listeners of the Windows side, read from what `netstat -ano` and
-- `tasklist` print.
use wslpad.Base.{
  ends_line, ℕ, Bool, true, false, not, ◌&&◌, ◌||◌, Text, lit, List, [], ◌∷◌, ◌++◌, Option, none,
  some, is_some, drop, filter_map, find, is_digit, is_empty, is_none, is_number, leb, last?,
  or_else, read, same, span, split, split_last, split_spaces, starts_with, to_lower, to_upper, trim,
  if◌then◌else◌, ◌==◌,
}
use wslpad.Ports.{WindowsPortInfo}
use wslpad.Ports.Listening.{protocol_of, url_of, endpoint_of}

pub record Endpoint : Type 0 where
  pub host : Text
  pub port : ℕ
  pub v6 : Bool

-- `/^\[(.*)\]:(\d+)$/` from the last closing bracket on: what follows it is a colon and the port.
abbrev bracket_port : Text → Option Text
bracket_port [] = none
bracket_port (c ∷ digits) = if c == b':' && is_number digits then some digits else none

abbrev bracket_groups : Option (Text × Text) → Option (Text × Text)
bracket_groups none = none
bracket_groups (some (host, rest)) = elim (bracket_port rest) [
  | none ↦ none
  | some digits ↦ if is_some (find ends_line host) then none else some (host, digits)
]

abbrev bracketed : Text → Option (Text × Text)
bracketed [] = none
bracketed (c ∷ s) = if c == b'[' then bracket_groups (split_last b']' s) else none

abbrev plain_endpoint : Option (Text × ℕ) → Option Endpoint
plain_endpoint none = none
plain_endpoint (some (host, port)) = some (record { host = host; port = port; v6 = false })

abbrev judge_bracket : Text → Option (Text × Text) → Option Endpoint
judge_bracket text (some (host, digits)) =
    if leb (read digits) 65535
    then some (record { host = b'[' ∷ host ++ lit "]"; port = read digits; v6 = true })
    else none
judge_bracket text none = plain_endpoint (endpoint_of (split_last b':' text))

unfoldable pub parse_endpoint : Text → Option Endpoint
parse_endpoint text = judge_bracket text (bracketed text)

-- `foreign.endsWith(':*')`.
unfoldable ends_with_any : Text → Bool
ends_with_any [] = false
ends_with_any (c ∷ s) = same (c ∷ s) (lit ":*") || ends_with_any s

abbrev peerless : Text → Option Endpoint → Bool
peerless peer none = ends_with_any peer
peerless peer (some ep) = ep.port == 0

-- A listening socket has no peer.
unfoldable pub has_no_peer : Text → Bool
unfolding parse_endpoint ends_with_any
has_no_peer peer = peerless peer (parse_endpoint peer)

-- The state column, which a row of UDP does not have.
abbrev state_of : Bool → List Text → Option Text
state_of true (state ∷ pid ∷ rest) = some state
state_of _ _ = none

abbrev row_pid : List Text → Option ℕ
row_pid [] = none
row_pid (t ∷ ts) =
    let last = or_else (last? (t ∷ ts)) [] in if is_number last then some (read last) else none

abbrev row : Bool → Text → List Text → Option Endpoint → Option WindowsPortInfo
row is_tcp peer rest none = none
row is_tcp peer rest (some local) =
    if is_tcp
      && not (starts_with (to_lower (or_else (state_of is_tcp rest) [])) (lit "listen"))
      && not (has_no_peer peer)
    then none
    else some (record {
      protocol = protocol_of is_tcp local.v6;
      local_address = local.host;
      port = local.port;
      pid = row_pid rest;
      process_name = none;
      listening = true;
      localhost_url = url_of is_tcp local.port;
      from_wsl = false;
    })

abbrev pub from_columns : List Text → Option WindowsPortInfo
from_columns (proto ∷ local ∷ peer ∷ rest) =
    if same (to_upper proto) (lit "TCP") || same (to_upper proto) (lit "UDP")
    then row (same (to_upper proto) (lit "TCP")) peer rest (parse_endpoint local)
    else none
from_columns _ = none

unfoldable pub from_row : Text → Option WindowsPortInfo
unfolding parse_endpoint has_no_peer
from_row raw = if is_empty (trim raw) then none else from_columns (split_spaces (trim raw))

unfoldable pub parse_netstat : Text → List WindowsPortInfo
unfolding from_row
parse_netstat text = filter_map from_row (split 10 text)

-- `TASKLIST_ROW_RE`: the name and the process of a row.
abbrev task_pid : Text → Text → Option (ℕ × Text)
task_pid name rest =
    let digits = span is_digit (drop 3 rest) in
    if starts_with rest (lit "\",\"")
      && not (is_empty digits.0)
      && starts_with digits.1 (lit "\"")
      && not (is_empty name)
    then some (read digits.0, name)
    else none

abbrev task_row : Text → Option (ℕ × Text)
task_row [] = none
task_row (c ∷ s) =
    let name = span (λ d. not (d == b'"')) s in if c == b'"' then task_pid name.0 name.1 else none

-- `nameByPid`, a map from processes to names as a list of pairs in the order of insertion.
abbrev pub Names : Type 0
Names = List (ℕ × Text)

unfoldable pub name_of : Names → ℕ → Option Text
name_of [] pid = none
name_of ((p, name) ∷ names) pid = if p == pid then some name else name_of names pid

abbrev add_task : Names → Option (ℕ × Text) → Names
add_task names none = names
add_task names (some (pid, name)) =
    if is_none (name_of names pid) then names ++ (pid, name) ∷ [] else names

unfoldable add_tasks : Names → List Text → Names
unfolding name_of
add_tasks names [] = names
add_tasks names (raw ∷ rows) = add_tasks (add_task names (task_row (trim raw))) rows

unfoldable pub parse_tasklist_csv : Text → Names
unfolding add_tasks
parse_tasklist_csv text = add_tasks [] (split 10 text)
