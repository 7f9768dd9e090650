-- ===== src/Ports/Listening.antt =====
-- src/main/wsl/ports.ts: the listeners of a distribution, read from what `ss -tulnpH` prints. The same
-- rows of the Windows side are in Ports/Windows.
use wslpad.Base.{
  ℕ, Bool, true, false, not, ◌&&◌, ◌||◌, Text, lit, List, [], ◌∷◌, ◌++◌, Option, none, some, drop,
  filter_map, has, is_digit, is_empty, is_number, leb, read, same, show, span, split, split_last,
  split_spaces, starts_with, trim, if◌then◌else◌, ◌==◌,
}
use wslpad.Ports.{PortInfo, PortProtocol, tcp, udp, tcp6, udp6, unknown_reach}

-- The two groups of `USERS_RE` at the start of a text that matches it there.
abbrev user_pid : Text → Text → Option (Text × ℕ)
user_pid name rest =
    let digits = (span is_digit (drop 6 rest)).0 in
    if starts_with rest (lit "\",pid=") && not (is_empty digits)
    then some (name, read digits)
    else none

abbrev user_here : Text → Option (Text × ℕ)
user_here s =
    let quoted = span (λ c. not (c == b'"')) (drop 9 s) in
    if starts_with s (lit "users:((\"") then user_pid quoted.0 quoted.1 else none

abbrev first_of : Option (Text × ℕ) → Option (Text × ℕ) → Option (Text × ℕ)
first_of (some a) later = some a
first_of none later = later

-- `USERS_RE.exec(line)`: the name and the process of the first owner.
unfoldable pub users : Text → Option (Text × ℕ)
users [] = none
users (c ∷ s) = first_of (user_here (c ∷ s)) (users s)

abbrev pub user_pid_of : Option (Text × ℕ) → Option ℕ
user_pid_of none = none
user_pid_of (some (name, pid)) = some pid

abbrev pub user_name_of : Option (Text × ℕ) → Option Text
user_name_of none = none
user_name_of (some (name, pid)) = if is_empty name then none else some name

abbrev pub protocol_of : Bool → Bool → PortProtocol
protocol_of true true = tcp6
protocol_of true false = tcp
protocol_of false true = udp6
protocol_of false false = udp

-- `http://localhost:${port}` for a port that looks like a web server's.
abbrev pub url_of : Bool → ℕ → Option Text
url_of clickable port =
    if clickable && leb 80 port then some (lit "http://localhost:" ++ show port) else none

abbrev socket : Bool → Text → Text → ℕ → Option (Text × ℕ) → PortInfo
socket is_tcp state local_address port owner =
    let listening = if is_tcp then same state (lit "LISTEN") else same state (lit "UNCONN") in
    record {
      protocol = protocol_of is_tcp (has b'[' local_address);
      local_address = local_address;
      port = port;
      pid = user_pid_of owner;
      process_name = user_name_of owner;
      listening = listening;
      localhost_url = url_of (listening && is_tcp) port;
      windows_bound = none;
      windows_process = none;
      reachability = unknown_reach;
      reachability_reason = none;
    }

-- The address and the port, split at the last colon, if both are there.
abbrev pub endpoint_of : Option (Text × Text) → Option (Text × ℕ)
endpoint_of none = none
endpoint_of (some ([], digits)) = none
endpoint_of (some (c ∷ host, digits)) =
    if is_number digits && leb (read digits) 65535 then some (c ∷ host, read digits) else none

abbrev at_endpoint : Bool → Text → Text → Option (Text × ℕ) → Option PortInfo
at_endpoint is_tcp state line none = none
at_endpoint is_tcp state line (some (local_address, port)) =
    some (socket is_tcp state local_address port (users line))

abbrev pub from_tokens : Text → List Text → Option PortInfo
from_tokens line (netid ∷ state ∷ receive ∷ send ∷ local ∷ peer ∷ rest) =
    if same netid (lit "tcp") || same netid (lit "udp")
    then at_endpoint (same netid (lit "tcp")) state line (endpoint_of (split_last b':' local))
    else none
from_tokens line _ = none

unfoldable pub from_line : Text → Option PortInfo
from_line line = if is_empty (trim line) then none else from_tokens line (split_spaces (trim line))

unfoldable pub parse_ss : Text → List PortInfo
unfolding from_line
parse_ss text = filter_map from_line (split 10 text)
