-- ===== src/Ports/Proxy.antt =====
-- src/main/wsl/portproxy.ts: the forwarding rules of Windows, their verdicts, and the collector that
-- keeps the last table for a while.
use wslpad.Base.{
  ◌+◌, ℕ, Bool, true, false, not, ◌&&◌, ◌||◌, ◌+◌, Text, lit, List, [], ◌∷◌, ◌++◌, Option, none,
  some, every, filter_map, is_digit, leb, length, ltb, map, read, same, select, show, split,
  split_spaces, take, trim, within, if◌then◌else◌, ◌==◌,
}
use wslpad.Base.Results.{Result, ok, err}
use wslpad.Ports.{PortProxyRule, PortProxyInfo, RuleVerdict, live, stale, elsewhere, unverified}

abbrev pub unreadable : Text
unreadable = lit "The Windows port forwarding table could not be read"

abbrev default_ttl_ms : ℕ
default_ttl_ms = 60000

abbrev is_octet : Text → Bool
is_octet t = within 1 3 (length t) && every is_digit t

-- `IPV4`.
abbrev is_quad : List Text → Bool
is_quad (a ∷ b ∷ c ∷ d ∷ []) = is_octet a && is_octet b && is_octet c && is_octet d
is_quad _ = false

unfoldable pub is_ipv4 : Text → Bool
is_ipv4 t = is_quad (split b'.' t)

unfoldable pub parse_port : Text → Option ℕ
parse_port t =
    if within 1 5 (length t) && every is_digit t && ltb 0 (read t) && leb (read t) 65535
    then some (read t)
    else none

abbrev rule_of : Text → Text → Option ℕ → Option ℕ → Option PortProxyRule
rule_of from to (some listen) (some connect) =
    if is_ipv4 from && is_ipv4 to
    then some (record {
      listen_address = from;
      listen_port = listen;
      connect_address = to;
      connect_port = connect;
      verdict = unverified;
    })
    else none
rule_of from to _ _ = none

-- A star listens on every address.
abbrev listen_of : Text → Text
listen_of cell = if same cell (lit "*") then lit "0.0.0.0" else cell

abbrev from_cells : List Text → Option PortProxyRule
from_cells (from ∷ listen ∷ to ∷ connect ∷ []) =
    rule_of (listen_of from) to (parse_port listen) (parse_port connect)
from_cells _ = none

unfoldable pub proxy_row : Text → Option PortProxyRule
unfolding is_ipv4 parse_port
proxy_row raw = from_cells (split_spaces (trim raw))

unfoldable pub parse_port_proxy : Text → List PortProxyRule
unfolding proxy_row
parse_port_proxy text = filter_map proxy_row (split 10 (select (λ c. not (c == 13)) text))

abbrev pub is_local_address : Text → Bool
is_local_address ip = same ip (lit "127.0.0.1") || same ip (lit "0.0.0.0")

abbrev pub verdict_of : Text → Option Text → RuleVerdict
verdict_of connect none = unverified
verdict_of connect (some ip) =
    if same connect ip then live else if is_local_address connect then elsewhere else stale

abbrev judged : Option Text → PortProxyRule → PortProxyRule
judged distro_ip rule = record rule { verdict = verdict_of rule.connect_address distro_ip }

unfoldable pub judge_rules : List PortProxyRule → Option Text → List PortProxyRule
judge_rules rules distro_ip = map (judged distro_ip) rules

unfoldable pub repair_command : PortProxyRule → Text → Text
repair_command rule distro_ip =
    lit "netsh interface portproxy set v4tov4 listenaddress="
    ++ (rule.listen_address
        ++ (lit " listenport="
            ++ (show rule.listen_port
                ++ (lit " connectaddress="
                    ++ (distro_ip ++ (lit " connectport=" ++ show rule.connect_port))))))

-- `cached`, when there was a read.
pub record ProxyTable : Type 0 where
  pub at : ℕ
  pub rules : List PortProxyRule
  pub failure : Option Text

abbrev pub rules_of : Option ProxyTable → List PortProxyRule
rules_of none = []
rules_of (some table) = table.rules

-- `now() - cached.at >= ttlMs`, where the clock may have gone back.
abbrev pub is_due : ℕ → ℕ → Option ProxyTable → Bool
is_due ttl now none = true
is_due ttl now (some table) = leb (table.at + ttl) now

-- What a read of the table leaves behind: netsh's text, or what it threw.
abbrev pub store_read : ℕ → Option ProxyTable → Result Text Text → ProxyTable
store_read now cached (ok out) = record { at = now; rules = parse_port_proxy out; failure = none }
store_read now cached (err message) = record {
  at = now;
  rules = rules_of cached;
  failure = some (take 400 (unreadable ++ (lit ": " ++ message)));
}

abbrev info_of : Option Text → ProxyTable → PortProxyInfo
info_of distro_ip table = record {
  rules = judge_rules table.rules distro_ip;
  distro_ip = distro_ip;
  failure = table.failure;
}

-- The table after a call at `now`: `answer` is what a run of netsh would give and `later` the time
-- when it ended, of which only a due call knows.
abbrev pub table_at : ℕ → ℕ → ℕ → Result Text Text → Option ProxyTable → ProxyTable
table_at ttl now later answer none = store_read later none answer
table_at ttl now later answer (some table) =
    if is_due ttl now (some table) then store_read later (some table) answer else table

unfoldable pub collect :
    ℕ → ℕ → ℕ → Result Text Text → Option Text → Option ProxyTable → PortProxyInfo × ProxyTable
unfolding judge_rules
collect ttl now later answer distro_ip cached =
    let table = table_at ttl now later answer cached in (info_of distro_ip table, table)
