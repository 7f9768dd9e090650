-- ===== src/Tests/Ports.antt =====
-- Runs of the collectors of ports and of the verdicts on them.
use wslpad.Base.{
  arith, ◌≡◌, ◌≢◌, refl, true, false, lit, Text, read, List, [], ◌∷◌, none, some, map, any, ◌&&◌,
  same, split, split_last, split_spaces, span, starts_with, to_lower, to_upper, trim, is_space,
  join,
}
use wslpad.Base.Results.{ok, err}
use wslpad.Ports.{
  PortInfo, WindowsPortInfo, FirewallInfo, PortProxyRule, tcp, tcp6, unknown_reach, RuleVerdict,
}
use wslpad.Ports.Reach.{
  classify_reachability, normalize_networking_mode, inbound_policy, classify_bind_address, nat,
  unknown_mode,
}
use wslpad.Ports.Verdicts.{
  loopback_read, Facts, Fits, Settles, answer, widest, classify_reachability-Settles,
}
use wslpad.Ports.Listening.{parse_ss}
use wslpad.Ports.Windows.{parse_netstat, parse_tasklist_csv}
use wslpad.Ports.Correlate.{correlate_ports, bind_to, mark}
use wslpad.Ports.Joined.{owner, shares, correlate_ports_search}
use wslpad.Ports.Proxy.{parse_port_proxy, judge_rules, collect}
use wslpad.Ports.ProxyHistory.{Call, start, call, calls, latest_rules, latest_failure, collect-kept}

abbrev ss_text : List Text
ss_text =
    lit
      "tcp   LISTEN 0      511          127.0.0.1:3000      0.0.0.0:*    users:((\"node\",pid=812,fd=18))"
    ∷ lit "udp   UNCONN 0      0                [::]:68            [::]:*"
    ∷ lit "tcp   LISTEN 0      4096            0.0.0.0:99999      0.0.0.0:*"
    ∷ []

abbrev web : PortInfo
web = record {
  protocol = tcp;
  local_address = lit "127.0.0.1";
  port = 3000;
  pid = some 812;
  process_name = some (lit "node");
  listening = true;
  localhost_url = some (lit "http://localhost:3000");
  windows_bound = none;
  windows_process = none;
  reachability = unknown_reach;
  reachability_reason = none;
}

-- The row of a listener is read whole; a port out of range is not.
parse_ss_run : map (λ (p : PortInfo). p.port) (parse_ss (join (lit "\n") ss_text)) ≡ 3000 ∷ 68 ∷ []
unfolding parse_ss join lit split split_last split_spaces span starts_with trim same is_space read
parse_ss_run = refl

abbrev netstat_text : List Text
netstat_text =
    lit "  Proto  Lokale Adresse         Remoteadresse          Status           PID"
    ∷ lit "  TCP    127.0.0.1:3000         0.0.0.0:0              ABHÖREN         4212"
    ∷ lit "  TCP    [::]:8080              [::]:0                 LISTENING       4"
    ∷ lit "  TCP    10.0.0.2:50000         1.2.3.4:443            ESTABLISHED     900"
    ∷ lit "  UDP    0.0.0.0:5353           *:*                                    77"
    ∷ []

-- Words of the system's language do not matter; a connection that is open is no listener.
parse_netstat_run :
    (map (λ (w : WindowsPortInfo). w.port) (parse_netstat (join (lit "\n") netstat_text))
      ≡ 3000 ∷ 8080 ∷ 5353 ∷ [])
    × (map (λ (w : WindowsPortInfo). w.pid) (parse_netstat (join (lit "\n") netstat_text))
        ≡ some 4212 ∷ some 4 ∷ some 77 ∷ [])
unfolding parse_netstat join lit split split_last split_spaces span starts_with to_lower to_upper
    trim same is_space read
parse_netstat_run = (refl, refl)

parse_tasklist_csv_run :
    parse_tasklist_csv
      (lit "\"svchost.exe\",\"4\",\"Services\"\r\n\"wslrelay.exe\",\"4212\"\n\"x\",\"4\"")
    ≡ (4, lit "svchost.exe") ∷ (4212, lit "wslrelay.exe") ∷ []
unfolding parse_tasklist_csv lit split span starts_with trim same is_space read
parse_tasklist_csv_run = refl

abbrev relay : WindowsPortInfo
relay = record {
  protocol = tcp6;
  local_address = lit "[::1]";
  port = 3000;
  pid = some 4212;
  process_name = some (lit "wslrelay.exe");
  listening = true;
  localhost_url = none;
  from_wsl = false;
}

abbrev firewall : FirewallInfo
firewall = record {
  enabled = some true;
  default_inbound = some (lit "Block");
  default_outbound = none;
  loopback_enabled = some true;
  rule_count = none;
  failure = none;
}

abbrev forwarded : Facts
forwarded = record { forwards = true; lets_in = false; loopback_on = true }

is_nat : normalize_networking_mode (some (lit "NAT")) ≡ nat
unfolding normalize_networking_mode lit same to_lower trim is_space read
is_nat = refl

is_known : normalize_networking_mode (some (lit "NAT")) ≢ unknown_mode
is_known e = ground (arith, is_nat)

forwarded-Fits :
    Fits
      (bind_to web (some relay)).windows_bound
      (inbound_policy (some firewall))
      (loopback_read (some firewall))
      forwarded
unfolding inbound_policy loopback_read lit starts_with to_lower
forwarded-Fits = (refl, refl, refl)

classify_reachability-Settles_example :
    Settles
      (answer true (
        widest
          (normalize_networking_mode (some (lit "NAT")))
          (classify_bind_address (lit "127.0.0.1"))))
      (some true)
      (inbound_policy (some firewall))
      (loopback_read (some firewall))
      forwarded
      (classify_reachability
        (bind_to web (some relay))
        (some (lit "NAT"))
        (some firewall)).reachability
classify_reachability-Settles_example =
    classify_reachability-Settles (bind_to web (some relay)) (some (lit "NAT")) (some firewall)
      forwarded is_known forwarded-Fits

correlate_ports_search_example :
    ((correlate_ports (web ∷ []) (some (relay ∷ []))).ports
      ≡ bind_to web (owner tcp 3000 (relay ∷ [])) ∷ [])
    × ((correlate_ports (web ∷ []) (some (relay ∷ []))).windows_ports
        ≡ mark
            (any (λ (p : PortInfo). p.listening && shares tcp6 3000 p.protocol p.port) (web ∷ []))
            relay
          ∷ [])
correlate_ports_search_example = correlate_ports_search (web ∷ []) (relay ∷ [])

owner_run : owner tcp 3000 (relay ∷ []) ≡ some relay
owner_run = refl

abbrev netsh_text : List Text
netsh_text =
    lit "Listen on ipv4:             Connect to ipv4:"
    ∷ lit "Address         Port        Address         Port"
    ∷ lit "*               3000        172.20.1.5      3000"
    ∷ lit "0.0.0.0         8080        127.0.0.1       80\r"
    ∷ lit "0.0.0.0         0           127.0.0.1       80"
    ∷ []

parse_port_proxy_run :
    map
      (λ (r : PortProxyRule). r.verdict)
      (judge_rules (parse_port_proxy (join (lit "\n") netsh_text)) (some (lit "172.21.0.9")))
    ≡ RuleVerdict.stale ∷ RuleVerdict.elsewhere ∷ []
unfolding parse_port_proxy judge_rules join lit split split_spaces trim same is_space read
parse_port_proxy_run = refl

abbrev read_once : Call
read_once = record {
  now = 0;
  later = 1;
  answer = ok (join (lit "\n") netsh_text);
  distro_ip = none;
}

abbrev fails : Call
fails = record {
  now = 90000;
  later = 90002;
  answer = err (lit "exit");
  distro_ip = some (lit "172.20.1.5");
}

-- The rules of the first call are still there after the read that failed.
collect-kept_example :
    (collect 60000 90000 90002
      (err (lit "exit"))
      (some (lit "172.20.1.5"))
      (calls 60000 start (read_once ∷ [])).table).0
    ≡ record {
      rules =
          judge_rules
            (latest_rules (call 60000 (calls 60000 start (read_once ∷ [])) fails).answers)
            (some (lit "172.20.1.5"));
      distro_ip = some (lit "172.20.1.5");
      failure = latest_failure (call 60000 (calls 60000 start (read_once ∷ [])) fails).answers;
    }
collect-kept_example = collect-kept 60000 (read_once ∷ []) fails

kept_run :
    (call 60000 (calls 60000 start (read_once ∷ [])) fails).answers
    ≡ err (lit "exit") ∷ ok (join (lit "\n") netsh_text) ∷ []
unfolding call calls
kept_run = refl
