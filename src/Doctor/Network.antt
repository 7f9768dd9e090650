-- ===== src/Doctor/Network.antt =====
-- src/shared/doctor.ts: the checks of DNS and of ports behind the firewall.
use wslpad.Base.{
  Bool, true, false, not, ◌&&◌, ◌||◌, Text, lit, List, [], ◌∷◌, ◌++◌, Option, none, some, select,
  length, one_of, join, show, map, is_empty, is_none, or_else, if◌then◌else◌,
}
use wslpad.Doctor.{
  DoctorVerdict, healthy, warning, error, unknown, DoctorCheckResult, DnsInfo, DashboardSnapshot,
  truthy,
}
use wslpad.Ports.{FirewallInfo, PortInfo, unreachable, loopback_only}

abbrev dns_result : DoctorVerdict → Text → DoctorCheckResult
dns_result verdict evidence = record {
  id = lit "dns-config";
  title = lit "DNS/resolv.conf consistency";
  verdict = verdict;
  evidence = evidence;
  command = none;
}

-- `flag === false` and `flag` itself.
abbrev pub is_off : Option Bool → Bool
is_off none = false
is_off (some b) = not b

abbrev pub is_on : Option Bool → Bool
is_on none = false
is_on (some b) = b

abbrev pub strangers : DnsInfo → List Text
strangers dns = select (λ ns. not (one_of ns dns.windows_adapter_dns)) dns.nameservers

abbrev stale_problem : DnsInfo → Text
stale_problem dns =
    lit "resolv.conf nameservers ["
    ++ (join (lit ", ") dns.nameservers
        ++ (lit "] differ from Windows adapter DNS ["
            ++ (join (lit ", ") dns.windows_adapter_dns
                ++ lit "] — manual resolv.conf may be stale")))

unfoldable pub dns_problems : DnsInfo → List Text
dns_problems dns =
    if not (is_off dns.generate_resolv_conf && is_off dns.is_generated_symlink)
    then []
    else if is_empty dns.nameservers
    then lit "/etc/resolv.conf has no nameservers (generateResolvConf=false, manual file)" ∷ []
    else if is_empty dns.windows_adapter_dns
    then []
    else if is_empty (strangers dns)
    then []
    else stale_problem dns ∷ []

abbrev dns_mode : DnsInfo → Text
dns_mode dns =
    if is_on dns.dns_tunneling
    then lit "DNS tunneling enabled"
    else if is_on dns.generate_resolv_conf
    then lit "WSL-generated"
    else lit "manual"

abbrev pub is_incomplete : DnsInfo → Bool
is_incomplete dns =
    is_none dns.is_generated_symlink
    || is_none dns.generate_resolv_conf
    || is_none dns.dns_tunneling

unfoldable pub judge_dns : DnsInfo → DoctorCheckResult
unfolding dns_problems
judge_dns dns =
    if truthy dns.failure
    then dns_result error (lit "DNS collector error: " ++ or_else dns.failure [])
    else if is_incomplete dns
    then dns_result unknown
        (lit "DNS was collected, but resolver generation/tunneling state is incomplete.")
    else if is_empty (dns_problems dns)
    then dns_result healthy (
        lit "DNS is "
        ++ (dns_mode dns
            ++ (lit " with " ++ (show (length dns.nameservers) ++ lit " nameserver(s)."))))
    else dns_result warning (join (lit ". ") (dns_problems dns) ++ lit ".")

abbrev pub judge_resolver : Option DnsInfo → DoctorCheckResult
judge_resolver none = dns_result unknown (lit "DNS configuration was not collected.")
judge_resolver (some dns) = judge_dns dns

unfoldable pub check_dns : DashboardSnapshot → DoctorCheckResult
unfolding judge_dns
check_dns dash = judge_resolver dash.dns

abbrev firewall_result : DoctorVerdict → Text → DoctorCheckResult
firewall_result verdict evidence = record {
  id = lit "port-firewall";
  title = lit "Port/firewall reachability";
  verdict = verdict;
  evidence = evidence;
  command = none;
}

abbrev is_unreachable : PortInfo → Bool
is_unreachable p = elim p.reachability [ unreachable ↦ true | _ ↦ false ]

abbrev is_loopback_only : PortInfo → Bool
is_loopback_only p = elim p.reachability [ loopback_only ↦ true | _ ↦ false ]

abbrev firewall_state : FirewallInfo → Text
firewall_state firewall = elim firewall.enabled [
  | none ↦ lit "state unknown"
  | some on ↦ if on then lit "enabled" else lit "disabled"
]

abbrev inbound : FirewallInfo → Text
inbound firewall = or_else firewall.default_inbound (lit "unknown")

abbrev firewall_text : FirewallInfo → Text
firewall_text firewall =
    lit "Firewall "
    ++ (firewall_state firewall ++ (lit ", default inbound: " ++ (inbound firewall ++ lit ".")))

abbrev incomplete_text : FirewallInfo → Text
incomplete_text firewall =
    if truthy firewall.failure
    then lit "Firewall collector error: " ++ or_else firewall.failure []
    else lit "Firewall state is incomplete ("
      ++ (firewall_state firewall ++ (lit ", default inbound: " ++ (inbound firewall ++ lit ").")))

unfoldable pub judge_firewall : FirewallInfo → List PortInfo → DoctorCheckResult
judge_firewall firewall listening =
    let blocked = select is_unreachable listening in
    let local = select is_loopback_only listening in
    if not (is_empty blocked)
    then firewall_result error (
        show (length blocked)
        ++ (lit " port(s) unreachable: "
            ++ (join (lit ", ") (map (λ p. show p.port) blocked)
                ++ (lit ". " ++ firewall_text firewall))))
    else if not (is_empty local)
    then firewall_result warning (
        show (length local)
        ++ (lit " port(s) reachable only from loopback. " ++ firewall_text firewall))
    else if truthy firewall.failure || is_none firewall.enabled || is_none firewall.default_inbound
    then firewall_result unknown (incomplete_text firewall)
    else firewall_result healthy (
        firewall_text firewall
        ++ (lit " " ++ (show (length listening) ++ lit " listening port(s), none unreachable.")))

abbrev no_firewall : List PortInfo → DoctorCheckResult
no_firewall listening = firewall_result unknown (
    if is_empty listening
    then lit "No listening ports and firewall state was not collected."
    else show (length listening)
      ++ lit " listening port(s) detected but firewall state was not collected.")

abbrev pub judge_ports : Option FirewallInfo → List PortInfo → DoctorCheckResult
judge_ports none listening = no_firewall listening
judge_ports (some firewall) listening = judge_firewall firewall listening

unfoldable pub check_port_firewall : DashboardSnapshot → DoctorCheckResult
unfolding judge_firewall
check_port_firewall dash = judge_ports dash.firewall (select (λ p. p.listening) dash.ports)
