-- ===== src/Ports/Reach.antt =====
-- src/main/wsl/reachability.ts: how far a listener carries, from where it is bound, the mode of the
-- network and the firewall.
use wslpad.Base.{
  ends_line, Bool, true, false, not, ◌&&◌, ◌||◌, Text, lit, List, [], ◌∷◌, ◌++◌, Option, none, some,
  drop, one_of, or_else, same, starts_with, to_lower, trim, split, is_number, is_empty, any, show,
  map, if◌then◌else◌, ◌==◌,
}
use wslpad.Ports.{
  PortReachability, windows_only, lan, loopback_only, unreachable, unknown_reach, PortInfo,
  FirewallInfo,
}

pub record ReachabilityVerdict : Type 0 where
  pub reachability : PortReachability
  pub reason : Option Text

pub data BindScope : Type 0 where
  loopback wildcard address : BindScope

pub data NetworkingMode : Type 0 where
  nat mirrored unknown_mode : NetworkingMode

pub data InboundPolicy : Type 0 where
  blocked allowed unknown_policy : InboundPolicy

-- `127.\d+.\d+.\d+`.
abbrev is_127 : List Text → Bool
is_127 (a ∷ b ∷ c ∷ d ∷ []) = same a (lit "127") && is_number b && is_number c && is_number d
is_127 _ = false

-- `LOOPBACK_RE`.
unfoldable matches_loopback : Text → Bool
matches_loopback host =
    is_127 (split b'.' host)
    || same host (lit "::1")
    || (starts_with (to_lower host) (lit "::ffff:") && is_127 (split b'.' (drop 7 host)))

abbrev wildcards : List Text
wildcards = lit "0.0.0.0" ∷ lit "::" ∷ lit "*" ∷ [] ∷ lit "::ffff:0.0.0.0" ∷ []

abbrev drop_open : Text → Text
drop_open [] = []
drop_open (c ∷ s) = if c == b'[' then s else c ∷ s

-- `replace(/\]$/, '')`.
unfoldable drop_close : Text → Text
drop_close [] = []
drop_close (c ∷ s) = let rest = drop_close s in if c == b']' && is_empty s then [] else c ∷ rest

-- `replace(/%.*$/, '')`, in which the dot stands for all but the ends of lines.
unfoldable drop_zone : Text → Text
drop_zone [] = []
drop_zone (c ∷ s) =
    let rest = drop_zone s in if c == b'%' && not (any ends_line s) then [] else c ∷ rest

unfoldable pub classify_bind_address : Text → BindScope
unfolding matches_loopback drop_close drop_zone
classify_bind_address a =
    let host = drop_zone (drop_close (drop_open (trim a))) in
    if one_of host wildcards then wildcard else if matches_loopback host then loopback else address

unfoldable pub normalize_networking_mode : Option Text → NetworkingMode
normalize_networking_mode mode =
    let value = to_lower (trim (or_else mode [])) in
    if same value (lit "nat")
    then nat
    else if same value (lit "mirrored")
    then mirrored
    else unknown_mode

abbrev policy_of : Option Bool → Text → InboundPolicy
policy_of (some false) action = allowed
policy_of none action = unknown_policy
policy_of (some true) action =
    if starts_with (to_lower action) (lit "block")
    then blocked
    else if starts_with (to_lower action) (lit "allow")
    then allowed
    else unknown_policy

unfoldable pub inbound_policy : Option FirewallInfo → InboundPolicy
inbound_policy none = unknown_policy
inbound_policy (some firewall) = policy_of firewall.enabled (or_else firewall.default_inbound [])

abbrev pub verdict_for : PortReachability → Text → ReachabilityVerdict
verdict_for reachability reason = record { reachability = reachability; reason = some reason }

abbrev mode_unknown : Text
mode_unknown =
    lit
      "The effective WSL networking mode could not be read, so how far this port carries is unknown."

abbrev firewall_unknown : Text
firewall_unknown =
    lit "The Hyper-V firewall state could not be read, so whether inbound traffic reaches the "
    ++ lit "distribution is unknown."

abbrev windows_table_unknown : Text
windows_table_unknown =
    lit
      "The Windows listener table could not be read, so whether Windows forwards this port is unknown."

abbrev pub is_switched_off : Option Bool → Bool
is_switched_off (some false) = true
is_switched_off _ = false

-- `firewall?.loopbackEnabled === false`.
unfoldable pub loopback_off : Option FirewallInfo → Bool
loopback_off none = false
loopback_off (some firewall) = is_switched_off firewall.loopback_enabled

abbrev bound_text : PortInfo → Text → Text
bound_text port rest = lit "Bound to " ++ (port.local_address ++ rest)

abbrev port_text : Text → PortInfo → Text → Text
port_text before port after = before ++ (show port.port ++ after)

unfoldable pub judge_mirrored : PortInfo → BindScope → Bool → InboundPolicy → ReachabilityVerdict
judge_mirrored port loopback true inbound = verdict_for loopback_only (
    bound_text port (
      lit " inside the distribution, and the Hyper-V firewall has loopback traffic to the WSL "
      ++ lit "virtual machine turned off, so not even this PC can connect."))
judge_mirrored port loopback false inbound = verdict_for windows_only (
    lit "Mirrored networking shares the host loopback, so this PC reaches it on localhost; a "
    ++ lit "loopback address is never visible from the network.")
judge_mirrored port _ off allowed = verdict_for lan (
    lit "Mirrored networking puts it straight on the host network interfaces and the Hyper-V "
    ++ lit "firewall allows inbound traffic, so other machines can reach it.")
judge_mirrored port _ true blocked = verdict_for loopback_only (
    lit "The Hyper-V firewall blocks inbound traffic to the WSL virtual machine and loopback "
    ++ lit "traffic is turned off too, so only processes inside the distribution can connect.")
judge_mirrored port _ false blocked = verdict_for windows_only (
    port_text
      (lit "Mirrored networking puts it on the host network interfaces, but the Hyper-V firewall "
        ++ lit "blocks inbound traffic by default, so only this PC reaches port ")
      port (lit "."))
judge_mirrored port _ off unknown_policy = verdict_for unknown_reach firewall_unknown

unfoldable pub mirrored_verdict : PortInfo → BindScope → Option FirewallInfo → ReachabilityVerdict
unfolding judge_mirrored
mirrored_verdict port scope firewall =
    judge_mirrored port scope (loopback_off firewall) (inbound_policy firewall)

unfoldable pub judge_nat : PortInfo → BindScope → Option Bool → InboundPolicy → ReachabilityVerdict
judge_nat port loopback none inbound = verdict_for unknown_reach windows_table_unknown
judge_nat port loopback (some true) inbound = verdict_for windows_only (
    bound_text port (
      lit " inside the distribution; WSL localhost forwarding carries it to this PC, and NAT "
      ++ lit "never exposes it to other machines."))
judge_nat port loopback (some false) inbound = verdict_for loopback_only (
    bound_text port (
      port_text (lit " inside the distribution and nothing on the Windows side forwards port ") port
        (lit ", so only processes inside it can connect.")))
judge_nat port address bound blocked = verdict_for loopback_only (
    bound_text port (
      lit ", an address on the WSL NAT network, and the Hyper-V firewall blocks inbound traffic "
      ++ lit "to the virtual machine."))
judge_nat port address bound allowed = verdict_for windows_only (
    bound_text port (
      lit ", an address on the WSL NAT network: this PC can reach it there, other machines have "
      ++ lit "no route to it."))
judge_nat port address bound unknown_policy = verdict_for unknown_reach firewall_unknown
judge_nat port wildcard none inbound = verdict_for unknown_reach windows_table_unknown
judge_nat port wildcard (some true) allowed = verdict_for lan (
    port_text (lit "Windows forwards port ") port (
      lit
        " and the Hyper-V firewall allows inbound traffic, so other machines on the network can reach it."))
judge_nat port wildcard (some true) blocked = verdict_for windows_only (
    port_text (lit "Windows forwards port ") port (
      lit " to this PC, but the Hyper-V firewall blocks inbound traffic by default, so other "
      ++ lit "machines are dropped unless a rule opens it."))
judge_nat port wildcard (some false) blocked = verdict_for loopback_only (
    port_text
      (lit
        "Listening on every interface inside the distribution, but nothing on the Windows side forwards port ")
      port (lit " and the Hyper-V firewall blocks inbound traffic to it."))
judge_nat port wildcard (some false) allowed = verdict_for windows_only (
    port_text (lit "Nothing forwards port ") port (
      lit " to localhost, but this PC can still reach it on the distribution's own NAT address, "
      ++ lit "which other machines cannot route to."))
judge_nat port wildcard (some b) unknown_policy = verdict_for unknown_reach firewall_unknown

unfoldable pub nat_verdict : PortInfo → BindScope → Option FirewallInfo → ReachabilityVerdict
unfolding judge_nat
nat_verdict port scope firewall = judge_nat port scope port.windows_bound (inbound_policy firewall)

abbrev pub judge_mode :
    NetworkingMode → PortInfo → BindScope → Option FirewallInfo → ReachabilityVerdict
judge_mode unknown_mode port scope firewall = verdict_for unknown_reach mode_unknown
judge_mode mirrored port scope firewall = mirrored_verdict port scope firewall
judge_mode nat port scope firewall = nat_verdict port scope firewall

unfoldable pub classify_reachability :
    PortInfo → Option Text → Option FirewallInfo → ReachabilityVerdict
classify_reachability port mode firewall =
    if not port.listening
    then verdict_for unreachable
        (lit "The socket is not accepting connections, so nothing can reach it.")
    else judge_mode (normalize_networking_mode mode) port (classify_bind_address port.local_address)
        firewall

abbrev stamp : PortInfo → ReachabilityVerdict → PortInfo
stamp port verdict = record port {
  reachability = verdict.reachability;
  reachability_reason = verdict.reason;
}

unfoldable pub apply_reachability :
    List PortInfo → Option Text → Option FirewallInfo → List PortInfo
unfolding classify_reachability
apply_reachability ports mode firewall =
    map (λ port. stamp port (classify_reachability port mode firewall)) ports
