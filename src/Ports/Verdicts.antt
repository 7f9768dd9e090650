-- ===== src/Ports/Verdicts.antt =====
-- The verdict of src/main/wsl/reachability.ts against the facts of the network: who can open a port
-- when everything is known, and what is left open when something could not be read.
use wslpad.Base.{
  arith, lit, ◌≡◌, ◌≢◌, refl, Bool, true, false, not, ◌&&◌, ◌||◌, Text, Option, none, some,
  if◌then◌else◌,
}
use wslpad.Ports.{
  PortReachability, windows_only, lan, loopback_only, unreachable, unknown_reach, PortInfo,
  FirewallInfo,
}
use wslpad.Ports.Reach.{
  BindScope, loopback, wildcard, address, NetworkingMode, nat, mirrored, unknown_mode,
  InboundPolicy, blocked, allowed, unknown_policy, classify_bind_address, normalize_networking_mode,
  inbound_policy, loopback_off, is_switched_off, judge_mirrored, judge_nat, judge_mode,
  ReachabilityVerdict, verdict_for, mirrored_verdict, nat_verdict, classify_reachability,
}

-- What decides who reaches a socket of the distribution: whether Windows forwards its port, and what
-- the firewall does with traffic from outside and with that of the host's loopback.
pub record Facts : Type 0 where
  pub forwards : Bool
  pub lets_in : Bool
  pub loopback_on : Bool

-- Whether another machine of the network can open the socket.
abbrev pub from_network : NetworkingMode → BindScope → Facts → Bool
from_network mirrored loopback f = false
from_network mirrored _ f = f.lets_in
from_network _ wildcard f = f.forwards && f.lets_in
from_network _ _ f = false

-- Whether the Windows host can.
abbrev pub from_host : NetworkingMode → BindScope → Facts → Bool
from_host mirrored loopback f = f.loopback_on
from_host mirrored _ f = f.lets_in || f.loopback_on
from_host _ loopback f = f.forwards
from_host _ address f = f.lets_in
from_host _ wildcard f = f.forwards || f.lets_in

-- The widest answer.
abbrev pub widest : NetworkingMode → BindScope → Facts → PortReachability
widest mode scope f =
    if from_network mode scope f
    then lan
    else if from_host mode scope f
    then windows_only
    else loopback_only

-- The answer for a socket that may not be listening.
abbrev pub answer : Bool → (Facts → PortReachability) → Facts → PortReachability
answer true wide f = wide f
answer false wide f = unreachable

-- A fact agrees with what was read of it, if anything was.
abbrev pub Agrees : Option Bool → Bool → Type 0
Agrees none b = Unit
Agrees (some a) b = a ≡ b

abbrev pub policy_read : InboundPolicy → Option Bool
policy_read blocked = some false
policy_read allowed = some true
policy_read unknown_policy = none

-- What was read of the loopback of the host.
abbrev pub loopback_read : Option FirewallInfo → Option Bool
loopback_read none = none
loopback_read (some firewall) = firewall.loopback_enabled

-- The facts agree with the table of Windows' listeners and with the firewall, where they were read.
abbrev pub Fits : Option Bool → InboundPolicy → Option Bool → Facts → Type 0
Fits bound inbound lo f =
    Agrees bound f.forwards × Agrees (policy_read inbound) f.lets_in × Agrees lo f.loopback_on

-- A verdict is the answer of the facts; or it is unknown, and other facts that fit as well have another
-- answer; or it is wider than the answer, since the loopback was not read and is off.
pub data Settles (wide : Facts → PortReachability) (bound : Option Bool) (inbound : InboundPolicy)
    (lo : Option Bool) (f : Facts) : PortReachability → Type 0 where
  right : {v : PortReachability} → v ≡ wide f → Settles wide bound inbound lo f v
  open_question :
      (g : Facts)
      → Fits bound inbound lo g
      → wide g ≢ wide f
      → Settles wide bound inbound lo f unknown_reach
  assumed :
      lo ≡ none
      → f.loopback_on ≡ false
      → wide f ≡ loopback_only
      → wide (record f { loopback_on = true }) ≡ windows_only
      → Settles wide bound inbound lo f windows_only

abbrev facts : Bool → Bool → Bool → Facts
facts w i l = record { forwards = w; lets_in = i; loopback_on = l }

judge_mirrored-Settles :
    (port : PortInfo) (scope : BindScope) (bound : Option Bool) (inbound : InboundPolicy)
    (lo : Option Bool) (w i l : Bool)
    → Fits bound inbound lo (facts w i l)
    → Settles
        (widest mirrored scope)
        bound
        inbound
        lo
        (facts w i l)
        (judge_mirrored port scope (is_switched_off lo) inbound).reachability
unfolding judge_mirrored
judge_mirrored-Settles port loopback bound inbound (some true) w i l (_, _, e) =
    right (ground arith)
judge_mirrored-Settles port loopback bound inbound (some false) w i l (_, _, e) =
    right (ground arith)
judge_mirrored-Settles port loopback bound inbound none w i true h = right refl
judge_mirrored-Settles port loopback bound inbound none w i false h = assumed refl refl refl refl
judge_mirrored-Settles port wildcard bound allowed (some true) w i l (_, k, e) =
    right (ground arith)
judge_mirrored-Settles port wildcard bound allowed (some false) w i l (_, k, e) =
    right (ground arith)
judge_mirrored-Settles port wildcard bound allowed none w i l (_, k, e) = right (ground arith)
judge_mirrored-Settles port address bound allowed (some true) w i l (_, k, e) = right (ground arith)
judge_mirrored-Settles port address bound allowed (some false) w i l (_, k, e) =
    right (ground arith)
judge_mirrored-Settles port address bound allowed none w i l (_, k, e) = right (ground arith)
judge_mirrored-Settles port wildcard bound blocked (some true) w i l (_, k, e) =
    right (ground arith)
judge_mirrored-Settles port wildcard bound blocked (some false) w i l (_, k, e) =
    right (ground arith)
judge_mirrored-Settles port wildcard bound blocked none w i true (_, k, e) = right (ground arith)
judge_mirrored-Settles port wildcard bound blocked none w i false (_, k, e) =
    assumed refl refl (ground arith) (ground arith)
judge_mirrored-Settles port address bound blocked (some true) w i l (_, k, e) = right (ground arith)
judge_mirrored-Settles port address bound blocked (some false) w i l (_, k, e) =
    right (ground arith)
judge_mirrored-Settles port address bound blocked none w i true (_, k, e) = right (ground arith)
judge_mirrored-Settles port address bound blocked none w i false (_, k, e) =
    assumed refl refl (ground arith) (ground arith)
judge_mirrored-Settles port wildcard bound unknown_policy (some true) w i l (h, _, e) =
    open_question (facts w (not i) l) (h, tt, e) (ground arith)
judge_mirrored-Settles port wildcard bound unknown_policy (some false) w i l (h, _, e) =
    open_question (facts w (not i) l) (h, tt, e) (ground arith)
judge_mirrored-Settles port wildcard bound unknown_policy none w i l (h, _, e) =
    open_question (facts w (not i) l) (h, tt, e) (ground arith)
judge_mirrored-Settles port address bound unknown_policy (some true) w i l (h, _, e) =
    open_question (facts w (not i) l) (h, tt, e) (ground arith)
judge_mirrored-Settles port address bound unknown_policy (some false) w i l (h, _, e) =
    open_question (facts w (not i) l) (h, tt, e) (ground arith)
judge_mirrored-Settles port address bound unknown_policy none w i l (h, _, e) =
    open_question (facts w (not i) l) (h, tt, e) (ground arith)

judge_nat-Settles :
    (port : PortInfo) (scope : BindScope) (bound : Option Bool) (inbound : InboundPolicy)
    (lo : Option Bool) (w i l : Bool)
    → Fits bound inbound lo (facts w i l)
    → Settles
        (widest nat scope)
        bound
        inbound
        lo
        (facts w i l)
        (judge_nat port scope bound inbound).reachability
unfolding judge_nat
judge_nat-Settles port loopback none inbound lo w i l (_, k, e) =
    open_question (facts (not w) i l) (tt, k, e) (ground arith)
judge_nat-Settles port loopback (some true) inbound lo w i l (h, k, e) = right (ground arith)
judge_nat-Settles port loopback (some false) inbound lo w i l (h, k, e) = right (ground arith)
judge_nat-Settles port address bound blocked lo w i l (h, k, e) = right (ground arith)
judge_nat-Settles port address bound allowed lo w i l (h, k, e) = right (ground arith)
judge_nat-Settles port address bound unknown_policy lo w i l (h, _, e) =
    open_question (facts w (not i) l) (h, tt, e) (ground arith)
judge_nat-Settles port wildcard none inbound lo w i l (_, k, e) =
    open_question (facts (not w) i l) (tt, k, e) (ground arith)
judge_nat-Settles port wildcard (some true) allowed lo w i l (h, k, e) = right (ground arith)
judge_nat-Settles port wildcard (some true) blocked lo w i l (h, k, e) = right (ground arith)
judge_nat-Settles port wildcard (some false) allowed lo w i l (h, k, e) = right (ground arith)
judge_nat-Settles port wildcard (some false) blocked lo w i l (h, k, e) = right (ground arith)
judge_nat-Settles port wildcard (some true) unknown_policy lo w i l (h, _, e) =
    open_question (facts w (not i) l) (h, tt, e) (ground arith)
judge_nat-Settles port wildcard (some false) unknown_policy lo w i l (h, _, e) =
    open_question (facts w (not i) l) (h, tt, e) (ground arith)

loopback_off-read :
    (firewall : Option FirewallInfo)
    → loopback_off firewall ≡ is_switched_off (loopback_read firewall)
unfolding loopback_off
loopback_off-read none = refl
loopback_off-read (some firewall) = refl

judge_mode-Settles :
    (mode : NetworkingMode) (port : PortInfo) (scope : BindScope) (firewall : Option FirewallInfo)
    (f : Facts)
    → mode ≢ unknown_mode
    → Fits port.windows_bound (inbound_policy firewall) (loopback_read firewall) f
    → Settles
        (widest mode scope)
        port.windows_bound
        (inbound_policy firewall)
        (loopback_read firewall)
        f
        (judge_mode mode port scope firewall).reachability
unfolding mirrored_verdict nat_verdict
judge_mode-Settles unknown_mode port scope firewall f known fits = absurd (known refl)
judge_mode-Settles mirrored port scope firewall f known fits = rw (loopback_off-read firewall) (
    judge_mirrored-Settles port scope port.windows_bound (inbound_policy firewall)
      (loopback_read firewall) f.forwards f.lets_in f.loopback_on fits)
judge_mode-Settles nat port scope firewall f known fits =
    judge_nat-Settles port scope port.windows_bound (inbound_policy firewall)
      (loopback_read firewall) f.forwards f.lets_in f.loopback_on fits

if_listening-Settles :
    (listening : Bool) (wide : Facts → PortReachability) (bound : Option Bool)
    (inbound : InboundPolicy) (lo : Option Bool) (f : Facts) (v : ReachabilityVerdict)
    → Settles wide bound inbound lo f v.reachability
    → Settles
        (answer listening wide)
        bound
        inbound
        lo
        f
        (if not listening
          then verdict_for unreachable
              (lit "The socket is not accepting connections, so nothing can reach it.")
          else v).reachability
if_listening-Settles true wide bound inbound lo f v h = h
if_listening-Settles false wide bound inbound lo f v h = right refl

-- When the mode of the network was read, then for all facts that agree with what was read of the
-- Windows listeners, of the firewall and of its loopback, the verdict on a port is the widest answer
-- (other machines of the network, this PC, the distribution only, or nobody when the socket does not
-- listen); or it is unknown, and then other facts that agree as well would have another answer; or
-- the loopback was not read and is off, and then the verdict is this PC, the answer if it were on,
-- though only the distribution reaches the port.
pub classify_reachability-Settles :
    (port : PortInfo) (mode : Option Text) (firewall : Option FirewallInfo) (f : Facts)
    → normalize_networking_mode mode ≢ unknown_mode
    → Fits port.windows_bound (inbound_policy firewall) (loopback_read firewall) f
    → Settles
        (answer port.listening
          (widest (normalize_networking_mode mode) (classify_bind_address port.local_address)))
        port.windows_bound
        (inbound_policy firewall)
        (loopback_read firewall)
        f
        (classify_reachability port mode firewall).reachability
unfolding classify_reachability
classify_reachability-Settles port mode firewall f known fits =
    if_listening-Settles port.listening
      (widest (normalize_networking_mode mode) (classify_bind_address port.local_address))
      port.windows_bound (inbound_policy firewall) (loopback_read firewall) f
      (judge_mode (normalize_networking_mode mode) port (classify_bind_address port.local_address)
        firewall)
      (judge_mode-Settles (normalize_networking_mode mode) port
        (classify_bind_address port.local_address) firewall f known fits)
