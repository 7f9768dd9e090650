-- ===== src/Ports/Joined.antt =====
-- The join of the tables against a search in the tables themselves.
use wslpad.Base.{
  same-show, ℕ, ◌≡◌, inl, inr, refl, sym, ap, ap₂, ◌∙◌, Bool, true, false, ◌&&◌, Text, lit, List,
  [], ◌∷◌, ◌++◌, Option, none, some, any, arith, is_none, is_some, map, one_of, find, same,
  same_iff, same_sym, show, ◌==◌, if◌then◌else◌, Bool-cases, not,
}
use wslpad.Ports.{PortInfo, WindowsPortInfo, PortProtocol, tcp, udp, tcp6, udp6}
use wslpad.Ports.Correlate.{
  family, key, ByPort, get_port, set_port, is_better, index_port, index_ports, bind_to, mark,
  wsl_keys, correlate_ports,
}

abbrev pub is_tcp : PortProtocol → Bool
is_tcp tcp = true
is_tcp tcp6 = true
is_tcp udp = false
is_tcp udp6 = false

-- The same port of the same family of protocols.
abbrev pub shares : PortProtocol → ℕ → PortProtocol → ℕ → Bool
shares a p b q = (if is_tcp a then is_tcp b else not (is_tcp b)) && p == q

family_tcp : (a : PortProtocol) → family a ≡ (if is_tcp a then lit "tcp" else lit "udp")
family_tcp tcp = refl
family_tcp tcp6 = refl
family_tcp udp = refl
family_tcp udp6 = refl

same_prefix :
    (a b : Bool) (p q : ℕ)
    → same
        ((if a then lit "tcp" else lit "udp") ++ b':' ∷ show p)
        ((if b then lit "tcp" else lit "udp") ++ b':' ∷ show q)
      ≡ ((if a then b else not b) && p == q)
unfolding same lit
same_prefix true true p q = same-show p q
same_prefix true false p q = refl
same_prefix false true p q = refl
same_prefix false false p q = same-show p q

same_key : (a b : PortProtocol) (p q : ℕ) → same (key a p) (key b q) ≡ shares a p b q
unfolding key
same_key a b p q = rw (family_tcp a, family_tcp b) (same_prefix (is_tcp a) (is_tcp b) p q)

get_port-set_port :
    (m : ByPort) (l k : Text) (w : WindowsPortInfo)
    → get_port (set_port m l w) k ≡ (if same l k then some w else get_port m k)
unfolding get_port set_port
get_port-set_port [] l k w = refl
get_port-set_port ((j, v) ∷ m) l k w = elim (Bool-cases (same j l)) [
  | inl e ↦ ground (arith, (same_iff j l).0 e, ap (λ t. same t k) ((same_iff j l).0 e))
  | inr e ↦ elim (Bool-cases (same j k)) [
    | inl f ↦ ground (arith, same_sym j l, ap (same l) ((same_iff j k).0 f))
    | inr f ↦ ground (arith, get_port-set_port m l k w)
  ]
]

abbrev on : Text → WindowsPortInfo → Bool
on k w = same (key w.protocol w.port) k

abbrev named : Text → WindowsPortInfo → Bool
named k w = on k w && is_some w.process_name

abbrev pub or_first : Option WindowsPortInfo → Option WindowsPortInfo → Option WindowsPortInfo
or_first (some w) later = some w
or_first none later = later

-- What stands under a key after the listeners with that key, of which `n` is the first with a name and
-- `o` the first of all.
abbrev settle :
    Option WindowsPortInfo
    → Option WindowsPortInfo
    → Option WindowsPortInfo
    → Option WindowsPortInfo
settle none n o = or_first n o
settle (some w) n o = if is_none w.process_name then or_first n (some w) else some w

get_port-index_port :
    (m : ByPort) (w : WindowsPortInfo) (k : Text)
    → get_port (index_port m w) k
      ≡ (if on k w && is_better (get_port m k) w then some w else get_port m k)
unfolding index_port
get_port-index_port m w k = elim (Bool-cases (on k w)) [
  | inl e ↦ ground (
    arith,
    get_port-set_port m (key w.protocol w.port) k w,
    ap (get_port m) ((same_iff (key w.protocol w.port) k).0 e),
  )
  | inr e ↦ ground (arith, get_port-set_port m (key w.protocol w.port) k w)
]

settle-none : (old : Option WindowsPortInfo) → settle old none none ≡ old
settle-none none = refl
settle-none (some w) = ground arith

settle_step :
    (old : Option WindowsPortInfo) (w : WindowsPortInfo) (hit : Bool) (n o : Option WindowsPortInfo)
    → settle (if hit && is_better old w then some w else old) n o
      ≡ settle old (if hit && is_some w.process_name then some w else n) (if hit then some w else o)
settle_step old w false n o = refl
settle_step none w true n o = ground arith
settle_step (some v) w true n o = ground arith

get_port-index_ports :
    (ws : List WindowsPortInfo) (m : ByPort) (k : Text)
    → get_port (index_ports m ws) k ≡ settle (get_port m k) (find (named k) ws) (find (on k) ws)
unfolding index_ports
get_port-index_ports [] m k = sym (settle-none (get_port m k))
get_port-index_ports (w ∷ ws) m k =
    get_port-index_ports ws (index_port m w) k
    ∙ rw (get_port-index_port m w k)
        (settle_step (get_port m k) w (on k w) (find (named k) ws) (find (on k) ws))

-- The listener of Windows that explains a port: the first on it that has a name, or else the first.
abbrev pub owner : PortProtocol → ℕ → List WindowsPortInfo → Option WindowsPortInfo
owner a p table =
    or_first (find (λ w. shares w.protocol w.port a p && is_some w.process_name) table)
      (find (λ w. shares w.protocol w.port a p) table)

find_named :
    (a : PortProtocol) (p : ℕ) (ws : List WindowsPortInfo)
    → find (named (key a p)) ws
      ≡ find (λ w. shares w.protocol w.port a p && is_some w.process_name) ws
find_named a p [] = refl
find_named a p (w ∷ ws) = rw (same_key w.protocol a w.port p, find_named a p ws) refl

find_on :
    (a : PortProtocol) (p : ℕ) (ws : List WindowsPortInfo)
    → find (on (key a p)) ws ≡ find (λ w. shares w.protocol w.port a p) ws
find_on a p [] = refl
find_on a p (w ∷ ws) = rw (same_key w.protocol a w.port p, find_on a p ws) refl

get_port-owner :
    (a : PortProtocol) (p : ℕ) (ws : List WindowsPortInfo)
    → get_port (index_ports [] ws) (key a p) ≡ owner a p ws
unfolding get_port
get_port-owner a p ws =
    get_port-index_ports ws [] (key a p) ∙ ap₂ or_first (find_named a p ws) (find_on a p ws)

map-owner :
    (ports : List PortInfo) (ws : List WindowsPortInfo)
    → map (λ p. bind_to p (get_port (index_ports [] ws) (key p.protocol p.port))) ports
      ≡ map (λ p. bind_to p (owner p.protocol p.port ws)) ports
map-owner [] ws = refl
map-owner (p ∷ ports) ws =
    ap₂ (λ q qs. bind_to p q ∷ qs) (get_port-owner p.protocol p.port ws) (map-owner ports ws)

one_of-wsl_keys :
    (b : PortProtocol) (q : ℕ) (ports : List PortInfo)
    → one_of (key b q) (wsl_keys ports)
      ≡ any (λ p. p.listening && shares b q p.protocol p.port) ports
one_of-wsl_keys b q [] = refl
one_of-wsl_keys b q (p ∷ ports) = elim (Bool-cases p.listening) [
  | inl e ↦ ground (arith, one_of-wsl_keys b q ports, same_key b p.protocol q p.port)
  | inr e ↦ ground (arith, one_of-wsl_keys b q ports)
]

map-mark :
    (ports : List PortInfo) (ws : List WindowsPortInfo)
    → map (λ w. mark (one_of (key w.protocol w.port) (wsl_keys ports)) w) ws
      ≡ map
          (λ w. mark (any (λ p. p.listening && shares w.protocol w.port p.protocol p.port) ports) w)
          ws
map-mark ports [] = refl
map-mark ports (w ∷ ws) =
    ap₂ (λ b rest. mark b w ∷ rest) (one_of-wsl_keys w.protocol w.port ports) (map-mark ports ws)

-- Joining the two tables by their keys gives what a search for each row in the other table gives. A
-- port of the distribution is bound on Windows just when some listener there has its port and its
-- family of protocols, and has the name of the first such listener that has one; a listener of
-- Windows comes from WSL just when a listening port of the distribution is the same.
pub correlate_ports_search :
    (ports : List PortInfo) (table : List WindowsPortInfo)
    → ((correlate_ports ports (some table)).ports
        ≡ map (λ p. bind_to p (owner p.protocol p.port table)) ports)
      × ((correlate_ports ports (some table)).windows_ports
          ≡ map
              (λ w.
                mark (any (λ p. p.listening && shares w.protocol w.port p.protocol p.port) ports) w)
              table)
unfolding correlate_ports
correlate_ports_search ports table = (map-owner ports table, map-mark ports table)
