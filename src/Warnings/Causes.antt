-- ===== src/Warnings/Causes.antt =====
-- The warnings on conflicts of ports, from the sockets that listen.
use wslpad.Base.{
  ℕ, ◌≤◌, ◌≡◌, refl, ap, ◌∙◌, Bool, true, false, not, ◌&&◌, ◌||◌, Text, List, [], ◌∷◌, Option, none,
  some, any, length, ltb, same, same_iff, same_sym, if◌then◌else◌, ◌==◌, arith, Bool-cases,
  length-append, lt→ltb, if_elim, inl, inr,
}
use wslpad.Ports.{PortInfo, PortProtocol}
use wslpad.Warnings.{PortOwners, port_key, add_pid, add_owner, note_port, port_owners}

abbrev pub key_of : PortOwners → Text
key_of e = port_key e.protocol e.port

-- The processes noted under a key.
abbrev pub pids_at : Text → List PortOwners → List ℕ
pids_at k [] = []
pids_at k (e ∷ es) = if same (key_of e) k then e.pids else pids_at k es

abbrev pub is_noted : Text → List PortOwners → Bool
is_noted k es = any (λ e. same (key_of e) k) es

-- No key has two entries.
abbrev pub Keyed : List PortOwners → Type 0
Keyed [] = Unit
Keyed (e ∷ es) = (is_noted (key_of e) es ≡ false) × Keyed es

pub same-compare : (s t u : Text) → same s t ≡ true → same s u ≡ same t u
same-compare s t u h = ap (λ w. same w u) ((same_iff s t).0 h)

is_noted-add_owner :
    (k : Text) (es : List PortOwners) (protocol : PortProtocol) (port pid : ℕ)
    → is_noted k (add_owner es protocol port pid)
      ≡ (is_noted k es || same (port_key protocol port) k)
unfolding add_owner
is_noted-add_owner k [] protocol port pid = ground arith
is_noted-add_owner k (e ∷ es) protocol port pid =
    let rest = is_noted-add_owner k es protocol port pid in
    elim (Bool-cases (same (key_of e) (port_key protocol port))) [
      | inl h ↦ let both = same-compare (key_of e) (port_key protocol port) k h in ground arith
      | inr h ↦ ground arith
    ]

Keyed-add_owner :
    (es : List PortOwners) (protocol : PortProtocol) (port pid : ℕ)
    → Keyed es
    → Keyed (add_owner es protocol port pid)
unfolding add_owner
Keyed-add_owner [] protocol port pid h = (refl, tt)
Keyed-add_owner (e ∷ es) protocol port pid (h, k) =
    if_elim Keyed (same (key_of e) (port_key protocol port)) (λ _. (h, k))
      (λ differs. (
        let noted = is_noted-add_owner (key_of e) es protocol port pid in
            let flipped = same_sym (key_of e) (port_key protocol port) in ground arith,
        Keyed-add_owner es protocol port pid k,
      ))

pids_at-add_owner :
    (k : Text) (es : List PortOwners) (protocol : PortProtocol) (port pid : ℕ)
    → pids_at k (add_owner es protocol port pid)
      ≡ (if same (port_key protocol port) k then add_pid pid (pids_at k es) else pids_at k es)
unfolding add_owner
pids_at-add_owner k [] protocol port pid = ground arith
pids_at-add_owner k (e ∷ es) protocol port pid =
    let rest = pids_at-add_owner k es protocol port pid in
    let flipped = same_sym (key_of e) (port_key protocol port) in
    elim (Bool-cases (same (key_of e) (port_key protocol port))) [
      | inl h ↦ let both = same-compare (key_of e) (port_key protocol port) k h in ground arith
      | inr h ↦ elim (Bool-cases (same (key_of e) k)) [
        | inl here ↦
            let other = same-compare (key_of e) k (port_key protocol port) here in
            let again = same_sym k (port_key protocol port) in ground arith
        | inr there ↦ ground arith
      ]
    ]

-- The processes of the sockets that listen at a key, in the order of the sockets.
abbrev pub listener : Text → PortInfo → Option ℕ → List ℕ → List ℕ
listener k p none rest = rest
listener k p (some pid) rest =
    if p.listening && same (port_key p.protocol p.port) k then pid ∷ rest else rest

abbrev pub listeners : Text → List PortInfo → List ℕ
listeners k [] = []
listeners k (p ∷ ps) = listener k p p.pid (listeners k ps)

abbrev pub gather : List ℕ → List ℕ → List ℕ
gather pids [] = pids
gather pids (pid ∷ rest) = gather (add_pid pid pids) rest

-- Some process after the first is another one.
abbrev pub disagree : List ℕ → Bool
disagree [] = false
disagree (pid ∷ rest) = any (λ other. not (pid == other)) rest

pids_at-note_port :
    (k : Text) (es : List PortOwners) (p : PortInfo) (owner : Option ℕ) (rest : List ℕ)
    → gather (pids_at k (note_port es p owner)) rest
      ≡ gather (pids_at k es) (listener k p owner rest)
pids_at-note_port k es p none rest = refl
pids_at-note_port k es p (some pid) rest = elim (Bool-cases p.listening) [
  | inl h ↦ elim (Bool-cases (same (port_key p.protocol p.port) k)) [
    | inl here ↦
        let added = pids_at-add_owner k es p.protocol p.port pid in rw (h, here, added, here) refl
    | inr there ↦
        let added = pids_at-add_owner k es p.protocol p.port pid in rw (h, there, added, there) refl
  ]
  | inr h ↦ rw h refl
]

pub pids_at-port_owners :
    (k : Text) (es : List PortOwners) (ports : List PortInfo)
    → pids_at k (port_owners es ports) ≡ gather (pids_at k es) (listeners k ports)
unfolding port_owners
pids_at-port_owners k es [] = refl
pids_at-port_owners k es (p ∷ ps) =
    pids_at-port_owners k (note_port es p p.pid) ps
    ∙ pids_at-note_port k es p p.pid (listeners k ps)

Keyed-note_port :
    (es : List PortOwners) (p : PortInfo) (owner : Option ℕ)
    → Keyed es
    → Keyed (note_port es p owner)
Keyed-note_port es p none h = h
Keyed-note_port es p (some pid) h =
    if_elim Keyed p.listening (λ _. Keyed-add_owner es p.protocol p.port pid h) (λ _. h)

pub Keyed-port_owners :
    (es : List PortOwners) (ports : List PortInfo) → Keyed es → Keyed (port_owners es ports)
unfolding port_owners
Keyed-port_owners es [] h = h
Keyed-port_owners es (p ∷ ps) h =
    Keyed-port_owners (note_port es p p.pid) ps (Keyed-note_port es p p.pid h)

length-add_pid : (pid : ℕ) (pids : List ℕ) → length pids ≤ length (add_pid pid pids)
length-add_pid pid pids = ground (arith, length-append pids (pid ∷ []))

length-gather : (pids rest : List ℕ) → length pids ≤ length (gather pids rest)
length-gather pids [] = omega arith
length-gather pids (pid ∷ rest) =
    let step = length-add_pid pid pids in
    let more = length-gather (add_pid pid pids) rest in omega arith

pub disagree-gather :
    (pid : ℕ) (rest : List ℕ)
    → ltb 1 (length (gather (pid ∷ []) rest)) ≡ any (λ other. not (pid == other)) rest
disagree-gather pid [] = ground arith
disagree-gather pid (other ∷ rest) = elim (Bool-cases (pid == other)) [
  | inl e ↦ rw e (disagree-gather pid rest)
  | inr n ↦ rw n (lt→ltb 1 _ (let more = length-gather (pid ∷ other ∷ []) rest in omega arith))
]
