-- ===== src/Warnings/Conflicts.antt =====
-- When a conflict of ports is warned of.
use wslpad.Base.{
  ℕ, ◌≡◌, ◌≢◌, ◌↔◌, ◌⊎◌, refl, sym, ap, ◌∙◌, Bool, true, false, not, ◌&&◌, Text, List, [], ◌∷◌,
  Option, none, some, any, ltb, length, map, same, same_iff, select, ◌==◌, arith, Bool-cases, inl,
  inr, if_elim, In, ==_cases, same_refl,
}
use wslpad.Ports.{PortInfo, PortProtocol}
use wslpad.Warnings.{
  PortOwners, port_key, port_owners, conflict_warning, is_conflict, conflict_warnings,
}
use wslpad.Warnings.Causes.{
  key_of, pids_at, is_noted, Keyed, gather, disagree, listener, listeners, pids_at-port_owners,
  Keyed-port_owners, disagree-gather,
}
use wslpad.Warnings.Keys.{conflict_id, conflict_id-key, port_key-injective}

-- The socket listens on the port for the process.
abbrev pub Serves : PortProtocol → ℕ → ℕ → PortInfo → Type 0
Serves protocol port pid p =
    (p.listening ≡ true) × (p.protocol ≡ protocol) × (p.port ≡ port) × (p.pid ≡ some pid)

abbrev pub Served : PortProtocol → ℕ → List PortInfo → ℕ → Type 0
Served protocol port ports pid = (p : PortInfo) × In p ports × Serves protocol port pid p

listener-Serves :
    (protocol : PortProtocol) (port pid : ℕ) (p : PortInfo) (owner : Option ℕ) (rest : List ℕ)
    → p.pid ≡ owner
    → In pid (listener (port_key protocol port) p owner rest)
    → Serves protocol port pid p ⊎ In pid rest
listener-Serves protocol port pid p none rest held = λ m. inr m
listener-Serves protocol port pid p (some other) rest held =
    if_elim (λ pids. In pid pids → Serves protocol port pid p ⊎ In pid rest)
      (p.listening && same (port_key p.protocol p.port) (port_key protocol port))
      (λ h m.
        let alike = port_key-injective p.protocol protocol p.port port (ground arith) in
        elim m [
          | inl e ↦ inl (ground arith, alike.0, alike.1, held ∙ ap some (sym e))
          | inr later ↦ inr later
        ])
      (λ _ m. inr m)

listeners-Served :
    (protocol : PortProtocol) (port pid : ℕ) (ports : List PortInfo)
    → In pid (listeners (port_key protocol port) ports)
    → Served protocol port ports pid
listeners-Served protocol port pid [] m = elim m [ ]
listeners-Served protocol port pid (p ∷ ps) m =
    elim (listener-Serves protocol port pid p p.pid (listeners (port_key protocol port) ps) refl
      m) [
        | inl serves ↦ (p, inl refl, serves)
        | inr later ↦
            let found = listeners-Served protocol port pid ps later in
            (found.0, inr found.1, found.2)
      ]

Serves-listener :
    (protocol : PortProtocol) (port pid : ℕ) (p : PortInfo) (rest : List ℕ)
    → Serves protocol port pid p
    → In pid (listener (port_key protocol port) p p.pid rest)
Serves-listener protocol port pid p rest (h, at, on, held) =
    rw (held, h, at, on, same_refl (port_key protocol port)) (inl refl)

listener-later :
    (k : Text) (pid : ℕ) (p : PortInfo) (owner : Option ℕ) (rest : List ℕ)
    → In pid rest
    → In pid (listener k p owner rest)
listener-later k pid p none rest m = m
listener-later k pid p (some other) rest m =
    if_elim (In pid) (p.listening && same (port_key p.protocol p.port) k) (λ _. inr m) (λ _. m)

Served-listeners :
    (protocol : PortProtocol) (port pid : ℕ) (ports : List PortInfo)
    → Served protocol port ports pid
    → In pid (listeners (port_key protocol port) ports)
Served-listeners protocol port pid [] (p, m, h) = elim m [ ]
Served-listeners protocol port pid (q ∷ qs) (p, inl e, h) =
    Serves-listener protocol port pid q (listeners (port_key protocol port) qs) (rw (sym e) h)
Served-listeners protocol port pid (q ∷ qs) (p, inr m, h) =
    listener-later (port_key protocol port) pid q q.pid (listeners (port_key protocol port) qs)
      (Served-listeners protocol port pid qs (p, m, h))

any-In : (f : ℕ → Bool) (xs : List ℕ) → any f xs ≡ true → (x : ℕ) × In x xs × (f x ≡ true)
any-In f [] h = cc
any-In f (x ∷ xs) h = elim (Bool-cases (f x)) [
  | inl e ↦ (x, inl refl, e)
  | inr n ↦ let found = any-In f xs (ground arith) in (found.0, inr found.1, found.2)
]

In-any : (f : ℕ → Bool) (x : ℕ) (xs : List ℕ) → In x xs → f x ≡ true → any f xs ≡ true
In-any f x [] m h = elim m [ ]
In-any f x (y ∷ xs) (inl e) h = rw (sym e, h) refl
In-any f x (y ∷ xs) (inr m) h = ground (arith, In-any f x xs m h)

disagree→ :
    (pids : List ℕ) → disagree pids ≡ true → (a : ℕ) × (b : ℕ) × In a pids × In b pids × (a ≢ b)
disagree→ [] h = cc
disagree→ (pid ∷ rest) h =
    let found = any-In (λ other. not (pid == other)) rest h in
    (pid, found.0, inl refl, inr found.1, λ e. ground (arith, found.2))

other_than :
    (pid x : ℕ) (rest : List ℕ)
    → In x (pid ∷ rest)
    → pid ≢ x
    → any (λ other. not (pid == other)) rest ≡ true
other_than pid x rest (inl e) differs = elim (differs (sym e)) [ ]
other_than pid x rest (inr m) differs =
    In-any (λ other. not (pid == other)) x rest m (ground (arith, differs))

disagree← : (pids : List ℕ) (a b : ℕ) → In a pids → In b pids → a ≢ b → disagree pids ≡ true
disagree← [] a b m n differs = elim m [ ]
disagree← (pid ∷ rest) a b m n differs = elim (==_cases pid a) [
  | inl e ↦ other_than pid b rest n (λ f. differs (sym e ∙ f))
  | inr first ↦ other_than pid a rest m first
]

gathered : (pids : List ℕ) → ltb 1 (length (gather [] pids)) ≡ disagree pids
gathered [] = refl
gathered (pid ∷ rest) = disagree-gather pid rest

abbrev conflicts_at : Text → PortOwners → Bool
conflicts_at k e = is_conflict e && same (key_of e) k

any-conflict_warning :
    (protocol : PortProtocol) (port : ℕ) (es : List PortOwners)
    → any
        (λ w. same w.id (conflict_id protocol port))
        (map conflict_warning (select is_conflict es))
      ≡ any (conflicts_at (port_key protocol port)) es
any-conflict_warning protocol port [] = refl
any-conflict_warning protocol port (e ∷ es) =
    let rest = any-conflict_warning protocol port es in
    let named = conflict_id-key e.protocol protocol e.port port in
    elim (Bool-cases (is_conflict e)) [
      | inl h ↦ rw (h, named, rest) refl
      | inr h ↦ rw (h, rest) refl
    ]

not_noted :
    (k : Text) (es : List PortOwners) → is_noted k es ≡ false → any (conflicts_at k) es ≡ false
not_noted k [] h = refl
not_noted k (e ∷ es) h = ground (arith, not_noted k es)

any-Keyed :
    (k : Text) (es : List PortOwners)
    → Keyed es
    → any (conflicts_at k) es ≡ ltb 1 (length (pids_at k es))
any-Keyed k [] h = refl
any-Keyed k (e ∷ es) (h, later) = elim (Bool-cases (same (key_of e) k)) [
  | inl here ↦
      let alone = not_noted k es (rw (sym ((same_iff (key_of e) k).0 here)) h) in
      rw (here, alone) (ground arith)
  | inr there ↦ let rest = any-Keyed k es later in rw (there, rest) (ground arith)
]

conflict_warned :
    (protocol : PortProtocol) (port : ℕ) (ports : List PortInfo)
    → any (λ w. same w.id (conflict_id protocol port)) (conflict_warnings ports)
      ≡ disagree (listeners (port_key protocol port) ports)
unfolding conflict_warnings
conflict_warned protocol port ports =
    let k = port_key protocol port in
    any-conflict_warning protocol port (port_owners [] ports)
    ∙ any-Keyed k (port_owners [] ports) (Keyed-port_owners [] ports tt)
    ∙ ap (λ pids. ltb 1 (length pids)) (pids_at-port_owners k [] ports)
    ∙ gathered (listeners k ports)

-- A warning names a protocol and a port exactly if two different processes are known to listen there:
-- the protocols with 4 and 6 count apart, and a socket that does not listen, or whose process is not
-- known, gives no cause.
pub conflict_warnings_iff :
    (protocol : PortProtocol) (port : ℕ) (ports : List PortInfo)
    → (any (λ w. same w.id (conflict_id protocol port)) (conflict_warnings ports) ≡ true)
      ↔ ((a : ℕ) × (b : ℕ) × (a ≢ b) × Served protocol port ports a × Served protocol port ports b)
conflict_warnings_iff protocol port ports = (
  λ h.
      let found =
        disagree→ (listeners (port_key protocol port) ports)
          (sym (conflict_warned protocol port ports) ∙ h) in
      (
        found.0,
        found.1,
        found.4,
        listeners-Served protocol port found.0 ports found.2,
        listeners-Served protocol port found.1 ports found.3,
      ),
  λ (a, b, differs, left, right).
      conflict_warned protocol port ports
      ∙ disagree← (listeners (port_key protocol port) ports) a b
          (Served-listeners protocol port a ports left)
          (Served-listeners protocol port b ports right) differs,
)
