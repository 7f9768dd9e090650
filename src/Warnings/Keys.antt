-- ===== src/Warnings/Keys.antt =====
-- The keys of sockets, and the ids of the warnings that name them.
use wslpad.Base.{ℕ, ◌≡◌, refl, sym, ◌∙◌, true, Text, lit, ◌∷◌, ◌++◌, same, same-show, show, ==_iff}
use wslpad.Ports.{PortProtocol, tcp, udp, tcp6, udp6}
use wslpad.Warnings.{port_key, show_protocol}

-- The id of the warning on a conflict.
abbrev pub conflict_id : PortProtocol → ℕ → Text
conflict_id protocol port = lit "port-conflict-" ++ (show_protocol protocol ++ b'-' ∷ show port)

pub conflict_id-key :
    (a b : PortProtocol) (m n : ℕ)
    → same (conflict_id a m) (conflict_id b n) ≡ same (port_key a m) (port_key b n)
unfolding lit same
conflict_id-key tcp tcp m n = refl
conflict_id-key tcp udp m n = refl
conflict_id-key tcp tcp6 m n = refl
conflict_id-key tcp udp6 m n = refl
conflict_id-key udp tcp m n = refl
conflict_id-key udp udp m n = refl
conflict_id-key udp tcp6 m n = refl
conflict_id-key udp udp6 m n = refl
conflict_id-key tcp6 tcp m n = refl
conflict_id-key tcp6 udp m n = refl
conflict_id-key tcp6 tcp6 m n = refl
conflict_id-key tcp6 udp6 m n = refl
conflict_id-key udp6 tcp m n = refl
conflict_id-key udp6 udp m n = refl
conflict_id-key udp6 tcp6 m n = refl
conflict_id-key udp6 udp6 m n = refl

shown_alike : (m n : ℕ) → same (show m) (show n) ≡ true → m ≡ n
shown_alike m n h = (==_iff m n).0 (sym (same-show m n) ∙ h)

pub port_key-injective :
    (a b : PortProtocol) (m n : ℕ) → same (port_key a m) (port_key b n) ≡ true → (a ≡ b) × (m ≡ n)
unfolding lit same
port_key-injective tcp tcp m n h = (refl, shown_alike m n h)
port_key-injective tcp udp m n h = cc
port_key-injective tcp tcp6 m n h = cc
port_key-injective tcp udp6 m n h = cc
port_key-injective udp tcp m n h = cc
port_key-injective udp udp m n h = (refl, shown_alike m n h)
port_key-injective udp tcp6 m n h = cc
port_key-injective udp udp6 m n h = cc
port_key-injective tcp6 tcp m n h = cc
port_key-injective tcp6 udp m n h = cc
port_key-injective tcp6 tcp6 m n h = (refl, shown_alike m n h)
port_key-injective tcp6 udp6 m n h = cc
port_key-injective udp6 tcp m n h = cc
port_key-injective udp6 udp m n h = cc
port_key-injective udp6 tcp6 m n h = cc
port_key-injective udp6 udp6 m n h = (refl, shown_alike m n h)
