-- ===== src/Store/History.antt =====
-- What the liveness gate of src/main/state/store.ts makes of the replies so far.
use wslpad.Base.{
  ℕ, suc, zero, min, ◌+◌, ◌-◌, ◌*◌, ◌^◌, ◌≤◌, ◌≡◌, ◌∙◌, refl, ap, Bool, true, false, List, [], ◌∷◌,
  Option, none, some, arith, ltb, if◌then◌else◌,
}
use wslpad.Store.{
  ProbeState, fresh_probe, backoff, run_probe, Gate, answered, joined, started, distro_responsive,
  answering,
}

-- A reply: whether the distribution answered, and when. Histories have the latest reply first.
abbrev pub History : Type 0
History = List (Bool × ℕ)

-- The state after the replies of one selection.
unfoldable pub after : History → ProbeState
after [] = fresh_probe
after ((alive, now) ∷ earlier) = run_probe alive now (after earlier)

-- The failures since the last success.
abbrev pub failed_run : History → ℕ
failed_run [] = 0
failed_run ((true, now) ∷ earlier) = 0
failed_run ((false, now) ∷ earlier) = suc (failed_run earlier)

abbrev pub last_success : History → Option ℕ
last_success [] = none
last_success ((true, now) ∷ earlier) = some now
last_success ((false, now) ∷ earlier) = last_success earlier

failures-after : (h : History) → (after h).failures ≡ failed_run h
unfolding after run_probe fresh_probe
failures-after [] = refl
failures-after ((true, now) ∷ earlier) = refl
failures-after ((false, now) ∷ earlier) = ap suc (failures-after earlier)

last_alive_at-after : (h : History) → (after h).last_alive_at ≡ last_success h
unfolding after run_probe fresh_probe
last_alive_at-after [] = refl
last_alive_at-after ((true, now) ∷ earlier) = refl
last_alive_at-after ((false, now) ∷ earlier) = last_alive_at-after earlier

-- What a caller at time `t` may rely on: the latest reply for as long as it holds.
abbrev pub relies_on : History → ℕ → Option Bool
relies_on [] t = none
relies_on ((true, now) ∷ earlier) t = if ltb t (now + 2000) then some true else none
relies_on ((false, now) ∷ earlier) t =
    if ltb t (now + backoff (suc (failed_run earlier))) then some false else none

abbrev pub gate_of : Option Bool → Bool → Gate
gate_of (some alive) in_flight = answered alive
gate_of none in_flight = if in_flight then joined else started

gate-after :
    (h : History) (in_flight : Bool) (t : ℕ)
    → distro_responsive true in_flight t (after h) ≡ gate_of (relies_on h t) in_flight
unfolding distro_responsive after run_probe fresh_probe
gate-after [] in_flight t = ground arith
gate-after ((true, now) ∷ earlier) in_flight t = ground arith
gate-after ((false, now) ∷ earlier) in_flight t = rw (failures-after earlier) (ground arith)

-- Whether the latest reply was one.
abbrev pub latest : History → Option Bool
latest [] = none
latest ((alive, now) ∷ earlier) = some alive

answering-after : (h : History) → answering (after h) ≡ latest h
unfolding answering after run_probe fresh_probe
answering-after [] = refl
answering-after ((true, now) ∷ earlier) = refl
answering-after ((false, now) ∷ earlier) = ground arith

-- The state of the probe is a summary of its replies. A caller is told that the distribution answers
-- for 2 seconds after a success, and that it does not for as long after a failure as the number of
-- failures in a row asks for; otherwise it joins the probe on its way, or starts one. The liveness
-- shown is the latest reply, and nothing is claimed before the first.
pub distro_responsive-after :
    (h : History) (in_flight : Bool) (t : ℕ)
    → (distro_responsive true in_flight t (after h) ≡ gate_of (relies_on h t) in_flight)
      × (answering (after h) ≡ latest h)
      × ((after h).failures ≡ failed_run h)
      × ((after h).last_alive_at ≡ last_success h)
distro_responsive-after h in_flight t =
    (gate-after h in_flight t, answering-after h, failures-after h, last_alive_at-after h)

power_positive : (n : ℕ) → 1 ≤ 2 ^ n
power_positive zero = omega arith
power_positive (suc n) = ground (arith, power_positive n)

backoff-suc : (n : ℕ) → backoff (suc n) ≡ min (5000 * 2 ^ n) 60000
unfolding backoff
backoff-suc n = let level : suc n - 1 ≡ n = omega arith in ap (λ m. min (5000 * 2 ^ m) 60000) level

power-suc : (n : ℕ) → 2 ^ suc n ≡ 2 * 2 ^ n
power-suc n = ground arith

-- The pause after a failure is 5 seconds at first, doubles with each further failure in a row, and is
-- never longer than a minute nor shorter than 5 seconds.
pub backoff-doubles :
    (n : ℕ)
    → (backoff 1 ≡ 5000)
      × (backoff (suc (suc n)) ≡ min (2 * backoff (suc n)) 60000)
      × (5000 ≤ backoff (suc n))
      × (backoff (suc n) ≤ 60000)
backoff-doubles n =
    let one = backoff-suc n in
    let two = backoff-suc (suc n) in
    let doubled = power-suc n in
    let positive = power_positive n in
    (
      backoff-suc 0,
      omega (arith, one, two, doubled),
      omega (arith, one, positive),
      omega (arith, one),
    )

-- A minute after the latest reply, whatever it was and however many probes failed before it, a caller
-- that finds no probe on its way starts one; and a distribution that answers it is shown as answering
-- and trusted at once.
pub distro_responsive-recovers :
    (alive : Bool) (now t : ℕ) (earlier : History)
    → now + 60000 ≤ t
    → (distro_responsive true false t (after ((alive, now) ∷ earlier)) ≡ started)
      × (distro_responsive true false t (after ((true, t) ∷ (alive, now) ∷ earlier))
          ≡ answered true)
      × (answering (after ((true, t) ∷ (alive, now) ∷ earlier)) ≡ some true)
distro_responsive-recovers true now t earlier late = (
  gate-after ((true, now) ∷ earlier) false t ∙ ground arith,
  gate-after ((true, t) ∷ (true, now) ∷ earlier) false t ∙ ground arith,
  answering-after ((true, t) ∷ (true, now) ∷ earlier),
)
distro_responsive-recovers false now t earlier late =
    let pause = (backoff-doubles (failed_run earlier)).3 in
    (
      gate-after ((false, now) ∷ earlier) false t ∙ ground arith,
      gate-after ((true, t) ∷ (false, now) ∷ earlier) false t ∙ ground arith,
      answering-after ((true, t) ∷ (false, now) ∷ earlier),
    )
