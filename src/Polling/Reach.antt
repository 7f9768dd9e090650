-- ===== src/Polling/Reach.antt =====
-- The scheduler of src/main/state/polling.ts over any sequence of calls and ticks.
use wslpad.Base.{
  ℕ, ◌≤◌, ◌≡◌, refl, ap, ◌∙◌, sym, subst, Bool, true, false, ◌&&◌, not, List, [], ◌∷◌, ◌++◌, map,
  arith, In, inl, inr, if_elim, append-nil, if◌then◌else◌,
}
use wslpad.Polling.{
  Tier, fast, medium, slow, Interval, World, MonitoringSettings, tier_ms, poll_bounds, arm, refresh,
  clear_timers, run_now_and_arm, start, stop, set_paused, set_intervals, same_bool, Call, starts,
  stops, sets_intervals, sets_paused, call, Reaches,
}
use wslpad.Polling.Timers.{active, wanted, IsArmed, Reaches-IsArmed}

In-map : {A B : Type 0} (f : A → B) (x : A) (xs : List A) → In x xs → In (f x) (map f xs)
In-map f x [] m = m
In-map f x (y ∷ xs) (inl e) = inl (ap f e)
In-map f x (y ∷ xs) (inr m) = inr (In-map f x xs m)

abbrev pub Bounded : Tier → ℕ → Type 0
Bounded t period = ((poll_bounds t).0 ≤ period) × (period ≤ (poll_bounds t).1)

tier_ms-Bounded : (m : MonitoringSettings) (t : Tier) → Bounded t (tier_ms m t)
tier_ms-Bounded m fast = (omega arith, omega arith)
tier_ms-Bounded m medium = (omega arith, omega arith)
tier_ms-Bounded m slow = (omega arith, omega arith)

wanted-Bounded : (w : World) (t : Tier) (period : ℕ) → In (t, period) (wanted w) → Bounded t period
wanted-Bounded w t period =
    let P : Tier × ℕ → Type 0 = λ x. Bounded x.0 x.1 in
    let from : (u : Tier) → (t, period) ≡ (u, tier_ms w.intervals u) → Bounded t period =
      λ u e. subst P (sym e) (tier_ms-Bounded w.intervals u) in
    if_elim (λ xs. In (t, period) xs → Bounded t period) (active w)
      (λ on m. elim m [
        | inl e ↦ from fast e
        | inr (inl e) ↦ from medium e
        | inr (inr (inl e)) ↦ from slow e
        | inr (inr (inr none_left)) ↦ elim none_left [ ]
      ])
      (λ off m. elim m [ ])

-- After any calls of the scheduler's methods and any ticks of the event loop, the loop runs one
-- interval for each tier, with the clamped period of the present settings, while the scheduler is
-- started and not paused, and none at all otherwise; the map of timers holds the handles of just
-- those, so that none is left behind; and each period is within the bounds of its tier.
pub running-Bounded :
    (w : World)
    → Reaches w
    → IsArmed w × ((i : Interval) → In i w.running → Bounded i.tier i.period)
running-Bounded w r =
    let armed = Reaches-IsArmed r in
    (
      armed,
      λ i m.
          let found = In-map (λ i. (i.tier, i.period)) i w.running m in
          wanted-Bounded w i.tier i.period (subst (In (i.tier, i.period)) armed.exact found),
    )

abbrev every_tier : List Tier
every_tier = fast ∷ medium ∷ slow ∷ []

-- The refreshes of `v`, made from `w`, are those that a rise of `active` asks for.
abbrev Asked : World → World → Type 0
Asked w v = v.refreshes ≡ w.refreshes ++ (if active v && not (active w) then every_tier else [])

unasked : (w v : World) → v.refreshes ≡ w.refreshes → active v && not (active w) ≡ false → Asked w v
unasked w v same calm =
    same
    ∙ sym (ap (λ b. w.refreshes ++ (if b then every_tier else [])) calm ∙ append-nil w.refreshes)

append-one_by_one :
    (xs : List Tier) (a b c : Tier) → ((xs ++ a ∷ []) ++ b ∷ []) ++ c ∷ [] ≡ xs ++ a ∷ b ∷ c ∷ []
append-one_by_one [] a b c = refl
append-one_by_one (x ∷ xs) a b c = ap (λ ys. x ∷ ys) (append-one_by_one xs a b c)

run_now_and_arm-Asked :
    (w v : World)
    → v.refreshes ≡ w.refreshes
    → active v ≡ true
    → active w ≡ false
    → Asked w (run_now_and_arm v)
unfolding run_now_and_arm refresh arm clear_timers
run_now_and_arm-Asked w v same on off =
    let rise : active v && not (active w) ≡ true = ground arith in
    ap (λ xs. ((xs ++ fast ∷ []) ++ medium ∷ []) ++ slow ∷ []) same
    ∙ append-one_by_one w.refreshes fast medium slow
    ∙ sym (ap (λ b. w.refreshes ++ (if b then every_tier else [])) rise)

start-Asked : (w : World) → Asked w (start w)
unfolding start
start-Asked w =
    let now : World = record w { started = true } in
    if_elim (Asked w) w.started (λ e. unasked w w refl (ground arith))
      (λ e.
        if_elim (Asked w) (not w.paused) (λ on. run_now_and_arm-Asked w now refl on (ground arith))
          (λ off. unasked w now refl (ground arith)))

set_paused-from :
    (p : Bool) (w v : World)
    → v.refreshes ≡ w.refreshes
    → active v ≡ active w
    → Asked w (set_paused p v)
unfolding set_paused clear_timers
set_paused-from p w v same level =
    let now : World = record v { paused = p } in
    if_elim (Asked w) (same_bool p v.paused) (λ e. unasked w v same (ground arith))
      (λ e.
        if_elim (Asked w) (not v.started) (λ s. unasked w now same (ground arith))
          (λ s.
            if_elim (Asked w) p (λ off. unasked w (clear_timers now) same (ground arith))
              (λ on. run_now_and_arm-Asked w now same (ground arith) (ground arith))))

set_intervals-Asked : (m : MonitoringSettings) (w : World) → Asked w (set_intervals m w)
unfolding set_intervals arm clear_timers
set_intervals-Asked m w =
    let now : World = record w { intervals = m } in
    if_elim (Asked w) (not (same_bool m.paused w.paused))
      (λ e. set_paused-from m.paused w now refl refl)
      (λ e.
        if_elim (Asked w) (active w) (λ on. unasked w (arm now) refl (ground arith))
          (λ off. unasked w now refl (ground arith)))

-- A call of a method refreshes all three tiers at once, in order, when it takes polling from off to
-- on, and refreshes nothing otherwise: no second start and no new period runs a tier out of turn.
pub call-refreshes :
    (c : Call) (w : World)
    → (call c w).refreshes
      ≡ w.refreshes
        ++ (if active (call c w) && not (active w) then fast ∷ medium ∷ slow ∷ [] else [])
unfolding call stop clear_timers
call-refreshes starts w = start-Asked w
call-refreshes stops w = unasked w (stop w) refl refl
call-refreshes (sets_intervals m) w = set_intervals-Asked m w
call-refreshes (sets_paused p) w = set_paused-from p w w refl refl
