-- ===== src/Polling/Timers.antt =====
-- The intervals that the event loop keeps for the scheduler of src/main/state/polling.ts.
use wslpad.Base.{
  ℕ, ◌≡◌, refl, ap, ◌∙◌, sym, ◌∙◌, sym, Bool, true, false, ◌==◌, ◌&&◌, not, List, [], ◌∷◌, map,
  arith, select, if◌then◌else◌, if_elim,
}
use wslpad.Polling.{
  Tier, fast, medium, slow, MonitoringSettings, Interval, World, tier_ms, construct, put, clear_all,
  clear_timers, arm, refresh, run_now_and_arm, start, stop, set_paused, set_intervals, fire, Call,
  starts, stops, sets_intervals, sets_paused, same_bool, call, Reaches, constructed, called, ticked,
}

-- Polling is on.
abbrev pub active : World → Bool
active w = w.started && not w.paused

abbrev pub wanted : World → List (Tier × ℕ)
wanted w =
    if active w
    then (fast, tier_ms w.intervals fast)
      ∷ (medium, tier_ms w.intervals medium)
      ∷ (slow, tier_ms w.intervals slow)
      ∷ []
    else []

-- The map knows every interval that runs, and those are the wanted ones.
pub record IsArmed (w : World) : Type 0 where
  pub known : map (λ i. (i.tier, i.handle)) w.running ≡ w.timers
  pub exact : map (λ i. (i.tier, i.period)) w.running ≡ wanted w

select-commutes :
    (p q : Interval → Bool) (xs : List Interval) → select q (select p xs) ≡ select p (select q xs)
select-commutes p q [] = refl
select-commutes p q (x ∷ xs) = ground (arith, select-commutes p q xs)

clear_all-select :
    (p : Interval → Bool) (timers : List (Tier × ℕ)) (xs : List Interval)
    → clear_all timers (select p xs) ≡ select p (clear_all timers xs)
unfolding clear_all
clear_all-select p [] xs = refl
clear_all-select p ((tier, h) ∷ rest) xs =
    let q : Interval → Bool = λ i. not (i.handle == h) in
    ap (clear_all rest) (select-commutes p q xs) ∙ clear_all-select p rest (select q xs)

clear_all-map : (xs : List Interval) → clear_all (map (λ i. (i.tier, i.handle)) xs) xs ≡ []
unfolding clear_all
clear_all-map [] = refl
clear_all-map (x ∷ xs) =
    let keep : Interval → Bool = λ i. not (i.handle == x.handle) in
    let timers : List (Tier × ℕ) = map (λ i. (i.tier, i.handle)) xs in
    let gone : select keep (x ∷ xs) ≡ select keep xs = ground arith in
    ap (clear_all timers) gone
    ∙ clear_all-select keep timers xs
    ∙ ap (select keep) (clear_all-map xs)

clear_timers-running : (w : World) → IsArmed w → (clear_timers w).running ≡ []
unfolding clear_timers
clear_timers-running w armed =
    ap (λ timers. clear_all timers w.running) (sym armed.known) ∙ clear_all-map w.running

arm-IsArmed : (w : World) → (clear_timers w).running ≡ [] → active w ≡ true → IsArmed (arm w)
unfolding arm put clear_timers
arm-IsArmed w cleared on =
    let empty : clear_all w.timers w.running ≡ [] = cleared in
    record { known = rw empty; exact = ground (arith, empty, on) }

-- With polling off, a scheduler without intervals has the wanted ones.
off-IsArmed : (w : World) → w.running ≡ [] → w.timers ≡ [] → active w ≡ false → IsArmed w
off-IsArmed w empty none_known off = record {
  known = rw (empty, none_known);
  exact = ground (arith, empty, off);
}

map-nil : {A B : Type 0} (f : A → B) (xs : List A) → map f xs ≡ [] → xs ≡ []
map-nil f [] h = refl
map-nil f (x ∷ xs) h = cc

-- Off means that nothing runs and that the map is empty.
off-running : (w : World) → IsArmed w → active w ≡ false → (w.running ≡ []) × (w.timers ≡ [])
off-running w armed off =
    let exact : map (λ i. (i.tier, i.period)) w.running ≡ [] = armed.exact ∙ rw off in
    let empty = map-nil (λ i. (i.tier, i.period)) w.running exact in
    (empty, sym armed.known ∙ ap (map (λ i. (i.tier, i.handle))) empty)

clear_timers-IsArmed :
    (w : World) → (clear_timers w).running ≡ [] → active w ≡ false → IsArmed (clear_timers w)
unfolding clear_timers
clear_timers-IsArmed w empty off = off-IsArmed (clear_timers w) empty refl off

run_now_and_arm-IsArmed :
    (w : World) → (clear_timers w).running ≡ [] → active w ≡ true → IsArmed (run_now_and_arm w)
unfolding run_now_and_arm refresh clear_timers
run_now_and_arm-IsArmed w empty on =
    arm-IsArmed (refresh slow (refresh medium (refresh fast w))) empty on

start-IsArmed : (w : World) → IsArmed w → IsArmed (start w)
unfolding start clear_timers
start-IsArmed w armed =
    let now : World = record w { started = true } in
    if_elim IsArmed w.started (λ _. armed)
      (λ stopped.
        let (empty, unknown) = off-running w armed (ground arith) in
        if_elim IsArmed (not w.paused)
          (λ on. run_now_and_arm-IsArmed now (clear_timers-running w armed) on)
          (λ off. off-IsArmed now empty unknown off))

stop-IsArmed : (w : World) → IsArmed w → IsArmed (stop w)
unfolding stop clear_timers
stop-IsArmed w armed = off-IsArmed (stop w) (clear_timers-running w armed) refl refl

-- The intervals may be those of an older setting when the call changes whether polling is on.
set_paused-from :
    (p : Bool) (w : World)
    → (clear_timers w).running ≡ []
    → (w.started ≡ false → (w.running ≡ []) × (w.timers ≡ []))
    → (same_bool p w.paused ≡ true → IsArmed w)
    → IsArmed (set_paused p w)
unfolding set_paused clear_timers
set_paused-from p w cleared stopped kept =
    let now : World = record w { paused = p } in
    if_elim IsArmed (same_bool p w.paused) kept (λ changed.
      if_elim IsArmed (not w.started)
        (λ off.
          let (empty, unknown) = stopped (ground arith) in
          off-IsArmed now empty unknown (ground arith))
        (λ started.
          if_elim IsArmed p (λ off. clear_timers-IsArmed now cleared (ground arith))
            (λ on. run_now_and_arm-IsArmed now cleared (ground arith))))

set_paused-IsArmed : (p : Bool) (w : World) → IsArmed w → IsArmed (set_paused p w)
set_paused-IsArmed p w armed =
    set_paused-from p w (clear_timers-running w armed)
      (λ stopped. off-running w armed (ground arith)) (λ _. armed)

set_intervals-IsArmed :
    (m : MonitoringSettings) (w : World) → IsArmed w → IsArmed (set_intervals m w)
unfolding set_intervals clear_timers
set_intervals-IsArmed m w armed =
    let now : World = record w { intervals = m } in
    let cleared = clear_timers-running w armed in
    if_elim IsArmed (not (same_bool m.paused w.paused))
      (λ changed.
        set_paused-from m.paused now cleared (λ stopped. off-running w armed (ground arith))
          (λ same. absurd (ground arith)))
      (λ kept.
        if_elim IsArmed (active w) (λ on. arm-IsArmed now cleared on)
          (λ off.
            let (empty, unknown) = off-running w armed off in off-IsArmed now empty unknown off))

fire-IsArmed : (h : ℕ) (xs : List Interval) (w : World) → IsArmed w → IsArmed (fire h xs w)
unfolding fire refresh
fire-IsArmed h [] w armed = armed
fire-IsArmed h (i ∷ rest) w armed =
    if_elim IsArmed (i.handle == h) (λ _. record { known = armed.known; exact = armed.exact })
      (λ _. fire-IsArmed h rest w armed)

call-IsArmed : (c : Call) (w : World) → IsArmed w → IsArmed (call c w)
unfolding call
call-IsArmed starts w armed = start-IsArmed w armed
call-IsArmed stops w armed = stop-IsArmed w armed
call-IsArmed (sets_intervals m) w armed = set_intervals-IsArmed m w armed
call-IsArmed (sets_paused p) w armed = set_paused-IsArmed p w armed

pub Reaches-IsArmed : {w : World} → Reaches w → IsArmed w
unfolding construct
Reaches-IsArmed (constructed m) = off-IsArmed (construct m) refl refl refl
Reaches-IsArmed (called {w} c r) = call-IsArmed c w (Reaches-IsArmed r)
Reaches-IsArmed (ticked {w} h r) = fire-IsArmed h w.running w (Reaches-IsArmed r)
