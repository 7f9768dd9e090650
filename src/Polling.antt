-- ===== src/Polling.antt =====
-- src/main/state/polling.ts: the scheduler of the three polling tiers, with the intervals that the
-- event loop keeps for it. `src/shared/constants.ts` holds the bounds of the periods.
pub mod Timers
pub mod Reach
use wslpad.Base.{
  ℕ, suc, ◌+◌, Bool, true, false, ◌==◌, ◌&&◌, not, List, [], ◌∷◌, ◌++◌, min, max, any, select,
  if◌then◌else◌,
}

pub data Tier : Type 0 where
  fast : Tier
  medium : Tier
  slow : Tier

abbrev pub same_tier : Tier → Tier → Bool
same_tier fast fast = true
same_tier medium medium = true
same_tier slow slow = true
same_tier _ _ = false

pub record MonitoringSettings : Type 0 where
  pub fast_ms : ℕ
  pub medium_ms : ℕ
  pub slow_ms : ℕ
  pub paused : Bool

-- `setInterval` of the event loop: what it calls, and how often.
pub record Interval : Type 0 where
  pub handle : ℕ
  pub tier : Tier
  pub period : ℕ

-- The scheduler's fields, then the event loop's intervals and the store's refreshes, oldest first.
pub record World : Type 0 where
  pub timers : List (Tier × ℕ)
  pub started : Bool
  pub paused : Bool
  pub intervals : MonitoringSettings
  pub running : List Interval
  pub next_handle : ℕ
  pub refreshes : List Tier

abbrev pub clamp : ℕ → ℕ → ℕ → ℕ
clamp value lo hi = min hi (max lo value)

-- `POLL_BOUNDS`.
abbrev pub poll_bounds : Tier → ℕ × ℕ
poll_bounds fast = (1000, 30000)
poll_bounds medium = (5000, 120000)
poll_bounds slow = (15000, 600000)

abbrev period_of : MonitoringSettings → Tier → ℕ
period_of m fast = m.fast_ms
period_of m medium = m.medium_ms
period_of m slow = m.slow_ms

abbrev pub tier_ms : MonitoringSettings → Tier → ℕ
tier_ms m tier = let bounds = poll_bounds tier in clamp (period_of m tier) bounds.0 bounds.1

unfoldable pub construct : MonitoringSettings → World
construct m = record {
  timers = [];
  started = false;
  paused = m.paused;
  intervals = m;
  running = [];
  next_handle = 0;
  refreshes = [];
}

-- `this.timers.set(tier, handle)`.
unfoldable pub put : Tier → ℕ → List (Tier × ℕ) → List (Tier × ℕ)
put tier handle [] = (tier, handle) ∷ []
put tier handle ((other, h) ∷ rest) =
    let later = put tier handle rest in
    if same_tier other tier then (tier, handle) ∷ rest else (other, h) ∷ later

-- `this.timers.set(tier, setInterval(() => this.refresh(tier), period))`.
abbrev set_timer : Tier → World → World
set_timer tier w =
    let started_interval : Interval = record {
      handle = w.next_handle;
      tier = tier;
      period = tier_ms w.intervals tier;
    } in
    record w {
      timers = put tier w.next_handle w.timers;
      running = w.running ++ started_interval ∷ [];
      next_handle = suc w.next_handle;
    }

-- `clearInterval` for each of the handles.
unfoldable pub clear_all : List (Tier × ℕ) → List Interval → List Interval
clear_all [] running = running
clear_all ((tier, h) ∷ rest) running = clear_all rest (select (λ i. not (i.handle == h)) running)

unfoldable pub clear_timers : World → World
unfolding clear_all
clear_timers w = record w { timers = []; running = clear_all w.timers w.running }

unfoldable pub arm : World → World
unfolding clear_timers put
arm w = set_timer slow (set_timer medium (set_timer fast (clear_timers w)))

unfoldable pub refresh : Tier → World → World
refresh tier w = record w { refreshes = w.refreshes ++ tier ∷ [] }

unfoldable pub run_now_and_arm : World → World
unfolding refresh arm
run_now_and_arm w = arm (refresh slow (refresh medium (refresh fast w)))

unfoldable pub start : World → World
unfolding run_now_and_arm
start w =
    let now : World = record w { started = true } in
    if w.started then w else if not w.paused then run_now_and_arm now else now

unfoldable pub stop : World → World
unfolding clear_timers
stop w = clear_timers (record w { started = false })

abbrev pub same_bool : Bool → Bool → Bool
same_bool true b = b
same_bool false b = not b

unfoldable pub set_paused : Bool → World → World
unfolding clear_timers run_now_and_arm
set_paused p w =
    let now : World = record w { paused = p } in
    if same_bool p w.paused
    then w
    else if not w.started
    then now
    else if p
    then clear_timers now
    else run_now_and_arm now

unfoldable pub set_intervals : MonitoringSettings → World → World
unfolding set_paused arm
set_intervals m w =
    let now : World = record w { intervals = m } in
    if not (same_bool m.paused w.paused)
    then set_paused m.paused now
    else if w.started && not w.paused
    then arm now
    else now

-- The event loop runs the interval of a handle, if there is one.
unfoldable pub fire : ℕ → List Interval → World → World
unfolding refresh
fire h [] w = w
fire h (i ∷ rest) w = if i.handle == h then refresh i.tier w else fire h rest w

pub data Call : Type 0 where
  starts : Call
  stops : Call
  sets_intervals : MonitoringSettings → Call
  sets_paused : Bool → Call

unfoldable pub call : Call → World → World
unfolding start stop set_intervals set_paused
call starts w = start w
call stops w = stop w
call (sets_intervals m) w = set_intervals m w
call (sets_paused p) w = set_paused p w

-- What the constructor, calls of the methods and ticks of the event loop lead to.
pub data Reaches : World → Type 0 where
  constructed : (m : MonitoringSettings) → Reaches (construct m)
  called : {w : World} (c : Call) → Reaches w → Reaches (call c w)
  ticked : {w : World} (h : ℕ) → Reaches w → Reaches (fire h w.running w)
