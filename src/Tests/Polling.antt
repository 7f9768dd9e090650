-- ===== src/Tests/Polling.antt =====
-- Runs of src/main/state/polling.ts.
use wslpad.Base.{◌≡◌, refl, false, ◌&&◌, not, [], ◌∷◌, ◌++◌, In, if◌then◌else◌, length}
use wslpad.Polling.{
  MonitoringSettings, World, construct, call, starts, stops, sets_paused, constructed, called,
  Interval, fast, medium, slow,
}
use wslpad.Polling.Timers.{active, IsArmed}
use wslpad.Polling.Reach.{Bounded, running-Bounded, call-refreshes}

abbrev monitoring : MonitoringSettings
monitoring = record { fast_ms = 200; medium_ms = 10000; slow_ms = 60000; paused = false }

abbrev running : World
running = call starts (construct monitoring)

restarted : length (call starts (call stops (call starts running))).running ≡ 3
unfolding call construct
restarted = refl

running-Bounded_example :
    IsArmed running × ((i : Interval) → In i running.running → Bounded i.tier i.period)
running-Bounded_example = running-Bounded running (called starts (constructed monitoring))

call-refreshes_example :
    (call (sets_paused false) running).refreshes
    ≡ running.refreshes
      ++ (if active (call (sets_paused false) running) && not (active running)
          then fast ∷ medium ∷ slow ∷ []
          else [])
call-refreshes_example = call-refreshes (sets_paused false) running
