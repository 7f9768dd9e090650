-- ===== src/Tests/Store.antt =====
-- Runs of src/main/state/store.ts.
use wslpad.Shell.{assert_valid_distro_name}
use wslpad.Base.{
  ◌++◌, List, inl, arith, ◌*◌, ◌≤◌, ◌≡◌, refl, true, false, lit, [], ◌∷◌, min, none, some, same,
}
use wslpad.Store.{
  distro_responsive, answering, answered, started, backoff, run_probe, fresh_probe,
  note_runner_failure, clear_runner_failure,
}
use wslpad.Store.History.{
  History, after, failed_run, last_success, relies_on, latest, gate_of, distro_responsive-after,
  backoff-doubles, distro_responsive-recovers,
}
use wslpad.Base.Results.{ok}
use wslpad.Snapshot.{DistroSummary, DistroState}
use wslpad.Store.Selection.{StoreState, initial, initialize, collect_list, set_distro}
use wslpad.Store.Tiers.{Capture, capture, ports}
use wslpad.Store.Events.{starts, lists, picks, begins, collects, step, held_after, Reaches}
use wslpad.Store.Consistent.{IsConsistent}
use wslpad.Store.Captures.{Reaches-IsConsistent}
use wslpad.Store.Failures.{IsTracked, AreLatest, others, runner_failures-IsTracked}

-- It answered at 1000, and failed twice since.
abbrev replies : History
replies = (false, 9000) ∷ (false, 4000) ∷ (true, 1000) ∷ []

gate_run : distro_responsive true false 18999 (after replies) ≡ answered false
unfolding distro_responsive after run_probe fresh_probe backoff
gate_run = refl

distro_responsive-after_example :
    (distro_responsive true false 18999 (after replies) ≡ gate_of (relies_on replies 18999) false)
    × (answering (after replies) ≡ latest replies)
    × ((after replies).failures ≡ failed_run replies)
    × ((after replies).last_alive_at ≡ last_success replies)
distro_responsive-after_example = distro_responsive-after replies false 18999

backoff-doubles_example :
    (backoff 1 ≡ 5000)
    × (backoff 4 ≡ min (2 * backoff 3) 60000)
    × (5000 ≤ backoff 3)
    × (backoff 3 ≤ 60000)
backoff-doubles_example = backoff-doubles 2

runner_failures-IsTracked_example :
    IsTracked (note_runner_failure (lit "dns") (lit "ports" ∷ []))
    × IsTracked (clear_runner_failure (lit "dns") (lit "ports" ∷ []))
    × AreLatest
        (others (lit "dns") (lit "ports" ∷ []) ++ lit "dns" ∷ [])
        (note_runner_failure (lit "dns") (lit "ports" ∷ []))
    × (clear_runner_failure (lit "dns") (lit "ports" ∷ []) ≡ others (lit "dns") (lit "ports" ∷ []))
runner_failures-IsTracked_example =
    runner_failures-IsTracked (lit "dns") (lit "ports" ∷ []) (short, (refl, tt))
  where
    short : 1 ≤ 20
    short = omega arith

abbrev debian : DistroSummary
debian = record {
  name = lit "Debian";
  state = DistroState.running;
  wsl_version = 2;
  is_default = true;
}

abbrev ubuntu : DistroSummary
ubuntu = record debian { name = lit "Ubuntu"; is_default = false }

abbrev both : List DistroSummary
both = debian ∷ ubuntu ∷ []

abbrev listed : StoreState
listed = step (starts (ok both)) initial

abbrev held : Capture
held = record { distro = lit "Debian"; selection = 1 }

listed_run :
    (listed.selected ≡ some (lit "Debian")) × ((step (lists (ok [])) listed).selected ≡ none)
unfolding step initialize collect_list lit same
listed_run = (refl, refl)

-- A refresh of Debian begins, Ubuntu is chosen, and then Debian's ports arrive.
abbrev late : StoreState
late =
    step (collects held (lit "ports") (ports [])) (step (picks (lit "Ubuntu")) (step begins listed))

late_run : late.selected ≡ some (lit "Ubuntu")
unfolding step initialize collect_list set_distro assert_valid_distro_name lit same
late_run = refl

Reaches-IsConsistent_example : IsConsistent late
unfolding step held_after initialize collect_list capture set_distro lit same
Reaches-IsConsistent_example = Reaches-IsConsistent (
    Reaches.next (collects held (lit "ports") (ports [])) (inl refl, tt)
      (Reaches.next (picks (lit "Ubuntu")) tt
        (Reaches.next begins tt (Reaches.next (starts (ok both)) tt Reaches.start))))

distro_responsive-recovers_example :
    (distro_responsive true false 70000 (after ((false, 7) ∷ [])) ≡ started)
    × (distro_responsive true false 70000 (after ((true, 70000) ∷ (false, 7) ∷ [])) ≡ answered true)
    × (answering (after ((true, 70000) ∷ (false, 7) ∷ [])) ≡ some true)
distro_responsive-recovers_example = distro_responsive-recovers false 7 70000 [] (omega arith)
