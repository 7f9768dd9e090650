-- ===== src/Store.antt =====
-- src/main/state/store.ts: the liveness gate of the store, and the list of the collectors that
-- failed. Times are milliseconds; the probe that asks a distribution is a call of the provider, and
-- its reply comes in as an event.
pub mod History
pub mod Failures
pub mod Selection
pub mod Tiers
pub mod Events
pub mod Captures
pub mod Consistent
use wslpad.Base.{
  ℕ, suc, ◌+◌, ◌-◌, ◌*◌, ◌^◌, min, Bool, true, false, not, ◌&&◌, Text, lit, List, [], ◌∷◌, ◌++◌,
  Option, none, some, ltb, leb, ◌==◌, length, drop, select, same, one_of, is_none, if◌then◌else◌,
}

pub record ProbeState : Type 0 where
  pub failures : ℕ
  pub last_alive_at : Option ℕ
  pub until : ℕ
  pub trusted_until : ℕ

unfoldable pub fresh_probe : ProbeState
fresh_probe = record { failures = 0; last_alive_at = none; until = 0; trusted_until = 0 }

abbrev pub probe_backoff_base_ms : ℕ
probe_backoff_base_ms = 5000

abbrev pub probe_backoff_max_ms : ℕ
probe_backoff_max_ms = 60000

abbrev pub probe_trust_ms : ℕ
probe_trust_ms = 2000

unfoldable pub backoff : ℕ → ℕ
backoff failures = min (probe_backoff_base_ms * 2 ^ (failures - 1)) probe_backoff_max_ms

-- What `runProbe` makes of the reply that came at `now`; a throw is no reply.
unfoldable pub run_probe : Bool → ℕ → ProbeState → ProbeState
unfolding backoff
run_probe true now probe = record {
  failures = 0;
  last_alive_at = some now;
  until = 0;
  trusted_until = now + probe_trust_ms;
}
run_probe false now probe = record {
  failures = suc probe.failures;
  last_alive_at = probe.last_alive_at;
  until = now + backoff (suc probe.failures);
  trusted_until = 0;
}

-- How a caller of `distroResponsive` gets its answer.
pub data Gate : Type 0 where
  answered : Bool → Gate
  joined : Gate
  started : Gate

-- `has_probe` says whether the provider can probe at all, `in_flight` whether a probe is on its way.
unfoldable pub distro_responsive : Bool → Bool → ℕ → ProbeState → Gate
distro_responsive has_probe in_flight now probe =
    if not has_probe
    then answered true
    else if ltb now probe.trusted_until
    then answered true
    else if ltb now probe.until
    then answered false
    else if in_flight
    then joined
    else started

-- The `answering` of `liveness()`.
unfoldable pub answering : ProbeState → Option Bool
answering probe =
    if is_none probe.last_alive_at && (probe.failures == 0)
    then none
    else some (probe.failures == 0)

abbrev pub max_tracked_runner_failures : ℕ
max_tracked_runner_failures = 20

-- `slice(-MAX_TRACKED_RUNNER_FAILURES)`.
abbrev pub newest : List Text → List Text
newest failures = drop (length failures - max_tracked_runner_failures) failures

abbrev pub without : Text → List Text → List Text
without command failures = select (λ c. not (same c command)) failures

-- The list that `noteRunnerFailure` and `clearRunnerFailure` leave.
unfoldable pub note_runner_failure : Text → List Text → List Text
note_runner_failure command failures =
    let noted = without command failures ++ command ∷ [] in
    if ltb max_tracked_runner_failures (length noted) then newest noted else noted

unfoldable pub clear_runner_failure : Text → List Text → List Text
clear_runner_failure command failures =
    if not (one_of command failures) then failures else without command failures
