-- ===== src/Doctor/Verdicts.antt =====
-- What the verdicts of src/shared/doctor.ts rest on.
use wslpad.Base.{
  ◌≤◌, ◌<◌, ◌≡◌, ◌≢◌, refl, ◌⊎◌, inl, inr, Bool, true, false, Text, List, [], ◌∷◌, Option, none,
  some, arith, is_empty, if_elim, if◌then◌else◌, leb,
}
use wslpad.Base.Int.{ℤ, abs}
use wslpad.Doctor.{
  DoctorVerdict, healthy, warning, error, unknown, DoctorCheckResult, DockerInfo, ClockInfo,
  ServiceInfo, DashboardSnapshot, truthy,
}
use wslpad.Doctor.Runtime.{
  check_clock_skew, judge_clocks, judge_clock, judge_runtime, judge_skew, check_systemd_docker,
  judge_systemd, judge_docker, failed_services,
}

-- The skew of the clocks, when both were read.
abbrev pub skew_of : Option ClockInfo → Option ℤ
skew_of none = none
skew_of (some clock) = clock.skew_seconds

-- The verdict that a skew deserves.
abbrev pub ClockVerdict : Option ℤ → DoctorVerdict → Type 0
ClockVerdict none verdict = verdict ≡ unknown
ClockVerdict (some skew) healthy = abs skew ≤ 2
ClockVerdict (some skew) warning = (2 < abs skew) × (abs skew ≤ 30)
ClockVerdict (some skew) error = 30 < abs skew
ClockVerdict (some skew) unknown = ⊥

judge_skew-ClockVerdict : (skew : ℤ) → ClockVerdict (some skew) (judge_skew skew).verdict
unfolding judge_skew
judge_skew-ClockVerdict skew =
    if_elim (λ (c : DoctorCheckResult). ClockVerdict (some skew) c.verdict) (leb (abs skew) 2)
      (λ h. ground arith)
      (λ h.
        if_elim (λ (c : DoctorCheckResult). ClockVerdict (some skew) c.verdict) (leb (abs skew) 30)
          (λ k. (ground arith, ground arith)) (λ k. ground arith))

judge_clock-ClockVerdict : (skew : Option ℤ) → ClockVerdict skew (judge_clock skew).verdict
judge_clock-ClockVerdict none = refl
judge_clock-ClockVerdict (some skew) = judge_skew-ClockVerdict skew

-- What is known of systemd, of the failed services and of Docker for each verdict.
abbrev pub DockerDown : Option DockerInfo → Type 0
DockerDown none = ⊥
DockerDown (some docker) =
    (truthy docker.failure ≡ false)
    × (docker.cli_installed ≡ true)
    × (docker.daemon_running ≡ false)

abbrev pub DockerUnclear : Option DockerInfo → Type 0
DockerUnclear none = Unit
DockerUnclear (some docker) = truthy docker.failure ≡ true

abbrev pub DockerFine : Option DockerInfo → Type 0
DockerFine none = ⊥
DockerFine (some docker) =
    (truthy docker.failure ≡ false)
    × ((docker.cli_installed ≡ false) ⊎ (docker.daemon_running ≡ true))

abbrev pub SystemdVerdict :
    Option Bool → Option DockerInfo → List ServiceInfo → DoctorVerdict → Type 0
SystemdVerdict systemd docker failed error = (systemd ≢ none) × (failed ≢ [])
SystemdVerdict systemd docker failed warning =
    (failed ≡ []) × ((systemd ≡ some false) ⊎ ((systemd ≡ some true) × DockerDown docker))
SystemdVerdict systemd docker failed unknown =
    (systemd ≡ none) ⊎ ((systemd ≡ some true) × (failed ≡ []) × DockerUnclear docker)
SystemdVerdict systemd docker failed healthy =
    (systemd ≡ some true) × (failed ≡ []) × DockerFine docker

judge_docker-SystemdVerdict :
    (docker : Option DockerInfo) (enabled : Bool) (failed : List ServiceInfo)
    → failed ≡ []
    → SystemdVerdict
        (some enabled)
        docker
        failed
        (judge_docker docker (if enabled then healthy else warning)).1
unfolding judge_docker
judge_docker-SystemdVerdict none true failed h = inr (refl, h, tt)
judge_docker-SystemdVerdict none false failed h = (h, inl refl)
judge_docker-SystemdVerdict (some docker) true failed h =
    let P : Text × DoctorVerdict → Type 0 =
      λ x. SystemdVerdict (some true) (some docker) failed x.1 in
    if_elim P (truthy docker.failure) (λ f. inr (refl, h, f))
      (λ f.
        if_elim P docker.cli_installed
          (λ c.
            if_elim P docker.daemon_running (λ d. (refl, h, (f, inr d)))
              (λ d. (h, inr (refl, (f, c, d)))))
          (λ c. (refl, h, (f, inl c))))
judge_docker-SystemdVerdict (some docker) false failed h =
    let P : Text × DoctorVerdict → Type 0 =
      λ x. SystemdVerdict (some false) (some docker) failed x.1 in
    if_elim P (truthy docker.failure) (λ f. (h, inl refl))
      (λ f.
        if_elim P docker.cli_installed
          (λ c. if_elim P docker.daemon_running (λ d. (h, inl refl)) (λ d. (h, inl refl)))
          (λ c. (h, inl refl)))

nothing_failed : (xs : List ServiceInfo) → is_empty xs ≡ true → xs ≡ []
nothing_failed [] h = refl
nothing_failed (x ∷ xs) h = cc

something_failed : (xs : List ServiceInfo) → is_empty xs ≡ false → xs ≢ []
something_failed [] h = cc
something_failed (x ∷ xs) h = λ e. cc

judge_runtime-SystemdVerdict :
    (systemd : Option Bool) (docker : Option DockerInfo) (services : List ServiceInfo)
    → SystemdVerdict systemd docker
        (failed_services services)
        (judge_runtime systemd docker services).verdict
unfolding judge_systemd
judge_runtime-SystemdVerdict none docker services = inl refl
judge_runtime-SystemdVerdict (some enabled) docker services =
    if_elim
      (λ (c : DoctorCheckResult).
        SystemdVerdict (some enabled) docker (failed_services services) c.verdict)
      (is_empty (failed_services services))
      (λ h.
        judge_docker-SystemdVerdict docker enabled (failed_services services) (nothing_failed _ h))
      (λ h. ((λ e. cc), something_failed _ h))

-- The verdict on the runtimes is an error just when systemd's state is known and some listed service
-- has failed; a warning when none has and systemd is off, or is on with a Docker command line without
-- its daemon; unknown when systemd's state was not collected, or is on while Docker was not
-- collected or could not be read; and healthy when systemd is on, no listed service has failed, and
-- Docker was read and is absent or runs. Whether the services were ever collected changes nothing: a
-- list that was never read counts as one without failures.
pub check_systemd_docker-SystemdVerdict :
    (dash : DashboardSnapshot) (collected : Bool)
    → SystemdVerdict dash.system.systemd_enabled dash.docker
        (failed_services dash.services)
        (check_systemd_docker dash).verdict
      × (check_systemd_docker (record dash { services_collected = collected })
          ≡ check_systemd_docker dash)
unfolding check_systemd_docker
check_systemd_docker-SystemdVerdict dash collected =
    (judge_runtime-SystemdVerdict dash.system.systemd_enabled dash.docker dash.services, refl)

judge_clocks-ClockVerdict :
    (clock : Option ClockInfo) → ClockVerdict (skew_of clock) (judge_clocks clock).verdict
judge_clocks-ClockVerdict none = refl
judge_clocks-ClockVerdict (some clock) = judge_clock-ClockVerdict clock.skew_seconds

-- The verdict on the clocks is unknown just when no skew was calculated, healthy for a skew of at
-- most 2 seconds either way, a warning above that and up to 30, and an error beyond.
pub check_clock_skew-ClockVerdict :
    (dash : DashboardSnapshot) → ClockVerdict (skew_of dash.clock) (check_clock_skew dash).verdict
unfolding check_clock_skew
check_clock_skew-ClockVerdict dash = judge_clocks-ClockVerdict dash.clock
