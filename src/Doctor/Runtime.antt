-- ===== src/Doctor/Runtime.antt =====
-- src/shared/doctor.ts: the checks of the VS Code server, of the clock, and of systemd and Docker.
use wslpad.Base.{
  ℕ, ◌*◌, ◌/◌, ◌%◌, Bool, not, ◌||◌, Text, lit, List, [], ◌∷◌, ◌++◌, Option, none, some, select,
  length, includes, same, join, show, map, is_empty, or_else, ltb, leb, if◌then◌else◌,
}
use wslpad.Base.Int.{ℤ, abs}
use wslpad.Doctor.{
  DoctorVerdict, healthy, warning, error, unknown, DoctorCheckResult, ProcessInfo, ClockInfo,
  DockerInfo, ServiceInfo, DashboardSnapshot, truthy, show_ℤ,
}

abbrev vscode_result : DoctorVerdict → Text → DoctorCheckResult
vscode_result verdict evidence = record {
  id = lit "vscode-server";
  title = lit "VS Code Server state";
  verdict = verdict;
  evidence = evidence;
  command = none;
}

abbrev is_vscode : ProcessInfo → Bool
is_vscode p =
    includes p.command (lit ".vscode-server")
    || includes p.command (lit "vscode-server")
    || includes p.command (lit "code-server")

-- `cpuPercent.toFixed(1)`.
abbrev percent : ℕ → Text
percent tenths = show (tenths / 10) ++ (b'.' ∷ show (tenths % 10))

abbrev busy_text : ProcessInfo → Text
busy_text p = lit "PID " ++ (show p.pid ++ (lit " (" ++ (percent p.cpu_tenths ++ lit "% CPU)")))

unfoldable pub check_vs_code_server : DashboardSnapshot → DoctorCheckResult
check_vs_code_server dash =
    let servers = select is_vscode dash.processes in
    let busy = select (λ p. ltb 800 p.cpu_tenths) servers in
    let old = select (λ p. ltb (7 * 86400) p.elapsed_seconds) servers in
    if is_empty servers
    then vscode_result unknown (lit "No VS Code Server processes detected in the process list.")
    else if not (is_empty busy)
    then vscode_result warning (
        show (length servers)
        ++ (lit " VS Code Server process(es) running; "
            ++ (show (length busy)
                ++ (lit " with high CPU: " ++ (join (lit ", ") (map busy_text busy) ++ lit ".")))))
    else if not (is_empty old)
    then vscode_result warning (
        show (length servers)
        ++ (lit " VS Code Server process(es) running; "
            ++ (show (length old) ++ lit " older than 7 days. Consider restarting the server.")))
    else vscode_result healthy
        (show (length servers) ++ lit " VS Code Server process(es) running normally.")

abbrev clock_result : DoctorVerdict → Text → Option Text → DoctorCheckResult
clock_result verdict evidence command = record {
  id = lit "clock-skew";
  title = lit "WSL clock skew";
  verdict = verdict;
  evidence = evidence;
  command = command;
}

abbrev pub shutdown : Text
shutdown = lit "wsl.exe --shutdown"

unfoldable pub judge_skew : ℤ → DoctorCheckResult
judge_skew skew =
    if leb (abs skew) 2
    then clock_result healthy
        (lit "WSL clock is within 2 s of Windows (skew: " ++ (show_ℤ skew ++ lit " s).")) none
    else if leb (abs skew) 30
    then clock_result warning
        (lit "WSL clock differs from Windows by "
          ++ (show_ℤ skew ++ lit " s. May cause TLS or certificate issues."))
        (some shutdown)
    else clock_result error
        (lit "WSL clock differs from Windows by "
          ++ (show_ℤ skew
              ++ lit " s. Will break TLS handshakes and package signature verification."))
        (some shutdown)

abbrev pub judge_clock : Option ℤ → DoctorCheckResult
judge_clock none =
    clock_result unknown (lit "Both clocks must be readable to calculate skew; one was null.") none
judge_clock (some skew) = judge_skew skew

abbrev pub judge_clocks : Option ClockInfo → DoctorCheckResult
judge_clocks none = clock_result unknown (lit "Clock comparison was not collected.") none
judge_clocks (some clock) = judge_clock clock.skew_seconds

unfoldable pub check_clock_skew : DashboardSnapshot → DoctorCheckResult
unfolding judge_skew
check_clock_skew dash = judge_clocks dash.clock

-- `if (verdict === 'healthy') verdict = 'unknown'`.
abbrev doubt : DoctorVerdict → DoctorVerdict
doubt healthy = unknown
doubt warning = warning
doubt error = error
doubt unknown = unknown

abbrev why_not : Option Text → Text
why_not reason = if truthy reason then lit " (" ++ (or_else reason [] ++ lit ")") else []

-- What Docker adds to the evidence, and the verdict after it.
unfoldable pub judge_docker : Option DockerInfo → DoctorVerdict → Text × DoctorVerdict
judge_docker none verdict = (lit "Docker state was not collected", doubt verdict)
judge_docker (some docker) verdict =
    if truthy docker.failure
    then (lit "Docker collector error: " ++ or_else docker.failure [], doubt verdict)
    else if docker.cli_installed
    then (if docker.daemon_running
        then (
          lit "Docker daemon running (server "
              ++ (or_else docker.server_version (lit "unknown") ++ lit ")"),
          verdict,
        )
        else (
          lit "Docker CLI installed but daemon not running" ++ why_not docker.not_probed,
          warning,
        ))
    else (lit "Docker CLI not installed (not applicable)", verdict)

abbrev systemd_result : DoctorVerdict → Text → DoctorCheckResult
systemd_result verdict evidence = record {
  id = lit "systemd-docker";
  title = lit "systemd/Docker/runtime readiness";
  verdict = verdict;
  evidence = evidence;
  command = none;
}

abbrev failed_text : List ServiceInfo → Text
failed_text failed =
    show (length failed)
    ++ (lit " failed service(s): " ++ join (lit ", ") (map (λ s. s.name) failed))

unfoldable pub failed_services : List ServiceInfo → List ServiceInfo
failed_services services = select (λ s. same s.active_state (lit "failed")) services

unfoldable pub judge_systemd : Bool → Option DockerInfo → List ServiceInfo → DoctorCheckResult
unfolding judge_docker failed_services
judge_systemd enabled docker services =
    let failed = failed_services services in
    let systemd = if enabled then lit "systemd is enabled" else lit "systemd is not enabled" in
    let judged = judge_docker docker (if enabled then healthy else warning) in
    if is_empty failed
    then systemd_result judged.1 (join (lit ". ") (systemd ∷ judged.0 ∷ []) ++ lit ".")
    else systemd_result error
        (join (lit ". ") (systemd ∷ judged.0 ∷ failed_text failed ∷ []) ++ lit ".")

abbrev pub judge_runtime : Option Bool → Option DockerInfo → List ServiceInfo → DoctorCheckResult
judge_runtime none docker services = systemd_result unknown (lit "systemd state was not collected.")
judge_runtime (some enabled) docker services = judge_systemd enabled docker services

unfoldable pub check_systemd_docker : DashboardSnapshot → DoctorCheckResult
unfolding judge_systemd
check_systemd_docker dash = judge_runtime dash.system.systemd_enabled dash.docker dash.services
