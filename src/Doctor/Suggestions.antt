-- ===== src/Doctor/Suggestions.antt =====
-- The commands that the report of src/shared/doctor.ts prepares.
use wslpad.Base.{
  ltb, if◌then◌else◌, ◌≡◌, refl, ap₂, Bool, not, Text, lit, List, [], ◌∷◌, Option, none, some,
  arith, select, if_elim, map, leb, find, same,
}
use wslpad.Base.Int.{ℤ, abs}
use wslpad.Ports.{FirewallInfo, PortInfo}
use wslpad.Doctor.{
  DoctorCheckResult, DashboardSnapshot, EnvironmentVariableInfo, ToolInfo, ConfigurationFileInfo,
  DnsInfo, ClockInfo, DockerInfo, ServiceInfo,
}
use wslpad.Doctor.Workspace.{
  judge_found, judge_pwd, check_binary_shadowing, judge_variable, judge_path, judge_files,
  judge_git, judge_tool, check_project_path, check_path_duplication, check_git_ssh_config,
}
use wslpad.Doctor.Network.{
  judge_resolver, judge_dns, judge_ports, judge_firewall, check_dns, check_port_firewall,
}
use wslpad.Doctor.Runtime.{
  check_vs_code_server, judge_runtime, judge_systemd, judge_skew, judge_clock, judge_clocks,
  check_clock_skew, check_systemd_docker,
}
use wslpad.Doctor.Report.{run_doctor, all_checks}

-- A check that only tells.
abbrev Tells : Text → DoctorCheckResult → Type 0
Tells id c = (c.id ≡ id) × (c.command ≡ none)

-- The shutdown of WSL is prepared when the clocks are known to differ by more than 2 seconds.
abbrev pub shutdown_for : Option ℤ → Option Text
shutdown_for none = none
shutdown_for (some skew) = if ltb 2 (abs skew) then some (lit "wsl.exe --shutdown") else none

abbrev pub skew_of : Option ClockInfo → Option ℤ
skew_of none = none
skew_of (some clock) = clock.skew_seconds

abbrev Clocked : Option ℤ → DoctorCheckResult → Type 0
Clocked skew c = (c.id ≡ lit "clock-skew") × (c.command ≡ shutdown_for skew)

cong_list : {A : Type 0} {x y : A} {xs ys : List A} → x ≡ y → xs ≡ ys → x ∷ xs ≡ y ∷ ys
cong_list = ap₂ (λ x xs. x ∷ xs)

-- What a check is, and the command it prepares.
abbrev pub prepared : DoctorCheckResult → Text × Option Text
prepared c = (c.id, c.command)

abbrev entry : Text → Option Text → Text × Option Text
entry id command = (id, command)

pair :
    {id id' : Text} {command command' : Option Text}
    → (id ≡ id') × (command ≡ command')
    → entry id command ≡ entry id' command'
pair (e, f) = ap₂ entry e f

judge_found-Tells :
    (found : Option EnvironmentVariableInfo) → Tells (lit "project-path") (judge_found found)
unfolding judge_pwd
judge_found-Tells none = (refl, refl)
judge_found-Tells (some pwd) = (ground arith, ground arith)

shadowing-Tells :
    (dash : DashboardSnapshot) → Tells (lit "binary-shadowing") (check_binary_shadowing dash)
unfolding check_binary_shadowing
shadowing-Tells dash = (ground arith, ground arith)

judge_variable-Tells :
    (found : Option EnvironmentVariableInfo) → Tells (lit "path-duplication") (judge_variable found)
unfolding judge_path
judge_variable-Tells none = (refl, refl)
judge_variable-Tells (some variable) = (ground arith, ground arith)

judge_files-Tells :
    (git : ToolInfo) (config ssh : Option ConfigurationFileInfo)
    → Tells (lit "git-ssh-config") (judge_files git config ssh)
unfolding judge_git
judge_files-Tells git none ssh = (refl, refl)
judge_files-Tells git (some config) none = (refl, refl)
judge_files-Tells git (some config) (some ssh) = (ground arith, ground arith)

judge_tool-Tells :
    (git : Option ToolInfo) (config ssh : Option ConfigurationFileInfo)
    → Tells (lit "git-ssh-config") (judge_tool git config ssh)
judge_tool-Tells none config ssh = (refl, refl)
judge_tool-Tells (some git) config ssh =
    if_elim (Tells (lit "git-ssh-config")) (not git.installed) (λ _. (refl, refl))
      (λ _. judge_files-Tells git config ssh)

judge_resolver-Tells : (dns : Option DnsInfo) → Tells (lit "dns-config") (judge_resolver dns)
unfolding judge_dns
judge_resolver-Tells none = (refl, refl)
judge_resolver-Tells (some dns) = (ground arith, ground arith)

judge_ports-Tells :
    (firewall : Option FirewallInfo) (listening : List PortInfo)
    → Tells (lit "port-firewall") (judge_ports firewall listening)
unfolding judge_firewall
judge_ports-Tells none listening = (refl, refl)
judge_ports-Tells (some firewall) listening = (ground arith, ground arith)

vscode-Tells : (dash : DashboardSnapshot) → Tells (lit "vscode-server") (check_vs_code_server dash)
unfolding check_vs_code_server
vscode-Tells dash = (ground arith, ground arith)

judge_runtime-Tells :
    (systemd : Option Bool) (docker : Option DockerInfo) (services : List ServiceInfo)
    → Tells (lit "systemd-docker") (judge_runtime systemd docker services)
unfolding judge_systemd
judge_runtime-Tells none docker services = (refl, refl)
judge_runtime-Tells (some enabled) docker services = (ground arith, ground arith)

judge_skew-Clocked : (skew : ℤ) → Clocked (some skew) (judge_skew skew)
unfolding judge_skew
judge_skew-Clocked skew =
    if_elim (Clocked (some skew)) (leb (abs skew) 2) (λ h. (refl, ground arith))
      (λ h.
        if_elim (Clocked (some skew)) (leb (abs skew) 30) (λ _. (refl, ground arith))
          (λ _. (refl, ground arith)))

judge_clock-Clocked : (skew : Option ℤ) → Clocked skew (judge_clock skew)
judge_clock-Clocked none = (refl, refl)
judge_clock-Clocked (some skew) = judge_skew-Clocked skew

judge_clocks-Clocked : (clock : Option ClockInfo) → Clocked (skew_of clock) (judge_clocks clock)
judge_clocks-Clocked none = (refl, refl)
judge_clocks-Clocked (some clock) = judge_clock-Clocked clock.skew_seconds

-- Every report has the nine checks, each once and in the same order, whatever was collected. Eight of
-- them never prepare a command. The check of the clocks prepares the shutdown of WSL, and does so just
-- when a skew was calculated and is above 2 seconds either way.
pub run_doctor-commands :
    (now printed_at : Text) (dash : DashboardSnapshot)
    → map prepared (run_doctor now printed_at dash).checks
      ≡ (lit "project-path", none)
        ∷ (lit "binary-shadowing", none)
        ∷ (lit "path-duplication", none)
        ∷ (lit "git-ssh-config", none)
        ∷ (lit "dns-config", none)
        ∷ (lit "port-firewall", none)
        ∷ (lit "vscode-server", none)
        ∷ (lit "clock-skew", shutdown_for (skew_of dash.clock))
        ∷ (lit "systemd-docker", none)
        ∷ []
unfolding run_doctor all_checks check_project_path check_path_duplication check_git_ssh_config
    check_dns check_port_firewall check_clock_skew check_systemd_docker
run_doctor-commands now printed_at dash =
    let a = judge_found-Tells (find (λ e. same e.name (lit "PWD")) dash.environment) in
    let b = shadowing-Tells dash in
    let c = judge_variable-Tells (find (λ e. same e.name (lit "PATH")) dash.environment) in
    let file : Text → Option ConfigurationFileInfo =
      λ id. find (λ c. same c.id id) dash.configuration in
    let d =
      judge_tool-Tells (find (λ t. same t.id (lit "git")) dash.tools) (file (lit "gitconfig"))
        (file (lit "ssh-config")) in
    let e = judge_resolver-Tells dash.dns in
    let f = judge_ports-Tells dash.firewall (select (λ p. p.listening) dash.ports) in
    let g = vscode-Tells dash in
    let h = judge_clocks-Clocked dash.clock in
    let i = judge_runtime-Tells dash.system.systemd_enabled dash.docker dash.services in
    cong_list (pair a) (
      cong_list (pair b) (
        cong_list (pair c) (
          cong_list (pair d) (
            cong_list (pair e) (
              cong_list (pair f)
                (cong_list (pair g) (cong_list (pair h) (cong_list (pair i) refl))))))))
