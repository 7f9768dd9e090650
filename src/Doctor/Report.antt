-- ===== src/Doctor/Report.antt =====
-- src/shared/doctor.ts: the masked report, and the whole examination. The time of the report is a
-- parameter.
use wslpad.Base.{
  ℕ, suc, ◌-◌, Bool, true, false, not, ◌&&◌, ◌||◌, Text, lit, List, [], ◌∷◌, ◌++◌, Option, none,
  some, select, length, starts_with, drop, join, show, ◌==◌, if◌then◌else◌,
}
use wslpad.Doctor.{
  DoctorVerdict, healthy, warning, error, unknown, DoctorCheckResult, DashboardSnapshot, truthy,
}
use wslpad.Doctor.Workspace.{
  check_project_path, check_binary_shadowing, check_path_duplication, check_git_ssh_config,
}
use wslpad.Doctor.Network.{check_dns, check_port_firewall}
use wslpad.Doctor.Runtime.{check_vs_code_server, check_clock_skew, check_systemd_docker}

abbrev masked_value : Text
masked_value = lit "••••••••"

-- Where a global replacement stands: outside a match, before the last units of the prefix, or in the
-- run of units behind it.
pub data Scan : Type 0 where
  outside : Scan
  in_prefix : ℕ → Scan
  in_run : Scan

-- At least one unit of the run follows.
abbrev runs_on : (ℕ → Bool) → Text → Bool
runs_on stops [] = false
runs_on stops (c ∷ s) = not (stops c)

module _ (prefix : Text) (stops : ℕ → Bool) where
  abbrev matches : Text → Bool
  matches s = starts_with s prefix && runs_on stops (drop (length prefix) s)

  unfoldable pub scan : Scan → Text → Text
  unfolding starts_with
  scan mode [] = []
  scan outside (c ∷ s) =
      let plain = scan outside s in
      let matched = scan (in_prefix (length prefix - 1)) s in
      if matches (c ∷ s) then prefix ++ (masked_value ++ matched) else c ∷ plain
  scan (in_prefix (suc n)) (c ∷ s) = scan (in_prefix n) s
  scan (in_prefix ℕ.zero) (c ∷ s) = scan in_run s
  scan in_run (c ∷ s) =
      let plain = scan outside s in
      let matched = scan (in_prefix (length prefix - 1)) s in
      let run = scan in_run s in
      if not (stops c)
      then run
      else if matches (c ∷ s)
      then prefix ++ (masked_value ++ matched)
      else c ∷ plain

-- `text.replace(/<prefix>[^<stops>]+/g, prefix + MASKED_VALUE)`.
unfoldable pub mask_after : Text → (ℕ → Bool) → Text → Text
unfolding scan
mask_after prefix stops text = scan prefix stops outside text

abbrev space_or : ℕ → ℕ → Bool
space_or u c = c == 32 || c == u

unfoldable pub mask_evidence : Text → Text
unfolding mask_after
mask_evidence evidence = mask_after (lit "\\\\wsl.localhost\\\\") (space_or 92) (
    mask_after (lit "C:\\\\Users\\\\") (space_or 92)
      (mask_after (lit "/home/") (space_or b'/') evidence))

abbrev verdict_icon : DoctorVerdict → Text
verdict_icon healthy = lit "✅"
verdict_icon warning = lit "⚠\u{fe0f}"
verdict_icon error = lit "❌"
verdict_icon unknown = lit "❓"

abbrev verdict_text : DoctorVerdict → Text
verdict_text healthy = lit "healthy"
verdict_text warning = lit "warning"
verdict_text error = lit "error"
verdict_text unknown = lit "unknown"

abbrev pub same_verdict : DoctorVerdict → DoctorVerdict → Bool
same_verdict healthy healthy = true
same_verdict warning warning = true
same_verdict error error = true
same_verdict unknown unknown = true
same_verdict _ _ = false

abbrev command_lines : Option Text → List Text
command_lines command =
    if truthy command
    then (lit "**Suggested command:** `" ++ (elim command [ none ↦ [] | some c ↦ c ] ++ lit "`"))
      ∷ []
    else []

abbrev check_lines : DoctorCheckResult → List Text
check_lines check =
    (lit "## " ++ (verdict_icon check.verdict ++ (lit " " ++ check.title)))
    ∷ []
    ∷ (lit "**Verdict:** " ++ verdict_text check.verdict)
    ∷ (lit "**Evidence:** " ++ mask_evidence check.evidence)
    ∷ (command_lines check.command ++ ([] ∷ []))

unfoldable pub all_lines : List DoctorCheckResult → List Text
unfolding mask_evidence
all_lines [] = []
all_lines (check ∷ checks) = check_lines check ++ all_lines checks

unfoldable pub count : DoctorVerdict → List DoctorCheckResult → ℕ
count verdict checks = length (select (λ c. same_verdict c.verdict verdict) checks)

abbrev summary_line : List DoctorCheckResult → Text
summary_line checks =
    lit "✅ "
    ++ (show (count healthy checks)
        ++ (lit " healthy · ⚠\u{fe0f} "
            ++ (show (count warning checks)
                ++ (lit " warning · ❌ "
                    ++ (show (count error checks)
                        ++ (lit " error · ❓ "
                            ++ (show (count unknown checks) ++ lit " unknown")))))))

unfoldable pub build_masked_markdown : Text → List DoctorCheckResult → Text → Text
unfolding all_lines count
build_masked_markdown now checks distro_name = join (10 ∷ []) (
    lit "# WSLPad Environment Doctor Report"
    ∷ []
    ∷ (lit "**Distribution:** " ++ distro_name)
    ∷ (lit "**Generated:** " ++ now)
    ∷ []
    ∷ (all_lines checks ++ (lit "## Summary" ∷ [] ∷ summary_line checks ∷ [])))

pub record DoctorReport : Type 0 where
  pub generated_at : Text
  pub checks : List DoctorCheckResult
  pub masked_markdown : Text

unfoldable pub all_checks : DashboardSnapshot → List DoctorCheckResult
all_checks dash =
    check_project_path dash
    ∷ check_binary_shadowing dash
    ∷ check_path_duplication dash
    ∷ check_git_ssh_config dash
    ∷ check_dns dash
    ∷ check_port_firewall dash
    ∷ check_vs_code_server dash
    ∷ check_clock_skew dash
    ∷ check_systemd_docker dash
    ∷ []

-- The times are those of the report and of the text in it.
unfoldable pub run_doctor : Text → Text → DashboardSnapshot → DoctorReport
unfolding all_checks build_masked_markdown
run_doctor now printed_at dash = record {
  generated_at = now;
  checks = all_checks dash;
  masked_markdown = build_masked_markdown printed_at (all_checks dash) dash.distro.name;
}
