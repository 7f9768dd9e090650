-- ===== src/Tests/Transfers.antt =====
-- Runs of src/main/explorer/operations.ts and transfer.ts with a distribution that logs its commands.
use wslpad.Base.{
  ℕ, ◌≡◌, ◌≢◌, refl, Bool, true, false, Text, lit, List, [], ◌∷◌, ◌++◌, Option, some, All,
  All-append, starts_with,
}
use wslpad.Base.Results.{Result, ok}
use wslpad.Shell.{shell_quote, assert_valid_linux_path}
use wslpad.Explorer.Outcomes.{RunResult}
use wslpad.Explorer.Loops.{begin}
use wslpad.Explorer.Loops.Reports.{IsReported}
use wslpad.Explorer.Operations.{run_copy_move, remove_entries}
use wslpad.Explorer.Operations.Commands.{Outlives, remove_entries-keeps}
use wslpad.Explorer.Operations.Attempts.{attempts, run_copy_move-attempts}
use wslpad.Explorer.Loops.Quiet.{run_copy_move-IsReported}
use wslpad.Explorer.Transfer.{run_import, run_export, resolve_windows_path}
use wslpad.Explorer.Transfer.Ends.{Exports, run_import-IsReported, run_export-Exports}
use wslpad.Explorer.Transfer.Ahead.{IsCovered}
use wslpad.Explorer.Transfer.Bytes.{transfers-IsCovered}

abbrev success : RunResult
success = record { stdout = lit "4096\n"; stderr = []; code = some 0; timed_out = false }

abbrev logging : Text → Text → Option ℕ → List Text → Result Text RunResult × List Text
logging distro script limit log = (ok success, log ++ script ∷ [])

-- Cancelled once a command has run.
abbrev once : List Text → Bool
once [] = false
once (script ∷ log) = true

abbrev sources : List Text
sources = lit "/home/me/a" ∷ lit "b" ∷ []

abbrev distro : Text
distro = lit "Ubuntu"

run_copy_move-IsReported_example :
    IsReported
      (begin [])
      (run_copy_move logging distro once (lit "op") sources (lit "/tmp") true [])
      2
run_copy_move-IsReported_example =
    run_copy_move-IsReported logging distro once (lit "op") sources (lit "/tmp") true []

run_copy_move-attempts_example :
    let final =
      run_copy_move logging distro (λ _. false) (lit "op") sources (lit "/tmp") false [] in
    (final.errors ≡ (attempts logging distro false (lit "/tmp") sources []).0)
    × (final.world ≡ (attempts logging distro false (lit "/tmp") sources []).1)
run_copy_move-attempts_example =
    run_copy_move-attempts logging distro false (lit "/tmp") (lit "op") sources []

tmp_valid : assert_valid_linux_path (lit "/tmp") ≡ ok tt
unfolding assert_valid_linux_path starts_with lit
tmp_valid = refl

run_import-IsReported_example :
    ((run_import logging distro once (lit "op") sources (lit "/tmp") []).0 ≡ ok tt)
    × IsReported (begin []) (run_import logging distro once (lit "op") sources (lit "/tmp") []).1 2
run_import-IsReported_example =
    run_import-IsReported logging distro once (lit "op") sources (lit "/tmp") [] tmp_valid

run_export-Exports_example :
    Exports logging distro
      (run_export logging distro once (lit "op") sources (lit "C:\\out") [])
      2
      []
      (resolve_windows_path logging distro (lit "C:\\out") (begin [])).0
run_export-Exports_example =
    run_export-Exports logging distro once (lit "op") sources (lit "C:\\out") []

transfers-IsCovered_example :
    All IsCovered (run_import logging distro once (lit "op") sources (lit "/tmp") []).1.emitted
    × All IsCovered (run_export logging distro once (lit "op") sources (lit "/tmp") []).emitted
transfers-IsCovered_example =
    transfers-IsCovered logging distro once (lit "op") sources (lit "/tmp") []

-- A logged command removes one valid path that is not the root.
abbrev Removal : Text → Type 0
Removal script =
    (path : Text) × (script ≡ lit "rm -rf " ++ shell_quote path)
    × (assert_valid_linux_path path ≡ ok tt)
    × (path ≢ lit "/")

log-Outlives : Outlives logging distro (All Removal)
log-Outlives path log valid other h = All-append Removal log _ h ((path, refl, valid, other), tt)

remove_entries-keeps_example :
    All Removal (remove_entries logging distro (lit "/home/me/a" ∷ lit "/" ∷ []) (begin [])).1.world
remove_entries-keeps_example =
    remove_entries-keeps logging distro (All Removal) (lit "/home/me/a" ∷ lit "/" ∷ []) (begin [])
      log-Outlives tt
