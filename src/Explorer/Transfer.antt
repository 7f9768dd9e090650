-- ===== src/Explorer/Transfer.antt =====
-- src/main/explorer/transfer.ts: transfers between Windows and a distribution.
pub mod Ends
pub mod Ahead
pub mod Bytes
use wslpad.Base.{
  ℕ, ◌+◌, Bool, true, false, ◌&&◌, ◌||◌, not, Text, lit, List, [], ◌∷◌, ◌++◌, Option, none, some,
  length, leb, has, any, every, select, split, trim, includes, to_lower, starts_with, is_empty,
  if◌then◌else◌,
}
use wslpad.Base.Int.{ℤ, pos, negsuc}
use wslpad.Base.Results.{Result, ok, err}
use wslpad.Shell.{shell_quote}
use wslpad.WslConfig.Versions.{parse_int}
use wslpad.Explorer.Paths.{
  join_linux_path, linux_basename, windows_basename, convert_windows_to_linux,
}
use wslpad.Explorer.Outcomes.{RunResult, exits_with, failed, explorer_error_from_result}
use wslpad.Explorer.Loops.{
  Op, OpState, Step, import, export, running, error, begin, emit, push_error, ◌>>=◌, return, throw,
  valid_path, each,
}
use wslpad.Explorer.Operations.{run, command, blamed, push_if_failed, file_op_timeout_ms}

abbrev pub runner_slow_timeout_ms : ℕ
runner_slow_timeout_ms = 30000

-- `Number.isFinite(n) && n >= 0 ? n : null`.
abbrev non_negative : Option ℤ → Option ℕ
non_negative none = none
non_negative (some (pos n)) = some n
non_negative (some (negsuc n)) = none

abbrev is_blank_line : Text → Bool
is_blank_line line = is_empty (trim line)

abbrev is_preserve_warning : Text → Bool
is_preserve_warning line =
    includes (to_lower line) (lit "preserv")
    || includes (to_lower line) (lit "operation not permitted")

-- Nothing but warnings about ownership and mode stands in the output.
unfoldable pub preserve_warnings_only : RunResult → Bool
preserve_warnings_only result =
    not (exits_with 0 result)
    && not (is_empty (trim result.stderr))
    && every is_preserve_warning (select (λ l. not (is_blank_line l)) (split 10 result.stderr))

abbrev pub transfer_op : Text → Bool → ℕ → Op
transfer_op op_id imports items = record {
  op_id = op_id;
  kind = if imports then import else export;
  total_items = items;
  counts_bytes = true;
}

abbrev pub size_script : Text → Text
size_script q =
    lit "if [ -d "
    ++ (q
        ++ (lit " ]; then du -sb "
            ++ (q ++ (lit " | cut -f1; else stat -Lc %s " ++ (q ++ lit "; fi")))))

module _ {S : Type 0} where
  unfoldable pub add_total : Option ℕ → Op → Text → OpState S → OpState S
  unfolding emit
  add_total none op item st = st
  add_total (some size) op item st =
      emit op running (some item) none (record st { total_bytes = st.total_bytes + size })

  unfoldable pub add_done : Option ℕ → OpState S → OpState S
  add_done none st = st
  add_done (some size) st = record st { done_bytes = st.done_bytes + size }

  module _ (run_in_distro : Text → Text → Option ℕ → S → Result Text RunResult × S)
      (distro : Text) where
    abbrev unmappable : Text → Text
    unmappable path = lit "Path is not mappable into " ++ (distro ++ (lit ": " ++ path))

    abbrev mapped_or_throw : Text → RunResult → Step S Text
    mapped_or_throw path result =
        let mapped = trim result.stdout in
        if exits_with 0 result && starts_with mapped (lit "/")
        then return mapped
        else throw (unmappable path)

    abbrev resolve_with : Text → Option Text → Step S Text
    resolve_with path (some direct) = return direct
    resolve_with path none =
        if not (has 0 path) && not (has 10 path)
        then run run_in_distro distro (lit "wslpath -u " ++ shell_quote path) none
          >>= mapped_or_throw path
        else throw (unmappable path)

    unfoldable pub resolve_windows_path : Text → Step S Text
    unfolding run
    resolve_windows_path path = resolve_with path (convert_windows_to_linux distro path)

    unfoldable pub size_of_path : Text → Step S (Option ℕ)
    unfolding run
    size_of_path path =
        run run_in_distro distro (size_script (shell_quote path)) (some runner_slow_timeout_ms)
        >>= (λ result.
            return (if failed result then none else non_negative (parse_int (trim result.stdout))))

    abbrev copied_or_not : Option ℕ → Text → Text → RunResult → OpState S → OpState S
    copied_or_not size dest source result st =
        if failed result
        then push_error (explorer_error_from_result (blamed dest source result) result).message st
        else add_done size st

    -- The body of `try` in `runImport`.
    unfoldable pub import_item : Op → Text → Text → Step S (Unit {0})
    unfolding run push_error
    import_item op dest_dir windows_path =
        let dest = join_linux_path dest_dir (windows_basename windows_path) in
        resolve_windows_path windows_path >>= (λ source. size_of_path source >>= (λ size st.
          (run run_in_distro distro (command false source (shell_quote dest))
                (some file_op_timeout_ms)
              >>= (λ result st2. (ok tt, copied_or_not size dest source result st2)))
            (add_total size op windows_path st)))

    -- A thrown error of the guard leaves no report at all.
    unfoldable pub run_import :
        (S → Bool) → Text → List Text → Text → S → Result Text (Unit {0}) × OpState S
    unfolding each import_item
    run_import is_cancelled op_id windows_paths dest_dir s =
        let op = transfer_op op_id true (length windows_paths) in
        (valid_path dest_dir
            >>= (λ _ st. (ok tt, each op (import_item op dest_dir) is_cancelled windows_paths st)))
          (begin s)

    -- Warnings about ownership alone do not make a failure of an exported item.
    abbrev exported_or_not : Option ℕ → Text → Text → RunResult → OpState S → OpState S
    exported_or_not size dest source result st =
        if result.timed_out || (not (exits_with 0 result) && not (preserve_warnings_only result))
        then push_error (explorer_error_from_result (blamed dest source result) result).message st
        else add_done size st

    -- The body of `try` in `runExport`.
    unfoldable pub export_item : Op → Text → Text → Step S (Unit {0})
    unfolding run push_error
    export_item op dest_dir path =
        let dest = join_linux_path dest_dir (linux_basename path) in
        valid_path path >>= (λ _. size_of_path path >>= (λ size st.
          (run run_in_distro distro (command false path (shell_quote dest))
                (some file_op_timeout_ms)
              >>= (λ result st2. (ok tt, exported_or_not size dest path result st2)))
            (add_total size op path st)))

    abbrev export_into : (S → Bool) → Op → List Text → Result Text Text × OpState S → OpState S
    export_into is_cancelled op paths (err message, st) = emit op error none (some message) st
    export_into is_cancelled op paths (ok dest_dir, st) =
        each op (export_item op dest_dir) is_cancelled paths st

    unfoldable pub run_export : (S → Bool) → Text → List Text → Text → S → OpState S
    unfolding each export_item resolve_windows_path
    run_export is_cancelled op_id paths windows_dir s =
        let op = transfer_op op_id false (length paths) in
        export_into is_cancelled op paths (resolve_windows_path windows_dir (begin s))
