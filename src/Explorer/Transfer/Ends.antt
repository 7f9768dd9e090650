-- ===== src/Explorer/Transfer/Ends.antt =====
-- How the transfers of src/main/explorer/transfer.ts end.
use wslpad.Base.{
  Bool, true, false, ℕ, ◌≡◌, refl, ap, sym, subst, Text, lit, List, [], ◌∷◌, ◌++◌, Option, none,
  some, arith, if_elim, length, not, ◌&&◌, ◌||◌, has, trim, starts_with,
}
use wslpad.Base.Results.{Result, ok, err}
use wslpad.Shell.{assert_valid_linux_path}
use wslpad.Explorer.Paths.{convert_windows_to_linux}
use wslpad.Explorer.Outcomes.{RunResult, failed, exits_with}
use wslpad.Explorer.Loops.{
  Op, OpState, Step, FileOpProgress, error, begin, emit, push_error, ◌>>=◌, continue, rethrow,
  valid_path, each,
}
use wslpad.Explorer.Transfer.{
  add_total, add_done, resolve_with, mapped_or_throw, resolve_windows_path, size_of_path,
  copied_or_not, import_item, run_import, exported_or_not, export_item, export_into, run_export,
  transfer_op, preserve_warnings_only,
}
use wslpad.Explorer.Loops.Reports.{Climbs, report_at, IsQuiet, IsReported, begin-IsReported}
use wslpad.Explorer.Loops.Quiet.{
  silent, IsQuiet-trans, quiet-IsReported, >>=-IsQuiet, valid_path-IsQuiet, run-IsQuiet,
}

module _ {S : Type 0} where
  add_total-IsQuiet :
      (size : Option ℕ) (op : Op) (item : Text) (st : OpState S)
      → IsQuiet st (add_total size op item st)
  unfolding add_total emit
  add_total-IsQuiet none op item st = silent st st refl refl
  add_total-IsQuiet (some size) op item st = record {
    more = _;
    appended = refl;
    climbs = (refl, omega arith, omega arith);
    counts = refl;
  }

  add_done-IsQuiet : (size : Option ℕ) (st : OpState S) → IsQuiet st (add_done size st)
  unfolding add_done
  add_done-IsQuiet none st = silent st st refl refl
  add_done-IsQuiet (some size) st = silent st _ refl refl

  module _ (run_in_distro : Text → Text → Option ℕ → S → Result Text RunResult × S)
      (distro : Text) where
    mapped_or_throw-IsQuiet :
        (path : Text) (result : RunResult) (st : OpState S)
        → IsQuiet st (mapped_or_throw run_in_distro distro path result st).1
    mapped_or_throw-IsQuiet path result st =
        if_elim (λ (m : Step S Text). IsQuiet st (m st).1)
          (exits_with 0 result && starts_with (trim result.stdout) (lit "/"))
          (λ _. silent st st refl refl) (λ _. silent st st refl refl)

    resolve_with-IsQuiet :
        (path : Text) (direct : Option Text) (st : OpState S)
        → IsQuiet st (resolve_with run_in_distro distro path direct st).1
    resolve_with-IsQuiet path (some direct) st = silent st st refl refl
    resolve_with-IsQuiet path none st =
        if_elim (λ (m : Step S Text). IsQuiet st (m st).1) (not (has 0 path) && not (has 10 path))
          (λ _.
            >>=-IsQuiet _ _ _ (run-IsQuiet run_in_distro distro _ _ st)
              (λ result t. mapped_or_throw-IsQuiet path result t))
          (λ _. silent st st refl refl)

    resolve_windows_path-IsQuiet :
        (path : Text) (st : OpState S)
        → IsQuiet st (resolve_windows_path run_in_distro distro path st).1
    unfolding resolve_windows_path
    resolve_windows_path-IsQuiet path st =
        resolve_with-IsQuiet path (convert_windows_to_linux distro path) st

    size_of_path-IsQuiet :
        (path : Text) (st : OpState S) → IsQuiet st (size_of_path run_in_distro distro path st).1
    unfolding size_of_path
    size_of_path-IsQuiet path st =
        >>=-IsQuiet _ _ _ (run-IsQuiet run_in_distro distro _ _ st)
          (λ result t. silent t t refl refl)

    copied_or_not-IsQuiet :
        (size : Option ℕ) (dest source : Text) (result : RunResult) (st : OpState S)
        → IsQuiet st (copied_or_not run_in_distro distro size dest source result st)
    unfolding push_error
    copied_or_not-IsQuiet size dest source result st =
        if_elim (IsQuiet st) (failed result) (λ _. silent st _ refl refl)
          (λ _. add_done-IsQuiet size st)

    import_item-IsQuiet :
        (op : Op) (dest_dir path : Text) (st : OpState S)
        → IsQuiet st (import_item run_in_distro distro op dest_dir path st).1
    unfolding import_item
    import_item-IsQuiet op dest_dir path st =
        >>=-IsQuiet _ _ _ (resolve_windows_path-IsQuiet path st) (λ source s.
          >>=-IsQuiet _ _ _ (size_of_path-IsQuiet source s) (λ size t.
            IsQuiet-trans t (add_total size op path t) _ (add_total-IsQuiet size op path t) (
              >>=-IsQuiet _ _ _ (run-IsQuiet run_in_distro distro _ _ _)
                (λ result u. copied_or_not-IsQuiet size _ source result u))))

    exported_or_not-IsQuiet :
        (size : Option ℕ) (dest source : Text) (result : RunResult) (st : OpState S)
        → IsQuiet st (exported_or_not run_in_distro distro size dest source result st)
    unfolding push_error
    exported_or_not-IsQuiet size dest source result st =
        if_elim (IsQuiet st)
          (result.timed_out || (not (exits_with 0 result) && not (preserve_warnings_only result)))
          (λ _. silent st _ refl refl) (λ _. add_done-IsQuiet size st)

    export_item-IsQuiet :
        (op : Op) (dest_dir path : Text) (st : OpState S)
        → IsQuiet st (export_item run_in_distro distro op dest_dir path st).1
    unfolding export_item
    export_item-IsQuiet op dest_dir path st = >>=-IsQuiet _ _ _ (valid_path-IsQuiet path st) (λ _ s.
        >>=-IsQuiet _ _ _ (size_of_path-IsQuiet path s) (λ size t.
          IsQuiet-trans t (add_total size op path t) _ (add_total-IsQuiet size op path t) (
            >>=-IsQuiet _ _ _ (run-IsQuiet run_in_distro distro _ _ _)
              (λ result u. exported_or_not-IsQuiet size _ path result u))))

    -- An import into a valid directory returns, and ends with exactly one report that is not of work
    -- in progress, the last one: done, error with all the messages, or cancelled; the reports before
    -- it count up and never back. A failed item stops nothing.
    pub run_import-IsReported :
        (is_cancelled : S → Bool) (op_id : Text) (windows_paths : List Text) (dest_dir : Text)
        (s : S)
        → assert_valid_linux_path dest_dir ≡ ok tt
        → ((run_import run_in_distro distro is_cancelled op_id windows_paths dest_dir s).0 ≡ ok tt)
          × IsReported
              (begin s)
              (run_import run_in_distro distro is_cancelled op_id windows_paths dest_dir s).1
              (length windows_paths)
    unfolding run_import ◌>>=◌ valid_path
    run_import-IsReported is_cancelled op_id windows_paths dest_dir s valid =
        let op = transfer_op op_id true (length windows_paths) in
        let reported =
          begin-IsReported op (import_item run_in_distro distro op dest_dir) is_cancelled
            windows_paths (begin s) (length windows_paths) (omega arith)
            (λ item st. import_item-IsQuiet op dest_dir item st) in
        let go_on : Unit {0} → Step S (Unit {0}) = λ _ st. (
          ok tt,
          each op (import_item run_in_distro distro op dest_dir) is_cancelled windows_paths st,
        ) in
        subst
          (λ answer.
            ((continue (rethrow answer (begin s)) go_on).0 ≡ ok tt)
            × IsReported (begin s) (continue (rethrow answer (begin s)) go_on).1
                (length windows_paths))
          (sym valid) (refl, reported)

    -- The reports of an export whose directory is not mappable.
    pub record IsRefused (message : Text) (final : OpState S) : Type 0 where
      pub more : List FileOpProgress
      pub last : FileOpProgress
      pub appended : final.emitted ≡ more ++ last ∷ []
      pub climbs : Climbs 0 more 0
      pub status : last.status ≡ error
      pub none_done : last.done_items ≡ 0
      pub failure : last.failure ≡ some message

    -- What follows from the answer for the directory.
    abbrev pub Exports : OpState S → ℕ → S → Result Text Text → Type 0
    Exports final n s (ok dest_dir) = IsReported (begin s) final n
    Exports final n s (err message) = IsRefused message final

    export_into-Exports :
        (is_cancelled : S → Bool) (op_id : Text) (paths : List Text)
        (answer : Result Text Text × OpState S) (s : S)
        → IsQuiet (begin s) answer.1
        → Exports
            (export_into run_in_distro distro is_cancelled
              (transfer_op op_id false (length paths))
              paths
              answer)
            (length paths)
            s
            answer.0
    unfolding emit
    export_into-Exports is_cancelled op_id paths (ok dest_dir, st) s quiet =
        let op = transfer_op op_id false (length paths) in
        quiet-IsReported (begin s) st _ (length paths) quiet (
          begin-IsReported op (export_item run_in_distro distro op dest_dir) is_cancelled paths st
            (length paths) (omega (arith, quiet.counts))
            (λ item st. export_item-IsQuiet op dest_dir item st))
    export_into-Exports is_cancelled op_id paths (err message, st) s quiet = record {
      more = quiet.more;
      last = report_at (transfer_op op_id false (length paths)) error none (some message) st;
      appended =
          ap
            (λ xs.
              xs
              ++ report_at (transfer_op op_id false (length paths)) error none (some message) st
                ∷ [])
            quiet.appended;
      climbs = quiet.climbs;
      status = refl;
      none_done = quiet.counts;
      failure = refl;
    }

    -- An export whose directory maps into the distribution ends with exactly one report that is not
    -- of work in progress, the last one: done, error with all the messages, or cancelled, and the
    -- reports before it count up and never back. When the directory does not map, the last report
    -- is the error, with its message and no item done.
    pub run_export-Exports :
        (is_cancelled : S → Bool) (op_id : Text) (paths : List Text) (windows_dir : Text) (s : S)
        → Exports
            (run_export run_in_distro distro is_cancelled op_id paths windows_dir s)
            (length paths)
            s
            (resolve_windows_path run_in_distro distro windows_dir (begin s)).0
    unfolding run_export
    run_export-Exports is_cancelled op_id paths windows_dir s =
        export_into-Exports is_cancelled op_id paths
          (resolve_windows_path run_in_distro distro windows_dir (begin s)) s
          (resolve_windows_path-IsQuiet windows_dir (begin s))
