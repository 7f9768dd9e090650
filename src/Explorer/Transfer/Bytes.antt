-- ===== src/Explorer/Transfer/Bytes.antt =====
-- The byte counts that the transfers of src/main/explorer/transfer.ts report.
use wslpad.Base.{
  Bool, true, false, ℕ, Text, lit, List, Option, none, some, arith, All, if_elim, if◌then◌else◌,
  length, not, ◌&&◌, has, trim, starts_with,
}
use wslpad.Base.Results.{Result, ok, err}
use wslpad.Shell.{shell_quote, assert_valid_linux_path}
use wslpad.Explorer.Paths.{
  convert_windows_to_linux, join_linux_path, linux_basename, windows_basename,
}
use wslpad.Explorer.Outcomes.{RunResult, failed, exits_with}
use wslpad.Explorer.Loops.{Op, OpState, Step, begin, push_error, valid_path}
use wslpad.Explorer.Operations.{run, command, file_op_timeout_ms}
use wslpad.Explorer.Transfer.{
  size_script, runner_slow_timeout_ms, add_total, add_done, resolve_with, mapped_or_throw,
  resolve_windows_path, size_of_path, import_item, run_import, export_item, export_into, run_export,
  transfer_op,
}
use wslpad.Explorer.Transfer.Ahead.{
  IsCovered, bytes_of, IsAhead, emit-IsAhead, >>=-from, weaken, each-IsAhead, add_total-IsAhead,
  add_done-IsAhead, rethrow-IsAhead,
}

module _ {S : Type 0} where
  module _ (run_in_distro : Text → Text → Option ℕ → S → Result Text RunResult × S)
      (distro : Text) where
    run-IsAhead :
        (n : ℕ) (script : Text) (limit : Option ℕ) (st : OpState S)
        → IsAhead n st
        → IsAhead n (run run_in_distro distro script limit st).1
    unfolding run
    run-IsAhead n script limit st h = h

    mapped_or_throw-IsAhead :
        (path : Text) (result : RunResult) (st : OpState S)
        → IsAhead 0 st
        → IsAhead 0 (mapped_or_throw run_in_distro distro path result st).1
    mapped_or_throw-IsAhead path result st h =
        if_elim (λ (m : Step S Text). IsAhead 0 (m st).1)
          (exits_with 0 result && starts_with (trim result.stdout) (lit "/")) (λ _. h) (λ _. h)

    resolve_with-IsAhead :
        (path : Text) (direct : Option Text) (st : OpState S)
        → IsAhead 0 st
        → IsAhead 0 (resolve_with run_in_distro distro path direct st).1
    resolve_with-IsAhead path (some direct) st h = h
    resolve_with-IsAhead path none st h =
        if_elim (λ (m : Step S Text). IsAhead 0 (m st).1) (not (has 0 path) && not (has 10 path))
          (λ _.
            >>=-from (IsAhead 0) (IsAhead 0) _ _ st (run-IsAhead 0 _ _ st h)
              (λ result t k. mapped_or_throw-IsAhead path result t k) (λ _ k. k))
          (λ _. h)

    resolve-IsAhead :
        (path : Text) (st : OpState S)
        → IsAhead 0 st
        → IsAhead 0 (resolve_windows_path run_in_distro distro path st).1
    unfolding resolve_windows_path
    resolve-IsAhead path st h =
        resolve_with-IsAhead path (convert_windows_to_linux distro path) st h

    size_of_path-IsAhead :
        (path : Text) (st : OpState S)
        → IsAhead 0 st
        → IsAhead 0 (size_of_path run_in_distro distro path st).1
    unfolding size_of_path
    size_of_path-IsAhead path st h =
        >>=-from (IsAhead 0) (IsAhead 0) _ _ st
          (run-IsAhead 0 (size_script (shell_quote path)) (some runner_slow_timeout_ms) st h)
          (λ _ _ k. k) (λ _ k. k)

    -- One item's command, whose outcome is told apart by `fails`.
    settle-IsAhead :
        (size : Option ℕ) (fails : Bool) (message : Text) (st : OpState S)
        → IsAhead (bytes_of size) st
        → IsAhead 0 (if fails then push_error message st else add_done size st)
    unfolding push_error
    settle-IsAhead size fails message st h =
        if_elim (IsAhead 0) fails (λ _. weaken (bytes_of size) st h)
          (λ _. add_done-IsAhead size st h)

    import_item-IsAhead :
        (op : Op) (dest_dir path : Text) (st : OpState S)
        → IsAhead 0 st
        → IsAhead 0 (import_item run_in_distro distro op dest_dir path st).1
    unfolding import_item
    import_item-IsAhead op dest_dir path st h =
        >>=-from (IsAhead 0) (IsAhead 0) _ _ st (resolve-IsAhead path st h)
          (λ source s k.
            >>=-from (IsAhead 0) (IsAhead 0) _ _ s (size_of_path-IsAhead source s k)
              (λ size t l.
                >>=-from (IsAhead (bytes_of size)) (IsAhead 0) _ _ (add_total size op path t)
                  (run-IsAhead (bytes_of size)
                    (command false source
                      (shell_quote (join_linux_path dest_dir (windows_basename path))))
                    (some file_op_timeout_ms) (add_total size op path t)
                    (add_total-IsAhead size op path t l))
                  (λ result u m. settle-IsAhead size (failed result) _ u m)
                  (weaken (bytes_of size)))
              (λ _ l. l))
          (λ _ k. k)

    export_item-IsAhead :
        (op : Op) (dest_dir path : Text) (st : OpState S)
        → IsAhead 0 st
        → IsAhead 0 (export_item run_in_distro distro op dest_dir path st).1
    unfolding export_item valid_path
    export_item-IsAhead op dest_dir path st h =
        >>=-from (IsAhead 0) (IsAhead 0) _ _ st
          (rethrow-IsAhead 0 (assert_valid_linux_path path) st h)
          (λ _ s k.
            >>=-from (IsAhead 0) (IsAhead 0) _ _ s (size_of_path-IsAhead path s k)
              (λ size t l.
                >>=-from (IsAhead (bytes_of size)) (IsAhead 0) _ _ (add_total size op path t)
                  (run-IsAhead (bytes_of size)
                    (command false path
                      (shell_quote (join_linux_path dest_dir (linux_basename path))))
                    (some file_op_timeout_ms) (add_total size op path t)
                    (add_total-IsAhead size op path t l))
                  (λ result u m. settle-IsAhead size _ _ u m) (weaken (bytes_of size)))
              (λ _ l. l))
          (λ _ k. k)

    export_into-IsAhead :
        (is_cancelled : S → Bool) (op : Op) (paths : List Text)
        (answer : Result Text Text × OpState S)
        → IsAhead 0 answer.1
        → IsAhead 0 (export_into run_in_distro distro is_cancelled op paths answer)
    export_into-IsAhead is_cancelled op paths (ok dest_dir, st) h =
        each-IsAhead op (export_item run_in_distro distro op dest_dir) is_cancelled
          (export_item-IsAhead op dest_dir) paths st h
    export_into-IsAhead is_cancelled op paths (err message, st) h = emit-IsAhead 0 op _ _ _ st h

    -- No report of an import or an export tells of more bytes done than counted in total, whatever
    -- the commands answer, and whenever the operation is cancelled.
    pub transfers-IsCovered :
        (is_cancelled : S → Bool) (op_id : Text) (items : List Text) (dir : Text) (s : S)
        → All IsCovered (run_import run_in_distro distro is_cancelled op_id items dir s).1.emitted
          × All IsCovered (run_export run_in_distro distro is_cancelled op_id items dir s).emitted
    unfolding run_import run_export valid_path
    transfers-IsCovered is_cancelled op_id items dir s =
        let start : IsAhead 0 (begin s) = (omega arith, tt) in
        let imported =
          >>=-from (IsAhead 0) (IsAhead 0) _ _ (begin s)
            (rethrow-IsAhead 0 (assert_valid_linux_path dir) (begin s) start)
            (λ _ st h.
              each-IsAhead (transfer_op op_id true (length items))
                (import_item run_in_distro distro (transfer_op op_id true (length items)) dir)
                is_cancelled (import_item-IsAhead (transfer_op op_id true (length items)) dir) items
                st h)
            (λ _ h. h) in
        (
          imported.1,
          (export_into-IsAhead is_cancelled (transfer_op op_id false (length items)) items _
              (resolve-IsAhead dir (begin s) start)).1,
        )
