-- ===== src/Explorer/Operations.antt =====
-- src/main/explorer/operations.ts: the operations of the explorer on entries, and the loop that
-- copies or moves. What runs a command in the distribution is a parameter, with its state.
pub mod Commands
pub mod Attempts
use wslpad.Base.{
  ℕ, suc, ◌*◌, Bool, true, false, ◌&&◌, ◌||◌, not, Text, lit, List, [], ◌∷◌, ◌++◌, Option, none,
  some, length, leb, ltb, same, has, join, show, if◌then◌else◌, is_empty,
}
use wslpad.Base.Results.{Result, ok, err}
use wslpad.Shell.{assert_valid_linux_path, shell_quote}
use wslpad.Explorer.Paths.{join_linux_path, linux_basename, parent_linux_path}
use wslpad.Explorer.Outcomes.{
  RunResult, exit_eexist, exits_with, failed, explorer_error_from_result, refusal_message,
  json_text,
}
use wslpad.Explorer.Loops.{
  Op, OpState, Step, FileOpKind, copy, move, begin, push_error, ◌>>=◌, return, throw, valid_path,
  each,
}

abbrev pub file_op_timeout_ms : ℕ
file_op_timeout_ms = 10 * 60 * 1000

unfoldable pub is_valid_file_name : Text → Bool
is_valid_file_name name =
    ltb 0 (length name)
    && leb (length name) 255
    && not (has b'/' name || has 92 name || has 0 name || has 10 name)
    && not (same name (lit "."))
    && not (same name (lit ".."))

unfoldable pub exists_guard : Text → Text
exists_guard quoted =
    lit "if [ -e "
    ++ (quoted
        ++ (lit " ] || [ -L "
            ++ (quoted ++ (lit " ]; then exit " ++ (show exit_eexist ++ lit "; fi")))))

abbrev pub command : Bool → Text → Text → Text
command moves source quoted_dest =
    exists_guard quoted_dest
    ++ (lit "; "
        ++ ((if moves then lit "mv" else lit "cp -a")
            ++ (lit " " ++ (shell_quote source ++ (lit " " ++ quoted_dest)))))

-- The failed item's path: that of the destination when it was in the way.
abbrev pub blamed : Text → Text → RunResult → Text
blamed dest source result = if exits_with exit_eexist result then dest else source

abbrev pub copy_op : Text → Bool → ℕ → Op
copy_op op_id moves items = record {
  op_id = op_id;
  kind = if moves then move else copy;
  total_items = items;
  counts_bytes = false;
}

module _ {S : Type 0} where
  abbrev pub push_if_failed : Text → Text → RunResult → OpState S → OpState S
  push_if_failed dest source result st =
      if failed result
      then push_error (explorer_error_from_result (blamed dest source result) result).message st
      else st

  -- `runner.runInDistro(distro, script, { timeoutMs })`: a result, or the message of what it throws.
  module _ (run_in_distro : Text → Text → Option ℕ → S → Result Text RunResult × S)
      (distro : Text) where
    abbrev pub with_world : {A : Type 0} → OpState S → Result Text A × S → Result Text A × OpState S
    with_world st (answer, s) = (answer, record st { world = s })

    unfoldable pub run : Text → Option ℕ → Step S RunResult
    run script limit st = with_world st (run_in_distro distro script limit st.world)

    -- The body of `try` in `runCopyMove`.
    unfoldable pub copy_item : Bool → Text → Text → Step S (Unit {0})
    unfolding run push_error
    copy_item moves dest_dir source =
        let dest = join_linux_path dest_dir (linux_basename source) in
        valid_path source >>= (λ _.
          run (command moves source (shell_quote dest)) (some file_op_timeout_ms)
          >>= (λ result st. (ok tt, push_if_failed dest source result st)))

    unfoldable pub run_copy_move : (S → Bool) → Text → List Text → Text → Bool → S → OpState S
    unfolding each copy_item
    run_copy_move is_cancelled op_id sources dest_dir moves s =
        let op = copy_op op_id moves (length sources) in
        each op (copy_item moves dest_dir) is_cancelled sources (begin s)

    -- A command on one path: it must succeed.
    abbrev pub done_or_throw : Text → Text → RunResult → Step S (Unit {0})
    done_or_throw dest path result st =
        if failed result
        then (err (explorer_error_from_result (blamed dest path result) result).message, st)
        else (ok tt, st)

    abbrev guarded : Text → Text → Step S (Unit {0})
    guarded path script =
        valid_path path
        >>= (λ _. run (exists_guard (shell_quote path) ++ script) none >>= done_or_throw path path)

    unfoldable pub make_directory : Text → Step S (Unit {0})
    unfolding run
    make_directory path = guarded path (lit "; mkdir -p " ++ shell_quote path)

    unfoldable pub create_empty_file : Text → Step S (Unit {0})
    unfolding run
    create_empty_file path = guarded path (lit "; : > " ++ shell_quote path)

    unfoldable pub rename_entry : Text → Text → Step S (Unit {0})
    unfolding run
    rename_entry path new_name =
        let target = join_linux_path (parent_linux_path path) new_name in
        valid_path path >>= (λ _.
          if not (is_valid_file_name new_name)
          then throw (lit "Invalid file name: " ++ json_text new_name)
          else (run
                (exists_guard (shell_quote target)
                  ++ (lit "; mv " ++ (shell_quote path ++ (lit " " ++ shell_quote target))))
                none
              >>= done_or_throw target path))

    abbrev pub remove_one : Text → Step S (Unit {0})
    remove_one path = valid_path path >>= (λ _.
        if same path (lit "/")
        then throw (lit "Refusing to remove /")
        else (run (lit "rm -rf " ++ shell_quote path) (some file_op_timeout_ms)
            >>= done_or_throw path path))

    unfoldable pub remove_entries : List Text → Step S (Unit {0})
    unfolding run
    remove_entries [] = return tt
    remove_entries (path ∷ paths) = remove_one path >>= (λ _. remove_entries paths)
