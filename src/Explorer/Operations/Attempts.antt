-- ===== src/Explorer/Operations/Attempts.antt =====
-- A copy or a move in src/main/explorer/operations.ts, item by item.
use wslpad.Base.{
  Bool, true, false, ℕ, ◌≡◌, refl, ap, ◌∙◌, sym, Text, List, [], ◌∷◌, ◌++◌, Option, none, some,
  if◌then◌else◌, if_elim, append_assoc, append-nil, length, is_empty,
}
use wslpad.Base.Results.{Result, ok, err}
use wslpad.Shell.{Refusal, shell_quote, assert_valid_linux_path}
use wslpad.Explorer.Paths.{join_linux_path, linux_basename}
use wslpad.Explorer.Outcomes.{RunResult, failed, refusal_message}
use wslpad.Explorer.Loops.{
  Op, OpState, begin, ◌>>=◌, continue, rethrow, valid_path, push_error, caught, each, round, emit,
  count_item, finish, running,
}
use wslpad.Explorer.Operations.{
  run, with_world, copy_item, run_copy_move, copy_op, push_if_failed, command, file_op_timeout_ms,
}

module _ {S : Type 0} (run_in_distro : Text → Text → Option ℕ → S → Result Text RunResult × S)
    (distro : Text) (moves : Bool) (dest_dir : Text) where
  -- One item alone: the messages of its failure, and the world that it leaves.
  abbrev pub attempt : Text → S → List Text × S
  attempt source s =
      let after = caught (copy_item run_in_distro distro moves dest_dir source (begin s)) in
      (after.errors, after.world)

  -- The items one after the other, whatever becomes of each.
  unfoldable pub attempts : List Text → S → List Text × S
  attempts [] s = ([], s)
  attempts (source ∷ sources) s =
      let first = attempt source s in
      let rest = attempts sources first.1 in (first.0 ++ rest.0, rest.1)

  -- `after` came from `st` as `alone` came from a fresh start in the same world.
  abbrev IsLocal : OpState S → OpState S → OpState S → Type 0
  IsLocal st alone after = (after.errors ≡ st.errors ++ alone.errors) × (after.world ≡ alone.world)

  push-IsLocal :
      (b : Bool) (message : Text) (st alone : OpState S)
      → alone.errors ≡ []
      → alone.world ≡ st.world
      → IsLocal st
          (if b then push_error message alone else alone)
          (if b then push_error message st else st)
  unfolding push_error
  push-IsLocal true message st alone empty same =
      (ap (λ xs. st.errors ++ (xs ++ message ∷ [])) (sym empty), sym same)
  push-IsLocal false message st alone empty same =
      (sym (append-nil st.errors) ∙ ap (λ xs. st.errors ++ xs) (sym empty), sym same)

  settle-IsLocal :
      (ran : Result Text RunResult × S) (dest source : Text) (st alone : OpState S)
      → alone.errors ≡ []
      → IsLocal st
          (caught (
            continue
              (with_world run_in_distro distro alone ran)
              (λ result t. (ok tt, push_if_failed dest source result t))))
          (caught (
            continue
              (with_world run_in_distro distro st ran)
              (λ result t. (ok tt, push_if_failed dest source result t))))
  unfolding push_error
  settle-IsLocal (ok result, s) dest source st alone empty =
      push-IsLocal (failed result) _ (record st { world = s }) (record alone { world = s }) empty
        refl
  settle-IsLocal (err message, s) dest source st alone empty =
      (ap (λ xs. st.errors ++ (xs ++ message ∷ [])) (sym empty), refl)

  rethrow-IsLocal :
      (answer : Result Refusal (Unit {0})) (dest source script : Text) (limit : Option ℕ)
      (st alone : OpState S)
      → alone.errors ≡ []
      → alone.world ≡ st.world
      → IsLocal st
          (caught (
            continue (rethrow answer alone) (λ _ s.
              continue
                (run run_in_distro distro script limit s)
                (λ result t. (ok tt, push_if_failed dest source result t)))))
          (caught (
            continue (rethrow answer st) (λ _ s.
              continue
                (run run_in_distro distro script limit s)
                (λ result t. (ok tt, push_if_failed dest source result t)))))
  unfolding run push_error
  rethrow-IsLocal (ok _) dest source script limit st alone empty same =
      rw same
        (settle-IsLocal (run_in_distro distro script limit st.world) dest source st alone empty)
  rethrow-IsLocal (err refusal) dest source script limit st alone empty same =
      (ap (λ xs. st.errors ++ (xs ++ refusal_message refusal ∷ [])) (sym empty), sym same)

  copy_item-IsLocal :
      (source : Text) (st : OpState S)
      → IsLocal st
          (caught (copy_item run_in_distro distro moves dest_dir source (begin st.world)))
          (caught (copy_item run_in_distro distro moves dest_dir source st))
  unfolding copy_item ◌>>=◌ valid_path
  copy_item-IsLocal source st =
      let dest = join_linux_path dest_dir (linux_basename source) in
      rethrow-IsLocal (assert_valid_linux_path source) dest source
        (command moves source (shell_quote dest)) (some file_op_timeout_ms) st (begin st.world) refl
        refl

  -- The loop with nobody who cancels.
  each-attempts :
      (op : Op) (items : List Text) (st : OpState S)
      → let final = each op (copy_item run_in_distro distro moves dest_dir) (λ _. false) items st in
        (final.errors ≡ st.errors ++ (attempts items st.world).0)
        × (final.world ≡ (attempts items st.world).1)
  unfolding each attempts finish emit round count_item
  each-attempts op [] st =
      if_elim (λ (final : OpState S). (final.errors ≡ st.errors ++ []) × (final.world ≡ st.world))
        (is_empty st.errors) (λ _. (sym (append-nil st.errors), refl))
        (λ _. (sym (append-nil st.errors), refl))
  each-attempts op (item ∷ items) st =
      let begun : OpState S = emit op running (some item) none st in
      let local = copy_item-IsLocal item begun in
      let next : OpState S = round op (copy_item run_in_distro distro moves dest_dir) item st in
      let later = each-attempts op items next in
      let first = attempt item st.world in
      (
        later.0
            ∙ ap (λ xs. xs ++ (attempts items next.world).0) local.0
            ∙ ap (λ w. (st.errors ++ first.0) ++ (attempts items w).0) local.1
            ∙ append_assoc st.errors first.0 (attempts items first.1).0,
        later.1 ∙ ap (λ w. (attempts items w).1) local.1,
      )

  -- A copy or a move that nobody cancels tries every item in order, also behind a failed one: the
  -- world it leaves and the errors it collects are those of the items tried one after the other,
  -- each on its own.
  pub run_copy_move-attempts :
      (op_id : Text) (sources : List Text) (s : S)
      → let final =
          run_copy_move run_in_distro distro (λ _. false) op_id sources dest_dir moves s in
        (final.errors ≡ (attempts sources s).0) × (final.world ≡ (attempts sources s).1)
  unfolding run_copy_move
  run_copy_move-attempts op_id sources s =
      each-attempts (copy_op op_id moves (length sources)) sources (begin s)
