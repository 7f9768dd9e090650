-- ===== src/Explorer/Loops/Quiet.antt =====
-- The steps of src/main/explorer/operations.ts and transfer.ts that make no report of an end.
use wslpad.Base.{
  Bool, ℕ, ◌≡◌, refl, ap, ◌∙◌, sym, subst, Text, List, [], ◌∷◌, ◌++◌, Option, arith, append_assoc,
  append-nil, if_elim, length,
}
use wslpad.Base.Results.{Result, ok, err}
use wslpad.Shell.{Refusal, assert_valid_linux_path}
use wslpad.Explorer.Outcomes.{RunResult, failed}
use wslpad.Explorer.Loops.{OpState, Step, begin, push_error, ◌>>=◌, continue, rethrow, valid_path}
use wslpad.Explorer.Operations.{run, push_if_failed, copy_op, copy_item, run_copy_move}
use wslpad.Explorer.Loops.Reports.{Climbs, Climbs-append, IsQuiet, IsReported, begin-IsReported}

module _ {S : Type 0} where
  pub silent :
      (st after : OpState S)
      → after.emitted ≡ st.emitted
      → after.done_items ≡ st.done_items
      → IsQuiet st after
  silent st after same count = record {
    more = [];
    appended = same ∙ sym (append-nil st.emitted);
    climbs = omega arith;
    counts = count;
  }

  pub IsQuiet-trans : (a b c : OpState S) → IsQuiet a b → IsQuiet b c → IsQuiet a c
  IsQuiet-trans a b c first rest = record {
    more = first.more ++ rest.more;
    appended =
        rest.appended
        ∙ ap (λ xs. xs ++ rest.more) first.appended
        ∙ append_assoc a.emitted first.more rest.more;
    climbs =
        Climbs-append a.done_items a.done_items a.done_items first.more rest.more first.climbs
          (subst (λ n. Climbs n rest.more n) first.counts rest.climbs);
    counts = rest.counts ∙ first.counts;
  }

  -- A loop that starts behind a quiet step.
  pub quiet-IsReported :
      (a b final : OpState S) (n : ℕ) → IsQuiet a b → IsReported b final n → IsReported a final n
  quiet-IsReported a b final n first rest = record {
    more = first.more ++ rest.more;
    last = rest.last;
    appended =
        rest.appended
        ∙ ap (λ xs. xs ++ (rest.more ++ rest.last ∷ [])) first.appended
        ∙ append_assoc a.emitted first.more (rest.more ++ rest.last ∷ [])
        ∙ ap (λ xs. a.emitted ++ xs) (sym (append_assoc first.more rest.more (rest.last ∷ [])));
    climbs =
        Climbs-append a.done_items a.done_items rest.last.done_items first.more rest.more
          first.climbs
          (subst (λ m. Climbs m rest.more rest.last.done_items) first.counts rest.climbs);
    ends = rest.ends;
  }

  continue-IsQuiet :
      {A B : Type 0} (st : OpState S) (answer : Result Text A × OpState S) (k : A → Step S B)
      → IsQuiet st answer.1
      → ((a : A) (s : OpState S) → IsQuiet s (k a s).1)
      → IsQuiet st (continue answer k).1
  continue-IsQuiet st (ok a, s) k first rest = IsQuiet-trans st s (k a s).1 first (rest a s)
  continue-IsQuiet st (err e, s) k first rest = first

  pub >>=-IsQuiet :
      {A B : Type 0} (m : Step S A) (k : A → Step S B) (st : OpState S)
      → IsQuiet st (m st).1
      → ((a : A) (s : OpState S) → IsQuiet s (k a s).1)
      → IsQuiet st ((m >>= k) st).1
  unfolding ◌>>=◌
  >>=-IsQuiet m k st first rest = continue-IsQuiet st (m st) k first rest

  rethrow-IsQuiet :
      (answer : Result Refusal (Unit {0})) (st : OpState S) → IsQuiet st (rethrow answer st).1
  rethrow-IsQuiet (ok _) st = silent st st refl refl
  rethrow-IsQuiet (err refusal) st = silent st st refl refl

  pub valid_path-IsQuiet : (path : Text) (st : OpState S) → IsQuiet st (valid_path path st).1
  unfolding valid_path
  valid_path-IsQuiet path st = rethrow-IsQuiet (assert_valid_linux_path path) st

  pub push_if_failed-IsQuiet :
      (dest source : Text) (result : RunResult) (st : OpState S)
      → IsQuiet st (push_if_failed dest source result st)
  unfolding push_error
  push_if_failed-IsQuiet dest source result st =
      if_elim (IsQuiet st) (failed result) (λ _. silent st _ refl refl)
        (λ _. silent st st refl refl)

  module _ (run_in_distro : Text → Text → Option ℕ → S → Result Text RunResult × S)
      (distro : Text) where
    pub run-IsQuiet :
        (script : Text) (limit : Option ℕ) (st : OpState S)
        → IsQuiet st (run run_in_distro distro script limit st).1
    unfolding run
    run-IsQuiet script limit st = silent st (run run_in_distro distro script limit st).1 refl refl

    pub copy_item-IsQuiet :
        (moves : Bool) (dest_dir source : Text) (st : OpState S)
        → IsQuiet st (copy_item run_in_distro distro moves dest_dir source st).1
    unfolding copy_item
    copy_item-IsQuiet moves dest_dir source st =
        >>=-IsQuiet _ _ _ (valid_path-IsQuiet source st) (λ _ s.
          >>=-IsQuiet _ _ _ (run-IsQuiet _ _ s)
            (λ result t. push_if_failed-IsQuiet _ source result t))

    -- A copy or a move ends with exactly one report that is not of work in progress, and it is the
    -- last: done, with every item counted and no error; error, with every item counted and all the
    -- messages; or cancelled, before the last item. The reports before it count up and never back.
    -- The loop never stops at a failed item, and it holds for whatever the commands answer.
    pub run_copy_move-IsReported :
        (is_cancelled : S → Bool) (op_id : Text) (sources : List Text) (dest_dir : Text)
        (moves : Bool) (s : S)
        → IsReported
            (begin s)
            (run_copy_move run_in_distro distro is_cancelled op_id sources dest_dir moves s)
            (length sources)
    unfolding run_copy_move
    run_copy_move-IsReported is_cancelled op_id sources dest_dir moves s =
        begin-IsReported (copy_op op_id moves (length sources))
          (copy_item run_in_distro distro moves dest_dir) is_cancelled sources (begin s)
          (length sources) (omega arith) (λ item st. copy_item-IsQuiet moves dest_dir item st)
