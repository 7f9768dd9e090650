-- ===== src/Explorer/Loops.antt =====
-- src/main/explorer/operations.ts and transfer.ts: the loop that their three background operations
-- share, with the reports that it makes.
pub mod Reports
pub mod Quiet
use wslpad.Base.{
  ℕ, suc, ◌*◌, Bool, true, false, ◌&&◌, ◌||◌, not, Text, lit, List, [], ◌∷◌, ◌++◌, Option, none,
  some, length, leb, ltb, same, has, join, show, if◌then◌else◌, is_empty,
}
use wslpad.Base.Results.{Result, ok, err}
use wslpad.Shell.{Refusal, assert_valid_linux_path, shell_quote}
use wslpad.Explorer.Paths.{join_linux_path, linux_basename, parent_linux_path}
use wslpad.Explorer.Outcomes.{
  RunResult, exit_eexist, exits_with, failed, explorer_error_from_result, refusal_message,
  json_text,
}

pub data FileOpKind : Type 0 where
  copy move trash delete import export : FileOpKind

pub data FileOpStatus : Type 0 where
  running done error cancelled : FileOpStatus

pub record FileOpProgress : Type 0 where
  pub op_id : Text
  pub kind : FileOpKind
  pub status : FileOpStatus
  pub total_items : ℕ
  pub done_items : ℕ
  pub total_bytes : Option ℕ
  pub done_bytes : Option ℕ
  pub current_item : Option Text
  pub failure : Option Text

-- What stays fixed over an operation.
pub record Op : Type 0 where
  pub op_id : Text
  pub kind : FileOpKind
  pub total_items : ℕ
  pub counts_bytes : Bool

-- The local variables of a loop, the reports so far, and the world that commands act on.
pub record OpState (S : Type 0) : Type 0 where
  pub world : S
  pub done_items : ℕ
  pub total_bytes : ℕ
  pub done_bytes : ℕ
  pub errors : List Text
  pub emitted : List FileOpProgress

-- A step of the body of `try`: a value or a thrown message, and the state.
abbrev pub Step : Type 0 → Type 0 → Type 0
Step S A = OpState S → Result Text A × OpState S

abbrev pub bytes_if : Bool → ℕ → Option ℕ
bytes_if true n = some n
bytes_if false n = none

module _ {S : Type 0} where
  -- The variables at the start of a loop.
  abbrev pub begin : S → OpState S
  begin s = record {
    world = s;
    done_items = 0;
    total_bytes = 0;
    done_bytes = 0;
    errors = [];
    emitted = [];
  }

  unfoldable pub emit : Op → FileOpStatus → Option Text → Option Text → OpState S → OpState S
  emit op status item failure st =
      let report : FileOpProgress = record {
        op_id = op.op_id;
        kind = op.kind;
        status = status;
        total_items = op.total_items;
        done_items = st.done_items;
        total_bytes = bytes_if op.counts_bytes st.total_bytes;
        done_bytes = bytes_if op.counts_bytes st.done_bytes;
        current_item = item;
        failure = failure;
      } in
      record st { emitted = st.emitted ++ report ∷ [] }

  abbrev pub continue :
      {A B : Type 0} → Result Text A × OpState S → (A → Step S B) → Result Text B × OpState S
  continue (ok a, st) k = k a st
  continue (err e, st) k = (err e, st)

  infixl 5 ◌>>=◌
  unfoldable pub ◌>>=◌ : {A B : Type 0} → Step S A → (A → Step S B) → Step S B
  (m >>= k) st = continue (m st) k

  abbrev pub return : {A : Type 0} → A → Step S A
  return a st = (ok a, st)

  abbrev pub throw : {A : Type 0} → Text → Step S A
  throw message st = (err message, st)

  unfoldable pub push_error : Text → OpState S → OpState S
  push_error message st = record st { errors = st.errors ++ message ∷ [] }

  -- `catch (err) { errors.push(err.message) }`.
  abbrev pub caught : Result Text (Unit {0}) × OpState S → OpState S
  caught (ok _, st) = st
  caught (err message, st) = push_error message st

  abbrev pub rethrow : Result Refusal (Unit {0}) → Step S (Unit {0})
  rethrow (ok _) st = (ok tt, st)
  rethrow (err refusal) st = (err (refusal_message refusal), st)

  -- `assertValidLinuxPath(path)`.
  unfoldable pub valid_path : Text → Step S (Unit {0})
  valid_path path = rethrow (assert_valid_linux_path path)

  unfoldable pub count_item : OpState S → OpState S
  count_item st = record st { done_items = suc st.done_items }

  -- The last report of a loop that was not cancelled.
  unfoldable pub finish : Op → OpState S → OpState S
  unfolding emit
  finish op st =
      if is_empty st.errors
      then emit op done none none st
      else emit op error none (some (join (lit "; ") st.errors)) st

  module _ (op : Op) (body : Text → Step S (Unit {0})) where
    -- One round of a loop that is not cancelled.
    unfoldable pub round : Text → OpState S → OpState S
    unfolding emit push_error count_item
    round item st =
        emit op running (some item) none
          (count_item (caught (body item (emit op running (some item) none st))))

    -- The loop over the items, with its reports.
    unfoldable pub each : (S → Bool) → List Text → OpState S → OpState S
    unfolding round finish emit
    each is_cancelled [] st = finish op st
    each is_cancelled (item ∷ items) st =
        let rest = each is_cancelled items (round item st) in
        if is_cancelled st.world then emit op cancelled none none st else rest
