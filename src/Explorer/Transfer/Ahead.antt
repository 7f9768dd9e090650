-- ===== src/Explorer/Transfer/Ahead.antt =====
-- Counts of bytes that never run ahead of their total, in the loop of src/main/explorer/transfer.ts.
use wslpad.Base.{
  Bool, true, false, ℕ, ◌+◌, ◌≤◌, Text, List, [], ◌∷◌, Option, none, some, arith, All, All-append,
  if_elim, is_empty,
}
use wslpad.Base.Results.{Result, ok, err}
use wslpad.Shell.{Refusal}
use wslpad.Explorer.Loops.{
  Op, OpState, Step, FileOpProgress, FileOpStatus, running, bytes_if, emit, push_error, ◌>>=◌,
  continue, caught, count_item, finish, round, each, rethrow,
}
use wslpad.Explorer.Transfer.{add_total, add_done}

abbrev pub AtMost : Option ℕ → Option ℕ → Type 0
AtMost (some a) (some b) = a ≤ b
AtMost (some a) none = Unit
AtMost none _ = Unit

abbrev pub IsCovered : FileOpProgress → Type 0
IsCovered r = AtMost r.done_bytes r.total_bytes

pub bytes_if-AtMost : (b : Bool) (m n : ℕ) → m ≤ n → AtMost (bytes_if b m) (bytes_if b n)
bytes_if-AtMost true m n h = h
bytes_if-AtMost false m n h = tt

abbrev pub bytes_of : Option ℕ → ℕ
bytes_of none = 0
bytes_of (some size) = size

module _ {S : Type 0} where
  -- At least `size` of the bytes counted in total are not yet done, and no report ran ahead.
  abbrev pub IsAhead : ℕ → OpState S → Type 0
  IsAhead size st = (st.done_bytes + size ≤ st.total_bytes) × All IsCovered st.emitted

  pub emit-IsAhead :
      (n : ℕ) (op : Op) (status : FileOpStatus) (item failure : Option Text) (st : OpState S)
      → IsAhead n st
      → IsAhead n (emit op status item failure st)
  unfolding emit
  emit-IsAhead n op status item failure st (h, k) = (
    h,
    All-append IsCovered st.emitted _ k (bytes_if-AtMost op.counts_bytes _ _ (omega arith), tt),
  )

  pub continue-from :
      {A B : Type 0} (P Q : OpState S → Type 0) (answer : Result Text A × OpState S)
      (k : A → Step S B)
      → P answer.1
      → ((a : A) (s : OpState S) → P s → Q (k a s).1)
      → ((s : OpState S) → P s → Q s)
      → Q (continue answer k).1
  continue-from P Q (ok a, s) k first rest weaker = rest a s first
  continue-from P Q (err e, s) k first rest weaker = weaker s first

  pub >>=-from :
      {A B : Type 0} (P Q : OpState S → Type 0) (m : Step S A) (k : A → Step S B) (st : OpState S)
      → P (m st).1
      → ((a : A) (s : OpState S) → P s → Q (k a s).1)
      → ((s : OpState S) → P s → Q s)
      → Q ((m >>= k) st).1
  unfolding ◌>>=◌
  >>=-from P Q m k st first rest weaker = continue-from P Q (m st) k first rest weaker

  pub weaken : (n : ℕ) (st : OpState S) → IsAhead n st → IsAhead 0 st
  weaken n st (h, k) = (omega (arith, h), k)

  pub caught-IsAhead :
      (x : Result Text (Unit {0}) × OpState S) → IsAhead 0 x.1 → IsAhead 0 (caught x)
  unfolding push_error
  caught-IsAhead (ok _, st) h = h
  caught-IsAhead (err e, st) h = h

  pub finish-IsAhead : (op : Op) (st : OpState S) → IsAhead 0 st → IsAhead 0 (finish op st)
  unfolding finish
  finish-IsAhead op st h =
      if_elim (IsAhead 0) (is_empty st.errors) (λ _. emit-IsAhead 0 op _ _ _ st h)
        (λ _. emit-IsAhead 0 op _ _ _ st h)

  pub each-IsAhead :
      (op : Op) (body : Text → Step S (Unit {0})) (is_cancelled : S → Bool)
      → ((item : Text) (s : OpState S) → IsAhead 0 s → IsAhead 0 (body item s).1)
      → (items : List Text) (st : OpState S) → IsAhead 0 st
      → IsAhead 0 (each op body is_cancelled items st)
  unfolding each round count_item
  each-IsAhead op body is_cancelled step [] st h = finish-IsAhead op st h
  each-IsAhead op body is_cancelled step (item ∷ items) st h =
      let begun = emit-IsAhead 0 op _ (some item) none st h in
      let attempt = body item (emit op running (some item) none st) in
      let next : OpState S = count_item (caught attempt) in
      let tried = caught-IsAhead attempt (step item _ begun) in
      if_elim (IsAhead 0) (is_cancelled st.world) (λ _. emit-IsAhead 0 op _ _ _ st h)
        (λ _. each-IsAhead op body is_cancelled step items _ (emit-IsAhead 0 op _ _ _ next tried))

  pub add_total-IsAhead :
      (size : Option ℕ) (op : Op) (item : Text) (st : OpState S)
      → IsAhead 0 st
      → IsAhead (bytes_of size) (add_total size op item st)
  unfolding add_total
  add_total-IsAhead none op item st h = h
  add_total-IsAhead (some size) op item st (h, k) =
      emit-IsAhead size op _ _ _ (record st { total_bytes = st.total_bytes + size })
        (omega (arith, h), k)

  pub add_done-IsAhead :
      (size : Option ℕ) (st : OpState S) → IsAhead (bytes_of size) st → IsAhead 0 (add_done size st)
  unfolding add_done
  add_done-IsAhead none st h = h
  add_done-IsAhead (some size) st (h, k) = (omega (arith, h), k)

  pub rethrow-IsAhead :
      (n : ℕ) (answer : Result Refusal (Unit {0})) (st : OpState S)
      → IsAhead n st
      → IsAhead n (rethrow answer st).1
  rethrow-IsAhead n (ok _) st h = h
  rethrow-IsAhead n (err refusal) st h = h
