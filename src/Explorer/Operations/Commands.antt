-- ===== src/Explorer/Operations/Commands.antt =====
-- The commands that src/main/explorer/operations.ts lets a distribution run.
use wslpad.Base.{
  ℕ, ◌≡◌, ◌≢◌, refl, Text, lit, List, [], ◌∷◌, ◌++◌, Option, some, arith, if_elim, same, same_iff,
}
use wslpad.Base.Results.{Result, ok, err}
use wslpad.Shell.{Refusal, shell_quote, assert_valid_linux_path}
use wslpad.Explorer.Outcomes.{RunResult, failed}
use wslpad.Explorer.Loops.{OpState, Step, ◌>>=◌, continue, rethrow, valid_path}
use wslpad.Explorer.Operations.{run, remove_one, remove_entries, file_op_timeout_ms, done_or_throw}

module _ {S : Type 0} (run_in_distro : Text → Text → Option ℕ → S → Result Text RunResult × S)
    (distro : Text) (P : S → Type 0) where
  -- `P` outlives the removal of any valid path but the root.
  abbrev pub Outlives : Type 0
  Outlives =
      (path : Text) (s : S)
      → assert_valid_linux_path path ≡ ok tt
      → path ≢ lit "/"
      → P s
      → P (run_in_distro distro (lit "rm -rf " ++ shell_quote path) (some file_op_timeout_ms) s).1

  continue-keeps :
      {A B : Type 0} (answer : Result Text A × OpState S) (k : A → Step S B)
      → P answer.1.world
      → ((a : A) (st : OpState S) → answer.0 ≡ ok a → P st.world → P (k a st).1.world)
      → P (continue answer k).1.world
  continue-keeps (ok a, st) k h next = next a st refl h
  continue-keeps (err e, st) k h next = h

  rethrow-ok :
      (answer : Result Refusal (Unit {0})) (st : OpState S) (u : Unit {0})
      → (rethrow answer st).0 ≡ ok u
      → answer ≡ ok tt
  rethrow-ok (ok tt) st u e = refl
  rethrow-ok (err refusal) st u e = cc

  rethrow-world :
      (answer : Result Refusal (Unit {0})) (st : OpState S)
      → P st.world
      → P (rethrow answer st).1.world
  rethrow-world (ok _) st h = h
  rethrow-world (err refusal) st h = h

  done_or_throw-keeps :
      (dest path : Text) (result : RunResult) (st : OpState S)
      → P st.world
      → P (done_or_throw run_in_distro distro dest path result st).1.world
  done_or_throw-keeps dest path result st h =
      if_elim (λ (x : Result Text (Unit {0}) × OpState S). P x.1.world) (failed result) (λ _. h)
        (λ _. h)

  remove_one-keeps :
      (path : Text) (st : OpState S)
      → Outlives
      → P st.world
      → P (remove_one run_in_distro distro path st).1.world
  unfolding ◌>>=◌ valid_path run
  remove_one-keeps path st outlives h =
      continue-keeps (rethrow (assert_valid_linux_path path) st) _
        (rethrow-world (assert_valid_linux_path path) st h)
        (λ u s valid k.
          if_elim (λ (m : Step S (Unit {0})). P (m s).1.world) (same path (lit "/")) (λ _. k)
            (λ other.
              continue-keeps
                (run run_in_distro distro (lit "rm -rf " ++ shell_quote path)
                  (some file_op_timeout_ms) s)
                _
                (outlives path s.world (rethrow-ok (assert_valid_linux_path path) st u valid)
                  (λ e. ground (arith, (same_iff path (lit "/")).1 e)) k)
                (λ result t _ l. done_or_throw-keeps path path result t l)))

  -- Whatever outlives the removal of every valid path but the root outlives `removeEntries`: the
  -- only commands that it runs are `rm -rf` of one quoted valid path that is not `/`.
  pub remove_entries-keeps :
      (paths : List Text) (st : OpState S)
      → Outlives
      → P st.world
      → P (remove_entries run_in_distro distro paths st).1.world
  unfolding remove_entries ◌>>=◌
  remove_entries-keeps [] st outlives h = h
  remove_entries-keeps (path ∷ paths) st outlives h =
      continue-keeps (remove_one run_in_distro distro path st) _
        (remove_one-keeps path st outlives h) (λ _ s _ k. remove_entries-keeps paths s outlives k)
