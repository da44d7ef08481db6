-- ===== src/Runner/Sync.antt =====
-- A SyncRunner of src/core/benchrunner.py runs one command and waits for it. What the command does
-- is its `Outcome`; the check of the benchmark's output and its processing are parameters.
use asct.Prelude.{
  true, List, [], ◌∷◌, Result, ok, err, ◌≡◌, refl, inl, inr, ℤ, pos, if◌then◌else◌, Bool-cases,
}
use asct.Text.{Text}
use asct.Runner.{CommandError, value_error, runtime_error, is_zero}

-- An exception that is logged, or the end of the process with a return code
pub data Outcome : Type 0 where
  raises : Outcome
  exits : ℤ → Outcome

-- `self._retcode` after the attempt: a code that is not 0 raises too, and is caught with the
-- others.
unfoldable pub retcode_of : Outcome → ℤ
unfolding is_zero
retcode_of raises = pos 255
retcode_of (exits code) = if is_zero code then code else pos 255

unfoldable pub sync_run : List Text → Outcome → Result CommandError ℤ
unfolding retcode_of
sync_run [] outcome = err value_error
sync_run (word ∷ words) outcome = ok (retcode_of outcome)

module _ {R : Type 0} (collect_results : Result CommandError R) where
  unfoldable pub collect_after : Result CommandError ℤ → Result CommandError R
  unfolding is_zero
  collect_after (err e) = err e
  collect_after (ok retcode) = if is_zero retcode then collect_results else err runtime_error

  unfoldable pub run_and_collect_results : List Text → Outcome → Result CommandError R
  unfolding sync_run collect_after
  run_and_collect_results cmd outcome = collect_after (sync_run cmd outcome)

  -- Results are collected only if the command ended with the return code 0.
  pub run_and_collect_results-exits :
      (cmd : List Text) (outcome : Outcome) {r : R}
      → run_and_collect_results cmd outcome ≡ ok r
      → (code : ℤ) × (outcome ≡ exits code) × (is_zero code ≡ true) × (collect_results ≡ ok r)
  unfolding run_and_collect_results
  run_and_collect_results-exits [] outcome h = cc h
  run_and_collect_results-exits (word ∷ words) raises h = cc h
  run_and_collect_results-exits (word ∷ words) (exits code) h = elim (Bool-cases (is_zero code)) [
    | inl zero_code ↦ (code, refl, zero_code, rw zero_code at (rw zero_code at h))
    | inr other ↦ cc (rw other at h)
  ]
