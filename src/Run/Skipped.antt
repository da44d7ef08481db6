-- ===== src/Run/Skipped.antt =====
-- What `setup_benchmarks` of src/lib/run/run_helper.py leaves out of a run.
use asct.Prelude.{◌≡◌, true, some, List, ok}
use asct.Text.{Text, text_key}
use asct.Dict.{Dict, lookup, insert, contains}
use asct.Recipes.{Metadata}
use asct.Recipes.Selection.{add_all, get_dependents}
use asct.Run.{Benchmarks, SetupState, Reason, failed, is_in}

module _ (global : Dict Text Metadata) (names : List Text) where
  -- Whatever depends on a benchmark that failed is skipped.
  pub AreSkipped : Dict Text Reason → Type 0
  AreSkipped skipped =
      (f b : Text) (l : List Text)
      → lookup f skipped ≡ some failed
      → get_dependents global f names ≡ ok l
      → contains b l ≡ true
      → is_in b skipped ≡ true

module _ {W : Type 0} (ops : Benchmarks W) (global : Dict Text Metadata) (names : List Text) where
  Failed : Text → SetupState W → SetupState W → Type 0
  Failed name s t =
      (l : List Text) × (get_dependents global name names ≡ ok l)
      × (t.skipped_benchmarks ≡ insert name failed s.skipped_benchmarks)
      × (t.skipped_dependents ≡ add_all s.skipped_dependents l)
