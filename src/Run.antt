-- ===== src/Run.antt =====
-- A run of benchmarks: src/lib/run/run_helper.py, `setup_benchmarks`, `teardown_benchmarks` and
-- `execute_benchmarks`. Progress bar, log and reporter are left out.
pub mod Skipped
pub mod Recorded
mod Tests
use asct.Prelude.{
  Bool, true, false, Option, none, some, List, [], ◌∷◌, Result, ok, err, Exec, pure, raise, lift,
  gets, modify, ◌>>=◌, ◌>>◌, if◌then◌else◌, continue,
}
use asct.Text.{Text, text_key}
use asct.Dict.{Dict, lookup, insert}
use asct.Recipes.{Metadata}
use asct.Recipes.Selection.{add_all, get_dependents}

pub data Stage : Type 0 where
  setup alloc : Stage

pub data Reason : Type 0 where
  failed dependency_skipped : Reason

pub data RunError : Type 0 where
  system_exit key_error write_error : RunError

-- What the run calls, over a type of states of the world: each says whether it raised nothing.
-- `perform` is `initialize_config` and `setup`, or `allocate_resources`; where a run is given no
-- `write_benchmark_result`, that operation does nothing and raises nothing.
pub record Benchmarks (W : Type 0) : Type 0 where
  pub stop_requested : W → Bool
  pub perform : Stage → Text → W → Bool × W
  pub run : Text → W → Bool × W
  pub teardown : Text → W → W
  pub write_benchmark_result : Text → W → Bool × W

-- `key in d`
unfoldable pub is_in : {V : Type 0} → Text → Dict Text V → Bool
unfolding lookup
is_in k d = elim (lookup k d) [ none ↦ false | some v ↦ true ]

pub record SetupState (W : Type 0) : Type 0 where
  pub world : W
  pub skipped_benchmarks : Dict Text Reason
  pub skipped_dependents : List Text

-- `for dep in [...]: skipped_benchmarks[dep] = ...`
unfoldable pub skip_all : List Text → Dict Text Reason → Dict Text Reason
unfolding is_in insert
skip_all [] skipped = skipped
skip_all (dep ∷ deps) skipped =
    skip_all deps (if is_in dep skipped then skipped else insert dep dependency_skipped skipped)

module _ {W : Type 0} (ops : Benchmarks W) (global : Dict Text Metadata) (names : List Text) where
  abbrev pub dependents : Text → Exec RunError (SetupState W) (List Text)
  dependents name = elim (get_dependents global name names) [
    | ok l ↦ pure l
    | err e ↦ raise key_error
  ]

  -- The `except` branch.
  unfoldable pub fail : Text → Exec RunError (SetupState W) Unit
  unfolding get_dependents insert add_all
  fail name = gets (λ s. ops.stop_requested s.world) >>= λ stop.
      if stop
      then raise system_exit
      else modify (λ s. record s { skipped_benchmarks = insert name failed s.skipped_benchmarks })
        >> (dependents name >>= λ l.
            modify (λ s. record s { skipped_dependents = add_all s.skipped_dependents l }))

  unfoldable pub skip_dependents : Exec RunError (SetupState W) Unit
  unfolding skip_all
  skip_dependents =
      modify
        λ s. record s { skipped_benchmarks = skip_all s.skipped_dependents s.skipped_benchmarks }

  unfoldable pub attempt : Stage → Text → Exec RunError (SetupState W) Unit
  unfolding fail
  attempt stage name s =
      let (went, w) = ops.perform stage name s.world in
      let after = record s { world = w } in if went then pure tt after else fail name after

  -- The body of the inner loop.
  unfoldable pub round : Stage → Text → Exec RunError (SetupState W) Unit
  unfolding attempt skip_dependents is_in
  round stage name = gets (λ s. s) >>= λ s.
      if ops.stop_requested s.world
      then raise system_exit
      else if is_in name s.skipped_benchmarks
      then pure tt
      else attempt stage name >> skip_dependents

  unfoldable pub rounds : Stage → List Text → Exec RunError (SetupState W) Unit
  unfolding round
  rounds stage [] = pure tt
  rounds stage (name ∷ list) = round stage name >> rounds stage list

  unfoldable pub both_stages : Exec RunError (SetupState W) Unit
  unfolding rounds
  both_stages = rounds setup names >> rounds alloc names

abbrev not_in : List Text → Dict Text Reason → List Text
not_in [] skipped = []
not_in (n ∷ ns) skipped = let rest = not_in ns skipped in if is_in n skipped then rest else n ∷ rest

module _ {W : Type 0} (ops : Benchmarks W) where
  -- `names` are the names of `recipe_registry.get_recipes(benchmark_name_list)`.
  unfoldable pub setup_benchmarks :
      Dict Text Metadata → List Text → W → Result RunError (List Text × Dict Text Reason) × W
  unfolding both_stages is_in
  setup_benchmarks global names w =
      let start : SetupState W = record {
        world = w;
        skipped_benchmarks = [];
        skipped_dependents = [];
      } in
      let (r, s) = both_stages ops global names start in
      (
        elim r [
          | err e ↦ err e
          | ok u ↦ ok (not_in names s.skipped_benchmarks, s.skipped_benchmarks)
        ],
        s.world,
      )

  unfoldable pub teardown_benchmarks : List Text → W → W
  teardown_benchmarks [] w = w
  teardown_benchmarks (name ∷ list) w = teardown_benchmarks list (ops.teardown name w)

-- The dictionaries of the completed and the failed benchmarks, by their names.
pub record RunState (W : Type 0) : Type 0 where
  pub world : W
  pub completed : Dict Text Text
  pub failures : Dict Text Text

module _ {W : Type 0} (ops : Benchmarks W) where
  unfoldable pub record_result : Text → Exec RunError (RunState W) Unit
  unfolding insert
  record_result name s =
      let done = record s { completed = insert name name s.completed } in
      let (written, w) = ops.write_benchmark_result name done.world in
      let after = record done { world = w } in
      if written then (ok tt, after) else (err write_error, after)

  -- The body of the loop over the priority list.
  unfoldable pub run_one : Text → Exec RunError (RunState W) Unit
  unfolding record_result insert
  run_one name s =
      let (went, w) = ops.run name s.world in
      let after = record s { world = w } in
      if ops.stop_requested s.world
      then (err system_exit, s)
      else if went
      then record_result name after
      else if ops.stop_requested w
      then (err system_exit, after)
      else (ok tt, record after { failures = insert name name after.failures })

  unfoldable pub run_all : List Text → Exec RunError (RunState W) Unit
  unfolding run_one
  run_all [] = pure tt
  run_all (name ∷ list) = run_one name >> run_all list

  -- The `finally` branch runs whether the loop raised or not.
  unfoldable pub execute_benchmarks : List Text → Exec RunError (RunState W) Unit
  unfolding run_all teardown_benchmarks
  execute_benchmarks [] s = (ok tt, s)
  execute_benchmarks (name ∷ list) s =
      let (r, t) = run_all (name ∷ list) s in
      (r, record t { world = teardown_benchmarks ops (name ∷ list) t.world })
