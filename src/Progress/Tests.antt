-- ===== src/Progress/Tests.antt =====
-- Two nested loops, of three and of two steps.
use asct.Prelude.{
  ℕ, suc, ◌+◌, ◌*◌, ◌<◌, true, false, Option, none, some, [], ◌∷◌, ◌≡◌, refl, ok, err, Exec, length,
  arith, get_elem?, zero, if◌then◌else◌, ◌==◌, nat_key,
}
use asct.Text.{Text, codes}
use asct.Progress.{Container, Error, initialize, other_error}
use asct.Progress.Iteration.{iterate, stops}
use asct.Progress.Loops.{IsReady, Advances, Runs, own_step}
use asct.Progress.Benchmark.{
  StepOutcome, succeeds, uncaught, run_function, outcome, with_results, is_left_open, Leaves,
  run_function-Leaves,
}
use asct.Progress.Nested.{iterate-Runs}

abbrev terminal : Container
terminal = initialize 2 true true false

abbrev nothing : ℕ → Exec Error Container (Unit {0})
nothing step c = (ok tt, c)

abbrev step_text : Option (ℕ → ℕ → Option Text)
step_text = some (λ i item. if item == 7 then none else some (codes "run"))

abbrev inner_loop : ℕ → Exec Error Container (Unit {0})
inner_loop item = iterate step_text nothing true stops (item ∷ 7 ∷ [])

abbrev outer_loop : Exec Error Container (Unit {0})
outer_loop = iterate none inner_loop false stops (1 ∷ 2 ∷ 3 ∷ [])

six_steps : (outer_loop terminal).1.global_step_index ≡ 6
unfolding iterate initialize
six_steps = refl

twelve_updates : length (outer_loop terminal).1.updates ≡ 12
unfolding iterate initialize
twelve_updates = refl

third_update :
    get_elem? (outer_loop terminal).1.updates 2
    ≡ some (record {
      text = some (codes "Step 1");
      step_index = 1;
      step_count = 2;
      global_step_index = some 1;
      step_depth = 1;
    })
unfolding iterate initialize
third_update = refl

empty_slot : (i : ℕ) → i < 2 → get_elem? terminal.iter_stack i ≡ some none
unfolding initialize
empty_slot zero h = refl
empty_slot (suc zero) h = refl
empty_slot (suc (suc i)) h = absurd (omega (arith, h))

terminal-IsReady : IsReady 2 0 terminal
unfolding IsReady initialize
terminal-IsReady = (refl, refl, refl, refl, refl, λ i low high. empty_slot i high)

nothing-Runs : (item : ℕ) → Runs 2 2 0 (nothing item)
unfolding Runs Advances IsReady
nothing-Runs item c r = (c, refl, (refl, refl, refl, refl, refl, refl, omega arith))

inner_loop-Runs : (item : ℕ) → Runs 2 1 (2 * (0 + own_step 2 1)) (inner_loop item)
inner_loop-Runs item =
    iterate-Runs step_text nothing 2 1 0 true (item ∷ 7 ∷ []) nothing-Runs (omega arith) (λ e. cc)

iterate-Runs_example : Runs 2 0 (3 * (2 * (0 + own_step 2 1) + own_step 2 0)) outer_loop
iterate-Runs_example =
    iterate-Runs none inner_loop 2 0 (2 * (0 + own_step 2 1)) false (1 ∷ 2 ∷ 3 ∷ []) inner_loop-Runs
      (omega arith) (λ e. cc)

abbrev uncaught_at_two : ℕ → StepOutcome
uncaught_at_two step = if step == 2 then uncaught else succeeds

abbrev step_desc : ℕ → ℕ → Option Text
step_desc i step = some (codes "step")

run_function-Leaves_example :
    (t : Container) × (run_function step_desc uncaught_at_two false
        (some (true, 1 ∷ 2 ∷ 3 ∷ [], stops))
        true
        terminal
      ≡ (
        with_results step_desc uncaught_at_two true
            (outcome step_desc uncaught_at_two stops (1 ∷ 2 ∷ 3 ∷ [])),
        t,
      ))
    × Leaves
        (is_left_open step_desc uncaught_at_two (1 ∷ 2 ∷ 3 ∷ []))
        terminal.open_blocks
        terminal.iter_stack
        terminal
        t
run_function-Leaves_example =
    run_function-Leaves step_desc uncaught_at_two 2 0 true stops (1 ∷ 2 ∷ 3 ∷ []) true terminal
      terminal-IsReady (omega arith) (λ e. cc)

two_uncaught : outcome step_desc uncaught_at_two stops (1 ∷ 2 ∷ 3 ∷ []) ≡ err other_error
unfolding outcome
two_uncaught = refl

two_open : is_left_open step_desc uncaught_at_two (1 ∷ 2 ∷ 3 ∷ []) ≡ true
unfolding is_left_open
two_open = refl
