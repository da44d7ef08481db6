-- ===== src/Progress/Benchmark.antt =====
-- The loop of a benchmark, `run_function` of src/core/recipes/recipe_benchmark_base.py: a step that
-- raises one of the exceptions that the loop names breaks the iteration before the exception goes
-- on. `gen_steps`, a step and `get_results` are known by how they end, since they do not touch the
-- container; the speed of the animation and the value of the results are left out.
use asct.Prelude.{
  ℕ, suc, ◌<◌, Bool, true, false, ◌&&◌, Option, none, some, List, [], ◌∷◌, ◌≡◌, refl, sym, ap,
  subst, ◌∙◌, Result, ok, err, Exec, ◌>>◌, raise, length, get_elem?, set, get_elem?-set_self,
  length-set, arith, if◌then◌else◌, inl, inr, ◌⊎◌, continue,
}
use asct.Text.{Text}
use asct.Progress.{
  Error, step_error, other_error, generation_error, results_error, runtime_error, Block, Container,
  break_from_iteration, on_exit_iteration_block, global_news, tell, counted, count_global,
}
use asct.Progress.Iteration.{
  new_block, Ending, stops, fails, text_of, before_yield, finish_loop, iterate_loop, iterate,
}
use asct.Progress.Loops.{
  set_twice, set-get_elem?, IsReady, Advances, own_step, Advances-IsReady, count_global-Advances,
  fill-IsReady, share-filled, exit-ok,
}
use asct.Progress.Nested.{Closes, finish-Closes, entered-IsReady, enters, iterate-active}

-- How a step ends: well, with an exception that the loop names, or with another one
pub data StepOutcome : Type 0 where
  succeeds : StepOutcome
  caught : StepOutcome
  uncaught : StepOutcome

-- The blocks and the sizes of the container are as in `c`, with `s` as the stack.
unfoldable pub Restores : ℕ → List (Option Block) → Container → Container → Type 0
Restores depth s c t =
    (t.active ≡ c.active)
    × (t.has_async ≡ c.has_async)
    × (t.max_depth ≡ c.max_depth)
    × (t.open_blocks ≡ depth)
    × (t.iter_stack ≡ s)
    × (length t.avg_step_count ≡ length c.avg_step_count)

-- Where a block is left open, it is the next one above `depth`.
unfoldable pub Leaves : Bool → ℕ → List (Option Block) → Container → Container → Type 0
unfolding Restores
Leaves true depth s c t =
    (t.open_blocks ≡ suc depth) × (b : Block) × (t.iter_stack ≡ set s depth (some b))
Leaves false depth s c t = Restores depth s c t

outcome-cases : (o : StepOutcome) → (o ≡ succeeds) ⊎ (o ≡ caught) ⊎ (o ≡ uncaught)
outcome-cases succeeds = inl refl
outcome-cases caught = inr (inl refl)
outcome-cases uncaught = inr (inr refl)

Leaves-same :
    (is_open : Bool) (depth : ℕ) (s : List (Option Block)) (c v t : Container)
    → v.active ≡ c.active
    → v.has_async ≡ c.has_async
    → v.max_depth ≡ c.max_depth
    → length v.avg_step_count ≡ length c.avg_step_count
    → Leaves is_open depth s v t
    → Leaves is_open depth s c t
unfolding Leaves
Leaves-same true depth s c v t active async deepest sizes leaves = leaves
Leaves-same false depth s c v t active async deepest sizes leaves =
    (leaves.0 ∙ active, leaves.1 ∙ async, leaves.2 ∙ deepest, leaves.3, leaves.4, leaves.5 ∙ sizes)

module _ {A : Type 0} (get_step_desc : ℕ → A → Option Text) (one_step : A → StepOutcome) where
  -- The body of the loop, where `one_step` says how the step ends
  unfoldable pub after_step : StepOutcome → Exec Error Container (Unit {0})
  unfolding break_from_iteration
  after_step succeeds c = (ok tt, c)
  after_step caught c = (break_from_iteration >> raise step_error) c
  after_step uncaught c = (err other_error, c)

  abbrev pub step_body : A → Exec Error Container (Unit {0})
  step_body item = after_step (one_step item)

  -- `get_results()`, which may raise
  unfoldable pub get_results : Bool → Exec Error Container (Unit {0})
  get_results true c = (ok tt, c)
  get_results false c = (err results_error, c)

  -- `gen_steps()` raises, or it returns steps, of which a generator may raise behind the last.
  unfoldable pub run_function :
      Bool → Option (Bool × List A × Ending) → Bool → Exec Error Container (Unit {0})
  unfolding iterate after_step get_results
  run_function true generated has_results c = (ok tt, c)
  run_function false none has_results c = (err generation_error, c)
  run_function false (some (is_sized, steps, ending)) has_results c =
      (iterate (some get_step_desc) step_body is_sized ending steps >> get_results has_results) c

  unfoldable pub at_end : Ending → Result Error (Unit {0})
  at_end stops = ok tt
  at_end fails = err runtime_error

  unfoldable after_result : StepOutcome → Result Error (Unit {0}) → Result Error (Unit {0})
  after_result succeeds rest = rest
  after_result caught rest = err step_error
  after_result uncaught rest = err other_error

  -- What the first step that does not succeed makes of the loop, or else the end of the steps
  unfoldable pub outcome : Ending → List A → Result Error (Unit {0})
  unfolding at_end after_result
  outcome ending [] = at_end ending
  outcome ending (item ∷ items) = after_result (one_step item) (outcome ending items)

  unfoldable after_outcome : StepOutcome → Bool → Bool
  after_outcome succeeds is_open = is_open
  after_outcome caught is_open = false
  after_outcome uncaught is_open = true

  -- Whether the first step that does not succeed raises an exception that the loop does not name
  unfoldable pub is_left_open : List A → Bool
  unfolding after_outcome
  is_left_open [] = false
  is_left_open (item ∷ items) = after_outcome (one_step item) (is_left_open items)

  -- The result of the steps, or that of `get_results` behind them
  unfoldable pub with_results : Bool → Result Error (Unit {0}) → Result Error (Unit {0})
  with_results has_results (err e) = err e
  with_results has_results (ok x) = if has_results then ok tt else err results_error

  goes_on : (c : Container) → after_step succeeds c ≡ (ok tt, c)
  unfolding after_step
  goes_on c = refl

  breaks :
      (c t : Container)
      → on_exit_iteration_block c ≡ (ok tt, t)
      → after_step caught c ≡ (err step_error, t)
  unfolding after_step break_from_iteration
  breaks c t closed = rw closed refl

  stays_open : (c : Container) → after_step uncaught c ≡ (err other_error, c)
  unfolding after_step
  stays_open c = refl

  -- One step in front of the others decides by how it ends.
  in_front :
      (ending : Ending) (item : A) (items : List A) (o : StepOutcome) (depth : ℕ)
      (s : List (Option Block)) (c : Container) (p : Result Error (Unit {0}) × Container)
      → one_step item ≡ o
      → (t : Container) × (p ≡ (after_result o (outcome ending items), t))
        × Leaves (after_outcome o (is_left_open items)) depth s c t
      → (t : Container) × (p ≡ (outcome ending (item ∷ items), t))
        × Leaves (is_left_open (item ∷ items)) depth s c t
  unfolding outcome is_left_open
  in_front ending item items o depth s c p e =
      subst
        (λ q.
          (t : Container) × (p ≡ (after_result q (outcome ending items), t))
          × Leaves (after_outcome q (is_left_open items)) depth s c t)
        (sym e)

  module _ (max_depth depth : ℕ) where
    exit-Restores :
        (c : Container) (s : List (Option Block)) (b : Block)
        → IsReady max_depth (suc depth) c
        → length s ≡ max_depth
        → depth < max_depth
        → get_elem? s depth ≡ some none
        → c.iter_stack ≡ set s depth (some b)
        → (t : Container) × (on_exit_iteration_block c ≡ (ok tt, t)) × Restores depth s c t
    unfolding IsReady Restores
    exit-Restores c s b r len below empty filled =
        let at : get_elem? c.iter_stack depth ≡ some (some b) =
          ap (λ l. get_elem? l depth) filled ∙ get_elem?-set_self s depth (some b) (omega arith) in
        let (samples, closed) = exit-ok max_depth depth c b r.2 (omega (arith, r.4)) at in
        let t : Container = record c {
          avg_step_count = set c.avg_step_count depth samples;
          iter_stack = set c.iter_stack depth none;
          open_blocks = depth;
        } in
        (
          t,
          closed,
          (
            refl,
            refl,
            refl,
            refl,
            ap (λ l. set l depth none) filled
                ∙ set_twice s depth (some b) none
                ∙ set-get_elem? s depth none empty,
            length-set c.avg_step_count depth samples,
          ),
        )

    finish-Leaves :
        (ending : Ending) (last : Option (Option Text × Option ℕ)) (b : Block) (c : Container)
        (s : List (Option Block))
        → IsReady max_depth (suc depth) c
        → length s ≡ max_depth
        → depth < max_depth
        → get_elem? s depth ≡ some none
        → c.iter_stack ≡ set s depth (some b)
        → (last ≡ none → (b.is_sized && c.has_async) ≡ false)
        → (t : Container) × (finish_loop (some get_step_desc) step_body ending b last c
            ≡ (outcome ending [], t))
          × Leaves false depth s c t
    unfolding finish_loop outcome Leaves Restores Closes
    finish-Leaves stops last b c s r len below empty filled shown =
        let (t, finished, closes) =
          finish-Closes (some get_step_desc) step_body max_depth depth last b c s r len below empty
            filled shown in
        (t, finished, (closes.0, closes.1, closes.2, closes.3, closes.4, closes.5))
    finish-Leaves fails last b c s r len below empty filled shown =
        let (t, closed, restores) = exit-Restores c s b r len below empty filled in
        (t, rw closed refl, restores)

    loop-Leaves :
        (ending : Ending) (items : List A) (last : Option (Option Text × Option ℕ)) (b : Block)
        (c : Container) (s : List (Option Block))
        → IsReady max_depth (suc depth) c
        → length s ≡ max_depth
        → depth < max_depth
        → get_elem? s depth ≡ some none
        → c.iter_stack ≡ set s depth (some b)
        → (items ≡ [] → last ≡ none → (b.is_sized && c.has_async) ≡ false)
        → (t : Container) × (iterate_loop (some get_step_desc) step_body ending items depth b last c
            ≡ (outcome ending items, t))
          × Leaves (is_left_open items) depth s c t
    unfolding iterate_loop Leaves Restores Advances IsReady after_outcome after_result is_left_open
    loop-Leaves ending [] last b c s r len below empty filled shown =
        finish-Leaves ending last b c s r len below empty filled (shown refl)
    loop-Leaves ending (item ∷ items) last b c s r len below empty filled shown =
        let text = text_of (some get_step_desc) step_body (some get_step_desc) b.step_idx item in
        let b' : Block = record (counted b) { step_idx = suc b.step_idx } in
        let told : Container = tell text (counted b) (global_news c) c in
        let u : Container = record told { iter_stack = set s depth (some b') } in
        let yields : before_yield (some get_step_desc) step_body item depth b c ≡ u =
          share-filled max_depth depth told s b b' (omega arith) filled in
        let ready : IsReady max_depth (suc depth) u =
          fill-IsReady max_depth depth told s b r len filled b' in
        elim (outcome-cases (one_step item)) [
          | inl succeeding ↦
              let counts = count_global-Advances max_depth depth u ready in
              let v : Container = count_global u in
              let ready_v : IsReady max_depth (suc depth) v =
                Advances-IsReady max_depth (suc depth) (own_step max_depth depth) u v counts
                  ready in
              let (t, looped, leaves) =
                loop-Leaves ending items (some (text, global_news c)) b' v s ready_v len below empty
                  counts.4 (λ e l. cc) in
              in_front ending item items succeeds depth s c _ succeeding (
                t,
                rw (yields, succeeding, goes_on u) looped,
                Leaves-same (is_left_open items) depth s c v t counts.0 counts.1 counts.2 counts.5
                    leaves,
              )
          | inr (inl named) ↦
              let (t, closed, restores) = exit-Restores u s b' ready len below empty refl in
              in_front ending item items caught depth s c _ named
                (t, rw (yields, named, breaks u t closed) refl, restores)
          | inr (inr other) ↦
              in_front ending item items uncaught depth s c _ other
                (u, rw (yields, other, stays_open u) refl, (ready.2, b', refl))
        ]

    enter-Leaves :
        (is_sized : Bool) (ending : Ending) (steps : List A) (c : Container)
        → IsReady max_depth depth c
        → depth < max_depth
        → (steps ≡ [] → is_sized ≡ false)
        → (t : Container) × (iterate (some get_step_desc) step_body is_sized ending steps c
            ≡ (outcome ending steps, t))
          × Leaves (is_left_open steps) c.open_blocks c.iter_stack c t
    unfolding IsReady iterate
    enter-Leaves is_sized ending steps c r below known =
        let b : Block = new_block is_sized steps in
        let entered : Container = record c {
          open_blocks = suc c.open_blocks;
          iter_stack = set c.iter_stack c.open_blocks (some b);
        } in
        let (t, looped, leaves) =
          loop-Leaves ending steps none b entered c.iter_stack
            (entered-IsReady (some get_step_desc) step_body max_depth depth b c r) r.3 below
            (r.5 depth (omega arith) below) (ap (λ k. set c.iter_stack k (some b)) r.2)
            (λ e last. rw (known e) refl) in
        (
          t,
          iterate-active (some get_step_desc) step_body max_depth depth is_sized ending steps c r
              ∙ enters (some get_step_desc) step_body max_depth depth
                  (iterate_loop (some get_step_desc) step_body ending steps depth b none) b c r
                  below
              ∙ looped,
          subst (λ k. Leaves (is_left_open steps) k c.iter_stack c t) (sym r.2)
              (Leaves-same (is_left_open steps) depth c.iter_stack c entered t refl refl refl refl
                leaves),
        )

    get_results-outcome :
        (has_results : Bool) (r : Result Error (Unit {0})) (t : Container)
        → continue r (λ _. get_results has_results) t ≡ (with_results has_results r, t)
    unfolding get_results with_results
    get_results-outcome true (ok x) t = refl
    get_results-outcome false (ok x) t = refl
    get_results-outcome has_results (err e) t = refl

    -- Outside of the developers' mode, if there is a block left and the list of the steps is not
    -- empty or has no length: a benchmark whose steps exist ends with what its first step that does
    -- not succeed raises, or else with a `RuntimeError` if the generator of the steps raises behind
    -- them, or else as `get_results` does. The container's open blocks and its stack are as they
    -- were, except where that step raises an exception that the loop does not name: then one block
    -- more is open, and it stands in the stack.
    pub run_function-Leaves :
        (is_sized : Bool) (ending : Ending) (steps : List A) (has_results : Bool) (c : Container)
        → IsReady max_depth depth c
        → depth < max_depth
        → (steps ≡ [] → is_sized ≡ false)
        → (t : Container) × (run_function false (some (is_sized, steps, ending)) has_results c
            ≡ (with_results has_results (outcome ending steps), t))
          × Leaves (is_left_open steps) c.open_blocks c.iter_stack c t
    unfolding run_function
    run_function-Leaves is_sized ending steps has_results c r below known =
        let (t, ran, leaves) = enter-Leaves is_sized ending steps c r below known in
        (t, rw ran (get_results-outcome has_results (outcome ending steps) t), leaves)
