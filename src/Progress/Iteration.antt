-- ===== src/Progress/Iteration.antt =====
-- The generator `iterate` of src/lib/term_ui/progress_bar.py together with the loop that consumes
-- it: a `for` loop with a body that may raise.
use asct.Prelude.{
  ℕ, suc, Bool, not, Option, none, some, List, [], ◌∷◌, Exec, ◌>>◌, modify, pure, raise, length,
  get_elem?, if◌then◌else◌,
}
use asct.Text.{Text}
use asct.Progress.{
  Error, runtime_error, iterable_error, Block, Container, on_enter_iteration_block,
  on_exit_iteration_block, share, global_news, tell, counted, count_global, complete, described,
}

-- `IterationState(iterable, depth)`
abbrev pub new_block : {A : Type 0} → Bool → List A → Block
new_block is_sized items = record {
  is_sized = is_sized;
  step_idx = 0;
  step_count = if is_sized then length items else 0;
}

-- How the iterable ends: with `StopIteration`, or with another exception
pub data Ending : Type 0 where
  stops : Ending
  fails : Ending

module _ {A : Type 0} (text_gen : Option (ℕ → A → Option Text))
    (body : A → Exec Error Container (Unit {0})) where
  abbrev pub text_of : Option (ℕ → A → Option Text) → ℕ → A → Option Text
  text_of none idx item = none
  text_of (some f) idx item = some (described (f idx item) idx)

  -- Before `yield item`: the trackers are told, and the step is counted.
  abbrev pub before_yield : A → ℕ → Block → Container → Container
  before_yield item slot b c =
      let told : Container =
        tell (text_of text_gen b.step_idx item) (counted b) (global_news c) c in
      share (get_elem? told.iter_stack slot) slot (record (counted b) { step_idx = suc b.step_idx })
        told

  unfoldable pub finish_loop :
      Ending → Block → Option (Option Text × Option ℕ) → Exec Error Container (Unit {0})
  unfolding complete on_exit_iteration_block
  finish_loop stops b last = complete last b >> on_exit_iteration_block
  finish_loop fails b last = on_exit_iteration_block >> raise runtime_error

  unfoldable pub iterate_loop :
      Ending
      → List A
      → ℕ
      → Block
      → Option (Option Text × Option ℕ)
      → Exec Error Container (Unit {0})
  unfolding share global_news counted count_global described finish_loop
  iterate_loop ending [] slot b last c = finish_loop ending b last c
  iterate_loop ending (item ∷ items) slot b last c =
      let news : Option ℕ = global_news c in
      let rest =
        iterate_loop ending items slot (record (counted b) { step_idx = suc b.step_idx })
          (some (text_of text_gen b.step_idx item, news)) in
      (body item >> modify count_global >> rest) (before_yield item slot b c)

  -- Where the container is not active, the items are passed on.
  unfoldable pub pass_on : Ending → List A → Exec Error Container (Unit {0})
  pass_on stops [] = pure tt
  pass_on fails [] = raise iterable_error
  pass_on ending (item ∷ items) = body item >> pass_on ending items

  unfoldable pub iterate : Bool → Ending → List A → Exec Error Container (Unit {0})
  unfolding iterate_loop pass_on on_enter_iteration_block
  iterate is_sized ending items c =
      if not c.active
      then pass_on ending items c
      else (on_enter_iteration_block (new_block is_sized items)
            >> iterate_loop ending items c.open_blocks (new_block is_sized items) none)
          c
