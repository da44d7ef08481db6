-- ===== src/Progress.antt =====
-- The progress of nested loops, ASCTProgressTrackerContainer of src/lib/term_ui/progress_bar.py.
-- The field `open_blocks` is the program's `_iter_depth`, which starts at -1, plus one. What the
-- trackers are told is collected in `updates`; the estimated number of all steps, an average of
-- floats that only they see, is left out, and so is time.
pub mod Iteration
pub mod Loops
pub mod Nested
pub mod Benchmark
mod Tests
use asct.Prelude.{
  ltb, ◌||◌, ℕ, zero, suc, ◌+◌, ◌-◌, Bool, true, false, not, ◌&&◌, Option, none, some, List, [],
  ◌∷◌, ◌++◌, Result, ok, err, Exec, continue, length, get_elem?, set, replicate, ◌==◌, nat_key,
  if◌then◌else◌,
}
use asct.Text.{Text, codes, show}

pub data Error : Type 0 where
  index_error : Error
  attribute_error : Error
  unbound_local_error : Error
  runtime_error : Error
  -- What an iterable raises
  iterable_error : Error
  -- What a step of a benchmark raises: one of the exceptions that its loop names, or another
  step_error : Error
  other_error : Error
  -- What `gen_steps` and `get_results` of a benchmark raise
  generation_error : Error
  results_error : Error

-- `IterationState`, whose depth is its slot of the stack; `step_count` is 0 at first where the
-- iterable has no length.
pub record Block : Type 0 where
  pub is_sized : Bool
  pub step_idx : ℕ
  pub step_count : ℕ

pub record Update : Type 0 where
  pub text : Option Text
  pub step_index : ℕ
  pub step_count : ℕ
  pub global_step_index : Option ℕ
  pub step_depth : ℕ

pub record Container : Type 0 where
  pub active : Bool
  pub has_async : Bool
  pub max_depth : ℕ
  pub global_step_index : ℕ
  pub prev_global_step_index : ℕ
  pub iter_stack : List (Option Block)
  -- The samples of each averager
  pub avg_step_count : List (List ℕ)
  pub open_blocks : ℕ
  pub updates : List Update

-- `__init__`; the stack is `None` as long as the container is not active.
abbrev pub new_container : Container
new_container = record {
  active = false;
  has_async = false;
  max_depth = 0;
  global_step_index = 0;
  prev_global_step_index = 0;
  iter_stack = [];
  avg_step_count = [];
  open_blocks = 0;
  updates = [];
}

-- `initialize`, of a new container
unfoldable pub initialize : ℕ → Bool → Bool → Bool → Container
initialize max_depth enable_terminal terminal_async enable_file =
    if enable_terminal || enable_file
    then record new_container {
      active = true;
      has_async = enable_terminal && terminal_async;
      max_depth = max_depth;
      iter_stack = replicate max_depth none;
      avg_step_count = replicate max_depth [];
    }
    else new_container

-- The depth is raised before the store, which may raise.
unfoldable pub on_enter_iteration_block : Block → Exec Error Container (Unit {0})
on_enter_iteration_block b c =
    let deeper : Container = record c { open_blocks = suc c.open_blocks } in
    if ltb c.open_blocks (length c.iter_stack)
    then (ok tt, record deeper { iter_stack = set c.iter_stack c.open_blocks (some b) })
    else (err index_error, deeper)

unfoldable pub add_sample :
    ℕ → Option (List ℕ) → Option (Option Block) → Exec Error Container (Unit {0})
add_sample depth none slot c = (err index_error, c)
add_sample depth (some samples) none c = (err index_error, c)
add_sample depth (some samples) (some none) c = (err attribute_error, c)
add_sample depth (some samples) (some (some b)) c = (
  ok tt,
  record c {
    avg_step_count = set c.avg_step_count depth (samples ++ (b.step_idx ∷ []));
    iter_stack = set c.iter_stack depth none;
    open_blocks = depth;
  },
)

-- Where no block is open, the index -1 names the last slot, which is empty, or none.
unfoldable pub exit_at : ℕ → Exec Error Container (Unit {0})
unfolding add_sample
exit_at zero c = elim c.iter_stack [
  | [] ↦ (err index_error, c)
  | slot ∷ slots ↦ (err attribute_error, c)
]
exit_at (suc depth) c =
    add_sample depth (get_elem? c.avg_step_count depth) (get_elem? c.iter_stack depth) c

unfoldable pub on_exit_iteration_block : Exec Error Container (Unit {0})
unfolding exit_at
on_exit_iteration_block c = exit_at c.open_blocks c

-- `break_from_iteration`
unfoldable pub break_from_iteration : Exec Error Container (Unit {0})
unfolding on_exit_iteration_block
break_from_iteration c = on_exit_iteration_block c

-- The generator and the stack share the block: what the one writes, the other sees, as long as the
-- slot is not emptied.
unfoldable pub share : Option (Option Block) → ℕ → Block → Container → Container
share (some (some old)) slot b c = record c { iter_stack = set c.iter_stack slot (some b) }
share (some none) slot b c = c
share none slot b c = c

-- The news of the global step, told once
unfoldable pub global_news : Container → Option ℕ
global_news c =
    if not (c.global_step_index == c.prev_global_step_index) then some c.global_step_index else none

abbrev pub tell : Option Text → Block → Option ℕ → Container → Container
tell text b news c = record c {
  prev_global_step_index = c.global_step_index;
  updates =
      c.updates
      ++ (record {
        text = text;
        step_index = b.step_idx;
        step_count = b.step_count;
        global_step_index = news;
        step_depth = c.open_blocks - 1;
      }
          ∷ []);
}

unfoldable pub counted : Block → Block
counted b = if b.is_sized then b else record b { step_count = suc b.step_idx }

-- `self._iter_depth == self._max_depth - 1`
unfoldable pub count_global : Container → Container
count_global c =
    if c.open_blocks == c.max_depth
    then record c { global_step_index = suc c.global_step_index }
    else c

abbrev pub completion : Option Text × Option ℕ → Block → Container → List Update
completion l b c =
    c.updates
    ++ (record {
      text = l.0;
      step_index = b.step_idx;
      step_count = b.step_count;
      global_step_index = l.1;
      step_depth = c.open_blocks - 1;
    }
        ∷ [])

-- The update that shows the last step as complete; its names are bound by the loop.
unfoldable pub show_complete :
    Option (Option Text × Option ℕ) → Block → Exec Error Container (Unit {0})
show_complete none b c = (err unbound_local_error, c)
show_complete (some l) b c = (ok tt, record c { updates = completion l b c })

unfoldable pub complete : Option (Option Text × Option ℕ) → Block → Exec Error Container (Unit {0})
unfolding show_complete
complete last b c = if b.is_sized && c.has_async then show_complete last b c else (ok tt, c)

-- `text_gen(step_idx, item)`, or the fallback where it raises
unfoldable pub described : Option Text → ℕ → Text
unfolding show
described none idx = codes "Step " ++ show idx
described (some text) idx = text
