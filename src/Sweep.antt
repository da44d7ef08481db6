-- ===== src/Sweep.antt =====
-- The search for the ends of a plateau in src/core/sweep_algorithm.py, `explore_plateau`. A frame is
-- the list of its rows; sizes are natural numbers, small enough for the division of floats to be
-- exact, and the two tests of a miss rate against its threshold are parameters.
pub mod Plateau
mod Tests
use asct.Prelude.{
  ℕ, ◌+◌, ◌/◌, Bool, true, ◌&&◌, Option, none, some, List, [], ◌∷◌, ◌++◌, ltb, leb, if◌then◌else◌,
}
use asct.Text.{Text, text_key}
use asct.Dict.{Dict, insert}

pub record Row (F : Type 0) : Type 0 where
  pub size : ℕ
  pub misses : Text → F

pub record Bounds : Type 0 where
  pub lower : ℕ
  pub upper : ℕ

module _ {F : Type 0} where
  abbrev pub sizes : List (Row F) → List ℕ
  sizes [] = []
  sizes (r ∷ df) = r.size ∷ sizes df

-- `min()` and `max()` of a column that is not empty
unfoldable pub least : ℕ → List ℕ → ℕ
least m [] = m
least m (n ∷ ns) = least (if leb m n then m else n) ns

unfoldable pub greatest : ℕ → List ℕ → ℕ
greatest m [] = m
greatest m (n ∷ ns) = greatest (if leb n m then m else n) ns

abbrev pub least_or : ℕ → List ℕ → ℕ
least_or default [] = default
least_or default (n ∷ ns) = least n ns

abbrev pub greatest_or : ℕ → List ℕ → ℕ
greatest_or default [] = default
greatest_or default (n ∷ ns) = greatest n ns

-- `df[df["sizes"] < bound]["sizes"]` and its counterpart
unfoldable pub smaller : ℕ → List ℕ → List ℕ
smaller bound [] = []
smaller bound (n ∷ ns) = let rest = smaller bound ns in if ltb n bound then n ∷ rest else rest

unfoldable pub larger : ℕ → List ℕ → List ℕ
larger bound [] = []
larger bound (n ∷ ns) = let rest = larger bound ns in if ltb bound n then n ∷ rest else rest

-- The size between a lower bound of the plateau and the next smaller size, if there is room;
-- `current_lb - 1` may be negative in the source.
unfoldable pub explore_lower : List ℕ → ℕ → List ℕ
unfolding smaller greatest
explore_lower all current_lb =
    let current_too_small = greatest_or 0 (smaller current_lb all) in
    if ltb (current_too_small + 1) current_lb then (current_lb + current_too_small) / 2 ∷ [] else []

unfoldable pub explore_upper : ℕ → List ℕ → ℕ → List ℕ
unfolding larger least
explore_upper max_data_size all current_ub =
    let current_too_large = least_or max_data_size (larger current_ub all) in
    if ltb (current_ub + 1) current_too_large then (current_ub + current_too_large) / 2 ∷ [] else []

module _ {F : Type 0} (at_plateau at_next : F → Bool) where
  -- The mask of the rows: at least 0.95 for the plateau, less than 0.05 for the next one.
  abbrev pub on_plateau : Option Text → Option Text → Row F → Bool
  on_plateau none none r = true
  on_plateau none (some next) r = at_next (r.misses next)
  on_plateau (some name) none r = at_plateau (r.misses name)
  on_plateau (some name) (some next) r = at_plateau (r.misses name) && at_next (r.misses next)

  unfoldable pub plateau_sizes : Option Text → Option Text → List (Row F) → List ℕ
  plateau_sizes name next [] = []
  plateau_sizes name next (r ∷ df) =
      let rest = plateau_sizes name next df in
      if on_plateau name next r then r.size ∷ rest else rest

-- The two searches, where the plateau is not empty and has a name on that side.
unfoldable pub lower_side : ℕ → Option Text → List ℕ → List ℕ → List ℕ × ℕ
unfolding explore_lower least
lower_side min_data_size (some name) all (n ∷ ns) = (explore_lower all (least n ns), least n ns)
lower_side min_data_size name all plateau = ([], min_data_size)

unfoldable pub upper_side : ℕ → Option Text → List ℕ → List ℕ → List ℕ × ℕ
unfolding explore_upper greatest
upper_side max_data_size (some next) all (n ∷ ns) =
    (explore_upper max_data_size all (greatest n ns), greatest n ns)
upper_side max_data_size next all plateau = ([], max_data_size)

module _ {F : Type 0} (at_plateau at_next : F → Bool) (min_data_size max_data_size : ℕ) where
  unfoldable pub explore_plateau :
      List (Row F)
      → List ℕ
      → Dict Text Bounds
      → Option Text
      → Option Text
      → Text
      → List ℕ × Dict Text Bounds
  unfolding plateau_sizes lower_side upper_side insert
  explore_plateau df new_sizes bounds name next level_name =
      let plateau = plateau_sizes at_plateau at_next name next df in
      let (low, current_lb) = lower_side min_data_size name (sizes df) plateau in
      let (high, current_ub) = upper_side max_data_size next (sizes df) plateau in
      (
        (new_sizes ++ low) ++ high,
        insert level_name (record { lower = current_lb; upper = current_ub }) bounds,
      )
