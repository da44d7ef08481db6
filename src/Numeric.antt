-- ===== src/Numeric.antt =====
-- Ranges by factors: src/lib/utility/numeric.py, `range_up`, over natural numbers. The intermediate
-- steps are floats: their values and whether one is larger than `hi` are parameters.
pub mod Powers
mod Tests
use asct.Prelude.{
  ℕ, zero, suc, ◌+◌, ◌-◌, ◌*◌, Bool, true, false, Option, none, some, List, [], ◌∷◌, ◌++◌, Result,
  ok, err, if◌then◌else◌, leb,
}

pub data RangeError : Type 0 where
  value_error : RangeError

pub data Yielded (F : Type 0) : Type 0 where
  exact : ℕ → Yielded F
  between : F → Yielded F

-- What is yielded in one round, and the rest if the inner loop did not return.
abbrev pub one_round :
    {F : Type 0}
    → ℕ
    → List (Yielded F) × Bool
    → Option (List (Yielded F))
    → Option (List (Yielded F))
one_round d (l, true) rest = some (exact d ∷ l)
one_round d (l, false) none = none
one_round d (l, false) (some rest) = some (exact d ∷ l ++ rest)

module _ {F : Type 0} (intermediate : ℕ → ℕ → F) (is_above : F → Bool) where
  -- The inner loop from `i` on, with whether it returned.
  unfoldable pub inter_steps : ℕ → ℕ → ℕ → List (Yielded F) × Bool
  inter_steps zero i d = ([], false)
  inter_steps (suc left) i d =
      let (rest, returned) = inter_steps left (suc i) d in
      if is_above (intermediate d i)
      then ([], true)
      else (between (intermediate d i) ∷ rest, returned)

  -- The outer loop, where `none` is out of fuel
  unfoldable pub range_up_loop : ℕ → ℕ → ℕ → ℕ → ℕ → Option (List (Yielded F))
  unfolding inter_steps
  range_up_loop zero hi steps step d = none
  range_up_loop (suc fuel) hi steps step d =
      let rest = range_up_loop fuel hi steps step (d * step) in
      if leb d hi then one_round d (inter_steps (steps - 1) 1 d) rest else some []

  unfoldable pub range_up : ℕ → ℕ → ℕ → ℕ → ℕ → Result RangeError (Option (List (Yielded F)))
  unfolding range_up_loop
  range_up fuel lo hi steps step =
      if leb 1 steps
      then if leb 2 step then ok (range_up_loop fuel hi steps step lo) else err value_error
      else err value_error
