-- ===== src/Benchspec.antt =====
-- The settings of a benchmark: src/core/benchspec/benchspec.py, `ASCTBenchmarkConfig`, which scales
-- some of them down in quick mode. A value is None, a natural number or something else; what floats
-- and other values give is a parameter. The registry's own dictionary is what `_set` writes to.
pub mod Sizes
mod Tests
use asct.Prelude.{
  ℕ, zero, suc, ◌*◌, ◌/◌, max, Bool, true, false, Option, none, some, List, [], ◌∷◌, ◌++◌, Result,
  ok, err, and_then, if◌then◌else◌,
}
use asct.Text.{Text, codes, text_key, text_beq, starts_with}
use asct.Dict.{Dict, lookup, insert}

pub data ConfigError : Type 0 where
  type_error zero_division_error : ConfigError

pub data Amount (V : Type 0) : Type 0 where
  nothing : Amount V
  whole : ℕ → Amount V
  other : V → Amount V

-- `int(n * 1.0e-3)` and `int(n * 1.0e-1)` of natural numbers, and the scaling of what else there is:
-- counts, durations, and a size with the size of a cache line.
pub record Scaling (V : Type 0) : Type 0 where
  pub thousandth : ℕ → ℕ
  pub tenth : ℕ → ℕ
  pub other_count : Amount V → Result ConfigError (Amount V)
  pub short_duration : Amount V → Result ConfigError (Amount V)
  pub other_size : Option (Amount V) → Amount V → Result ConfigError (Amount V)

abbrev pub Config : Type 0 → Type 0
Config V = Dict Text (Amount V)

abbrev pub cache_line_size : Text
cache_line_size = codes "_cache_line_size"

abbrev pub default_cache_line_size : ℕ
default_cache_line_size = 64

abbrev pub data_size : Text
data_size = codes "data_size"

-- `f"{name}_orig"`
abbrev pub orig : Text → Text
orig name = name ++ codes "_orig"

module _ {V : Type 0} (scaling : Scaling V) (quick_mode : Bool) where
  open scaling use {thousandth, tenth, other_count, short_duration, other_size}

  -- `_get_adjusted_iter_count`
  unfoldable pub adjusted_iter_count : Amount V → Result ConfigError (Amount V)
  adjusted_iter_count (whole n) = ok (whole (if quick_mode then max 1 (thousandth n) else n))
  adjusted_iter_count nothing = if quick_mode then other_count nothing else ok nothing
  adjusted_iter_count (other v) = if quick_mode then other_count (other v) else ok (other v)

  -- `_get_adjusted_time_delay`, `_get_adjusted_number_of_runs` and `_get_adjusted_duration`
  abbrev pub adjusted_time_delay : Amount V → Amount V
  adjusted_time_delay v = if quick_mode then whole 0 else v

  abbrev pub adjusted_number_of_runs : Amount V → Amount V
  adjusted_number_of_runs v = if quick_mode then whole 1 else v

  abbrev pub adjusted_duration : Amount V → Result ConfigError (Amount V)
  adjusted_duration v = if quick_mode then short_duration v else ok v

  -- `_get_adjusted_size` in quick mode, with the size of a cache line as it is set
  unfoldable pub scaled_size : Option (Amount V) → Amount V → Result ConfigError (Amount V)
  scaled_size (some (whole zero)) (whole n) = err zero_division_error
  scaled_size (some (whole (suc l))) (whole n) = ok (whole (suc l * max (tenth (n / suc l)) 1))
  scaled_size line v = other_size line v

  unfoldable pub adjusted_size : Config V → Amount V → Result ConfigError (Amount V)
  unfolding scaled_size lookup text_beq
  adjusted_size data' v = if quick_mode then scaled_size (lookup cache_line_size data') v else ok v

  -- `_get_adjusted_value`, with whether the original value is kept
  unfoldable pub adjusted_value : Config V → Text → Amount V → Result ConfigError (Amount V × Bool)
  unfolding adjusted_iter_count adjusted_size text_beq starts_with
  adjusted_value data' name v =
      if starts_with (codes "_") name
      then ok (v, false)
      else if text_beq name (codes "iteration")
      then and_then (adjusted_iter_count v) (λ w. ok (w, false))
      else if text_beq name (codes "duration")
      then and_then (adjusted_duration v) (λ w. ok (w, false))
      else if text_beq name (codes "time_delay")
      then ok (adjusted_time_delay v, false)
      else if text_beq name data_size
      then and_then (adjusted_size data' v) (λ w. ok (w, true))
      else if text_beq name (codes "number_of_runs")
      then ok (adjusted_number_of_runs v, false)
      else ok (v, false)

  -- The two writes of `_set`
  abbrev pub write_adjusted : Text → Amount V → Amount V × Bool → Config V → Config V
  write_adjusted name v (w, keep_original) data' =
      if keep_original then insert (orig name) v (insert name w data') else insert name w data'

  -- `_set`
  unfoldable pub set_value : Text → Amount V → Config V → Result ConfigError (Config V)
  unfolding adjusted_value insert text_beq
  set_value name nothing data' = ok data'
  set_value name (whole n) data' =
      and_then (adjusted_value data' name (whole n)) λ a. ok (write_adjusted name (whole n) a data')
  set_value name (other v) data' =
      and_then (adjusted_value data' name (other v)) λ a. ok (write_adjusted name (other v) a data')

  -- `update_with`, which sets one field after the other
  unfoldable pub set_values : Config V → Config V → Result ConfigError (Config V)
  unfolding set_value
  set_values [] data' = ok data'
  set_values ((name, v) ∷ fields) data' = and_then (set_value name v data') (set_values fields)

  -- `__init__`
  unfoldable pub new_config : Config V → Result ConfigError (Config V)
  unfolding set_values set_value
  new_config fields =
      and_then (set_value cache_line_size (whole default_cache_line_size) []) (set_values fields)
