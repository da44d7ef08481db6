-- ===== src/Sysdiff.antt =====
-- The comparison of reports, src/lib/sysdiff: comparators.py, diff_rules.py and manager.py. Values
-- are opaque and come with Python's `==`, which need not hold of a value and itself; arithmetic on
-- floats is a parameter.
pub mod Rules
pub mod Differences
pub mod Runs
pub mod Unchanged
pub mod Adapters
pub mod Loader
mod Tests
use asct.Prelude.{
  ℕ, zero, suc, ◌+◌, Bool, true, false, not, ◌&&◌, ◌||◌, Option, none, some, List, [], ◌∷◌, ◌++◌,
  map, Result, ok, err, and_then, length, sort_by, leb, if◌then◌else◌,
}
use asct.Text.{
  Text, codes, text_key, split, starts_with, ends_with, contains_text, drop_last, text_leb,
}
use asct.Dict.{Dict, keys, lookup, contains}
use asct.Recipes.Selection.{add_all}

-- `float(v)`, which may raise, and IEEE arithmetic
pub record Floats (V : Type 0) (F : Type 0) : Type 0 where
  pub float : V → Option F
  pub equal : F → F → Bool
  pub at_most : F → F → Bool
  -- `abs(b - a)`, and `d / c * 100.0`
  pub distance : F → F → F
  pub percent : F → F → F
  pub abs : F → F
  pub zero : F
  pub one : F

-- What the comparison takes from Python: `==` of two values, floats, and the text for missing
-- values.
pub record Python (V : Type 0) (F : Type 0) : Type 0 where
  pub eq : V → V → Bool
  pub floats : Floats V F
  pub missing : V

pub data Comparator (F : Type 0) : Type 0 where
  comparator : Comparator F
  numeric_tolerance : Option F → Option F → Comparator F
  ignore_node : Comparator F

-- `any(str(k) in cls.ignore_keys for k in path.split("."))`
unfoldable pub any_in : List Text → List Text → Bool
unfolding contains
any_in ignore_keys [] = false
any_in ignore_keys (k ∷ ks) = contains k ignore_keys || any_in ignore_keys ks

unfoldable pub any_prefix : List Text → Text → Bool
unfolding starts_with ends_with contains_text
any_prefix [] path = false
any_prefix (key ∷ ks) path =
    ends_with (b'*' ∷ []) key && contains_text (drop_last 1 key) path
    || starts_with (key ++ b'.' ∷ []) path
    || any_prefix ks path

unfoldable pub should_ignore : List Text → Text → Bool
unfolding any_in any_prefix
should_ignore ignore_keys path =
    contains path ignore_keys || any_in ignore_keys (split b'.' path) || any_prefix ignore_keys path

-- `add_ignore_key`: the keys are a set.
unfoldable pub add_ignore_key : Text → List Text → List Text
unfolding contains
add_ignore_key key ignore_keys =
    if contains key ignore_keys then ignore_keys else ignore_keys ++ (key ∷ [])

module _ {V F : Type 0} (python : Python V F) where
  -- `diff <= tolerance`, where there is a tolerance
  abbrev pub in_tolerance : Option F → F → Bool
  in_tolerance none d = false
  in_tolerance (some tolerance) d = python.floats.at_most d tolerance

  -- `abs(fa) if fa != 0 else (abs(fb) if fb != 0 else 1.0)`
  abbrev pub denominator : F → F → F
  denominator fa fb =
      if not (python.floats.equal fa python.floats.zero)
      then python.floats.abs fa
      else if not (python.floats.equal fb python.floats.zero)
      then python.floats.abs fb
      else python.floats.one

  -- A denominator that is 0 fails the test `if denom and …`; it never is.
  unfoldable pub near : Option F → Option F → F → F → Bool
  near abs_tolerance percent_tolerance fa fb =
      let diff = python.floats.distance fa fb in
      python.floats.equal fa fb
      || in_tolerance abs_tolerance diff
      || not (python.floats.equal (denominator fa fb) python.floats.zero)
        && in_tolerance percent_tolerance (python.floats.percent diff (denominator fa fb))

  unfoldable pub near_values : Option F → Option F → Option F → Option F → V → V → Bool
  unfolding near
  near_values abs_tolerance percent_tolerance none fb a b = python.eq a b
  near_values abs_tolerance percent_tolerance (some fa) none a b = python.eq a b
  near_values abs_tolerance percent_tolerance (some fa) (some fb) a b =
      near abs_tolerance percent_tolerance fa fb

  -- `__call__` of the three comparators: whether the values agree
  unfoldable pub agree : List Text → Comparator F → V → V → Text → Bool
  unfolding should_ignore near_values
  agree ignore_keys comparator a b path = should_ignore ignore_keys path || python.eq a b
  agree ignore_keys (numeric_tolerance abs_tolerance percent_tolerance) a b path =
      should_ignore ignore_keys path
      || near_values abs_tolerance percent_tolerance (python.floats.float a) (python.floats.float b)
          a b
  agree ignore_keys ignore_node a b path = true

-- `for key, r in self.rules.items()`: the first rule whose wildcard fits
unfoldable pub wildcard_rule : {F : Type 0} → Dict Text (Comparator F) → Text → Comparator F
unfolding starts_with ends_with
wildcard_rule [] path = comparator
wildcard_rule ((key, rule) ∷ rules) path =
    if ends_with (codes ".*") key && starts_with (drop_last 2 key) path
    then rule
    else wildcard_rule rules path

unfoldable pub or_wildcard : {F : Type 0} → Option (Comparator F) → Comparator F → Comparator F
or_wildcard none wild = wild
or_wildcard (some rule) wild = rule

-- `RuleBase.get_rule`
unfoldable pub get_rule : {F : Type 0} → Dict Text (Comparator F) → Text → Comparator F
unfolding wildcard_rule or_wildcard
get_rule rules path = or_wildcard (lookup path rules) (wildcard_rule rules path)

pub record Change (V : Type 0) : Type 0 where
  pub path : Text
  pub baseline : V
  pub other : V

pub data DiffError : Type 0 where
  type_error : DiffError

-- `d.get(k, MISSING)`
unfoldable pub or_missing : {V : Type 0} → V → Option V → V
or_missing missing none = missing
or_missing missing (some v) = v

-- `sorted(set(a) | set(b), key=str)`
unfoldable pub sorted_keys : {V : Type 0} → Dict Text V → Dict Text V → List Text
unfolding sort_by text_leb add_all
sorted_keys a b = sort_by text_leb (add_all (add_all [] (keys a)) (keys b))

module _ {V F : Type 0} (python : Python V F) (ignore_keys : List Text) where
  -- `_apply_rule`
  unfoldable pub apply_rule : Comparator F → V → V → Text → List (Change V)
  unfolding agree
  apply_rule rule baseline other path =
      if agree python ignore_keys rule baseline other path
      then []
      else record { path = path; baseline = baseline; other = other } ∷ []

  -- The loop of `get_differences`
  unfoldable pub collect_changes :
      Dict Text (Comparator F) → Dict Text V → Dict Text V → List Text → List (Change V)
  unfolding apply_rule get_rule lookup or_missing
  collect_changes rules a b [] = []
  collect_changes rules a b (k ∷ ks) =
      apply_rule (get_rule rules k) (or_missing python.missing (lookup k a))
        (or_missing python.missing (lookup k b)) k
      ++ collect_changes rules a b ks

  -- `none` stands for data that are no dictionary.
  unfoldable pub get_differences :
      Dict Text (Comparator F)
      → Option (Dict Text V)
      → Option (Dict Text V)
      → Result DiffError (List (Change V))
  unfolding collect_changes sorted_keys
  get_differences rules none b = err type_error
  get_differences rules (some a) none = err type_error
  get_differences rules (some a) (some b) = ok (collect_changes rules a b (sorted_keys a b))
