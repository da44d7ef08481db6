-- ===== src/Sysdiff/Runs.antt =====
-- The comparison of runs and its summary, src/lib/sysdiff/manager.py.
use asct.Prelude.{
  ℕ, zero, suc, ◌+◌, Option, none, some, List, [], ◌∷◌, Result, ok, and_then, length, sort_by, leb,
}
use asct.Text.{Text, text_key}
use asct.Dict.{Dict, keys, lookup}
use asct.Recipes.Selection.{add_all}
use asct.Sysdiff.{Python, Comparator, Change, DiffError, get_differences}

-- A loaded run: its name and the data of its recipes
pub record Run (V : Type 0) : Type 0 where
  pub run_name : Text
  pub recipes : Dict Text (Option (Dict Text V))

pub record RunChanges (V : Type 0) : Type 0 where
  pub run : Text
  pub changes : List (Change V)

-- `get_recipe_data`: an empty dictionary where the run has no such recipe
unfoldable pub or_no_data : {V : Type 0} → Option (Option (Dict Text V)) → Option (Dict Text V)
or_no_data none = some []
or_no_data (some entry) = entry

abbrev pub get_recipe_data : {V : Type 0} → Run V → Text → Option (Dict Text V)
get_recipe_data r name = or_no_data (lookup name r.recipes)

-- The names of every run, each once; the program takes them in the order of a set.
unfoldable pub all_names : {V : Type 0} → List Text → List (Run V) → List Text
unfolding add_all
all_names names [] = names
all_names names (r ∷ runs) = all_names (add_all names (keys r.recipes)) runs

-- A recipe without another run to compare has no entry: the dictionary gets one at the first
-- `append`.
unfoldable pub add_entry :
    {V : Type 0}
    → Text
    → List (RunChanges V)
    → Dict Text (List (RunChanges V))
    → Dict Text (List (RunChanges V))
add_entry recipe [] rest = rest
add_entry recipe (r ∷ runs) rest = (recipe, r ∷ runs) ∷ rest

module _ {V F : Type 0} (python : Python V F) (ignore_keys : List Text) where
  unfoldable pub diff_runs :
      Dict Text (Comparator F)
      → Option (Dict Text V)
      → Text
      → List (Run V)
      → Result DiffError (List (RunChanges V))
  unfolding get_differences or_no_data lookup
  diff_runs rules base recipe [] = ok []
  diff_runs rules base recipe (r ∷ runs) =
      and_then (get_differences python ignore_keys rules base (get_recipe_data r recipe)) λ changes.
        and_then (diff_runs rules base recipe runs)
          λ rest. ok (record { run = r.run_name; changes = changes } ∷ rest)

  -- The loop of `diff_all` over the recipes
  unfoldable pub diff_recipes :
      (Text → Dict Text (Comparator F))
      → Run V
      → List (Run V)
      → List Text
      → Result DiffError (Dict Text (List (RunChanges V)))
  unfolding diff_runs or_no_data lookup add_entry
  diff_recipes get_rules baseline others [] = ok []
  diff_recipes get_rules baseline others (recipe ∷ names) =
      and_then (diff_runs (get_rules recipe) (get_recipe_data baseline recipe) recipe others)
        λ runs.
          and_then (diff_recipes get_rules baseline others names)
            λ rest. ok (add_entry recipe runs rest)

  unfoldable pub diff_all :
      (Text → Dict Text (Comparator F))
      → Run V
      → List (Run V)
      → Result DiffError (Dict Text (List (RunChanges V)))
  unfolding diff_recipes all_names
  diff_all get_rules baseline others =
      diff_recipes get_rules baseline others (all_names [] (baseline ∷ others))

pub record Summary : Type 0 where
  pub total_recipes : ℕ
  pub changed_recipes : ℕ
  pub top_changed : List (Text × ℕ)

-- `sum(len(r["changes"]) for r in runs)`
unfoldable pub count_changes : {V : Type 0} → List (RunChanges V) → ℕ
count_changes [] = 0
count_changes (r ∷ runs) = length r.changes + count_changes runs

unfoldable pub add_count : Text → ℕ → List (Text × ℕ) → List (Text × ℕ)
add_count recipe zero rest = rest
add_count recipe (suc n) rest = (recipe, suc n) ∷ rest

-- The recipes whose count is not 0
unfoldable pub changed_counts : {V : Type 0} → Dict Text (List (RunChanges V)) → List (Text × ℕ)
unfolding count_changes add_count
changed_counts [] = []
changed_counts ((recipe, runs) ∷ d) = add_count recipe (count_changes runs) (changed_counts d)

-- `sorted(..., key=lambda x: x[1], reverse=True)`: the greatest first, and equal ones in their
-- order
unfoldable pub compute_summary : {V : Type 0} → Dict Text (List (RunChanges V)) → Summary
unfolding changed_counts sort_by
compute_summary result =
    let changed = changed_counts result in
    record {
      total_recipes = length result;
      changed_recipes = length changed;
      top_changed = sort_by (λ x y. leb y.1 x.1) changed;
    }
