-- ===== src/Sysdiff/Unchanged.antt =====
-- Runs with the same results have no differences, src/lib/sysdiff/manager.py.
use asct.Prelude.{true, some, List, [], ◌∷◌, ◌≡◌, refl, ◌∙◌, arith, ok, Option-cases, inl, inr}
use asct.Text.{Text, text_key}
use asct.Dict.{Dict, lookup}
use asct.Sysdiff.{
  Python, Comparator, comparator, numeric_tolerance, ignore_node, agree, near, near_values,
  get_rule, or_missing, sorted_keys, apply_rule, collect_changes, get_differences,
}
use asct.Sysdiff.Runs.{
  Run, RunChanges, get_recipe_data, diff_runs, diff_recipes, diff_all, all_names, count_changes,
  add_entry, add_count, changed_counts, compute_summary,
}

module _ {V F : Type 0} (python : Python V F) where
  -- Every value is equal to itself, and so is the float that it gives: none is a NaN.
  unfoldable pub IsReflexive : Type 0
  IsReflexive =
      ((v : V) → python.eq v v ≡ true)
      × ((v : V) (f : F) → python.floats.float v ≡ some f → python.floats.equal f f ≡ true)

  agree_self :
      (ignore_keys : List Text) (rule : Comparator F) (v : V) (path : Text)
      → IsReflexive
      → agree python ignore_keys rule v v path ≡ true
  unfolding agree IsReflexive near_values near
  agree_self ignore_keys comparator v path h = rw (h.0 v) (ground arith)
  agree_self ignore_keys (numeric_tolerance s t) v path h =
      elim (Option-cases (python.floats.float v)) [
        | inl e ↦ rw (e, h.0 v) (ground arith)
        | inr e ↦ rw (e.1, h.1 v e.0 e.1) (ground arith)
      ]
  agree_self ignore_keys ignore_node v path h = refl

  collect_self :
      (ignore_keys : List Text) (rules : Dict Text (Comparator F)) (d : Dict Text V)
      (ks : List Text)
      → IsReflexive
      → collect_changes python ignore_keys rules d d ks ≡ []
  unfolding collect_changes apply_rule
  collect_self ignore_keys rules d [] h = refl
  collect_self ignore_keys rules d (k ∷ ks) h =
      rw
        (
          agree_self ignore_keys (get_rule rules k) (or_missing python.missing (lookup k d)) k h,
          collect_self ignore_keys rules d ks h,
        )
        refl

  module _ (ignore_keys : List Text) (get_rules : Text → Dict Text (Comparator F)) where
    -- Every run has the recipes of the baseline.
    unfoldable pub AllSame : Run V → List (Run V) → Type 0
    AllSame baseline [] = Unit
    AllSame baseline (r ∷ runs) = (r.recipes ≡ baseline.recipes) × AllSame baseline runs

    diff_runs_same :
        (baseline : Run V) (recipe : Text) (d : Dict Text V) (runs : List (Run V))
        → IsReflexive
        → AllSame baseline runs
        → get_recipe_data baseline recipe ≡ some d
        → (changes : List (RunChanges V)) × (diff_runs python ignore_keys
              (get_rules recipe)
              (some d)
              recipe
              runs
            ≡ ok changes)
          × (count_changes changes ≡ 0)
    unfolding diff_runs AllSame count_changes get_differences
    diff_runs_same baseline recipe d [] h same is_dict = ([], refl, refl)
    diff_runs_same baseline recipe d (r ∷ runs) h same is_dict =
        let (changes, e, count) = diff_runs_same baseline recipe d runs h same.1 is_dict in
        let reads : get_recipe_data r recipe ≡ some d = rw same.0 is_dict in
        (
          record { run = r.run_name; changes = [] } ∷ changes,
          rw (reads, collect_self ignore_keys (get_rules recipe) d (sorted_keys d d) h, e) refl,
          omega (arith, count),
        )

    changed_counts-add_entry :
        (recipe : Text) (changes : List (RunChanges V)) (rest : Dict Text (List (RunChanges V)))
        → count_changes changes ≡ 0
        → changed_counts (add_entry recipe changes rest) ≡ changed_counts rest
    unfolding changed_counts add_entry add_count
    changed_counts-add_entry recipe [] rest none_there = refl
    changed_counts-add_entry recipe (c ∷ cs) rest none_there = rw none_there refl

    diff_recipes_same :
        (baseline : Run V) (runs : List (Run V)) (names : List Text)
        → IsReflexive
        → AllSame baseline runs
        → ((name : Text) → (d : Dict Text V) × (get_recipe_data baseline name ≡ some d))
        → (result : Dict Text (List (RunChanges V))) × (diff_recipes python ignore_keys get_rules
              baseline runs names
            ≡ ok result)
          × (changed_counts result ≡ [])
    unfolding diff_recipes changed_counts
    diff_recipes_same baseline runs [] h same are_dicts = ([], refl, refl)
    diff_recipes_same baseline runs (name ∷ names) h same are_dicts =
        let (d, is_dict) = are_dicts name in
        let (changes, e, count) = diff_runs_same baseline name d runs h same is_dict in
        let (rest, e_rest, unchanged) = diff_recipes_same baseline runs names h same are_dicts in
        (
          add_entry name changes rest,
          rw (is_dict, e, e_rest) refl,
          changed_counts-add_entry name changes rest count ∙ unchanged,
        )

    -- Where no value differs from itself and the data of every recipe of the baseline are a
    -- dictionary, comparing runs with the recipes of the baseline succeeds, whatever the rules and
    -- the ignored keys are, and its summary has no changed recipe.
    pub diff_all-same :
        (baseline : Run V) (runs : List (Run V))
        → IsReflexive
        → AllSame baseline runs
        → ((name : Text) → (d : Dict Text V) × (get_recipe_data baseline name ≡ some d))
        → (result : Dict Text (List (RunChanges V))) × (diff_all python ignore_keys get_rules
              baseline runs
            ≡ ok result)
          × ((compute_summary result).changed_recipes ≡ 0)
          × ((compute_summary result).top_changed ≡ [])
    unfolding diff_all compute_summary
    diff_all-same baseline runs h same are_dicts =
        let (result, e, unchanged) =
          diff_recipes_same baseline runs (all_names [] (baseline ∷ runs)) h same are_dicts in
        (result, e, rw unchanged refl, rw unchanged refl)
