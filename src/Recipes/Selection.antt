-- ===== src/Recipes/Selection.antt =====
-- `get_filtered_recipes`, `_resolve_dependencies` and the methods of `RecipeRegistry`:
-- src/core/recipes/configuration/registry.py.
use asct.Prelude.{
  ℕ, Bool, true, false, ◌||◌, none, some, List, [], ◌∷◌, ◌++◌, Result, ok, and_then, if◌then◌else◌,
  ◌==◌, sort_by, leb,
}
use asct.Text.{text_leb, Text, text_key}
use asct.Dict.{Dict, keys, values, lookup, insert, contains}
use asct.Recipes.{
  SelectionError, Metadata, Filtered, add, difference, read_keywords, or_default, by_name, selected,
  get, judge_all, with_removed, with_blocked, firsts,
}

-- `rev_dependencies[dep].append(benchmark)` for each dependency of a benchmark
unfoldable pub add_dependents : Text → List Text → Dict Text (List Text) → Dict Text (List Text)
unfolding lookup insert
add_dependents benchmark [] rev = rev
add_dependents benchmark (dep ∷ deps) rev = add_dependents benchmark deps (elim (lookup dep rev) [
  | none ↦ insert dep (benchmark ∷ []) rev
  | some l ↦ insert dep (l ++ benchmark ∷ []) rev
])

-- `dependencies.update(names)`
unfoldable pub add_all : List Text → List Text → List Text
unfolding add
add_all s [] = s
add_all s (x ∷ xs) = add_all (add x s) xs

-- The loop over the benchmarks: the dependencies, and the benchmarks that have each of them.
unfoldable pub collect :
    Dict Text Metadata
    → List Text
    → List Text
    → Dict Text (List Text)
    → Result SelectionError (List Text × Dict Text (List Text))
unfolding get add_dependents add_all
collect global [] dependencies rev = ok (dependencies, rev)
collect global (benchmark ∷ list) dependencies rev = and_then (get benchmark global) λ m.
    collect global list (add_all dependencies m.depends_on)
      (add_dependents benchmark m.depends_on rev)

-- `{dep: rev_dependencies[dep] for dep in dependencies}`
unfoldable pub entries_for :
    Dict Text (List Text) → List Text → Result SelectionError (Dict Text (List Text))
unfolding get
entries_for rev [] = ok []
entries_for rev (dep ∷ deps) =
    and_then (get dep rev) λ l. and_then (entries_for rev deps) λ d. ok ((dep, l) ∷ d)

-- `_resolve_dependencies`
unfoldable pub resolve_dependencies :
    Dict Text Metadata → List Text → Result SelectionError (Dict Text (List Text))
unfolding collect entries_for difference
resolve_dependencies global list =
    and_then (collect global list [] []) λ found. entries_for found.1 (difference found.0 list)

unfoldable pub get_filtered_recipes :
    List Metadata → List Metadata → List Text → Bool → Result SelectionError Filtered
unfolding read_keywords or_default by_name selected judge_all with_removed with_blocked firsts
    difference sort_by text_leb resolve_dependencies
get_filtered_recipes metadata global_metadata keywords add_dependencies =
    let (given, negative) = read_keywords [] [] keywords in
    let positive = or_default given in
    let global = by_name [] global_metadata in
    let added = selected positive [] metadata in
    and_then (judge_all negative (by_name [] metadata) global added) λ verdicts.
      let out = with_removed verdicts in
      let blocked = with_blocked verdicts in
      let filtered = difference (difference added out) (firsts blocked) in
      let listed = sort_by text_leb filtered in
      and_then (if add_dependencies then resolve_dependencies global filtered else ok []) λ deps.
        ok (record {
          positive_filter = sort_by text_leb positive;
          negative_filter = sort_by text_leb negative;
          filtered_list = listed;
          complete_list =
              if add_dependencies then sort_by text_leb (listed ++ keys deps) else listed;
          filtered_in = sort_by text_leb added;
          filtered_out = sort_by text_leb out;
          filtered_out_depends = blocked;
          added_dependencies = deps;
          cached_dependencies = [];
        })

module _ (restored : Text → Bool) where
  split_cached : Bool → Dict Text (List Text) → Dict Text (List Text)
  split_cached cached [] = []
  split_cached cached ((bm, value) ∷ d) =
      let rest = split_cached cached d in
      if restored bm
      then (if cached then (bm, value) ∷ rest else rest)
      else if cached
      then rest
      else (bm, value) ∷ rest

  in_lists : List Text → List Text → List Text → List Text
  unfolding contains
  in_lists listed deps [] = []
  in_lists listed deps (bm ∷ bms) =
      let rest = in_lists listed deps bms in
      if contains bm listed || contains bm deps then bm ∷ rest else rest

  -- `restored` says of a benchmark whether the cache has it and puts it into the output folder.
  unfoldable pub remove_cached_dependencies : Filtered → Filtered
  unfolding split_cached in_lists
  remove_cached_dependencies f =
      let dependencies = split_cached false f.added_dependencies in
      record f {
        cached_dependencies = split_cached true f.added_dependencies;
        added_dependencies = dependencies;
        complete_list = in_lists f.filtered_list (keys dependencies) f.complete_list;
      }

-- `get_dependents`
unfoldable pub get_dependents :
    Dict Text Metadata → Text → List Text → Result SelectionError (List Text)
unfolding get contains
get_dependents global dependency [] = ok []
get_dependents global dependency (bm ∷ list) =
    and_then
      (if bm == dependency
        then ok false
        else and_then (get bm global) (λ m. ok (contains dependency m.depends_on)))
      λ depends.
        and_then (get_dependents global dependency list)
          λ rest. ok (if depends then bm ∷ rest else rest)

pub record Recipe : Type 0 where
  pub name : Text
  pub category : Text
  pub priority : ℕ

unfoldable pub group :
    Dict Text Recipe
    → List Text
    → Dict Text (List Recipe)
    → Result SelectionError (Dict Text (List Recipe))
unfolding get lookup insert
group recipes [] categories = ok categories
group recipes (item ∷ items) categories = and_then (get item recipes) λ r.
    group recipes items (elim (lookup r.category categories) [
      | none ↦ insert r.category (r ∷ []) categories
      | some l ↦ insert r.category (l ++ r ∷ []) categories
    ])

by_priority : Recipe → Recipe → Bool
by_priority r s = leb r.priority s.priority

unfoldable pub in_order : List (List Recipe) → List Recipe
unfolding sort_by by_priority
in_order [] = []
in_order (l ∷ ls) = sort_by by_priority l ++ in_order ls

-- `RecipeRegistry.get_recipes`
unfoldable pub get_recipes : Dict Text Recipe → List Text → Result SelectionError (List Recipe)
unfolding group in_order
get_recipes recipes names = and_then (group recipes names []) λ c. ok (in_order (values c))
