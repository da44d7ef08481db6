-- ===== src/Sysdiff/Loader/Recipes.antt =====
-- Which recipes the loader of a run gathers and takes: src/lib/sysdiff/loader.py, the constructor. What
-- the files of the run hold is given, with the artifacts of each recipe in the order of their names.
use asct.Prelude.{
  Bool, true, not, Option, none, some, List, [], ◌∷◌, Result, ok, and_then, if◌then◌else◌, sort_by,
}
use asct.Text.{Text, codes, text_key, text_beq, text_leb}
use asct.Dict.{Dict, keys, lookup, insert, contains}
use asct.Trees.{Value, Entries, leaf, dict, list, end, find, put}
use asct.Recipes.Selection.{add_all}
use asct.Sysdiff.Adapters.{AdapterError, Objects, Adapter}
use asct.Sysdiff.Loader.{
  Artifacts, Loaded, flat, content, Parsers, is_empty, normalize_saved_summary_data,
  make_metadata_diff_data, make_recipe_diff_data,
}

-- The raw data and the summaries so far.
pub record Gathered (V : Type 0) : Type 0 where
  pub raw_data : Dict Text (Value V)
  pub summary_data : Dict Text (Loaded V)

unfoldable pub kept_names : (Text → Bool) → List Text → List Text
kept_names keep [] = []
kept_names keep (name ∷ names) =
    let rest = kept_names keep names in if keep name then name ∷ rest else rest

abbrev pub included : List Text → Text → Bool
included [] name = true
included (x ∷ recipe_list) name = contains name (x ∷ recipe_list)

unfoldable pub selected_recipe_names : {V : Type 0} → List Text → List Text → Gathered V → List Text
unfolding kept_names contains text_beq text_leb sort_by add_all
selected_recipe_names recipe_list recipe_exclude_list g =
    kept_names (λ name. not (contains name recipe_exclude_list))
      (kept_names (included recipe_list)
        (sort_by text_leb (add_all (add_all [] (keys g.summary_data)) (keys g.raw_data))))

module _ {V : Type 0} (objects : Objects V) (parsers : Parsers V) where
  abbrev pub put_some : Text → Option (Value V) → Entries V → Entries V
  put_some key none d = d
  put_some key (some v) d = put key v d

  -- The entry that artifacts are merged to.
  unfoldable pub existing_entry : Option (Value V) → Entries V
  unfolding find
  existing_entry (some (dict d)) = elim (find (codes "raw_result") d) [ none ↦ end | some r ↦ d ]
  existing_entry v = end

  unfoldable pub merge_raw : Text → Artifacts V → Dict Text (Value V) → Dict Text (Value V)
  unfolding existing_entry put insert lookup text_beq
  merge_raw name a raw_data =
      let merged =
        put_some (codes "raw_result") a.raw_result (existing_entry (lookup name raw_data)) in
      elim a.raw_result [
        | some r ↦
            insert name
              (dict (
                if is_empty a.metadata
                then merged
                else put (codes "metadata") (dict a.metadata) merged))
              raw_data
        | none ↦
            if is_empty a.metadata
            then raw_data
            else insert name (dict (put (codes "metadata") (dict a.metadata) merged)) raw_data
      ]

  unfoldable pub add_summary :
      Text → Option (Value V) → Gathered V → Result AdapterError (Gathered V)
  unfolding normalize_saved_summary_data insert lookup text_beq
  add_summary name none g = ok g
  add_summary name (some (dict d)) g =
      and_then (normalize_saved_summary_data objects parsers name d (lookup name g.raw_data))
        λ normalized. ok (record g { summary_data = insert name (flat normalized) g.summary_data })
  add_summary name (some (leaf v)) g =
      ok (record g { summary_data = insert name (content (leaf v)) g.summary_data })
  add_summary name (some (list l)) g =
      ok (record g { summary_data = insert name (content (list l)) g.summary_data })

  -- The loop over the directories, where `none` are artifacts that cannot be read
  unfoldable pub gather :
      List (Text × Option (Artifacts V)) → Gathered V → Result AdapterError (Gathered V)
  unfolding merge_raw add_summary
  gather [] g = ok g
  gather ((name, none) ∷ rest) g = gather rest g
  gather ((name, some a) ∷ rest) g =
      and_then (add_summary name a.summary (record g { raw_data = merge_raw name a g.raw_data }))
        (gather rest)

  -- The loop that fills `recipes`
  unfoldable pub add_recipes :
      Adapter
      → Entries V
      → Gathered V
      → List Text
      → Dict Text (Loaded V)
      → Result AdapterError (Dict Text (Loaded V))
  unfolding make_recipe_diff_data insert lookup text_beq
  add_recipes adapter diff_section g [] recipes = ok recipes
  add_recipes adapter diff_section g (name ∷ names) recipes = elim (lookup name g.summary_data) [
    | some s ↦ add_recipes adapter diff_section g names (insert name s recipes)
    | none ↦ elim (lookup name g.raw_data) [
      | none ↦ add_recipes adapter diff_section g names recipes
      | some raw ↦
          and_then (make_recipe_diff_data objects parsers adapter name raw diff_section)
            λ d. add_recipes adapter diff_section g names (insert name (flat d) recipes)
    ]
  ]

  -- `__init__` from the selection on
  unfoldable pub load_recipes :
      Adapter
      → Entries V
      → Entries V
      → List Text
      → List Text
      → Gathered V
      → Result AdapterError (Dict Text (Loaded V))
  unfolding add_recipes selected_recipe_names make_metadata_diff_data
  load_recipes adapter metadata_entry diff_section recipe_list recipe_exclude_list g =
      add_recipes adapter diff_section g (selected_recipe_names recipe_list recipe_exclude_list g)
        ((codes "metadata", flat (make_metadata_diff_data objects parsers metadata_entry)) ∷ [])
