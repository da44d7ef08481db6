-- ===== src/Sysdiff/Loader.antt =====
-- How the loader of a run reads its entries: src/lib/sysdiff/loader.py, over JSON values. Parsers and
-- the reconstruction of a recipe are parameters.
pub mod Recipes
pub mod Selected
mod Tests
use asct.Prelude.{
  Bool, true, false, not, ◌&&◌, ◌||◌, Option, none, some, List, [], ◌∷◌, ◌++◌, map, Result, ok, err,
  and_then, if◌then◌else◌, sort_by,
}
use asct.Text.{Text, codes, text_key, text_beq, text_leb, has, split_once, starts_with}
use asct.Dict.{Dict, keys, lookup, insert, update, contains}
use asct.Trees.{
  Value, Entries, leaf, dict, list, end, entry, find, put, flatten_dict, unflatten_dict,
}
use asct.Recipes.Selection.{add_all}
use asct.Sysdiff.Adapters.{
  AdapterError, type_error, runtime_error, Objects, Adapter, legacy_v05, current,
  normalize_raw_entry, with_prefix, set_cell, normalize, normalize_legacy, get_recipe_diff_adapter,
}

-- `grouped[group] = v` and `grouped[group][rest] = v`
unfoldable pub add_to_group :
    {V : Type 0} → Text → Value V → Entries V → Result AdapterError (Entries V)
unfolding has split_once set_cell put
add_to_group k v grouped =
    let (group, rest) = if has b'.' k then split_once b'.' k else (k, []) in
    elim rest [ [] ↦ ok (put group v grouped) | c ∷ cs ↦ set_cell group (c ∷ cs) v grouped ]

-- `group_by_first_dot`, onto what is grouped so far
unfoldable pub group_by_first_dot :
    {V : Type 0} → Entries V → Dict Text (Value V) → Result AdapterError (Entries V)
unfolding add_to_group
group_by_first_dot grouped [] = ok grouped
group_by_first_dot grouped ((k, v) ∷ flat_dict) =
    and_then (add_to_group k v grouped) (λ next. group_by_first_dot next flat_dict)

-- What `read_saved_recipe_artifacts` gives of a recipe; `none` of a value is None.
pub record Artifacts (V : Type 0) : Type 0 where
  pub raw_result : Option (Value V)
  pub metadata : Entries V
  pub summary : Option (Value V)

-- What a run holds of a recipe: a flat dictionary, or a value that is none.
pub data Loaded (V : Type 0) : Type 0 where
  flat : Dict Text (Value V) → Loaded V
  content : Value V → Loaded V

-- `json.loads` and `ast.literal_eval`, where `none` is an exception that is caught; the text that a
-- value is; `dict` of a value that is true and no dictionary; and `_generate_recipe_diff_data`.
pub record Parsers (V : Type 0) : Type 0 where
  pub loads : Text → Option (Value V)
  pub literal_eval : Text → Option (Value V)
  pub text_of : V → Option Text
  pub to_dict : Value V → Result AdapterError (Entries V)
  pub generate : Text → Value V → Entries V

abbrev pub is_empty : {V : Type 0} → Entries V → Bool
is_empty end = true
is_empty (entry k v d) = false

module _ {V : Type 0} (objects : Objects V) (parsers : Parsers V) where
  open objects use {is_true}
  open parsers use {loads, literal_eval, text_of, to_dict, generate}

  abbrev pub metadata_of_diff : Option (Value V) → Value V → Value V
  metadata_of_diff (some (dict d)) metadata_entry =
      dict (unflatten_dict (with_prefix (codes "metadata.") [] d))
  metadata_of_diff diff metadata_entry = metadata_entry

  abbrev pub value_or_empty : Option (Value V) → Value V
  value_or_empty none = dict end
  value_or_empty (some v) = v

  -- `_load_metadata`
  unfoldable pub load_metadata : Entries V → Value V
  unfolding find with_prefix unflatten_dict
  load_metadata data' =
      let metadata_entry = value_or_empty (find (codes "metadata") data') in
      if is_true metadata_entry
      then metadata_entry
      else metadata_of_diff (find (codes "diff") data') metadata_entry

  -- The value that a text stands for, or the value itself where it is none or is not parsed.
  abbrev pub parsed_or_same : (Text → Option (Value V)) → Value V → Value V
  parsed_or_same parse (leaf v) = elim (text_of v) [
    | none ↦ leaf v
    | some s ↦ elim (parse s) [ none ↦ leaf v | some w ↦ w ]
  ]
  parsed_or_same parse (dict d) = dict d
  parsed_or_same parse (list l) = list l

  -- `_normalize_legacy_raw_entry`
  unfoldable pub normalize_legacy_raw_entry : Text → Value V → Value V
  unfolding normalize_raw_entry contains text_beq
  normalize_legacy_raw_entry name v =
      let normalized = normalize_raw_entry objects v in
      if contains name (codes "latency-sweep" ∷ codes "bandwidth-sweep" ∷ [])
      then parsed_or_same loads normalized
      else normalized

  unfoldable pub without_arguments : Entries V → Dict Text (Value V)
  unfolding text_beq
  without_arguments end = []
  without_arguments (entry k v d) =
      let rest = without_arguments d in
      if text_beq k (codes "cmd_arguments") then rest else (k, v) ∷ rest

  abbrev pub with_update_config : Option (Value V) → Entries V → Entries V
  with_update_config none arguments = arguments
  with_update_config (some v) arguments =
      put (codes "update_config") (parsed_or_same literal_eval v) arguments

  unfoldable pub prefixed : Text → Dict Text (Value V) → Dict Text (Value V)
  prefixed prefix [] = []
  prefixed prefix ((k, v) ∷ d) = (prefix ++ k, v) ∷ prefixed prefix d

  -- `_make_metadata_diff_data`; `None` is no value of the dictionary.
  unfoldable pub make_metadata_diff_data : Entries V → Dict Text (Value V)
  unfolding find put without_arguments flatten_dict prefixed update insert text_beq
  make_metadata_diff_data metadata_entry =
      let metadata_diff = without_arguments metadata_entry in
      elim (find (codes "cmd_arguments") metadata_entry) [
        | none ↦ metadata_diff
        | some v ↦ elim v [
          | dict arguments ↦
              let normalized =
                with_update_config (find (codes "update_config") arguments) arguments in
              update metadata_diff
                (prefixed (codes "cmd_arguments.") (flatten_dict true normalized))
          | leaf w ↦
              if objects.is_none (leaf w)
              then metadata_diff
              else insert (codes "cmd_arguments") (leaf w) metadata_diff
          | list l ↦ insert (codes "cmd_arguments") (list l) metadata_diff
        ]
      ]

  -- `dict(raw_data_entry.get("raw_result") or {})`
  abbrev pub raw_dict : Value V → Result AdapterError (Entries V)
  raw_dict (dict d) = ok d
  raw_dict (leaf v) = if is_true (leaf v) then to_dict (leaf v) else ok end
  raw_dict (list l) = if is_true (list l) then to_dict (list l) else ok end

  unfoldable pub combined_entry : Value V → Entries V → Result AdapterError (Entries V)
  unfolding find put
  combined_entry summary raw_data_entry = elim (find (codes "raw_result") raw_data_entry) [
    | none ↦ ok (put (codes "summary") summary raw_data_entry)
    | some raw_result ↦ and_then (raw_dict raw_result) λ combined.
        ok (put (codes "raw_result") (dict (put (codes "summary") summary combined)) raw_data_entry)
  ]

  -- `_normalize_saved_summary_data`
  unfoldable pub normalize_saved_summary_data :
      Text → Entries V → Option (Value V) → Result AdapterError (Dict Text (Value V))
  unfolding combined_entry flatten_dict
  normalize_saved_summary_data name summary_entry (some (dict raw_data_entry)) =
      and_then (combined_entry (dict summary_entry) raw_data_entry) λ combined.
        let rebuilt = generate name (dict combined) in
        ok (flatten_dict true (if is_empty rebuilt then summary_entry else rebuilt))
  normalize_saved_summary_data name summary_entry raw_data_entry =
      ok (flatten_dict true summary_entry)

  abbrev pub adapted :
      Adapter → Text → Value V → Entries V → Result AdapterError (Option (Dict Text (Value V)))
  adapted legacy_v05 name raw_data_entry diff_section =
      normalize_legacy objects name raw_data_entry diff_section
  adapted current name raw_data_entry diff_section = normalize objects name raw_data_entry

  -- `_make_recipe_diff_data`
  unfoldable pub make_recipe_diff_data :
      Adapter → Text → Value V → Entries V → Result AdapterError (Dict Text (Value V))
  unfolding normalize_legacy normalize flatten_dict
  make_recipe_diff_data adapter name raw_data_entry diff_section =
      and_then (adapted adapter name raw_data_entry diff_section) λ found.
        ok (elim found [ none ↦ flatten_dict true (generate name raw_data_entry) | some d ↦ d ])
