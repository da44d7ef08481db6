-- ===== src/Sysdiff/Adapters.antt =====
-- The adapters of earlier formats: src/lib/sysdiff/adapters.py. Values are those of JSON, with what
-- Python makes of them as a parameter; versions and their ranges are one too.
pub mod Transposed
mod Tests
use asct.Prelude.{
  ℕ, zero, suc, Bool, true, false, not, ◌&&◌, ◌||◌, Option, none, some, List, [], ◌∷◌, ◌++◌, Result,
  ok, err, and_then, if◌then◌else◌, length, drop,
}
use asct.Text.{Text, codes, text_key, text_beq, starts_with}
use asct.Dict.{Dict, insert, contains}
use asct.Trees.{
  Value, Entries, Items, leaf, dict, list, end, entry, nil, cons, find, put, create_dict_path,
  flatten_dict, unflatten_dict,
}

pub data AdapterError : Type 0 where
  type_error attribute_error runtime_error : AdapterError

-- None, `str`, the truth of a value, whether it is None, and whether an atom can be iterated over,
-- as texts can.
pub record Objects (V : Type 0) : Type 0 where
  pub none_value : V
  pub str : Value V → Text
  pub is_true : Value V → Bool
  pub is_none : Value V → Bool
  pub is_iterable : V → Bool

module _ {V : Type 0} (objects : Objects V) where
  open objects use {none_value, str, is_true, is_none, is_iterable}

  -- `d.get(key)`
  unfoldable pub get_key : Text → Entries V → Value V
  unfolding find
  get_key key d = elim (find key d) [ none ↦ leaf none_value | some v ↦ v ]

  -- `normalize_raw_entry`
  unfoldable pub normalize_raw_entry : Value V → Value V
  unfolding find
  normalize_raw_entry (dict d) = elim (find (codes "raw_result") d) [
    | none ↦ dict d
    | some raw_result ↦ raw_result
  ]
  normalize_raw_entry (leaf v) = leaf v
  normalize_raw_entry (list l) = list l

  -- `a or f"...{b}"`, printed
  abbrev pub or_text : Value V → Text → Text
  or_text v default = if is_true v then str v else default

  unfoldable pub register_prefix : Entries V → Text
  unfolding get_key
  register_prefix register =
      let instance' = get_key (codes "instance") register in
      codes "instance"
      ++ (if is_none instance' then codes "unknown" else str instance')
      ++ (b'.'
          ∷ or_text (get_key (codes "block_name") register)
              (codes "block_" ++ str (get_key (codes "block_address") register)))
      ++ (b'.'
          ∷ or_text (get_key (codes "reg_name") register)
              (codes "reg_" ++ str (get_key (codes "offset") register)))

  -- A field that is no dictionary is passed over.
  unfoldable pub add_field : Text → Value V → Dict Text (Value V) → Dict Text (Value V)
  unfolding get_key insert
  add_field prefix (dict field) normalized =
      insert
        (prefix
          ++ (b'.'
              ∷ or_text (get_key (codes "field_name") field)
                  (codes "field_" ++ str (get_key (codes "bit_range") field))))
        (get_key (codes "value") field) normalized
  add_field prefix (leaf v) normalized = normalized
  add_field prefix (list l) normalized = normalized

  unfoldable pub add_fields : Text → Items V → Dict Text (Value V) → Dict Text (Value V)
  unfolding add_field
  add_fields prefix nil normalized = normalized
  add_fields prefix (cons v l) normalized = add_fields prefix l (add_field prefix v normalized)

  -- `for field in register.get("fields", [])`: the keys of a dictionary and the characters of a text
  -- are no dictionaries.
  unfoldable pub each_field :
      Text → Option (Value V) → Dict Text (Value V) → Result AdapterError (Dict Text (Value V))
  unfolding add_fields
  each_field prefix none normalized = ok normalized
  each_field prefix (some (list l)) normalized = ok (add_fields prefix l normalized)
  each_field prefix (some (dict d)) normalized = ok normalized
  each_field prefix (some (leaf v)) normalized =
      if is_iterable v then ok normalized else err type_error

  unfoldable pub add_registers :
      Items V → Dict Text (Value V) → Result AdapterError (Dict Text (Value V))
  unfolding register_prefix get_key insert each_field find
  add_registers nil normalized = ok normalized
  add_registers (cons (dict register) l) normalized =
      let prefix = register_prefix register in
      and_then
        (each_field prefix (find (codes "fields") register)
          (insert (prefix ++ codes ".raw_value") (get_key (codes "value") register) normalized))
        (add_registers l)
  add_registers (cons (leaf v) l) normalized = add_registers l normalized
  add_registers (cons (list m) l) normalized = add_registers l normalized

  abbrev pub registers_of : Option (Value V) → Items V
  registers_of (some (list l)) = l
  registers_of _ = nil

  -- `_ip_register_data`
  unfoldable pub ip_register_data : Text → Value V → Result AdapterError (Dict Text (Value V))
  unfolding normalize_raw_entry add_registers find
  ip_register_data name raw_data_entry = elim (normalize_raw_entry raw_data_entry) [
    | dict raw_result ↦ add_registers (registers_of (find name raw_result)) []
    | leaf v ↦ ok []
    | list l ↦ ok []
  ]

-- `key.removeprefix(prefix)`
abbrev pub remove_prefix : Text → Text → Text
remove_prefix prefix key = if starts_with prefix key then drop (length prefix) key else key

module _ {V : Type 0} where
  -- `_legacy_prefixed_data`
  unfoldable pub prefixed_onto : Text → Text → Dict Text (Value V) → Entries V → Dict Text (Value V)
  unfolding insert starts_with
  prefixed_onto prefix name result end = result
  prefixed_onto prefix name result (entry key value d) =
      prefixed_onto prefix name
        (if starts_with prefix key
          then insert (remove_prefix name (remove_prefix prefix key)) value result
          else result)
        d

  unfoldable pub legacy_prefixed_data : Text → Entries V → Dict Text (Value V)
  unfolding prefixed_onto
  legacy_prefixed_data name diff_section =
      prefixed_onto (name ++ codes ".data.") (name ++ codes ".") [] diff_section

  -- The keys with a prefix, without it.
  unfoldable pub with_prefix : Text → Dict Text (Value V) → Entries V → Dict Text (Value V)
  unfolding insert starts_with
  with_prefix prefix result end = result
  with_prefix prefix result (entry key value d) =
      with_prefix prefix
        (if starts_with prefix key then insert (remove_prefix prefix key) value result else result)
        d

  -- `normalized.setdefault(level_name, {})[column_name] = value`
  unfoldable pub set_cell : Text → Text → Value V → Entries V → Result AdapterError (Entries V)
  unfolding find put
  set_cell level_name column_name value normalized = elim (find level_name normalized) [
    | none ↦ ok (put level_name (dict (put column_name value end)) normalized)
    | some row ↦ elim row [
      | dict d ↦ ok (put level_name (dict (put column_name value d)) normalized)
      | leaf v ↦ err type_error
      | list l ↦ err type_error
    ]
  ]

  unfoldable pub add_column : Text → Entries V → Entries V → Result AdapterError (Entries V)
  unfolding set_cell
  add_column column_name end normalized = ok normalized
  add_column column_name (entry level_name value by_level) normalized =
      and_then (set_cell level_name column_name value normalized) (add_column column_name by_level)

  unfoldable pub add_columns : Entries V → Entries V → Result AdapterError (Entries V)
  unfolding add_column put
  add_columns end normalized = ok normalized
  add_columns (entry column_name (dict by_level) d) normalized =
      and_then (add_column column_name by_level normalized) (add_columns d)
  add_columns (entry column_name (leaf v) d) normalized =
      add_columns d (put column_name (leaf v) normalized)
  add_columns (entry column_name (list l) d) normalized =
      add_columns d (put column_name (list l) normalized)

  -- `_latency_sweep_data`
  unfoldable pub latency_sweep_data : Entries V → Result AdapterError (Entries V)
  unfolding add_columns
  latency_sweep_data d = add_columns d end

abbrev pub ip_register_recipes : List Text
ip_register_recipes = codes "ucie" ∷ codes "dms" ∷ codes "pss" ∷ []

abbrev pub legacy_data_prefix_recipes : List Text
legacy_data_prefix_recipes = codes "cmn" ∷ ip_register_recipes

module _ {V : Type 0} (objects : Objects V) where
  -- `RecipeDiffAdapter.normalize`, where `none` asks for the reconstruction of the recipe
  unfoldable pub normalize : Text → Value V → Result AdapterError (Option (Dict Text (Value V)))
  unfolding contains ip_register_data text_beq
  normalize name raw_data_entry =
      if contains name ip_register_recipes
      then and_then (ip_register_data objects name raw_data_entry) (λ d. ok (some d))
      else ok none

  unfoldable pub sweep_data : Text → Entries V → Result AdapterError (Option (Dict Text (Value V)))
  unfolding with_prefix unflatten_dict flatten_dict latency_sweep_data text_beq
  sweep_data name diff_section =
      let legacy_data = unflatten_dict (with_prefix (name ++ codes ".data.") [] diff_section) in
      and_then
        (if text_beq name (codes "latency-sweep")
          then latency_sweep_data legacy_data
          else ok legacy_data)
        (λ data'. ok (some (flatten_dict true data')))

  -- `LegacyV05RecipeDiffAdapter.normalize`, behind the recipes with prefixed data
  unfoldable pub normalize_sweep :
      Text → Value V → Entries V → Result AdapterError (Option (Dict Text (Value V)))
  unfolding contains normalize sweep_data text_beq
  normalize_sweep name raw_data_entry diff_section =
      if contains name (codes "latency-sweep" ∷ codes "bandwidth-sweep" ∷ [])
      then sweep_data name diff_section
      else normalize name raw_data_entry

  unfoldable pub normalize_legacy :
      Text → Value V → Entries V → Result AdapterError (Option (Dict Text (Value V)))
  unfolding contains normalize_sweep normalize legacy_prefixed_data text_beq
  normalize_legacy name raw_data_entry end = normalize name raw_data_entry
  normalize_legacy name raw_data_entry (entry k v d) =
      if contains name legacy_data_prefix_recipes
      then elim (legacy_prefixed_data name (entry k v d)) [
        | [] ↦ normalize_sweep name raw_data_entry (entry k v d)
        | x ∷ legacy_data ↦ ok (some (x ∷ legacy_data))
      ]
      else normalize_sweep name raw_data_entry (entry k v d)

pub data Adapter : Type 0 where
  legacy_v05 current : Adapter

-- `get_recipe_diff_adapter`, over the test that a version is in a range
unfoldable pub get_recipe_diff_adapter :
    {Version : Type 0} → (Version → Text → Bool) → Version → Result AdapterError Adapter
get_recipe_diff_adapter in_spec version =
    if in_spec version (codes ">=0.5,<0.6")
    then ok legacy_v05
    else if in_spec version (codes ">=0.6")
    then ok current
    else err runtime_error
