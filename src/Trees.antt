-- ===== src/Trees.antt =====
-- Nested dictionaries: src/lib/utility/misc.py, `flatten_dict`, `unflatten_dict`,
-- `create_dict_path`.
pub mod Paths
use asct.Prelude.{
  ℕ, zero, suc, ◌+◌, Bool, true, false, Option, none, some, List, [], ◌∷◌, ◌++◌, if◌then◌else◌,
  ◌==◌,
}
use asct.Text.{Text, text_key, has, split, show}
use asct.Dict.{Dict, insert, update}

-- A value is a dictionary, a list, or anything else.
mutual
  pub data Value (V : Type 0) : Type 0 where
    leaf : V → Value V
    dict : Entries V → Value V
    list : Items V → Value V

  pub data Entries (V : Type 0) : Type 0 where
    end : Entries V
    entry : Text → Value V → Entries V → Entries V

  pub data Items (V : Type 0) : Type 0 where
    nil : Items V
    cons : Value V → Items V → Items V

abbrev pub dotted : Text → Text → Text
dotted [] key = key
dotted (c ∷ parent) key = (c ∷ parent) ++ b'.' ∷ key

module _ {V : Type 0} where
  -- `d.get(key)`
  unfoldable pub find : Text → Entries V → Option (Value V)
  find key end = none
  find key (entry k v d) = let rest = find key d in if k == key then some v else rest

  -- `d[key] = value`
  unfoldable pub put : Text → Value V → Entries V → Entries V
  put key value end = entry key value end
  put key value (entry k v d) =
      let rest = put key value d in if k == key then entry k value d else entry k v rest

  -- `dest[comp]`, after it was set to an empty dictionary where it is none
  unfoldable pub subdict : Text → Entries V → Entries V
  unfolding find
  subdict comp dest = elim (find comp dest) [
    | none ↦ end
    | some v ↦ elim v [ leaf x ↦ end | dict d ↦ d | list l ↦ end ]
  ]

  unfoldable pub create_dict_path : Entries V → List Text → Value V → Entries V
  unfolding put subdict
  create_dict_path dest [] value = dest
  create_dict_path dest (key ∷ []) value = put key value dest
  create_dict_path dest (comp ∷ key ∷ path) value =
      put comp (dict (create_dict_path (subdict comp dest) (key ∷ path) value)) dest

  -- Nested lookups `d[k0][k1]...`
  unfoldable pub find_path : List Text → Entries V → Option (Value V)
  unfolding find subdict
  find_path [] d = some (dict d)
  find_path (key ∷ []) d = find key d
  find_path (comp ∷ key ∷ path) d = find_path (key ∷ path) (subdict comp d)

  unfoldable mutual
    unfolding insert update show

    -- The loop of `flatten_dict`, which adds to `items`.
    pub flatten_entries : Bool → Text → Dict Text (Value V) → Entries V → Dict Text (Value V)
    flatten_entries unroll_lists parent items end = items
    flatten_entries unroll_lists parent items (entry k v d) =
        flatten_entries unroll_lists parent (flatten_value unroll_lists (dotted parent k) items v) d

    pub flatten_value : Bool → Text → Dict Text (Value V) → Value V → Dict Text (Value V)
    flatten_value unroll_lists new_key items (leaf v) = insert new_key (leaf v) items
    flatten_value unroll_lists new_key items (dict d) =
        update items (flatten_entries unroll_lists new_key [] d)
    flatten_value unroll_lists new_key items (list l) =
        let unrolled = flatten_items unroll_lists new_key 0 items l in
        if unroll_lists then unrolled else insert new_key (list l) items

    pub flatten_items : Bool → Text → ℕ → Dict Text (Value V) → Items V → Dict Text (Value V)
    flatten_items unroll_lists new_key i items nil = items
    flatten_items unroll_lists new_key i items (cons v l) =
        flatten_items unroll_lists new_key (suc i)
          (flatten_item unroll_lists (new_key ++ b'.' ∷ show i) items v) l

    -- A list in a list is not unrolled.
    pub flatten_item : Bool → Text → Dict Text (Value V) → Value V → Dict Text (Value V)
    flatten_item unroll_lists list_key items (leaf v) = insert list_key (leaf v) items
    flatten_item unroll_lists list_key items (dict d) =
        update items (flatten_entries unroll_lists list_key [] d)
    flatten_item unroll_lists list_key items (list l) = insert list_key (list l) items

  unfoldable pub flatten_dict : Bool → Entries V → Dict Text (Value V)
  unfolding flatten_entries
  flatten_dict unroll_lists d = flatten_entries unroll_lists [] [] d

  unflatten_onto : Entries V → Dict Text (Value V) → Entries V
  unfolding create_dict_path put has split
  unflatten_onto result [] = result
  unflatten_onto result ((key, value) ∷ d) =
      unflatten_onto
        (if has b'.' key
          then create_dict_path result (split b'.' key) value
          else put key value result)
        d

  unfoldable pub unflatten_dict : Dict Text (Value V) → Entries V
  unfolding unflatten_onto
  unflatten_dict d = unflatten_onto end d
