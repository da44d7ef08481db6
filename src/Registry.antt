-- ===== src/Registry.antt =====
-- Registries that inherit from a parent, from src/core/datatypes.py. A registry keeps a reference
-- to its parent, so that what is written to the parent later is seen through the child: the objects
-- stand in a heap, and a reference is the place where an object was created. Values are opaque, and
-- `copy.deepcopy` of one is the value. The walk up the parents takes fuel; `unfinished` is the
-- outcome of a walk that ran out of it or met no object.
pub mod Invariant
pub mod Parents
mod Tests
use asct.Prelude.{
  ℕ, zero, suc, Bool, true, false, Option, none, some, List, [], ◌∷◌, ◌++◌, Result, ok, err, length,
  get_elem?, set, if◌then◌else◌, and_then,
}
use asct.Text.{Text, text_key}
use asct.Dict.{Dict, keys, lookup, insert, update, contains}

pub data ReadFailure : Type 0 where
  key_error : Text → ReadFailure
  unfinished : ReadFailure

module _ (V : Type 0) where
  pub record Fields : Type 0 where
    pub data_ : Dict Text V
    pub parent : Option ℕ

  abbrev pub Heap : Type 0
  Heap = List Fields

abbrev pub empty_fields : {V : Type 0} → Fields V
empty_fields = record { data_ = []; parent = none }

module _ {V : Type 0} where
  -- `self._data[name] = copy.deepcopy(value)` of the object that stands at `self`
  unfoldable pub write_item : Heap V → ℕ → Text → V → Option (Fields V) → Heap V
  write_item heap self name value none = heap
  write_item heap self name value (some f) =
      set heap self (record f { data_ = insert name value f.data_ })

  -- `_set`
  unfoldable pub set_item : Heap V → ℕ → Text → V → Heap V
  unfolding write_item
  set_item heap self name value = write_item heap self name value (get_elem? heap self)

  unfoldable pub update_with : Heap V → ℕ → Dict Text V → Heap V
  update_with heap self [] = heap
  update_with heap self ((name, value) ∷ rest) =
      update_with (set_item heap self name value) self rest

  -- The new object stands behind the others, at the place `length heap`.
  unfoldable pub new : Heap V → Dict Text V → Heap V
  unfolding update_with
  new heap fields = update_with (heap ++ (empty_fields ∷ [])) (length heap) fields

  unfoldable pub new_from : Heap V → ℕ → Dict Text V → Heap V
  unfolding update_with
  new_from heap other updates =
      update_with (heap ++ (record empty_fields { parent = some other } ∷ [])) (length heap) updates

-- A walk up the parents: what one object does with its own data, and with the rest of the walk.
module _ {A : Type 0} where
  -- `if self._parent is not None: up(self._parent)`
  unfoldable pub from_parent : Option ℕ → (ℕ → A) → A → A
  from_parent none up default = default
  from_parent (some parent) up default = up parent

module _ {V A : Type 0} where
  unfoldable pub at_object : Option (Fields V) → (Fields V → A) → A → A
  at_object none visit default = default
  at_object (some f) visit default = visit f

module _ {V : Type 0} where
  unfoldable pub found_own : Option V → Result ReadFailure V → Result ReadFailure V
  found_own none above = above
  found_own (some value) above = ok value

  -- `__getitem__`
  unfoldable pub get_item : ℕ → Heap V → ℕ → Text → Result ReadFailure V
  unfolding from_parent at_object found_own
  get_item zero heap self key = err unfinished
  get_item (suc fuel) heap self key =
      let up : ℕ → Result ReadFailure V = λ parent. get_item fuel heap parent key in
      at_object (get_elem? heap self)
        (λ f. found_own (lookup key f.data_) (from_parent f.parent up (err (key_error key))))
        (err unfinished)

  unfoldable pub found_or_none :
      Option V → Result ReadFailure (Option V) → Result ReadFailure (Option V)
  found_or_none none above = above
  found_or_none (some value) above = ok (some value)

  -- `__getattr__`, of a name that is no attribute of the class: where no object of the chain has
  -- it, the method ends without a `return`, which is the value `None`.
  unfoldable pub get_attribute : ℕ → Heap V → ℕ → Text → Result ReadFailure (Option V)
  unfolding from_parent at_object found_or_none
  get_attribute zero heap self name = err unfinished
  get_attribute (suc fuel) heap self name =
      let up : ℕ → Result ReadFailure (Option V) = λ parent. get_attribute fuel heap parent name in
      at_object (get_elem? heap self)
        (λ f. found_or_none (lookup name f.data_) (from_parent f.parent up (ok none)))
        (err unfinished)

  unfoldable pub held : Option V → Result ReadFailure Bool → Result ReadFailure Bool
  held none above = above
  held (some value) above = ok true

  -- `__contains__`
  unfoldable pub contains_key : ℕ → Heap V → ℕ → Text → Result ReadFailure Bool
  unfolding from_parent at_object held
  contains_key zero heap self key = err unfinished
  contains_key (suc fuel) heap self key =
      let up : ℕ → Result ReadFailure Bool = λ parent. contains_key fuel heap parent key in
      at_object (get_elem? heap self)
        (λ f. held (lookup key f.data_) (from_parent f.parent up (ok false))) (err unfinished)

  unfoldable pub inherit :
      Result ReadFailure (Dict Text V) → Dict Text V → Result ReadFailure (Dict Text V)
  inherit (ok above) own = ok (update above own)
  inherit (err e) own = err e

  unfoldable pub get_dict : ℕ → Heap V → ℕ → Result ReadFailure (Dict Text V)
  unfolding from_parent at_object inherit
  get_dict zero heap self = err unfinished
  get_dict (suc fuel) heap self =
      let up : ℕ → Result ReadFailure (Dict Text V) = get_dict fuel heap in
      at_object (get_elem? heap self) (λ f. inherit (from_parent f.parent up (ok [])) f.data_)
        (err unfinished)
