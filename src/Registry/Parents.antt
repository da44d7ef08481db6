-- ===== src/Registry/Parents.antt =====
-- Inheritance in registries: the three ways to read agree, and a parent is older than its child.
use asct.Prelude.{
  get_elem?-below, ℕ, zero, suc, ◌<◌, ◌≡◌, refl, Bool, true, false, Option, none, some, [], Result,
  ok, err, length, get_elem?, arith,
}
use asct.Text.{Text, text_key}
use asct.Dict.{Dict, lookup, update}
use asct.Dict.Laws.{or_else, HasDistinctKeys, lookup-update}
use asct.Registry.{
  ReadFailure, key_error, Fields, Heap, from_parent, at_object, found_own, get_item, found_or_none,
  get_attribute, held, contains_key, inherit, get_dict,
}

-- What a subscript gives for what a dictionary holds.
unfoldable pub or_key_error : {V : Type 0} → Text → Option V → Result ReadFailure V
or_key_error key none = err (key_error key)
or_key_error key (some value) = ok value

unfoldable pub is_some : {V : Type 0} → Option V → Bool
is_some none = false
is_some (some value) = true

module _ {V : Type 0} where
  -- An object is created after its parent, and its own data are a dictionary.
  unfoldable pub IsObject : ℕ → Fields V → Type 0
  IsObject i f = ((p : ℕ) → f.parent ≡ some p → p < i) × HasDistinctKeys f.data_

  unfoldable pub IsWellFormed : Heap V → Type 0
  unfolding IsObject
  IsWellFormed heap = (i : ℕ) (f : Fields V) → get_elem? heap i ≡ some f → IsObject i f

  -- The dictionary of an object, and that the other three ways to read agree with it.
  unfoldable pub Agree : ℕ → Heap V → ℕ → Type 0
  Agree fuel heap self =
      (d : Dict Text V) × (get_dict fuel heap self ≡ ok d)
      × ((key : Text)
          → (get_item fuel heap self key ≡ or_key_error key (lookup key d))
            × (contains_key fuel heap self key ≡ ok (is_some (lookup key d)))
            × (get_attribute fuel heap self key ≡ ok (lookup key d)))

  found-or_else :
      (key : Text) (own above : Option V)
      → found_own own (or_key_error key above) ≡ or_key_error key (or_else own above)
  unfolding found_own or_key_error or_else
  found-or_else key none above = refl
  found-or_else key (some v) above = refl

  held-or_else :
      (own above : Option V) → held own (ok (is_some above)) ≡ ok (is_some (or_else own above))
  unfolding held is_some or_else
  held-or_else none above = refl
  held-or_else (some v) above = refl

  found_or_none-or_else :
      (own above : Option V) → found_or_none own (ok above) ≡ ok (or_else own above)
  unfolding found_or_none or_else
  found_or_none-or_else none above = refl
  found_or_none-or_else (some v) above = refl

  Agree-step :
      (fuel : ℕ) (heap : Heap V) (self : ℕ) (own : Dict Text V) (parent : Option ℕ)
      → HasDistinctKeys own
      → get_elem? heap self ≡ some (record { data_ = own; parent = parent })
      → ((p : ℕ) → parent ≡ some p → Agree fuel heap p)
      → Agree (suc fuel) heap self
  unfolding Agree get_dict get_item contains_key get_attribute from_parent at_object inherit lookup
      or_key_error is_some
  Agree-step fuel heap self own none distinct at above = (
    update [] own,
    rw at refl,
    λ key. (
      rw (at, lookup-update key [] own distinct, found-or_else key (lookup key own) none) refl,
      rw (at, lookup-update key [] own distinct, held-or_else (lookup key own) none) refl,
      rw (at, lookup-update key [] own distinct, found_or_none-or_else (lookup key own) none) refl,
    ),
  )
  Agree-step fuel heap self own (some p) distinct at above =
      let (d, reads, agree) = above p refl in
      (
        update d own,
        rw (at, reads) refl,
        λ key. (
          rw (at, lookup-update key d own distinct, (agree key).0)
              (found-or_else key (lookup key own) (lookup key d)),
          rw (at, lookup-update key d own distinct, (agree key).1)
              (held-or_else (lookup key own) (lookup key d)),
          rw (at, lookup-update key d own distinct, (agree key).2)
              (found_or_none-or_else (lookup key own) (lookup key d)),
        ),
      )

  pub reads-Agree :
      (fuel : ℕ) (heap : Heap V) (self : ℕ)
      → IsWellFormed heap
      → self < length heap
      → self < fuel
      → Agree fuel heap self
  unfolding IsWellFormed IsObject
  reads-Agree zero heap self wf there enough = elim enough [ ]
  reads-Agree (suc fuel) heap self wf there enough =
      let (f, at) = get_elem?-below heap self there in
      let is_object = wf self f at in
      Agree-step fuel heap self f.data_ f.parent is_object.1 at
        λ p e. let older = is_object.0 p e in reads-Agree fuel heap p wf (omega arith) (omega arith)
