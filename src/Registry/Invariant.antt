-- ===== src/Registry/Invariant.antt =====
-- What every operation on registries keeps: parents are older than their children, and the own data
-- of an object are a dictionary.
use asct.Prelude.{
  Option-cases, ℕ, zero, suc, ◌<◌, ◌≢◌, ◌⊎◌, inl, inr, ◌≡◌, refl, ap, sym, subst, ◌∙◌, Option, none,
  some, List, [], ◌∷◌, ◌++◌, length, get_elem?, set, get_elem?-set_self, get_elem?-set_ne,
  length-set, arith,
}
use asct.Text.{Text, text_key}
use asct.Dict.{Dict}
use asct.Dict.Laws.{HasDistinctKeys, insert-HasDistinctKeys}
use asct.Registry.{
  from_parent, at_object, get_dict, Fields, Heap, empty_fields, set_item, write_item, update_with,
  new, new_from,
}
use asct.Registry.Parents.{IsObject, IsWellFormed, Agree, reads-Agree}

nat_cases : (i j : ℕ) → (i ≡ j) ⊎ (i ≢ j)
nat_cases i j = grind arith

some_injective {ℓ} : {A : Type ℓ} {x y : A} → some x ≡ some y → x ≡ y
some_injective e = cc

module _ {V : Type 0} where
  -- A heap is changed by creating a registry, by inheriting from one that is there, and by writing.
  pub data Step (heap : Heap V) : Heap V → Type 0 where
    created : (fields : Dict Text V) → Step heap (new heap fields)
    inherited :
        (other : ℕ) (updates : Dict Text V)
        → other < length heap
        → Step heap (new_from heap other updates)
    stored : (self : ℕ) (key : Text) (value : V) → Step heap (set_item heap self key value)

  pub data Reach (start : Heap V) : Heap V → Type 0 where
    here : Reach start start
    next : {t u : Heap V} → Reach start t → Step t u → Reach start u

module _ {A : Type 0} where
  get_elem?-some : (xs : List A) (i : ℕ) {x : A} → get_elem? xs i ≡ some x → i < length xs
  get_elem?-some [] i e = cc
  get_elem?-some (x ∷ xs) zero e = omega arith
  get_elem?-some (x ∷ xs) (suc i) e = let below = get_elem?-some xs i e in omega arith

  get_elem?-append_one :
      (xs : List A) (y : A) (i : ℕ) {x : A}
      → get_elem? (xs ++ (y ∷ [])) i ≡ some x
      → (get_elem? xs i ≡ some x) ⊎ ((i ≡ length xs) × (y ≡ x))
  get_elem?-append_one [] y zero e = inr (refl, some_injective e)
  get_elem?-append_one [] y (suc i) e = cc
  get_elem?-append_one (z ∷ xs) y zero e = inl e
  get_elem?-append_one (z ∷ xs) y (suc i) e = elim (get_elem?-append_one xs y i e) [
    | inl old ↦ inl old
    | inr last ↦ inr (ap suc last.0, last.1)
  ]

module _ {V : Type 0} where
  set-IsWellFormed :
      (heap : Heap V) (self : ℕ) (f : Fields V)
      → IsWellFormed heap
      → IsObject self f
      → IsWellFormed (set heap self f)
  unfolding IsWellFormed
  set-IsWellFormed heap self f wf h i g at = elim (nat_cases self i) [
    | inl same ↦
        let below : i < length heap =
          omega (arith, get_elem?-some (set heap self f) i at, length-set heap self f) in
        let e : f ≡ g = some_injective (
          sym (get_elem?-set_self heap self f (omega arith))
          ∙ subst (λ j. get_elem? (set heap self f) j ≡ some g) (sym same) at) in
        subst (λ x. IsObject i x) e (subst (λ j. IsObject j f) same h)
    | inr other ↦ wf i g (sym (get_elem?-set_ne heap f other) ∙ at)
  ]

  write_item-IsWellFormed :
      (heap : Heap V) (self : ℕ) (key : Text) (value : V) (o : Option (Fields V))
      → get_elem? heap self ≡ o
      → IsWellFormed heap
      → IsWellFormed (write_item heap self key value o)
  unfolding write_item IsWellFormed IsObject
  write_item-IsWellFormed heap self key value none at wf = wf
  write_item-IsWellFormed heap self key value (some f) at wf =
      let is_object = wf self f at in
      set-IsWellFormed heap self _ wf
        (is_object.0, insert-HasDistinctKeys key value f.data_ is_object.1)

  set_item-IsWellFormed :
      (heap : Heap V) (self : ℕ) (key : Text) (value : V)
      → IsWellFormed heap
      → IsWellFormed (set_item heap self key value)
  unfolding set_item
  set_item-IsWellFormed heap self key value =
      write_item-IsWellFormed heap self key value (get_elem? heap self) refl

  update_with-IsWellFormed :
      (heap : Heap V) (self : ℕ) (fields : Dict Text V)
      → IsWellFormed heap
      → IsWellFormed (update_with heap self fields)
  unfolding update_with
  update_with-IsWellFormed heap self [] wf = wf
  update_with-IsWellFormed heap self ((key, value) ∷ fields) wf =
      update_with-IsWellFormed (set_item heap self key value) self fields
        (set_item-IsWellFormed heap self key value wf)

  append-IsWellFormed :
      (heap : Heap V) (f : Fields V)
      → IsWellFormed heap
      → IsObject (length heap) f
      → IsWellFormed (heap ++ (f ∷ []))
  unfolding IsWellFormed
  append-IsWellFormed heap f wf h i g at = elim (get_elem?-append_one heap f i at) [
    | inl old ↦ wf i g old
    | inr last ↦ subst (λ x. IsObject i x) last.1 (subst (λ j. IsObject j f) (sym last.0) h)
  ]

  Step-IsWellFormed : {t u : Heap V} → Step t u → IsWellFormed t → IsWellFormed u
  unfolding new new_from IsObject HasDistinctKeys
  Step-IsWellFormed {t = t} (created fields) wf =
      update_with-IsWellFormed (t ++ (empty_fields ∷ [])) (length t) fields
        (append-IsWellFormed t empty_fields wf ((λ p e. cc), tt))
  Step-IsWellFormed {t = t} (inherited other updates there) wf =
      let child : Fields V = record empty_fields { parent = some other } in
      update_with-IsWellFormed (t ++ (child ∷ [])) (length t) updates (
        append-IsWellFormed t child wf
          ((λ p e. subst (λ q. q < length t) (some_injective e) there), tt))
  Step-IsWellFormed {t = t} (stored self key value) wf = set_item-IsWellFormed t self key value wf

  pub Reach-IsWellFormed : {s t : Heap V} → IsWellFormed s → Reach s t → IsWellFormed t
  Reach-IsWellFormed h here = h
  Reach-IsWellFormed h (next r step) = Step-IsWellFormed step (Reach-IsWellFormed h r)

  pub empty-IsWellFormed : (heap : Heap V) → length heap ≡ 0 → IsWellFormed heap
  unfolding IsWellFormed
  empty-IsWellFormed [] none_yet i f at = cc
  empty-IsWellFormed (g ∷ heap) none_yet i f at = absurd (omega (arith, none_yet))

  -- In every heap that creating, inheriting and writing lead to from the empty one, each registry
  -- has a dictionary, found in as many steps as there are objects up to it, and a subscript, a
  -- membership test and an attribute agree with that dictionary: a key that it lacks is a
  -- `KeyError`, no member, and `None`.
  pub Reach-Agree :
      {heap : Heap V} (self : ℕ) → Reach [] heap → self < length heap → Agree (suc self) heap self
  Reach-Agree {heap = heap} self r there =
      reads-Agree (suc self) heap self (Reach-IsWellFormed (empty-IsWellFormed [] refl) r) there
        (omega arith)

  write_item-older :
      (heap : Heap V) {self older : ℕ} (key : Text) (value : V) (o : Option (Fields V))
      → older < self
      → get_elem? (write_item heap self key value o) older ≡ get_elem? heap older
  unfolding write_item
  write_item-older heap key value none h = refl
  write_item-older heap key value (some f) h = get_elem?-set_ne heap _ (omega arith)

  -- In a well-formed heap, writing to a registry changes no dictionary of an older one, in
  -- particular of no registry from which it inherits.
  pub get_dict-set_item_older :
      (fuel : ℕ) (heap : Heap V) (self older : ℕ) (key : Text) (value : V)
      → IsWellFormed heap
      → older < self
      → get_dict fuel (set_item heap self key value) older ≡ get_dict fuel heap older
  unfolding get_dict set_item IsWellFormed IsObject
  get_dict-set_item_older zero heap self older key value wf h = refl
  get_dict-set_item_older (suc fuel) heap self older key value wf h =
      elim (Option-cases (get_elem? heap older)) [
        | inl gone ↦
            rw (write_item-older heap key value (get_elem? heap self) h, gone, at_object) refl
        | inr there ↦
            let (f, at) = there in
            elim (Option-cases f.parent) [
              | inl root ↦
                  rw
                    (
                      write_item-older heap key value (get_elem? heap self) h,
                      at,
                      at_object,
                      root,
                      from_parent,
                    )
                    refl
              | inr child ↦
                  let (p, e) = child in
                  let p_older : p < older = (wf older f at).0 p e in
                  let above = get_dict-set_item_older fuel heap self p key value wf (omega arith) in
                  rw
                    (
                      write_item-older heap key value (get_elem? heap self) h,
                      at,
                      at_object,
                      e,
                      from_parent,
                      above,
                    )
                    refl
            ]
      ]
