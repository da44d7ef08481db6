-- ===== src/Trees/Paths.antt =====
-- Paths of nested dictionaries: src/lib/utility/misc.py, `create_dict_path`.
use asct.Prelude.{
  ◌≡◌, ◌∙◌, ap, refl, false, some, List, [], ◌∷◌, if◌then◌else◌, ◌==◌, ==_refl, ◌≢◌, arith,
  Bool-cases, inl, inr,
}
use asct.Text.{Text, text_key, text_beq_iff}
use asct.Trees.{Value, Entries, dict, end, entry, find, put, subdict, create_dict_path, find_path}

-- Neither path is a beginning of the other.
unfoldable pub Diverge : List Text → List Text → Type 0
Diverge [] q = ⊥
Diverge (a ∷ p) [] = ⊥
Diverge (a ∷ p) (b ∷ q) = if a == b then Diverge p q else Unit

module _ {V : Type 0} where
  pub find-put :
      (key k : Text) (value : Value V) (d : Entries V)
      → find k (put key value d) ≡ (if key == k then some value else find k d)
  unfolding find put
  find-put key k value end = refl
  find-put key k value (entry j v d) =
      ground
        (arith, text_beq_iff key k, text_beq_iff j key, text_beq_iff j k, find-put key k value d)

  pub subdict-put :
      (comp b : Text) (inner d : Entries V)
      → subdict b (put comp (dict inner) d) ≡ (if comp == b then inner else subdict b d)
  unfolding subdict
  subdict-put comp b inner d = elim (Bool-cases (comp == b)) [
    | inl h ↦ rw (find-put comp b (dict inner) d, h, subdict)
    | inr h ↦ rw (find-put comp b (dict inner) d, h, subdict)
  ]

  subdict-put_ne :
      (key b : Text) (v : Value V) (d : Entries V)
      → (key == b) ≡ false
      → subdict b (put key v d) ≡ subdict b d
  unfolding subdict
  subdict-put_ne key b v d h = rw (find-put key b v d, h, subdict)

  -- What `create_dict_path` writes at a path is found at that path, if the path is not empty.
  pub find_path-create_dict_path :
      (d : Entries V) (path : List Text) (value : Value V)
      → path ≢ []
      → find_path path (create_dict_path d path value) ≡ some value
  unfolding find_path create_dict_path
  find_path-create_dict_path d [] value h = absurd (h refl)
  find_path-create_dict_path d (key ∷ []) value h = rw (find-put key key value d, ==_refl key)
  find_path-create_dict_path d (comp ∷ key ∷ path) value h =
      rw
        (
          subdict-put comp comp (create_dict_path (subdict comp d) (key ∷ path) value) d,
          ==_refl comp,
        )
        (find_path-create_dict_path (subdict comp d) (key ∷ path) value (λ e. cc e))

  -- `create_dict_path` changes nothing at a path of which the written one is no beginning and that
  -- is no beginning of the written one.
  pub create_dict_path-Diverge :
      (d : Entries V) (p q : List Text) (value : Value V)
      → Diverge p q
      → find_path q (create_dict_path d p value) ≡ find_path q d
  unfolding find_path create_dict_path Diverge
  create_dict_path-Diverge d [] q value h = absurd h
  create_dict_path-Diverge d (a ∷ p) [] value h = absurd h
  create_dict_path-Diverge d (a ∷ []) (b ∷ []) value h = elim (Bool-cases (a == b)) [
    | inl e ↦ absurd (rw e at h)
    | inr e ↦ rw (find-put a b value d, e)
  ]
  create_dict_path-Diverge d (a ∷ []) (b ∷ c ∷ q) value h = elim (Bool-cases (a == b)) [
    | inl e ↦ absurd (rw e at h)
    | inr e ↦ rw (subdict-put_ne a b value d e)
  ]
  create_dict_path-Diverge d (a ∷ c ∷ p) (b ∷ []) value h = elim (Bool-cases (a == b)) [
    | inl e ↦ absurd (rw e at h)
    | inr e ↦ rw (find-put a b _ d, e)
  ]
  create_dict_path-Diverge d (a ∷ c ∷ p) (b ∷ k ∷ q) value h =
      let inner = create_dict_path (subdict a d) (c ∷ p) value in
      elim (Bool-cases (a == b)) [
        | inl e ↦
            let same : a ≡ b = (text_beq_iff a b).0 e in
            rw (subdict-put a b inner d, e)
              (create_dict_path-Diverge (subdict a d) (c ∷ p) (k ∷ q) value (rw e at h)
                ∙ ap (λ t. find_path (k ∷ q) (subdict t d)) same)
        | inr e ↦ rw (subdict-put a b inner d, e)
      ]
