-- ===== src/Recipes/Sets.antt =====
-- Membership in the lists and sets of src/core/recipes/configuration/registry.py.
use asct.Prelude.{
  ◌≡◌, refl, Bool, not, ◌&&◌, ◌||◌, List, [], ◌∷◌, ◌++◌, ◌==◌, arith, Bool-cases, inl, inr,
  insert_by, sort_by,
}
use asct.Text.{Text, text_key, text_beq_iff}
use asct.Dict.{contains}
use asct.Recipes.{add, difference}
use asct.Recipes.Selection.{add_all}

pub contains-append :
    (x : Text) (s t : List Text) → contains x (s ++ t) ≡ (contains x s || contains x t)
unfolding contains
contains-append x [] t = refl
contains-append x (y ∷ s) t = ground (arith, contains-append x s t)

pub contains-add : (x y : Text) (s : List Text) → contains x (add y s) ≡ (y == x || contains x s)
unfolding add contains
contains-add x y s = elim (Bool-cases (contains y s)) [
  | inl h ↦ elim (Bool-cases (y == x)) [
    | inl e ↦ rw (h, e) (rw ((text_beq_iff y x).0 e) at h)
    | inr e ↦ rw (h, e)
  ]
  | inr h ↦ rw (h, contains-append x s (y ∷ [])) (ground arith)
]

pub contains-add_all :
    (x : Text) (s t : List Text) → contains x (add_all s t) ≡ (contains x t || contains x s)
unfolding add_all contains
contains-add_all x s [] = refl
contains-add_all x s (y ∷ t) =
    rw (contains-add_all x (add y s) t, contains-add x y s) (ground arith)

pub contains-difference :
    (x : Text) (s t : List Text)
    → contains x (difference s t) ≡ (contains x s && not (contains x t))
unfolding difference contains
contains-difference x [] t = refl
contains-difference x (y ∷ s) t = elim (Bool-cases (y == x)) [
  | inl e ↦
      let same : y ≡ x = (text_beq_iff y x).0 e in
      elim (Bool-cases (contains x t)) [
        | inl h ↦ rw (same, h, contains-difference x s t) (ground arith)
        | inr h ↦
            rw (same, h, contains-difference x s t) (ground (arith, (text_beq_iff x x).1 refl))
      ]
  | inr e ↦ ground (arith, e, contains-difference x s t)
]

module _ (leq : Text → Text → Bool) where
  contains-insert_by :
      (x y : Text) (s : List Text) → contains x (insert_by leq y s) ≡ (y == x || contains x s)
  unfolding insert_by contains
  contains-insert_by x y [] = refl
  contains-insert_by x y (z ∷ s) = ground (arith, contains-insert_by x y s)

  pub contains-sort_by : (x : Text) (s : List Text) → contains x (sort_by leq s) ≡ contains x s
  unfolding sort_by contains
  contains-sort_by x [] = refl
  contains-sort_by x (y ∷ s) = rw (contains-insert_by x y (sort_by leq s), contains-sort_by x s)
