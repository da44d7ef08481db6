-- ===== src/UserConfig/Check.antt =====
-- `just_check` of src/lib/run/run_helper.py, `get_conv_user_config`.
use asct.Prelude.{
  ℕ, zero, suc, ◌≡◌, ◌∙◌, refl, Bool, true, List, [], ◌∷◌, Result, ok, err, Exec, continue, ◌>>◌,
  Bool-cases, inl, inr, Result-cases, Option-cases,
}
use asct.Text.{Text, text_key}
use asct.Dict.{contains}
use asct.Trees.{Value, Entries, leaf, dict, list, end, entry}
use asct.Config.{ConvError}
use asct.UserConfig.{
  Stack, Conv, Recipe, loop, size, set_settings, set_leaf, convert_leaf, set_benchmark, get_recipe,
  get_conv_user_config,
}

module _ {S : Type 0} where
  then_keeps :
      (m n : Exec ConvError S Unit)
      → ((s : S) → (m s).1 ≡ s)
      → ((s : S) → (n s).1 ≡ s)
      → (s : S) → ((m >> n) s).1 ≡ s
  then_keeps m n hm hn s = go (m s).0 (m s).1 (hm s)
    where
      go : (r : Result ConvError Unit) (t : S) → t ≡ s → (continue r (λ _. n) t).1 ≡ s
      go (ok u) t e = hn t ∙ e
      go (err x) t e = e

module _ {R S : Type 0} (visit : List Text → Value R → Exec ConvError S Unit) where
  loop_keeps :
      ((path : List Text) (v : Value R) (s : S) → (visit path v s).1 ≡ s)
      → (fuel : ℕ) (stack : Stack R) (s : S) → (loop visit fuel stack s).1 ≡ s
  unfolding loop
  loop_keeps h zero stack s = refl
  loop_keeps h (suc fuel) [] s = refl
  loop_keeps h (suc fuel) ((path, leaf r) ∷ stack) s =
      then_keeps (visit path (leaf r)) (loop visit fuel stack) (h path (leaf r))
        (loop_keeps h fuel stack) s
  loop_keeps h (suc fuel) ((path, list l) ∷ stack) s =
      then_keeps (visit path (list l)) (loop visit fuel stack) (h path (list l))
        (loop_keeps h fuel stack) s
  loop_keeps h (suc fuel) ((path, dict d) ∷ stack) s = loop_keeps h fuel _ s

module _ {R V : Type 0} (beq : V → V → Bool) where
  set_leaf_keeps :
      (recipe : Recipe R V) (path : List Text) (v : Value R) (dest : Entries V)
      → (set_leaf beq true recipe path v dest).1 ≡ dest
  unfolding set_leaf
  set_leaf_keeps recipe [] v dest = refl
  set_leaf_keeps recipe (name ∷ path) v dest =
      elim (Result-cases (convert_leaf recipe.user_config path v)) [
        | inl (c, e) ↦ rw (e, set_leaf) refl
        | inr (x, e) ↦ rw (e, set_leaf) refl
      ]

  set_settings_keeps :
      (recipe : Recipe R V) (d : Entries (Conv R V)) (v : Value R) (dest : Entries V)
      → (set_settings beq true recipe d v dest).1 ≡ dest
  unfolding set_settings
  set_settings_keeps recipe end v dest = refl
  set_settings_keeps recipe (entry key c d) v dest =
      loop_keeps (set_leaf beq true recipe) (set_leaf_keeps recipe) (suc (size v))
        ((recipe.name ∷ [], v) ∷ []) dest

  set_benchmark_keeps :
      (recipes : List (Recipe R V)) (requested : List Text) (name : Text) (v : Value R)
      (dest : Entries V)
      → (set_benchmark beq true recipes requested name v dest).1 ≡ dest
  unfolding set_benchmark
  set_benchmark_keeps recipes requested name v dest =
      elim (Option-cases (get_recipe name recipes)) [
        | inl e ↦ rw (e, set_benchmark) refl
        | inr (recipe, e) ↦ elim (Bool-cases (contains recipe.name requested)) [
          | inl c ↦ rw (e, c, set_benchmark) (set_settings_keeps recipe recipe.user_config v dest)
          | inr c ↦ rw (e, c, set_benchmark) (set_settings_keeps recipe recipe.user_config v dest)
        ]
      ]

  -- With `just_check`, `get_conv_user_config` writes nothing to the destination, whether it raises
  -- or not.
  pub get_conv_user_config-just_check :
      (recipes : List (Recipe R V)) (requested : List Text) (settings : Entries R)
      (dest : Entries V)
      → (get_conv_user_config beq true recipes requested settings dest).1 ≡ dest
  unfolding get_conv_user_config
  get_conv_user_config-just_check recipes requested end dest = refl
  get_conv_user_config-just_check recipes requested (entry name v settings) dest =
      then_keeps (set_benchmark beq true recipes requested name v)
        (get_conv_user_config beq true recipes requested settings)
        (set_benchmark_keeps recipes requested name v)
        (get_conv_user_config-just_check recipes requested settings) dest
