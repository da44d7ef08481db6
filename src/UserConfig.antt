-- ===== src/UserConfig.antt =====
-- Settings of the user: src/lib/run/run_helper.py, `get_conv_user_config`, and `get_recipe` of
-- src/core/recipes/configuration/metadata.py. Warnings in the log are left out.
pub mod Stack
pub mod Check
mod Tests
use asct.Prelude.{
  ℕ, zero, suc, ◌+◌, Bool, true, false, not, ◌&&◌, ◌||◌, Option, none, some, List, [], ◌∷◌, ◌++◌,
  Result, ok, err, and_then, Exec, pure, raise, lift, modify, ◌>>=◌, ◌>>◌, if◌then◌else◌, ◌==◌,
}
use asct.Text.{Text, text_key}
use asct.Dict.{contains}
use asct.Trees.{Value, Entries, leaf, dict, list, end, entry, find, create_dict_path}
use asct.Config.{ConvError, value_error, type_error, index_error, diverges}

-- `dict_stack`, its last element first: a path and the value at it.
abbrev pub Stack : Type 0 → Type 0
Stack R = List (List Text × Value R)

module _ {R : Type 0} where
  -- `for key, value in top_value.items(): dict_stack.append(((*path, key), value))`
  unfoldable pub push_all : List Text → Entries R → Stack R → Stack R
  push_all path end stack = stack
  push_all path (entry key value d) stack = push_all path d ((path ++ key ∷ [], value) ∷ stack)

  unfoldable mutual
    -- The number of rounds that a value takes.
    pub size : Value R → ℕ
    size (leaf r) = 1
    size (list l) = 1
    size (dict d) = suc (size_entries d)

    pub size_entries : Entries R → ℕ
    size_entries end = 0
    size_entries (entry key value d) = size value + size_entries d

module _ {R S : Type 0} where
  -- `while dict_stack: ...`, where `visit` is what the loop does with a leaf
  unfoldable pub loop :
      (List Text → Value R → Exec ConvError S Unit) → ℕ → Stack R → Exec ConvError S Unit
  unfolding push_all
  loop visit zero stack = raise diverges
  loop visit (suc fuel) [] = pure tt
  loop visit (suc fuel) ((path, leaf r) ∷ stack) = visit path (leaf r) >> loop visit fuel stack
  loop visit (suc fuel) ((path, list l) ∷ stack) = visit path (list l) >> loop visit fuel stack
  loop visit (suc fuel) ((path, dict d) ∷ stack) = loop visit fuel (push_all path d stack)

-- `UserConfigDescr.conv`; `R` is what the user gives, `V` what a conversion makes of it.
abbrev pub Conv : Type 0 → Type 0 → Type 0
Conv R V = Value R → Result ConvError V

pub record Recipe (R V : Type 0) : Type 0 where
  pub name : Text
  pub short_name : Text
  pub user_config : Entries (Conv R V)
  pub default_config : Entries V

module _ {R V : Type 0} where
  unfoldable pub get_recipe : Text → List (Recipe R V) → Option (Recipe R V)
  get_recipe benchmark_name [] = none
  get_recipe benchmark_name (r ∷ rs) =
      let rest = get_recipe benchmark_name rs in
      if benchmark_name == r.short_name || benchmark_name == r.name then some r else rest

  -- `get_default_user_config`
  unfoldable pub default_user_config : Entries (Conv R V) → Entries V → Entries V
  unfolding find
  default_user_config end defaults = end
  default_user_config (entry key c d) defaults = elim (find key defaults) [
    | none ↦ default_user_config d defaults
    | some v ↦ entry key v (default_user_config d defaults)
  ]

  descend : Value (Conv R V) → List Text → Result ConvError (Value (Conv R V))
  unfolding find
  descend descr [] = ok descr
  descend (leaf c) (key ∷ path) = err type_error
  descend (list l) (key ∷ path) = err value_error
  descend (dict d) (key ∷ path) = elim (find key d) [
    | none ↦ err value_error
    | some v ↦ descend v path
  ]

  -- `_convert_user_config_leaf`; the path is the one behind the benchmark's name.
  unfoldable pub convert_leaf : Entries (Conv R V) → List Text → Value R → Result ConvError V
  unfolding descend
  convert_leaf settings_descr path top_value =
      and_then (descend (dict settings_descr) path) λ descr. elim descr [
        | leaf conv ↦ conv top_value
        | dict d ↦ err value_error
        | list l ↦ err value_error
      ]

module _ {V : Type 0} where
  -- `None` where a part of the path is missing; a leaf is taken for a number, of which `in` raises.
  default_at : Value V → List Text → Result ConvError (Option (Value V))
  unfolding find
  default_at v [] = ok (some v)
  default_at (leaf v) (part ∷ path) = err type_error
  default_at (list l) (part ∷ path) = ok none
  default_at (dict d) (part ∷ path) = elim (find part d) [
    | none ↦ ok none
    | some v ↦ default_at v path
  ]

  differs : (V → V → Bool) → V → Option (Value V) → Bool
  differs beq conv_value none = true
  differs beq conv_value (some (leaf v)) = not (beq conv_value v)
  differs beq conv_value (some (dict d)) = true
  differs beq conv_value (some (list l)) = true

  -- `_is_non_default_user_config_value`; the path is the one behind the benchmark's name.
  unfoldable pub is_non_default : (V → V → Bool) → Entries V → List Text → V → Result ConvError Bool
  unfolding find default_at differs
  is_non_default beq defaults [] conv_value = err index_error
  is_non_default beq defaults (key ∷ path) conv_value = elim (find key defaults) [
    | none ↦ ok true
    | some v ↦ and_then (default_at v path) (λ found. ok (differs beq conv_value found))
  ]

  abbrev pub handle_config_error : Bool → Exec ConvError (Entries V) Unit
  handle_config_error just_check = if just_check then raise value_error else pure tt

module _ {R V : Type 0} (beq : V → V → Bool) (just_check : Bool) where
  -- The leaf branch of the loop; the first element of the path is the benchmark's name.
  unfoldable pub set_leaf : Recipe R V → List Text → Value R → Exec ConvError (Entries V) Unit
  unfolding convert_leaf is_non_default default_user_config create_dict_path
  set_leaf recipe [] top_value = raise index_error
  set_leaf recipe (name ∷ path) top_value = elim (convert_leaf recipe.user_config path top_value) [
    | err e ↦ handle_config_error just_check
    | ok conv_value ↦
        if just_check
        then pure tt
        else (lift (
              is_non_default beq (default_user_config recipe.user_config recipe.default_config) path
                conv_value)
            >>= λ non_default.
                if non_default
                then modify (λ dest. create_dict_path dest (name ∷ path) (leaf conv_value))
                else pure tt)
  ]

  -- The loop over `dict_stack`, which is passed over if there are no descriptions of settings.
  unfoldable pub set_settings :
      Recipe R V → Entries (Conv R V) → Value R → Exec ConvError (Entries V) Unit
  unfolding loop set_leaf size
  set_settings recipe end benchmark_settings = pure tt
  set_settings recipe (entry key c d) benchmark_settings =
      loop (set_leaf recipe) (suc (size benchmark_settings))
        ((recipe.name ∷ [], benchmark_settings) ∷ [])

  -- One round of the loop over the settings.
  unfoldable pub set_benchmark :
      List (Recipe R V) → List Text → Text → Value R → Exec ConvError (Entries V) Unit
  unfolding get_recipe contains set_settings
  set_benchmark recipes requested requested_name benchmark_settings =
      elim (get_recipe requested_name recipes) [
        | none ↦ handle_config_error just_check
        | some recipe ↦
            if not (contains recipe.name requested) && not just_check
            then handle_config_error just_check
            else set_settings recipe recipe.user_config benchmark_settings
      ]

  unfoldable pub get_conv_user_config :
      List (Recipe R V) → List Text → Entries R → Exec ConvError (Entries V) Unit
  unfolding set_benchmark
  get_conv_user_config recipes requested end = pure tt
  get_conv_user_config recipes requested (entry requested_name benchmark_settings settings) =
      set_benchmark recipes requested requested_name benchmark_settings
      >> get_conv_user_config recipes requested settings
