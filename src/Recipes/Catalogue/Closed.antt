-- ===== src/Recipes/Catalogue/Closed.antt =====
-- The catalogue of src/core/recipes/configuration/metadata.py holds what its recipes depend on.
use asct.Prelude.{Bool, true, false, ◌&&◌, ◌≡◌, refl, ◌∙◌, List, [], ◌∷◌, ok}
use asct.Text.{Text, text_key, text_beq}
use asct.Dict.{contains}
use asct.Recipes.Catalogue.{Entry}
use asct.Recipes.Catalogue.Table.{categories, asct_recipe_metadata}
use asct.Recipes.Catalogue.Created.{
  names, visible_recipes, all_distinct, no_repeats, create_metadata-visible,
}

abbrev all_in : List Text → List Text → Bool
all_in known [] = true
all_in known (x ∷ xs) = contains x known && all_in known xs

abbrev has_dependencies : List Text → List Entry → Bool
has_dependencies known [] = true
has_dependencies known (r ∷ rs) = all_in known r.depends_on && has_dependencies known rs

-- Each dependency of a recipe is the name of a recipe.
abbrev pub is_closed : List Entry → Bool
is_closed rs = has_dependencies (names rs) rs

distinct :
    (ip_dump sysreg : Bool) → all_distinct (visible_recipes (categories ip_dump sysreg)) ≡ true
unfolding categories no_repeats text_beq
distinct true true = refl
distinct true false = refl
distinct false true = refl
distinct false false = refl

closed : (ip_dump sysreg : Bool) → is_closed (visible_recipes (categories ip_dump sysreg)) ≡ true
unfolding categories contains text_beq
closed true true = refl
closed true false = refl
closed false true = refl
closed false false = refl

-- The table of recipes can be created whichever optional recipes are visible, and then each
-- dependency of a visible recipe is a visible recipe.
pub asct_recipe_metadata-closed :
    (ip_dump sysreg : Bool)
    → (metadata : List Entry) × (asct_recipe_metadata ip_dump sysreg ≡ ok metadata)
      × (is_closed metadata ≡ true)
unfolding asct_recipe_metadata
asct_recipe_metadata-closed ip_dump sysreg = (
  visible_recipes (categories ip_dump sysreg),
  create_metadata-visible (categories ip_dump sysreg) ∙ rw (distinct ip_dump sysreg) refl,
  closed ip_dump sysreg,
)
