-- ===== src/Recipes/Catalogue/Tests.antt =====
-- Two categories with a name in common, and the catalogue without its optional recipes.
use asct.Prelude.{true, false, ◌≡◌, refl, List, [], ◌∷◌, ok, err, if◌then◌else◌}
use asct.Text.{codes, text_beq}
use asct.Recipes.Catalogue.{Entry, assertion_error, new_entry, create_metadata}
use asct.Recipes.Catalogue.Table.{asct_recipe_metadata}
use asct.Recipes.Catalogue.Created.{all_distinct, visible_recipes, create_metadata-visible}
use asct.Recipes.Catalogue.Closed.{is_closed, asct_recipe_metadata-closed}

abbrev one : Entry
one = new_entry (codes "latency") (codes "l") (codes "Latency") [] [] true

abbrev other : Entry
other = new_entry (codes "bandwidth") (codes "l") (codes "Bandwidth") [] [] true

abbrev two_lists : List (List Entry)
two_lists = (one ∷ []) ∷ (other ∷ []) ∷ []

refused : create_metadata two_lists ≡ err assertion_error
unfolding create_metadata new_entry text_beq
refused = refl

create_metadata-visible_example : create_metadata two_lists ≡ (
    if all_distinct (visible_recipes two_lists)
    then ok (visible_recipes two_lists)
    else err assertion_error)
create_metadata-visible_example = create_metadata-visible two_lists

asct_recipe_metadata-closed_example :
    (metadata : List Entry) × (asct_recipe_metadata false false ≡ ok metadata)
    × (is_closed metadata ≡ true)
asct_recipe_metadata-closed_example = asct_recipe_metadata-closed false false
