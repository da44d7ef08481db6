-- ===== src/Recipes/Categories.antt =====
-- Recipes by category and the tags on offer: src/core/recipes/configuration/metadata.py.
use asct.Prelude.{
  ◌+◌, ◌≡◌, refl, Bool, false, not, ◌&&◌, List, [], ◌∷◌, ◌++◌, Result, ok, and_then, if◌then◌else◌,
  ◌==◌, nat_key, length, arith, Bool-cases, inl, inr,
}
use asct.Text.{Text, text_key, codes}
use asct.Dict.{Dict, contains}
use asct.Recipes.{SelectionError, Metadata, get}
use asct.Recipes.Selection.{add_all}

-- `value.startswith("^")`
unfoldable pub is_negative : Text → Bool
is_negative [] = false
is_negative (c ∷ s) = c == b'^'

unfoldable pub included : List Text → List Text
unfolding is_negative
included [] = []
included (v ∷ filters) = let rest = included filters in if is_negative v then rest else v ∷ rest

unfoldable pub excluded : List Text → List Text
excluded [] = []
excluded ([] ∷ filters) = excluded filters
excluded ((c ∷ s) ∷ filters) = let rest = excluded filters in if c == b'^' then s ∷ rest else rest

-- The tests of the loop over the recipes.
unfoldable pub is_kept : List Text → List Text → Metadata → Bool
unfolding contains
is_kept [] exclude m = not (contains m.category exclude)
is_kept (i ∷ include) exclude m =
    not (contains m.category exclude) && contains m.category (i ∷ include)

unfoldable pub keep_recipes : List Text → List Text → List Metadata → List Metadata
unfolding is_kept
keep_recipes include exclude [] = []
keep_recipes include exclude (m ∷ ms) =
    let rest = keep_recipes include exclude ms in
    if is_kept include exclude m then m ∷ rest else rest

unfoldable pub get_recipe_metadata : List Metadata → List Text → List Metadata
unfolding keep_recipes included excluded
get_recipe_metadata all_metadata [] = all_metadata
get_recipe_metadata all_metadata (f ∷ filters) =
    keep_recipes (included (f ∷ filters)) (excluded (f ∷ filters)) all_metadata

-- `get_recipe_metadata_for_names`
unfoldable pub get_recipe_metadata_for_names :
    Dict Text Metadata → List Text → Result SelectionError (List Metadata)
unfolding get
get_recipe_metadata_for_names metadata_by_name [] = ok []
get_recipe_metadata_for_names metadata_by_name (name ∷ names) =
    and_then (get name metadata_by_name)
      λ m. and_then (get_recipe_metadata_for_names metadata_by_name names) λ ms. ok (m ∷ ms)

-- `get_printable_tags`, which sorts what `get_all_tags` puts into a set
unfoldable pub printable_tags : Metadata → List Text → List Text
unfolding contains
printable_tags m [] = []
printable_tags m (t ∷ tags) =
    let rest = printable_tags m tags in
    if contains t (codes "all" ∷ codes "default" ∷ m.name ∷ m.short_name ∷ [])
    then rest
    else t ∷ rest

unfoldable pub name_tags : List Metadata → List Text
name_tags [] = []
name_tags (m ∷ ms) = m.name ∷ m.short_name ∷ name_tags ms

unfoldable pub other_tags : List Text → List Metadata → List Text
unfolding printable_tags add_all
other_tags tags [] = add_all tags (codes "all" ∷ codes "default" ∷ [])
other_tags tags (m ∷ ms) = other_tags (add_all tags (printable_tags m m.tags)) ms

unfoldable pub negated : List Text → List Text
negated [] = []
negated (t ∷ tags) = (b'^' ∷ t) ∷ negated tags

unfoldable pub get_all_tags : List Metadata → List Text
unfolding name_tags other_tags negated
get_all_tags ms =
    name_tags ms ++ negated (name_tags ms) ++ other_tags [] ms ++ negated (other_tags [] ms)

kept_or_not : (c : Text) (m : Metadata) → is_kept [] (c ∷ []) m ≡ not (is_kept (c ∷ []) [] m)
unfolding is_kept contains
kept_or_not c m = ground arith

keep_recipes-length :
    (c : Text) (ms : List Metadata)
    → length (keep_recipes (c ∷ []) [] ms) + length (keep_recipes [] (c ∷ []) ms) ≡ length ms
unfolding keep_recipes
keep_recipes-length c [] = refl
keep_recipes-length c (m ∷ ms) = elim (Bool-cases (is_kept (c ∷ []) [] m)) [
  | inl k ↦ rw (kept_or_not c m, k) (ground (arith, keep_recipes-length c ms))
  | inr k ↦ rw (kept_or_not c m, k) (ground (arith, keep_recipes-length c ms))
]

-- The filter of a category and its negation split the recipes: there are as many recipes as both
-- find together. It is for a category that does not begin with `^`.
pub get_recipe_metadata-split :
    (c : Text) (ms : List Metadata)
    → is_negative c ≡ false
    → length (get_recipe_metadata ms (c ∷ [])) + length (get_recipe_metadata ms ((b'^' ∷ c) ∷ []))
      ≡ length ms
unfolding get_recipe_metadata included excluded is_negative
get_recipe_metadata-split [] ms h = keep_recipes-length [] ms
get_recipe_metadata-split (d ∷ c) ms h = rw h (keep_recipes-length (d ∷ c) ms)
