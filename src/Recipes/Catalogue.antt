-- ===== src/Recipes/Catalogue.antt =====
-- The catalogue of recipes: src/core/recipes/configuration/metadata.py, `RecipeMetadata`,
-- `create_category`, `create_metadata` and the table ASCT_RECIPE_METADATA, without descriptions and
-- settings. Whether the register dumper and the system registers are there is given.
pub mod Table
pub mod Created
pub mod Closed
mod Tests
use asct.Prelude.{
  Bool, true, false, Option, none, some, List, [], ◌∷◌, ◌++◌, Result, ok, err, and_then,
  if◌then◌else◌, map,
}
use asct.Text.{Text, text_key, codes}
use asct.Dict.{contains}
use asct.Recipes.{add}
use asct.Recipes.Selection.{add_all}

pub record Entry : Type 0 where
  pub name : Text
  pub short_name : Text
  pub recipe_name : Text
  pub tags : List Text
  pub category : Option Text
  pub depends_on : List Text
  pub visible : Bool

pub data MetadataError : Type 0 where
  assertion_error : MetadataError

-- `__post_init__` adds the names and the tag for all.
unfoldable pub new_entry : Text → Text → Text → List Text → List Text → Bool → Entry
unfolding add_all
new_entry name short_name recipe_name tags depends_on visible = record {
  name = name;
  short_name = short_name;
  recipe_name = recipe_name;
  tags = add_all tags (name ∷ short_name ∷ codes "all" ∷ []);
  category = none;
  depends_on = depends_on;
  visible = visible;
}

unfoldable pub set_default : Entry → Entry
unfolding add
set_default r = record r { tags = add (codes "default") r.tags }

unfoldable pub set_category : Text → Entry → Entry
unfolding add
set_category category r = record r { tags = add category r.tags; category = some category }

unfoldable pub create_category : Text → List Entry → List Entry
unfolding set_category
create_category name recipes = map (set_category name) recipes

pub record Seen : Type 0 where
  pub names : List Text
  pub short_names : List Text
  pub recipe_names : List Text

unfoldable pub note_entry : Seen → Entry → Seen
unfolding add
note_entry s r = record {
  names = add r.name s.names;
  short_names = add r.short_name s.short_names;
  recipe_names = add r.recipe_name s.recipe_names;
}

abbrev pub prepend : Entry → List Entry × Seen → Result MetadataError (List Entry × Seen)
prepend r found = ok (r ∷ found.0, found.1)

-- The three checks, then the rest of the loop.
abbrev pub admit :
    Seen
    → Entry
    → Result MetadataError (List Entry × Seen)
    → Result MetadataError (List Entry × Seen)
admit s r rest =
    if contains r.name s.names
    then err assertion_error
    else if contains r.short_name s.short_names
    then err assertion_error
    else if contains r.recipe_name s.recipe_names
    then err assertion_error
    else and_then rest (prepend r)

-- The inner loop, which gives the visible recipes and the names seen so far.
unfoldable pub visible_metadata : Seen → List Entry → Result MetadataError (List Entry × Seen)
unfolding contains note_entry
visible_metadata s [] = ok ([], s)
visible_metadata s (r ∷ rs) =
    let skipped = visible_metadata s rs in
    let added = admit s r (visible_metadata (note_entry s r) rs) in
    if r.visible then added else skipped

unfoldable pub all_metadata : Seen → List (List Entry) → Result MetadataError (List Entry)
unfolding visible_metadata
all_metadata s [] = ok []
all_metadata s (metadata_list ∷ lists) =
    and_then (visible_metadata s metadata_list)
      λ found. and_then (all_metadata found.1 lists) λ metadata. ok (found.0 ++ metadata)

-- `create_metadata`
unfoldable pub create_metadata : List (List Entry) → Result MetadataError (List Entry)
unfolding all_metadata
create_metadata = all_metadata (record { names = []; short_names = []; recipe_names = [] })
