-- ===== src/Recipes/Tests.antt =====
-- A benchmark that depends on another one.
use asct.Prelude.{false, ◌≡◌, refl, true, List, [], ◌∷◌, ok, some}
use asct.Text.{Text, codes, text_key, text_beq}
use asct.Dict.{lookup, contains}
use asct.Recipes.{Metadata, Filtered, by_name}
use asct.Recipes.Selection.{get_filtered_recipes}
use asct.Recipes.Categories.{is_negative}
use asct.Recipes.Closure.{get_filtered_recipes-closed}

abbrev bandwidth : Metadata
bandwidth = record {
  name = codes "bw";
  short_name = codes "bw";
  tags = codes "bw" ∷ codes "memory" ∷ [];
  category = codes "memory";
  depends_on = codes "lat" ∷ [];
}

abbrev latency : Metadata
latency = record {
  name = codes "lat";
  short_name = codes "lat";
  tags = codes "lat" ∷ codes "slow" ∷ [];
  category = codes "memory";
  depends_on = [];
}

abbrev all_recipes : List Metadata
all_recipes = bandwidth ∷ latency ∷ []

abbrev words : List Text
words = codes "memory" ∷ codes "^fast" ∷ []

abbrev chosen : Filtered
chosen = record {
  positive_filter = codes "memory" ∷ [];
  negative_filter = codes "fast" ∷ [];
  filtered_list = codes "bw" ∷ [];
  complete_list = codes "bw" ∷ codes "lat" ∷ [];
  filtered_in = codes "bw" ∷ [];
  filtered_out = [];
  filtered_out_depends = [];
  added_dependencies = (codes "lat", codes "bw" ∷ []) ∷ [];
  cached_dependencies = [];
}

found : get_filtered_recipes all_recipes all_recipes words true ≡ ok chosen
unfolding get_filtered_recipes text_beq
found = refl

has_bandwidth : contains (codes "bw") chosen.filtered_list ≡ true
unfolding contains text_beq
has_bandwidth = refl

known : lookup (codes "bw") (by_name [] all_recipes) ≡ some bandwidth
unfolding lookup by_name text_beq
known = refl

depends : contains (codes "lat") bandwidth.depends_on ≡ true
unfolding contains text_beq
depends = refl

get_filtered_recipes-closed_example : contains (codes "lat") chosen.complete_list ≡ true
get_filtered_recipes-closed_example =
    get_filtered_recipes-closed all_recipes all_recipes words chosen (codes "bw") (codes "lat")
      bandwidth found has_bandwidth known depends

plain_category : is_negative (codes "memory") ≡ false
unfolding is_negative
plain_category = refl
