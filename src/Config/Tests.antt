-- ===== src/Config/Tests.antt =====
-- Settings as a user writes them.
use asct.Prelude.{
  ℕ, ◌≡◌, refl, ◌+◌, ◌*◌, true, Option, none, some, List, [], ◌∷◌, ok, leb, if◌then◌else◌, arith,
  get_elem?, pos, ℤ, ◌+ℤ◌,
}
use asct.Text.{codes}
use asct.Config.{Options, Setting, one, text, num_list_conv, read_setting, expand_range}
use asct.Config.Ranges.{expand_range-Steps}
use asct.Config.Lists.{InBounds, AgreeInBounds, num_list_conv-InBounds}

expand_range-Steps_example :
    (l : List ℤ) × (expand_range (pos 2) (pos 11) (pos 3) ≡ ok l)
    × ((i : ℕ) → get_elem? l i ≡ (if leb (2 + i * 3) 11 then some (pos (2 + i * 3)) else none))
expand_range-Steps_example = expand_range-Steps 2 11 3 (omega arith)

abbrev cores : Options
cores = record {
  accept_ranges = true;
  unique_items = true;
  min_value = some (pos 1);
  max_value = some (pos 8);
  optional_items = true;
}

abbrev value : Setting
value = one (text (codes "0-9:3, none,3 , 7"))

abbrev result : List (Option ℤ)
result = some (pos 3) ∷ some (pos 6) ∷ none ∷ some (pos 7) ∷ []

converted : num_list_conv cores value ≡ ok result
unfolding num_list_conv ◌+ℤ◌
converted = refl

num_list_conv-InBounds_example :
    (raw : List (Option ℤ)) × (read_setting cores.accept_ranges cores.optional_items value ≡ ok raw)
    × InBounds cores result
    × AgreeInBounds cores result raw
num_list_conv-InBounds_example = num_list_conv-InBounds cores value result converted
