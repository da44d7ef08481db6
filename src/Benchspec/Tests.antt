-- ===== src/Benchspec/Tests.antt =====
-- A thousand bytes of data with cache lines of 64 bytes, in quick mode.
use asct.Prelude.{ℕ, ◌/◌, ◌≡◌, refl, true, some, [], ◌∷◌, ok, err, Option, Result, arith}
use asct.Text.{Text, text_key, text_beq}
use asct.Dict.{lookup}
use asct.Benchspec.{
  Amount, Config, ConfigError, Scaling, whole, type_error, cache_line_size, data_size, orig,
  set_value,
}
use asct.Benchspec.Sizes.{Adjusted, set_value-Adjusted}

abbrev no_amount : Amount Text → Result ConfigError (Amount Text)
no_amount v = err type_error

abbrev no_size : Option (Amount Text) → Amount Text → Result ConfigError (Amount Text)
no_size line v = err type_error

abbrev scaling : Scaling Text
scaling = record {
  thousandth = λ n. n / 1000;
  tenth = λ n. n / 10;
  other_count = no_amount;
  short_duration = no_amount;
  other_size = no_size;
}

abbrev start : Config Text
start = (cache_line_size, whole 64) ∷ []

set_value-Adjusted_example :
    (c : Config Text) × (set_value scaling true data_size (whole 1000) start ≡ ok c)
    × (lookup (orig data_size) c ≡ some (whole 1000))
    × ((size : ℕ) × (lookup data_size c ≡ some (whole size)) × Adjusted true 64 1000 size)
set_value-Adjusted_example =
    set_value-Adjusted scaling true start 63 1000 (λ k. omega arith)
      (unfold lookup text_beq in refl)
