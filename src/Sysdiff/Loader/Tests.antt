-- ===== src/Sysdiff/Loader/Tests.antt =====
-- A run with raw data of one recipe and a summary of another one, which is excluded.
use asct.Prelude.{
  Bool, true, false, not, ◌&&◌, ◌||◌, ◌≡◌, refl, Option, none, some, [], ◌∷◌, Result, ok, err, ◌==◌,
}
use asct.Text.{Text, codes, text_key, text_beq}
use asct.Dict.{Dict, keys, contains}
use asct.Trees.{Value, Entries, leaf, dict, end, entry}
use asct.Sysdiff.Adapters.{AdapterError, type_error, Objects, current}
use asct.Sysdiff.Loader.{Loaded, flat, Parsers}
use asct.Sysdiff.Loader.Recipes.{Gathered, load_recipes}
use asct.Sysdiff.Loader.Selected.{is_known, is_nil, load_recipes-names}

abbrev as_text : Value Text → Text
as_text (leaf s) = s
as_text v = []

abbrev is_true : Value Text → Bool
is_true (leaf []) = false
is_true (dict end) = false
is_true v = true

abbrev never : Value Text → Bool
never v = false

abbrev always : Text → Bool
always s = true

abbrev objects : Objects Text
objects = record {
  none_value = [];
  str = as_text;
  is_true = is_true;
  is_none = never;
  is_iterable = always;
}

abbrev unparsed : Text → Option (Value Text)
unparsed s = none

abbrev no_dict : Value Text → Result AdapterError (Entries Text)
no_dict v = err type_error

abbrev summary_of : Text → Value Text → Entries Text
summary_of name (dict d) = d
summary_of name v = end

abbrev plain_parsers : Parsers Text
plain_parsers = record {
  loads = unparsed;
  literal_eval = unparsed;
  text_of = λ s. some s;
  to_dict = no_dict;
  generate = summary_of;
}

abbrev gathered : Gathered Text
gathered = record {
  raw_data = (codes "c2c", dict (entry (codes "ns") (leaf (codes "70")) end)) ∷ [];
  summary_data = (codes "sysinfo", flat []) ∷ [];
}

abbrev metadata : Entries Text
metadata = entry (codes "version") (leaf (codes "0.6.0")) end

abbrev loaded_run : Dict Text (Loaded Text)
loaded_run =
    (codes "metadata", flat ((codes "version", leaf (codes "0.6.0")) ∷ []))
    ∷ (codes "c2c", flat ((codes "ns", leaf (codes "70")) ∷ []))
    ∷ []

is_loaded :
    load_recipes objects plain_parsers current metadata end [] (codes "sysinfo" ∷ []) gathered
    ≡ ok loaded_run
unfolding load_recipes contains text_beq
is_loaded = refl

load_recipes-names_example : contains (codes "c2c") (keys loaded_run) ≡ (
    (is_known gathered (codes "c2c")
      && ((is_nil [] || contains (codes "c2c") [])
          && not (contains (codes "c2c") (codes "sysinfo" ∷ []))))
    || codes "metadata" == codes "c2c")
load_recipes-names_example =
    load_recipes-names objects plain_parsers current metadata end [] (codes "sysinfo" ∷ []) gathered
      (codes "c2c") is_loaded
