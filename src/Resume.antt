-- ===== src/Resume.antt =====
-- Resuming a run: src/core/cmd/resume.py, the manifest of the earlier run and what it decides.
-- Files, JSON, `packaging.version` and the user's privileges are parameters.
pub mod Manifest
pub mod Arguments
mod Tests
use asct.Prelude.{
  ℤ, Bool, true, false, not, Option, none, some, List, [], ◌∷◌, Result, ok, err, and_then,
  if◌then◌else◌, ◌==◌,
}
use asct.Text.{Text, text_key, codes, lower}
use asct.Dict.{Dict, lookup, insert}
use asct.Trees.{Value, Entries, Items, leaf, dict, list, end, nil, cons, find}

-- A JSON value that is no array and no object.
pub data Scalar : Type 0 where
  null : Scalar
  flag : Bool → Scalar
  number : ℤ → Scalar
  string : Text → Scalar

abbrev pub Json : Type 0
Json = Value Scalar

pub data ManifestError : Type 0 where
  type_error runtime_error : ManifestError

-- The value of an argument of the command line.
pub data Argument : Type 0 where
  absent : Argument
  switch : Bool → Argument
  word : Text → Argument
  words : List Text → Argument

-- `_parse_manifest_bool`; its ValueError becomes a RuntimeError in the only caller.
unfoldable pub parse_manifest_bool : Text → Result ManifestError Argument
parse_manifest_bool value =
    if value == codes "True"
    then ok (switch true)
    else if value == codes "False"
    then ok (switch false)
    else err runtime_error

-- `_parse_manifest_benchmarks`
unfoldable pub parse_names : Items Scalar → Result ManifestError (List Text)
parse_names nil = ok []
parse_names (cons (leaf (string s)) l) = and_then (parse_names l) (λ names. ok (s ∷ names))
parse_names (cons (leaf null) l) = err type_error
parse_names (cons (leaf (flag b)) l) = err type_error
parse_names (cons (leaf (number n)) l) = err type_error
parse_names (cons (dict d) l) = err type_error
parse_names (cons (list k) l) = err type_error

unfoldable pub parse_manifest_benchmarks : Json → Result ManifestError Argument
unfolding parse_names
parse_manifest_benchmarks (leaf s) = err type_error
parse_manifest_benchmarks (dict d) = err type_error
parse_manifest_benchmarks (list l) = and_then (parse_names l) (λ names. ok (words names))

pub data Parser : Type 0 where
  plain log_file lower_case boolean : Parser

-- MANIFEST_CMD_ARGUMENT_PARSERS
abbrev pub parsers : Dict Text Parser
parsers =
    (codes "log_level", plain)
    ∷ (codes "log_level_console", plain)
    ∷ (codes "log_level_file", plain)
    ∷ (codes "log_file", log_file)
    ∷ (codes "format", lower_case)
    ∷ (codes "quiet", boolean)
    ∷ (codes "no_cache", boolean)
    ∷ (codes "clear_cache", boolean)
    ∷ (codes "verbose", boolean)
    ∷ (codes "no_progress_bar", boolean)
    ∷ (codes "dev_mode", boolean)
    ∷ (codes "quick_mode", boolean)
    ∷ []

unfoldable pub parse : Parser → Text → Result ManifestError Argument
unfolding parse_manifest_bool lower
parse plain value = ok (word value)
parse log_file value = ok (if value == codes "None" then absent else word value)
parse lower_case value = ok (word (lower value))
parse boolean value = parse_manifest_bool value

-- `d.get(name)`, where null is None
unfoldable pub get_value : Text → Entries Scalar → Option Json
unfolding find
get_value name d = elim (find name d) [ none ↦ none | some v ↦ given v ]
  where
    scalar : Scalar → Option Json
    scalar null = none
    scalar (flag b) = some (leaf (flag b))
    scalar (number n) = some (leaf (number n))
    scalar (string s) = some (leaf (string s))

    given : Json → Option Json
    given (leaf s) = scalar s
    given (dict d) = some (dict d)
    given (list l) = some (list l)

parse_string : Parser → Json → Result ManifestError Argument
unfolding parse
parse_string p (leaf (string s)) = parse p s
parse_string p (leaf null) = err type_error
parse_string p (leaf (flag b)) = err type_error
parse_string p (leaf (number n)) = err type_error
parse_string p (dict d) = err type_error
parse_string p (list l) = err type_error

-- The loop of `_parse_manifest_cmd_arguments`.
unfoldable pub parse_all :
    Dict Text Parser
    → Entries Scalar
    → Dict Text Argument
    → Result ManifestError (Dict Text Argument)
unfolding parse_string get_value insert
parse_all [] arguments parsed = ok parsed
parse_all ((name, p) ∷ ps) arguments parsed = elim (get_value name arguments) [
  | none ↦ parse_all ps arguments parsed
  | some v ↦ and_then (parse_string p v) (λ a. parse_all ps arguments (insert name a parsed))
]

unfoldable pub parse_manifest_cmd_arguments : Json → Result ManifestError (Dict Text Argument)
unfolding parse_all parse_manifest_benchmarks get_value
parse_manifest_cmd_arguments (leaf s) = err type_error
parse_manifest_cmd_arguments (list l) = err type_error
parse_manifest_cmd_arguments (dict d) =
    and_then
      (elim (get_value (codes "benchmarks") d) [
        | none ↦ ok []
        | some v ↦ and_then (parse_manifest_benchmarks v) (λ a. ok ((codes "benchmarks", a) ∷ []))
      ])
      (parse_all parsers d)
