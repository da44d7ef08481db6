-- ===== src/Resume/Manifest.antt =====
-- Reading the manifest and resuming from it: src/core/cmd/resume.py.
use asct.Prelude.{
  Bool, true, false, Option, none, some, List, [], ◌∷◌, Result, ok, err, and_then, if◌then◌else◌,
  ◌==◌,
}
use asct.Text.{Text, text_key, codes}
use asct.Dict.{Dict, lookup, insert}
use asct.Trees.{Entries, leaf, dict, list, end, find}
use asct.Resume.{
  Json, Scalar, null, flag, number, string, ManifestError, type_error, runtime_error, Argument,
  absent, switch, word, words, get_value, parse_manifest_cmd_arguments,
}

pub record ManifestData : Type 0 where
  pub manifest : Entries Scalar
  pub metadata : Entries Scalar
  pub cmd_arguments : Dict Text Argument
  pub user_config : Entries Scalar

abbrev object : Json → Result ManifestError (Entries Scalar)
object (dict d) = ok d
object (leaf s) = err type_error
object (list l) = err type_error

-- `d.get(name, {})`, which must be an object
unfoldable pub subobject : Text → Entries Scalar → Result ManifestError (Entries Scalar)
unfolding find
subobject name d = elim (find name d) [ none ↦ ok end | some v ↦ object v ]

-- `_read_manifest`; the file is `none` where `read_json_file` returns None
unfoldable pub read_manifest : Option Json → Result ManifestError (Entries Scalar)
read_manifest none = err runtime_error
read_manifest (some (leaf s)) = err type_error
read_manifest (some (list l)) = err type_error
read_manifest (some (dict d)) = ok d

unfoldable pub read_manifest_data : Option Json → Result ManifestError ManifestData
unfolding read_manifest subobject parse_manifest_cmd_arguments find
read_manifest_data file = and_then (read_manifest file) λ manifest.
    and_then (subobject (codes "metadata") manifest) λ metadata.
      and_then (subobject (codes "user_config") metadata) λ user_config.
        and_then
          (elim (find (codes "cmd_arguments") metadata) [
            | none ↦ parse_manifest_cmd_arguments (dict end)
            | some v ↦ parse_manifest_cmd_arguments v
          ])
          λ arguments. ok (record {
            manifest = manifest;
            metadata = metadata;
            cmd_arguments = arguments;
            user_config = user_config;
          })

-- The value at a name of an object, if it is one.
inner : Text → Option Json → Option Json
unfolding get_value
inner name none = none
inner name (some (leaf s)) = none
inner name (some (list l)) = none
inner name (some (dict d)) = get_value name d

first : Option Json → Option Json → Option Json
first none other = other
first (some v) other = some v

-- `_get_manifest_version`
unfoldable pub get_manifest_version : Entries Scalar → Entries Scalar → Result ManifestError Json
unfolding inner first get_value
get_manifest_version manifest metadata =
    let diff = get_value (codes "diff") manifest in
    elim (first (get_value (codes "version") metadata) (
      first (inner (codes "metadata.version") diff)
        (inner (codes "version") (inner (codes "metadata") diff)))) [
          | none ↦ err type_error
          | some version ↦ ok version
        ]

abbrev boolean_at : Option Json → Result ManifestError Bool
boolean_at none = err type_error
boolean_at (some (leaf (flag b))) = ok b
boolean_at (some (leaf null)) = err type_error
boolean_at (some (leaf (number n))) = err type_error
boolean_at (some (leaf (string s))) = err type_error
boolean_at (some (dict d)) = err type_error
boolean_at (some (list l)) = err type_error

abbrev requested_of : Option Argument → Result ManifestError (List Text)
requested_of (some (words [])) = err runtime_error
requested_of (some (words (n ∷ ns))) = ok (n ∷ ns)
requested_of (some absent) = err type_error
requested_of (some (switch b)) = err type_error
requested_of (some (word s)) = err type_error
requested_of none = err type_error

pub record RunManifest : Type 0 where
  pub requested_benchmarks : List Text
  pub config : Entries Scalar
  pub arguments : Dict Text Argument
  pub is_sudo : Bool

-- `_verify_resume_manifest_sudo_status`
unfoldable pub verify_sudo_status : Bool → Bool → Result ManifestError (Unit {0})
verify_sudo_status true true = ok tt
verify_sudo_status false false = ok tt
verify_sudo_status true false = err runtime_error
verify_sudo_status false true = err runtime_error

unfoldable pub not_saved : (Text → Bool) → List Text → List Text
not_saved has_valid_saved_recipe [] = []
not_saved has_valid_saved_recipe (name ∷ names) =
    let rest = not_saved has_valid_saved_recipe names in
    if has_valid_saved_recipe name then rest else name ∷ rest

-- `supported` compares a version with MIN_RESUME_VERSION, and may raise.
module _ (supported : Json → Result ManifestError Bool) where
  unfoldable pub read_run_manifest : Option Json → Result ManifestError RunManifest
  unfolding read_manifest_data get_manifest_version find lookup
  read_run_manifest file = and_then (read_manifest_data file) λ data_.
      and_then (get_manifest_version data_.manifest data_.metadata) λ version.
        and_then (supported version) λ recent.
          if recent
          then and_then (boolean_at (find (codes "is_sudo") data_.metadata)) (λ sudo.
            and_then (requested_of (lookup (codes "benchmarks") data_.cmd_arguments)) (λ requested.
              ok (record {
                requested_benchmarks = requested;
                config = data_.user_config;
                arguments = data_.cmd_arguments;
                is_sudo = sudo;
              })))
          else err runtime_error

  -- `_get_resume_run_state`: what was requested, its settings, and what is left to run
  unfoldable pub get_resume_run_state :
      Bool
      → (Text → Bool)
      → Option Json
      → Result ManifestError (List Text × Entries Scalar × List Text)
  unfolding read_run_manifest verify_sudo_status not_saved
  get_resume_run_state current_is_sudo has_valid_saved_recipe file =
      and_then (read_run_manifest file) λ m.
        and_then (verify_sudo_status current_is_sudo m.is_sudo) λ u. ok (
          m.requested_benchmarks,
          m.config,
          not_saved has_valid_saved_recipe m.requested_benchmarks,
        )

-- `for name, value in manifest_args.items(): ...`
unfoldable pub set_arguments : Bool → Dict Text Argument → Dict Text Argument → Dict Text Argument
unfolding insert
set_arguments format_given [] args = args
set_arguments format_given ((name, value) ∷ manifest_args) args =
    let skipped = set_arguments format_given manifest_args args in
    let written = set_arguments format_given manifest_args (insert name value args) in
    if name == codes "format" then (if format_given then skipped else written) else written

-- The lines on `format` and the directories behind that loop.
unfoldable pub finish : Option Argument → Text → Dict Text Argument → Dict Text Argument
unfolding insert lookup
finish format_override run_dir args =
    let formatted : Dict Text Argument = elim format_override [
      | some f ↦ insert (codes "format") f args
      | none ↦ elim (lookup (codes "format") args) [
        | none ↦ insert (codes "format") (word (codes "stdout")) args
        | some f ↦ args
      ]
    ] in
    insert (codes "output_dir_path") (word run_dir)
      (insert (codes "output_dir") (word run_dir) formatted)

-- `load_asct_run_args`: the arguments are those beside `run_dir`, and `is_dir` says whether the
-- directory exists. An argument that is None is missing.
unfoldable pub load_asct_run_args :
    (Json → Result ManifestError Bool)
    → Bool
    → Bool
    → Option Json
    → Text
    → Dict Text Argument
    → Result ManifestError (Dict Text Argument)
unfolding read_run_manifest verify_sudo_status set_arguments finish lookup
load_asct_run_args supported current_is_sudo is_dir file [] args = err type_error
load_asct_run_args supported current_is_sudo is_dir file (c ∷ run_dir) args =
    if is_dir
    then and_then (read_run_manifest supported file) (λ m.
      and_then (verify_sudo_status current_is_sudo m.is_sudo) (λ u.
        let format_override = lookup (codes "format") args in
        let given : Bool = elim format_override [ none ↦ false | some f ↦ true ] in
        ok (finish format_override (c ∷ run_dir) (set_arguments given m.arguments args))))
    else err runtime_error
