-- ===== src/Resume/Tests.antt =====
-- A manifest of a run of two benchmarks, of which one has valid results.
use asct.Prelude.{◌≡◌, refl, Bool, true, false, some, List, [], ◌∷◌, Result, ok, ◌==◌}
use asct.Text.{Text, text_key, text_beq, codes}
use asct.Dict.{Dict, lookup}
use asct.Trees.{Entries, leaf, dict, list, end, entry, nil, cons}
use asct.Resume.{Json, Scalar, flag, string, ManifestError, Argument, word, words}
use asct.Resume.Manifest.{get_resume_run_state, load_asct_run_args}

abbrev json_text : Text → Json
json_text s = leaf (string s)

abbrev given : Entries Scalar
given =
    entry (codes "benchmarks")
      (list (cons (json_text (codes "bw")) (cons (json_text (codes "lat")) nil)))
      (entry (codes "format") (json_text (codes "CSV")) end)

abbrev file : Json
file = dict (
    entry (codes "metadata")
      (dict (
        entry (codes "version") (json_text (codes "0.7.0")) (
          entry (codes "is_sudo") (leaf (flag false))
            (entry (codes "cmd_arguments") (dict given) end))))
      end)

abbrev supported : Json → Result ManifestError Bool
supported v = ok true

abbrev valid : Text → Bool
valid name = name == codes "bw"

abbrev requested : List Text
requested = codes "bw" ∷ codes "lat" ∷ []

state :
    get_resume_run_state supported false valid (some file) ≡ ok (requested, end, codes "lat" ∷ [])
unfolding get_resume_run_state text_beq
state = refl

abbrev args : Dict Text Argument
args = (codes "format", word (codes "json")) ∷ []

abbrev loaded_args : Dict Text Argument
loaded_args =
    (codes "format", word (codes "json"))
    ∷ (codes "benchmarks", words requested)
    ∷ (codes "output_dir", word (codes "d"))
    ∷ (codes "output_dir_path", word (codes "d"))
    ∷ []

read_args : load_asct_run_args supported false true (some file) (codes "d") args ≡ ok loaded_args
unfolding load_asct_run_args text_beq
read_args = refl

format_given : lookup (codes "format") args ≡ some (word (codes "json"))
unfolding lookup text_beq
format_given = refl
