-- ===== src/Resume/Arguments.antt =====
-- The arguments of a resumed run: src/core/cmd/resume.py,
-- `load_asct_run_args`.
use asct.Prelude.{
  ◌≡◌, ◌∙◌, refl, Bool, true, false, Option, some, [], ◌∷◌, Result, ok, and_then-eq-ok, ◌==◌,
  Bool-cases, inl, inr,
}
use asct.Text.{Text, text_key, text_beq, codes}
use asct.Dict.{Dict, lookup, insert}
use asct.Dict.Laws.{lookup-insert}
use asct.Resume.{Json, ManifestError, Argument, word}
use asct.Resume.Manifest.{
  read_run_manifest, verify_sudo_status, set_arguments, finish, load_asct_run_args,
}

set_arguments_format :
    (manifest_args args : Dict Text Argument)
    → lookup (codes "format") (set_arguments true manifest_args args) ≡ lookup (codes "format") args
unfolding set_arguments
set_arguments_format [] args = refl
set_arguments_format ((name, value) ∷ manifest_args) args =
    elim (Bool-cases (name == codes "format")) [
      | inl e ↦ rw e (set_arguments_format manifest_args args)
      | inr e ↦ rw e (
          set_arguments_format manifest_args (insert name value args)
          ∙ rw (lookup-insert name (codes "format") value args, e))
    ]

finish-format :
    (f : Argument) (dir : Text) (args : Dict Text Argument)
    → lookup (codes "format") (finish (some f) dir args) ≡ some f
unfolding finish text_beq
finish-format f dir args =
    rw
      (
        lookup-insert (codes "output_dir_path") (codes "format") (word dir)
            (insert (codes "output_dir") (word dir) (insert (codes "format") f args)),
        lookup-insert (codes "output_dir") (codes "format") (word dir)
            (insert (codes "format") f args),
        lookup-insert (codes "format") (codes "format") f args,
      )
      refl

-- A `format` given to the resume command is the format of the resumed run, whatever the manifest
-- says.
pub load_asct_run_args-format :
    (supported : Json → Result ManifestError Bool) (current_is_sudo is_dir : Bool)
    (file : Option Json) (run_dir : Text) (args args' : Dict Text Argument) (f : Argument)
    → load_asct_run_args supported current_is_sudo is_dir file run_dir args ≡ ok args'
    → lookup (codes "format") args ≡ some f
    → lookup (codes "format") args' ≡ some f
unfolding load_asct_run_args
load_asct_run_args-format supported sudo is_dir file [] args args' f h e = cc h
load_asct_run_args-format supported sudo false file (c ∷ dir) args args' f h e = cc h
load_asct_run_args-format supported sudo true file (c ∷ dir) args args' f h e =
    let (m, e1, k1) = and_then-eq-ok (read_run_manifest supported file) _ h in
    let (u, e2, k2) = and_then-eq-ok (verify_sudo_status sudo m.is_sudo) _ k1 in
    let done : finish (some f) (c ∷ dir) (set_arguments true m.arguments args) ≡ args' =
      cc (rw e at k2) in
    rw (← done) (finish-format f (c ∷ dir) (set_arguments true m.arguments args))
