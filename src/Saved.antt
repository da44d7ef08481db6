-- ===== src/Saved.antt =====
-- Saved results of a benchmark: src/lib/run/result_loader.py, `has_valid_saved_recipe` and
-- `read_saved_recipe_artifacts`.
use asct.Prelude.{
  ◌≡◌, ◌∙◌, refl, ap, Bool, true, false, not, ◌&&◌, Option, none, some, List, [], ◌∷◌, Result, ok,
  err, and_then, if◌then◌else◌, ◌==◌, Bool-cases, Option-cases, inl, inr,
}
use asct.Text.{Text, text_key, text_beq_iff, codes, strip}

-- A file that is there; reading it may fail.
abbrev pub File : Type 0
File = Option (Option Text)

-- The files in the raw directory of a recipe; `none` stands for one that is not there.
pub record Directory : Type 0 where
  pub data_json : File
  pub summary_json : File
  pub metadata_json : File
  pub hash : File

abbrev pub is_file : File → Bool
is_file none = false
is_file (some text) = true

-- The names and contents of the files that are there; `none` is an OSError.
unfoldable pub payloads : List (Text × File) → Option (List (Text × Text))
payloads [] = some []
payloads ((name, none) ∷ files) = payloads files
payloads ((name, some none) ∷ files) = none
payloads ((name, some (some content)) ∷ files) = elim (payloads files) [
  | none ↦ none
  | some l ↦ some ((name, content) ∷ l)
]

abbrev pub result_files : Directory → List (Text × File)
result_files d =
    (codes "data.json", d.data_json)
    ∷ (codes "summary.json", d.summary_json)
    ∷ (codes "metadata.json", d.metadata_json)
    ∷ []

same_digest : Text → File → Bool
unfolding strip
same_digest digest none = false
same_digest digest (some none) = false
same_digest digest (some (some expected)) = digest == strip expected

-- `hash_saved_recipe_files` is the parameter `digest_of`; `none` is an exception that is caught.
module _ (digest_of : List (Text × Text) → Option Text) where
  -- The comparison of the digest of the files that were read with the hash file.
  matches : Option (List (Text × Text)) → File → Bool
  unfolding same_digest
  matches none hash = false
  matches (some files) hash = elim (digest_of files) [
    | none ↦ false
    | some digest ↦ same_digest digest hash
  ]

  unfoldable pub has_valid_saved_recipe : Directory → Bool
  unfolding payloads matches
  has_valid_saved_recipe d =
      if is_file d.data_json && is_file d.hash
      then matches (payloads (result_files d)) d.hash
      else false

  Matched : Option (List (Text × Text)) → File → Type 0
  Matched read hash =
      (files : List (Text × Text)) × (expected : Text) × (read ≡ some files)
      × (hash ≡ some (some expected))
      × (digest_of files ≡ some (strip expected))

  matches-Matched :
      (read : Option (List (Text × Text))) (hash : File)
      → matches read hash ≡ true
      → Matched read hash
  unfolding matches same_digest Matched
  matches-Matched none hash h = cc h
  matches-Matched (some files) hash h = elim (Option-cases (digest_of files)) [
    | inl e ↦ cc (rw (e, matches) at h)
    | inr (digest, e) ↦ from_hash digest e hash (rw (e, matches) at h)
  ]
    where
      from_hash :
          (digest : Text)
          → digest_of files ≡ some digest
          → (hash : File) → same_digest digest hash ≡ true
          → Matched (some files) hash
      from_hash digest e none k = cc k
      from_hash digest e (some none) k = cc k
      from_hash digest e (some (some expected)) k =
          (files, expected, refl, refl, e ∙ ap some ((text_beq_iff digest (strip expected)).0 k))

  -- Results are valid only if the data are there, every result file that is there can be read, and
  -- the digest of exactly these files is the text of the hash file without the blanks around it.
  pub has_valid_saved_recipe-digest :
      (d : Directory)
      → has_valid_saved_recipe d ≡ true
      → (is_file d.data_json ≡ true)
        × ((files : List (Text × Text)) × (expected : Text) × (payloads (result_files d)
              ≡ some files)
            × (d.hash ≡ some (some expected))
            × (digest_of files ≡ some (strip expected)))
  unfolding has_valid_saved_recipe Matched
  has_valid_saved_recipe-digest d h = elim (Bool-cases (is_file d.data_json)) [
    | inr k ↦ cc (rw (k, has_valid_saved_recipe) at h)
    | inl k ↦ elim (Bool-cases (is_file d.hash)) [
      | inr m ↦ cc (rw (k, m, has_valid_saved_recipe) at h)
      | inl m ↦ (
        k,
        matches-Matched (payloads (result_files d)) d.hash (rw (k, m, has_valid_saved_recipe) at h),
      )
    ]
  ]

-- What `read_json_file` makes of a file.
abbrev pub Parsed : Type 0 → Type 0
Parsed J = Option (Option J)

pub data LoadError : Type 0 where
  runtime_error type_error : LoadError

pub record Artifacts (J : Type 0) : Type 0 where
  pub raw_result : Option J
  pub metadata : Option J
  pub summary : Option J

module _ {J : Type 0} (is_object : J → Bool) where
  -- The value of a file that is there must be read.
  unfoldable pub loaded : Parsed J → Result LoadError (Option J)
  loaded none = ok none
  loaded (some none) = err runtime_error
  loaded (some (some v)) = ok (some v)

  abbrev pub is_missing : Option J → Bool
  is_missing none = true
  is_missing (some v) = false

  abbrev object_or_none : Option J → Bool
  object_or_none none = true
  object_or_none (some v) = is_object v

  -- The arguments are `require_hash`, whether the results are valid, and the three files.
  unfoldable pub read_saved_recipe_artifacts :
      Bool → Bool → Parsed J → Parsed J → Parsed J → Result LoadError (Artifacts J)
  unfolding loaded
  read_saved_recipe_artifacts require_hash valid data_file metadata_file summary_file =
      if require_hash && not valid
      then err runtime_error
      else and_then (loaded data_file) (λ raw. and_then (loaded metadata_file) (λ meta.
        and_then (loaded summary_file) (λ sum.
          if is_missing raw && is_missing meta && is_missing sum
          then err runtime_error
          else if object_or_none meta
          then ok (record { raw_result = raw; metadata = meta; summary = sum })
          else err type_error)))
