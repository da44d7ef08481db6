-- ===== src/Recipes/Catalogue/Created.antt =====
-- What `create_metadata` of src/core/recipes/configuration/metadata.py accepts.
use asct.Prelude.{
  Bool, true, false, not, ◌&&◌, ◌≡◌, refl, ◌∙◌, List, [], ◌∷◌, ◌++◌, Result, ok, err, and_then,
  if◌then◌else◌, arith, Bool-cases, inl, inr, ap, sym,
}
use asct.Text.{Text, text_key, text_beq_iff}
use asct.Dict.{contains}
use asct.Recipes.{add}
use asct.Recipes.Sets.{contains-add}
use asct.Recipes.Catalogue.{
  Entry, Seen, MetadataError, assertion_error, note_entry, prepend, admit, visible_metadata,
  all_metadata, create_metadata,
}

-- The visible recipes of all lists, in order.
abbrev pub visible_only : List Entry → List Entry
visible_only [] = []
visible_only (r ∷ rs) = if r.visible then r ∷ visible_only rs else visible_only rs

abbrev pub visible_recipes : List (List Entry) → List Entry
visible_recipes [] = []
visible_recipes (rs ∷ lists) = visible_only rs ++ visible_recipes lists

abbrev pub names : List Entry → List Text
names [] = []
names (r ∷ rs) = r.name ∷ names rs

abbrev pub short_names : List Entry → List Text
short_names [] = []
short_names (r ∷ rs) = r.short_name ∷ short_names rs

abbrev pub recipe_names : List Entry → List Text
recipe_names [] = []
recipe_names (r ∷ rs) = r.recipe_name ∷ recipe_names rs

-- No text stands there twice.
unfoldable pub no_repeats : List Text → Bool
unfolding contains
no_repeats [] = true
no_repeats (x ∷ xs) = not (contains x xs) && no_repeats xs

-- No text of the list was seen.
none_in : List Text → List Text → Bool
unfolding contains
none_in s [] = true
none_in s (x ∷ xs) = not (contains x s) && none_in s xs

abbrev are_new : List Text → List Text → Bool
are_new s xs = none_in s xs && no_repeats xs

none_in-add :
    (x : Text) (s xs : List Text) → none_in (add x s) xs ≡ (not (contains x xs) && none_in s xs)
unfolding none_in
none_in-add x s [] = unfold contains in refl
none_in-add x s (y ∷ xs) =
    unfold contains in
    ground (arith, contains-add y x s, none_in-add x s xs, text_beq_iff x y, text_beq_iff y x)

are_new-cons :
    (x : Text) (s xs : List Text)
    → are_new s (x ∷ xs) ≡ (not (contains x s) && are_new (add x s) xs)
are_new-cons x s xs = unfold none_in no_repeats in ground (arith, none_in-add x s xs)

abbrev all_new : Seen → List Entry → Bool
all_new s rs =
    are_new s.names (names rs)
    && (are_new s.short_names (short_names rs) && are_new s.recipe_names (recipe_names rs))

all_new-cons :
    (s : Seen) (r : Entry) (rs : List Entry)
    → all_new s (r ∷ rs) ≡ (
        not (contains r.name s.names)
        && (not (contains r.short_name s.short_names)
            && (not (contains r.recipe_name s.recipe_names) && all_new (note_entry s r) rs)))
all_new-cons s r rs =
    unfold note_entry in
    ground (
      arith,
      are_new-cons r.name s.names (names rs),
      are_new-cons r.short_name s.short_names (short_names rs),
      are_new-cons r.recipe_name s.recipe_names (recipe_names rs),
    )

abbrev note_all : Seen → List Entry → Seen
note_all s [] = s
note_all s (r ∷ rs) = note_all (note_entry s r) rs

all_new-nil : (s : Seen) → all_new s [] ≡ true
unfolding none_in no_repeats
all_new-nil s = refl

and_regroup : (a b c d e : Bool) → (a && (b && (c && (d && e)))) ≡ ((a && (b && (c && d))) && e)
and_regroup true true true d e = refl
and_regroup true true false d e = refl
and_regroup true false c d e = refl
and_regroup false b c d e = refl

all_new-append :
    (s : Seen) (rs qs : List Entry)
    → all_new s (rs ++ qs) ≡ (all_new s rs && all_new (note_all s rs) qs)
all_new-append s [] qs = unfold none_in no_repeats in refl
all_new-append s (r ∷ rs) qs =
    all_new-cons s r (rs ++ qs)
    ∙ rw (all_new-append (note_entry s r) rs qs) (
        rw (all_new-cons s r rs) (
          and_regroup (not (contains r.name s.names)) (not (contains r.short_name s.short_names))
            (not (contains r.recipe_name s.recipe_names)) (all_new (note_entry s r) rs)
            (all_new (note_all (note_entry s r) rs) qs)))

-- What a loop gives for the visible recipes that it meets.
abbrev outcome : Seen → List Entry → Result MetadataError (List Entry × Seen)
outcome s rs = if all_new s rs then ok (rs, note_all s rs) else err assertion_error

admit_cases :
    (a b c d : Bool) (r : Entry) (found : List Entry × Seen)
    → (if a
        then err assertion_error
        else if b
        then err assertion_error
        else if c
        then err assertion_error
        else and_then (if d then ok found else err assertion_error) (prepend r))
      ≡ (if not a && (not b && (not c && d)) then prepend r found else err assertion_error)
admit_cases true b c d r found = refl
admit_cases false true c d r found = refl
admit_cases false false true d r found = refl
admit_cases false false false true r found = refl
admit_cases false false false false r found = refl

outcome-cons :
    (s : Seen) (r : Entry) (rs : List Entry)
    → admit s r (outcome (note_entry s r) rs) ≡ outcome s (r ∷ rs)
outcome-cons s r rs = rw (all_new-cons s r rs) (
    admit_cases (contains r.name s.names) (contains r.short_name s.short_names)
      (contains r.recipe_name s.recipe_names) (all_new (note_entry s r) rs) r
      (rs, note_all (note_entry s r) rs))

if_true : {A : Type 0} (b : Bool) (x y : A) → b ≡ true → (if b then x else y) ≡ x
if_true b x y h = rw h refl

if_false : {A : Type 0} (b : Bool) (x y : A) → b ≡ false → (if b then x else y) ≡ y
if_false b x y h = rw h refl

visible_metadata-outcome :
    (s : Seen) (rs : List Entry) → visible_metadata s rs ≡ outcome s (visible_only rs)
unfolding visible_metadata
visible_metadata-outcome s [] = rw (all_new-nil s) refl
visible_metadata-outcome s (r ∷ rs) =
    let skipped = visible_metadata-outcome s rs in
    let added =
      ap (admit s r) (visible_metadata-outcome (note_entry s r) rs)
      ∙ outcome-cons s r (visible_only rs) in
    elim (Bool-cases r.visible) [
      | inr hidden ↦
          if_false r.visible _ _ hidden
          ∙ skipped
          ∙ ap (outcome s) (sym (if_false r.visible (r ∷ visible_only rs) (visible_only rs) hidden))
      | inl shown ↦
          if_true r.visible _ _ shown
          ∙ added
          ∙ ap (outcome s) (sym (if_true r.visible (r ∷ visible_only rs) (visible_only rs) shown))
    ]

all_metadata-outcome :
    (s : Seen) (lists : List (List Entry))
    → all_metadata s lists ≡ (
        if all_new s (visible_recipes lists)
        then ok (visible_recipes lists)
        else err assertion_error)
unfolding all_metadata
all_metadata-outcome s [] = rw (all_new-nil s) refl
all_metadata-outcome s (rs ∷ lists) =
    rw (visible_metadata-outcome s rs, all_new-append s (visible_only rs) (visible_recipes lists))
      (elim (Bool-cases (all_new s (visible_only rs))) [
        | inr old ↦ rw old refl
        | inl new ↦ rw new (
            rw (all_metadata-outcome (note_all s (visible_only rs)) lists)
              (elim (Bool-cases (all_new (note_all s (visible_only rs)) (visible_recipes lists))) [
                | inr old ↦ rw old refl
                | inl more ↦ rw more refl
              ]))
      ])

none_in-nil : (xs : List Text) → none_in [] xs ≡ true
unfolding none_in contains
none_in-nil [] = refl
none_in-nil (x ∷ xs) = none_in-nil xs

-- The names of three kinds differ from each other.
abbrev pub all_distinct : List Entry → Bool
all_distinct rs =
    no_repeats (names rs) && (no_repeats (short_names rs) && no_repeats (recipe_names rs))

-- `create_metadata` gives the visible recipes of all categories in order if no two of them share a
-- name, a short name or a class name, and raises an AssertionError otherwise.
pub create_metadata-visible :
    (lists : List (List Entry))
    → create_metadata lists ≡ (
        if all_distinct (visible_recipes lists)
        then ok (visible_recipes lists)
        else err assertion_error)
unfolding create_metadata
create_metadata-visible lists =
    all_metadata-outcome (record { names = []; short_names = []; recipe_names = [] }) lists
    ∙ rw
        (
          none_in-nil (names (visible_recipes lists)),
          none_in-nil (short_names (visible_recipes lists)),
          none_in-nil (recipe_names (visible_recipes lists)),
        )
        refl
