-- ===== src/Sysdiff/Loader/Selected.antt =====
-- Which recipes the loader of src/lib/sysdiff/loader.py takes from a run.
use asct.Prelude.{
  ◌≡◌, refl, ◌∙◌, Bool, true, false, not, ◌&&◌, ◌||◌, none, some, List, [], ◌∷◌, ok, ◌==◌, ==_refl,
  arith, Bool-cases, Option-cases, inl, inr, subst, sort_by, and_then-eq-ok,
}
use asct.Text.{Text, codes, text_key, text_beq_iff, text_leb}
use asct.Dict.{Dict, keys, lookup, insert, contains}
use asct.Recipes.Selection.{add_all}
use asct.Recipes.Sets.{contains-add_all, contains-sort_by}
use asct.Trees.{Entries}
use asct.Sysdiff.Adapters.{Objects, Adapter}
use asct.Sysdiff.Loader.{Loaded, flat, Parsers, make_metadata_diff_data, make_recipe_diff_data}
use asct.Sysdiff.Loader.Recipes.{
  Gathered, kept_names, included, selected_recipe_names, add_recipes, load_recipes,
}

contains-keys-insert :
    {A : Type 0} (x k : Text) (v : A) (d : Dict Text A)
    → contains x (keys (insert k v d)) ≡ (k == x || contains x (keys d))
unfolding contains insert
contains-keys-insert x k v [] = refl
contains-keys-insert x k v ((j, w) ∷ d) =
    ground
      (arith, text_beq_iff k x, text_beq_iff j k, text_beq_iff j x, contains-keys-insert x k v d)

lookup-none :
    {A : Type 0} (k : Text) (d : Dict Text A) → lookup k d ≡ none → contains k (keys d) ≡ false
unfolding contains lookup
lookup-none k [] h = refl
lookup-none k ((j, w) ∷ d) h = elim (Bool-cases (j == k)) [
  | inl e ↦ cc (rw e at h)
  | inr e ↦ rw e (lookup-none k d (rw e at h))
]

lookup-some :
    {A : Type 0} (k : Text) (v : A) (d : Dict Text A)
    → lookup k d ≡ some v
    → contains k (keys d) ≡ true
unfolding contains lookup
lookup-some k v [] h = cc h
lookup-some k v ((j, w) ∷ d) h = elim (Bool-cases (j == k)) [
  | inl e ↦ rw e refl
  | inr e ↦ rw e (lookup-some k v d (rw e at h))
]

and_false : (b : Bool) → (b && false) ≡ false
and_false true = refl
and_false false = refl

contains-kept_names :
    (keep : Text → Bool) (x : Text) (names : List Text)
    → contains x (kept_names keep names) ≡ (contains x names && keep x)
unfolding kept_names contains
contains-kept_names keep x [] = refl
contains-kept_names keep x (n ∷ names) = elim (Bool-cases (n == x)) [
  | inl e ↦
      let same : n ≡ x = (text_beq_iff n x).0 e in
      elim (Bool-cases (keep x)) [
        | inl k ↦ rw (e, same, k) (rw (← same) (rw (==_refl n) refl))
        | inr k ↦
            rw (e, same, k) (contains-kept_names keep x names ∙ rw k (and_false (contains x names)))
      ]
  | inr e ↦ elim (Bool-cases (keep n)) [
    | inl k ↦ rw (e, k) (rw e (contains-kept_names keep x names))
    | inr k ↦ rw (e, k) (contains-kept_names keep x names)
  ]
]

-- The recipe has a summary or raw data.
abbrev pub is_known : {V : Type 0} → Gathered V → Text → Bool
is_known g x = contains x (keys g.summary_data) || contains x (keys g.raw_data)

shuffle : (a b c d : Bool) → (((a || (b || false)) && c) && d) ≡ ((b || a) && (c && d))
shuffle a b c d = ground arith

contains-selected :
    {V : Type 0} (recipe_list recipe_exclude_list : List Text) (g : Gathered V) (x : Text)
    → contains x (selected_recipe_names recipe_list recipe_exclude_list g)
      ≡ (is_known g x && (included recipe_list x && not (contains x recipe_exclude_list)))
unfolding selected_recipe_names contains
contains-selected recipe_list recipe_exclude_list g x =
    let all = add_all (add_all [] (keys g.summary_data)) (keys g.raw_data) in
    let sorted = sort_by text_leb all in
    contains-kept_names (λ name. not (contains name recipe_exclude_list)) x
      (kept_names (included recipe_list) sorted)
    ∙ rw
        (
          contains-kept_names (included recipe_list) x sorted,
          contains-sort_by text_leb x all,
          contains-add_all x (add_all [] (keys g.summary_data)) (keys g.raw_data),
          contains-add_all x [] (keys g.summary_data),
        )
        (shuffle (contains x (keys g.raw_data)) (contains x (keys g.summary_data))
          (included recipe_list x) (not (contains x recipe_exclude_list)))

step_known :
    (same inside known before : Bool)
    → (same ≡ true → known ≡ true)
    → ((inside && known) || (same || before)) ≡ (((same || inside) && known) || before)
step_known true true known before h = rw (h refl) refl
step_known true false known before h = rw (h refl) refl
step_known false inside known before h = refl

step_unknown :
    (same inside known before : Bool)
    → (same ≡ true → known ≡ false)
    → ((inside && known) || before) ≡ (((same || inside) && known) || before)
step_unknown true true known before h = rw (h refl) refl
step_unknown true false known before h = rw (h refl) refl
step_unknown false inside known before h = refl

-- What is known of a recipe is known of one with the same name.
known_same :
    {V : Type 0} (g : Gathered V) (n x : Text) {b : Bool}
    → is_known g n ≡ b
    → (n == x) ≡ true
    → is_known g x ≡ b
known_same g n x {b} h e = subst (λ y. is_known g y ≡ b) ((text_beq_iff n x).0 e) h

names_added :
    {V A : Type 0} (g : Gathered V) (n x : Text) (names : List Text) (v : A) (d : Dict Text A)
    → is_known g n ≡ true
    → ((contains x names && is_known g x) || contains x (keys (insert n v d)))
      ≡ ((contains x (n ∷ names) && is_known g x) || contains x (keys d))
unfolding contains
names_added g n x names v d h = rw (contains-keys-insert x n v d) (
    step_known (n == x) (contains x names) (is_known g x) (contains x (keys d))
      (known_same g n x h))

names_skipped :
    {V : Type 0} (g : Gathered V) (n x : Text) (names : List Text) (before : Bool)
    → is_known g n ≡ false
    → ((contains x names && is_known g x) || before)
      ≡ ((contains x (n ∷ names) && is_known g x) || before)
unfolding contains
names_skipped g n x names before h =
    step_unknown (n == x) (contains x names) (is_known g x) before (known_same g n x h)

twice : (a b c : Bool) → (((a && b) && a) || (c || false)) ≡ ((a && b) || c)
twice a b c = ground arith

abbrev pub is_nil : List Text → Bool
is_nil [] = true
is_nil (x ∷ xs) = false

included-is_nil :
    (recipe_list : List Text) (x : Text)
    → included recipe_list x ≡ (is_nil recipe_list || contains x recipe_list)
included-is_nil [] x = refl
included-is_nil (y ∷ ys) x = refl

module _ {V : Type 0} (objects : Objects V) (parsers : Parsers V) where
  add_recipes-names :
      (adapter : Adapter) (diff_section : Entries V) (g : Gathered V) (x : Text) (names : List Text)
      (recipes : Dict Text (Loaded V)) {r : Dict Text (Loaded V)}
      → add_recipes objects parsers adapter diff_section g names recipes ≡ ok r
      → contains x (keys r) ≡ ((contains x names && is_known g x) || contains x (keys recipes))
  unfolding add_recipes contains
  add_recipes-names adapter diff_section g x [] recipes {r} h =
      let done : recipes ≡ r = cc h in rw done refl
  add_recipes-names adapter diff_section g x (n ∷ names) recipes {r} h =
      elim (Option-cases (lookup n g.summary_data)) [
        | inr (s, is) ↦
            let rest =
              add_recipes-names adapter diff_section g x names (insert n s recipes)
                (rw (is, add_recipes) at h) in
            rest ∙ names_added g n x names s recipes (rw (lookup-some n s g.summary_data is) refl)
        | inl gone ↦ elim (Option-cases (lookup n g.raw_data)) [
          | inl none_left ↦
              let rest =
                add_recipes-names adapter diff_section g x names recipes
                  (rw (gone, none_left, add_recipes) at h) in
              rest
              ∙ names_skipped g n x names (contains x (keys recipes))
                  (rw (lookup-none n g.summary_data gone, lookup-none n g.raw_data none_left) refl)
          | inr (raw, is) ↦
              let (d, e, more) =
                and_then-eq-ok (make_recipe_diff_data objects parsers adapter n raw diff_section) _
                  (rw (gone, is, add_recipes) at h) in
              let rest =
                add_recipes-names adapter diff_section g x names (insert n (flat d) recipes) more in
              rest
              ∙ names_added g n x names (flat d) recipes
                  (rw (lookup-none n g.summary_data gone, lookup-some n raw g.raw_data is) refl)
        ]
      ]

  -- What is loaded is the metadata and each recipe with a summary or raw data that is on the list of
  -- recipes, if there is one, and not on the list of excluded ones, and nothing else.
  pub load_recipes-names :
      (adapter : Adapter) (metadata_entry diff_section : Entries V)
      (recipe_list recipe_exclude_list : List Text) (g : Gathered V) (x : Text)
      {r : Dict Text (Loaded V)}
      → load_recipes objects parsers adapter metadata_entry diff_section recipe_list
          recipe_exclude_list g
        ≡ ok r
      → contains x (keys r) ≡ (
          (is_known g x
            && ((is_nil recipe_list || contains x recipe_list)
                && not (contains x recipe_exclude_list)))
          || codes "metadata" == x)
  unfolding load_recipes
  load_recipes-names adapter metadata_entry diff_section recipe_list recipe_exclude_list g x h =
      let names = selected_recipe_names recipe_list recipe_exclude_list g in
      let first : Text × Loaded V =
        (codes "metadata", flat (make_metadata_diff_data objects parsers metadata_entry)) in
      add_recipes-names adapter diff_section g x names (first ∷ []) h
      ∙ rw (contains-selected recipe_list recipe_exclude_list g x, included-is_nil recipe_list x)
          (twice (is_known g x)
            ((is_nil recipe_list || contains x recipe_list) && not (contains x recipe_exclude_list))
            (codes "metadata" == x))
