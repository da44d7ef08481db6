-- ===== src/Recipes/Closure.antt =====
-- The benchmarks that come with a selection: src/core/recipes/configuration/registry.py.
use asct.Prelude.{
  ◌≡◌, ◌∙◌, refl, sym, ap, true, ◌||◌, some, List, [], ◌∷◌, ◌++◌, ◌==◌, arith, Bool-cases, inl, inr,
  ok, and_then-eq-ok, Option-cases, subst, sort_by,
}
use asct.Text.{text_leb, Text, text_key, text_beq_iff}
use asct.Dict.{Dict, keys, lookup, contains}
use asct.Recipes.{
  Metadata, Filtered, get, by_name, difference, read_keywords, or_default, selected, judge_all,
  with_removed, with_blocked, firsts,
}
use asct.Recipes.Selection.{collect, entries_for, resolve_dependencies, get_filtered_recipes}
use asct.Recipes.Sets.{contains-append, contains-add_all, contains-difference, contains-sort_by}

get-lookup :
    {V : Type 0} (k : Text) (d : Dict Text V) {v : V} → get k d ≡ ok v → lookup k d ≡ some v
unfolding get
get-lookup k d h = elim (Option-cases (lookup k d)) [
  | inl e ↦ cc (rw (e, get) at h)
  | inr (w, e) ↦ e ∙ cc (rw (e, get) at h)
]

collect_keeps :
    (global : Dict Text Metadata) (list dependencies : List Text) (rev : Dict Text (List Text))
    {found : List Text × Dict Text (List Text)} (d : Text)
    → collect global list dependencies rev ≡ ok found
    → contains d dependencies ≡ true
    → contains d found.0 ≡ true
unfolding collect
collect_keeps global [] dependencies rev {found} d h c =
    let same : dependencies ≡ found.0 = cc h in subst (λ s. contains d s ≡ true) same c
collect_keeps global (b ∷ list) dependencies rev d h c =
    let (m, e, k) = and_then-eq-ok (get b global) _ h in
    collect_keeps global list _ _ d k
      (rw (contains-add_all d dependencies m.depends_on, c) (ground arith))

collect-contains :
    (global : Dict Text Metadata) (list dependencies : List Text) (rev : Dict Text (List Text))
    {found : List Text × Dict Text (List Text)} (b d : Text) (m : Metadata)
    → collect global list dependencies rev ≡ ok found
    → contains b list ≡ true
    → lookup b global ≡ some m
    → contains d m.depends_on ≡ true
    → contains d found.0 ≡ true
unfolding collect contains
collect-contains global [] dependencies rev b d m h c l k = cc c
collect-contains global (x ∷ list) dependencies rev b d m h c l k =
    let (n, e, r) = and_then-eq-ok (get x global) _ h in
    elim (Bool-cases (x == b)) [
      | inl same ↦
          let here : lookup b global ≡ some n =
            rw (← (text_beq_iff x b).0 same) (get-lookup x global e) in
          let deps : n ≡ m = cc (here, l) in
          collect_keeps global list _ _ d r
            (rw (contains-add_all d dependencies n.depends_on, deps, k))
      | inr other ↦ collect-contains global list _ _ b d m r (rw other at c) l k
    ]

entries_for-keys :
    (rev : Dict Text (List Text)) (deps : List Text) {d : Dict Text (List Text)}
    → entries_for rev deps ≡ ok d
    → keys d ≡ deps
unfolding entries_for
entries_for-keys rev [] {d} h = let same : [] ≡ d = cc h in rw (← same) refl
entries_for-keys rev (x ∷ deps) {d} h =
    let (l, e, k) = and_then-eq-ok (get x rev) _ h in
    let (rest, e2, k2) = and_then-eq-ok (entries_for rev deps) _ k in
    let same : (x, l) ∷ rest ≡ d = cc k2 in
    subst (λ z. keys z ≡ x ∷ deps) same (ap (λ z. x ∷ z) (entries_for-keys rev deps e2))

resolve_dependencies-contains :
    (global : Dict Text Metadata) (list : List Text) {deps : Dict Text (List Text)} (b d : Text)
    (m : Metadata)
    → resolve_dependencies global list ≡ ok deps
    → contains b list ≡ true
    → lookup b global ≡ some m
    → contains d m.depends_on ≡ true
    → (contains d list || contains d (keys deps)) ≡ true
unfolding resolve_dependencies
resolve_dependencies-contains global list b d m h c l k =
    let (found, e, r) = and_then-eq-ok (collect global list [] []) _ h in
    let all = collect-contains global list [] [] b d m e c l k in
    rw
      (
        entries_for-keys found.1 (difference found.0 list) r,
        contains-difference d found.0 list,
        all,
      )
      (ground arith)

-- With its dependencies added, a selection is closed: whatever a benchmark that passed the filters
-- depends on, by the metadata of all benchmarks, is in the complete list.
pub get_filtered_recipes-closed :
    (metadata global : List Metadata) (keywords : List Text) (f : Filtered) (b d : Text)
    (m : Metadata)
    → get_filtered_recipes metadata global keywords true ≡ ok f
    → contains b f.filtered_list ≡ true
    → lookup b (by_name [] global) ≡ some m
    → contains d m.depends_on ≡ true
    → contains d f.complete_list ≡ true
unfolding get_filtered_recipes
get_filtered_recipes-closed metadata global keywords f b d m h c l k =
    let words = read_keywords [] [] keywords in
    let added = selected (or_default words.0) [] metadata in
    let (verdicts, e, r) =
      and_then-eq-ok (judge_all words.1 (by_name [] metadata) (by_name [] global) added) _ h in
    let filtered =
      difference (difference added (with_removed verdicts)) (firsts (with_blocked verdicts)) in
    let (deps, e2, r2) = and_then-eq-ok (resolve_dependencies (by_name [] global) filtered) _ r in
    let listed : sort_by text_leb filtered ≡ f.filtered_list = cc r2 in
    let complete : sort_by text_leb (sort_by text_leb filtered ++ keys deps) ≡ f.complete_list =
      cc r2 in
    let chosen : contains b filtered ≡ true =
      sym (contains-sort_by text_leb b filtered) ∙ ap (contains b) listed ∙ c in
    let there = resolve_dependencies-contains (by_name [] global) filtered b d m e2 chosen l k in
    subst (λ z. contains d z ≡ true) complete
      (rw
        (
          contains-sort_by text_leb d (sort_by text_leb filtered ++ keys deps),
          contains-append d (sort_by text_leb filtered) (keys deps),
          contains-sort_by text_leb d filtered,
        )
        there)
