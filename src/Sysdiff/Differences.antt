-- ===== src/Sysdiff/Differences.antt =====
-- What a comparison reports, src/lib/sysdiff/manager.py.
use asct.Prelude.{
  Bool, true, not, ◌&&◌, ◌||◌, Option, none, some, List, [], ◌∷◌, ◌++◌, ◌≡◌, refl, ap, ◌==◌, arith,
  ok,
}
use asct.Text.{Text, text_key, text_leb, text_beq_iff}
use asct.Dict.{Dict, keys, lookup, contains}
use asct.Recipes.Selection.{add_all}
use asct.Recipes.Sets.{contains-append, contains-add_all, contains-sort_by}
use asct.Sysdiff.Rules.{agrees, chosen, agree-agrees, get_rule-chosen}
use asct.Sysdiff.{
  Python, Comparator, agree, get_rule, Change, or_missing, sorted_keys, apply_rule, collect_changes,
  get_differences,
}

either :
    (same more p q : Bool)
    → (same ≡ true → p ≡ q)
    → (same && not p || more && not q) ≡ ((same || more) && not q)
either same more p q h = ground (arith, h)

abbrev pub paths : {V : Type 0} → List (Change V) → List Text
paths [] = []
paths (c ∷ cs) = c.path ∷ paths cs

contains-sorted_keys :
    {V : Type 0} (k : Text) (a b : Dict Text V)
    → contains k (sorted_keys a b) ≡ (contains k (keys a) || contains k (keys b))
unfolding sorted_keys contains
contains-sorted_keys k a b =
    rw
      (
        contains-sort_by text_leb k (add_all (add_all [] (keys a)) (keys b)),
        contains-add_all k (add_all [] (keys a)) (keys b),
        contains-add_all k [] (keys a),
      )
      (ground arith)

module _ {V F : Type 0} (python : Python V F) (ignore_keys : List Text) where
  -- The value at a key, or the mark for a missing one
  unfoldable value_at : Text → Dict Text V → V
  value_at k d = elim (lookup k d) [ none ↦ python.missing | some v ↦ v ]

  -- The values of two dictionaries at a key agree by the rule that is chosen for it.
  unfoldable pub agrees_at : Dict Text (Comparator F) → Dict Text V → Dict Text V → Text → Bool
  unfolding agrees chosen value_at
  agrees_at rules a b k = agrees python ignore_keys (chosen rules k) (value_at k a) (value_at k b) k

  or_missing-value_at :
      (k : Text) (d : Dict Text V) → or_missing python.missing (lookup k d) ≡ value_at k d
  unfolding or_missing value_at
  or_missing-value_at k d = by_lookup (lookup k d)
    where
      by_lookup :
          (o : Option V)
          → or_missing python.missing o ≡ elim o [ none ↦ python.missing | some v ↦ v ]
      by_lookup none = refl
      by_lookup (some v) = refl

  agree-agrees_at :
      (rules : Dict Text (Comparator F)) (a b : Dict Text V) (k : Text)
      → agree python ignore_keys
          (get_rule rules k)
          (or_missing python.missing (lookup k a))
          (or_missing python.missing (lookup k b))
          k
        ≡ agrees_at rules a b k
  unfolding agrees_at
  agree-agrees_at rules a b k =
      rw
        (
          or_missing-value_at k a,
          or_missing-value_at k b,
          get_rule-chosen rules k,
          agree-agrees python ignore_keys (chosen rules k) (value_at k a) (value_at k b) k,
        )
        refl

  paths-append : (cs ds : List (Change V)) → paths (cs ++ ds) ≡ paths cs ++ paths ds
  paths-append [] ds = refl
  paths-append (c ∷ cs) ds = ap (λ ps. c.path ∷ ps) (paths-append cs ds)

  contains-apply_rule :
      (rule : Comparator F) (x y : V) (j k : Text)
      → contains k (paths (apply_rule python ignore_keys rule x y j))
        ≡ (j == k && not (agree python ignore_keys rule x y j))
  unfolding apply_rule contains
  contains-apply_rule rule x y j k = ground arith

  contains-collect :
      (rules : Dict Text (Comparator F)) (a b : Dict Text V) (k : Text) (ks : List Text)
      → contains k (paths (collect_changes python ignore_keys rules a b ks))
        ≡ (contains k ks && not (agrees_at rules a b k))
  unfolding collect_changes contains
  contains-collect rules a b k [] = refl
  contains-collect rules a b k (j ∷ ks) =
      let x : V = or_missing python.missing (lookup j a) in
      let y : V = or_missing python.missing (lookup j b) in
      rw
        (
          paths-append (apply_rule python ignore_keys (get_rule rules j) x y j)
              (collect_changes python ignore_keys rules a b ks),
          contains-append k (paths (apply_rule python ignore_keys (get_rule rules j) x y j))
              (paths (collect_changes python ignore_keys rules a b ks)),
          contains-apply_rule (get_rule rules j) x y j k,
          agree-agrees_at rules a b j,
          contains-collect rules a b k ks,
        )
        (either (j == k) (contains k ks) (agrees_at rules a b j) (agrees_at rules a b k)
          (λ same. ap (agrees_at rules a b) ((text_beq_iff j k).0 same)))

  -- A comparison of two dictionaries reports a path exactly if one of them has the key and their
  -- values there, or the mark for a missing one, do not agree: by the first rule for the key itself,
  -- or else for a wildcard that it starts with, or else by equality; every value of a key that the
  -- ignored ones cover agrees.
  pub get_differences-reports :
      (rules : Dict Text (Comparator F)) (a b : Dict Text V)
      → (changes : List (Change V)) × (get_differences python ignore_keys rules (some a) (some b)
          ≡ ok changes)
        × ((k : Text)
            → contains k (paths changes)
              ≡ ((contains k (keys a) || contains k (keys b)) && not (agrees_at rules a b k)))
  unfolding get_differences
  get_differences-reports rules a b = (
    collect_changes python ignore_keys rules a b (sorted_keys a b),
    refl,
    λ k. rw (contains-collect rules a b k (sorted_keys a b), contains-sorted_keys k a b) refl,
  )
