-- ===== src/Sysdiff/Rules.antt =====
-- Which rule a comparison applies and when two values agree by it, described apart from
-- src/lib/sysdiff/diff_rules.py and comparators.py.
use asct.Prelude.{
  Bool, true, false, not, ◌&&◌, ◌||◌, Option, none, some, List, [], ◌∷◌, ◌++◌, ◌≡◌, refl, ◌==◌,
  arith, if◌then◌else◌, Bool-cases, inl, inr,
}
use asct.Text.{Text, codes, text_key, split, starts_with, ends_with, contains_text, drop_last}
use asct.Dict.{Dict, lookup, contains}
use asct.Sysdiff.{
  Python, Comparator, comparator, numeric_tolerance, ignore_node, near, near_values, agree,
  should_ignore, any_in, any_prefix, get_rule, wildcard_rule, or_wildcard,
}

-- Some item of the list passes the test.
unfoldable pub any_of : {A : Type 0} → (A → Bool) → List A → Bool
any_of p [] = false
any_of p (x ∷ xs) = p x || any_of p xs

-- A key of the ignored ones covers a path if it is the path or a part of it between dots, if it
-- stands in front of a dot at the start of the path, or if it ends with a star and the path has the
-- text in front of the star.
unfoldable pub covers : Text → Text → Bool
unfolding any_of
covers path key =
    key == path
    || any_of (λ part. key == part) (split b'.' path)
    || (ends_with (b'*' ∷ []) key && contains_text (drop_last 1 key) path)
    || starts_with (key ++ b'.' ∷ []) path

unfoldable pub is_ignored : List Text → Text → Bool
unfolding any_of covers
is_ignored ignore_keys path = any_of (covers path) ignore_keys

any_in-cons :
    (key : Text) (keys parts : List Text)
    → any_in (key ∷ keys) parts ≡ (any_of (λ part. key == part) parts || any_in keys parts)
unfolding any_in any_of contains
any_in-cons key keys [] = refl
any_in-cons key keys (part ∷ parts) = ground (arith, any_in-cons key keys parts)

any_in-nil : (parts : List Text) → any_in [] parts ≡ false
unfolding any_in contains
any_in-nil [] = refl
any_in-nil (part ∷ parts) = any_in-nil parts

any_of-should_ignore :
    (path : Text) (keys : List Text)
    → (contains path keys || any_in keys (split b'.' path) || any_prefix keys path)
      ≡ any_of (covers path) keys
unfolding any_prefix any_of contains covers
any_of-should_ignore path [] = rw (any_in-nil (split b'.' path)) refl
any_of-should_ignore path (key ∷ keys) =
    rw (any_in-cons key keys (split b'.' path), ← any_of-should_ignore path keys) (ground arith)

pub should_ignore-is_ignored :
    (keys : List Text) (path : Text) → should_ignore keys path ≡ is_ignored keys path
unfolding should_ignore is_ignored
should_ignore-is_ignored keys path = any_of-should_ignore path keys

-- The rules of the path itself, and those of the wildcards that it starts with, in order
unfoldable pub rules_named : {F : Type 0} → Text → Dict Text (Comparator F) → List (Comparator F)
rules_named path [] = []
rules_named path ((key, rule) ∷ rules) =
    let rest = rules_named path rules in if key == path then rule ∷ rest else rest

unfoldable pub rules_fitting : {F : Type 0} → Text → Dict Text (Comparator F) → List (Comparator F)
rules_fitting path [] = []
rules_fitting path ((key, rule) ∷ rules) =
    let rest = rules_fitting path rules in
    if ends_with (codes ".*") key && starts_with (drop_last 2 key) path then rule ∷ rest else rest

unfoldable pub first_or : {A : Type 0} → A → List A → A
first_or a [] = a
first_or a (x ∷ xs) = x

-- The first rule for the path itself, or else for a wildcard that it starts with, or else equality
unfoldable pub chosen : {F : Type 0} → Dict Text (Comparator F) → Text → Comparator F
unfolding rules_named rules_fitting first_or
chosen rules path = first_or comparator (rules_named path rules ++ rules_fitting path rules)

first_or-append :
    {A : Type 0} (a : A) (xs ys : List A) → first_or a (xs ++ ys) ≡ first_or (first_or a ys) xs
unfolding first_or
first_or-append a [] ys = refl
first_or-append a (x ∷ xs) ys = refl

module _ {F : Type 0} where
  or_wildcard-first_or :
      (path : Text) (rules : Dict Text (Comparator F)) (wild : Comparator F)
      → or_wildcard (lookup path rules) wild ≡ first_or wild (rules_named path rules)
  unfolding or_wildcard lookup rules_named first_or
  or_wildcard-first_or path [] wild = refl
  or_wildcard-first_or path ((key, rule) ∷ rules) wild = elim (Bool-cases (key == path)) [
    | inl same ↦ rw same refl
    | inr other ↦ rw other (or_wildcard-first_or path rules wild)
  ]

  wildcard_rule-first_or :
      (path : Text) (rules : Dict Text (Comparator F))
      → wildcard_rule rules path ≡ first_or comparator (rules_fitting path rules)
  unfolding wildcard_rule rules_fitting first_or
  wildcard_rule-first_or path [] = refl
  wildcard_rule-first_or path ((key, rule) ∷ rules) =
      elim (Bool-cases (ends_with (codes ".*") key && starts_with (drop_last 2 key) path)) [
        | inl fits ↦ rw fits refl
        | inr other ↦ rw other (wildcard_rule-first_or path rules)
      ]

  pub get_rule-chosen :
      (rules : Dict Text (Comparator F)) (path : Text) → get_rule rules path ≡ chosen rules path
  unfolding get_rule chosen
  get_rule-chosen rules path =
      rw
        (
          or_wildcard-first_or path rules (wildcard_rule rules path),
          wildcard_rule-first_or path rules,
          first_or-append comparator (rules_named path rules) (rules_fitting path rules),
        )
        refl

module _ {V F : Type 0} (python : Python V F) (ignore_keys : List Text) where
  -- Two floats are the same, or differ by no more than the absolute tolerance, or by no more than
  -- the tolerance in percent of the first one, of the second one where that is 0, or of 1.
  unfoldable pub is_close : Option F → Option F → F → F → Bool
  is_close most most_percent p q =
      let base =
        if python.floats.equal p python.floats.zero
        then if python.floats.equal q python.floats.zero
          then python.floats.one
          else python.floats.abs q
        else python.floats.abs p in
      python.floats.equal p q
      || elim most [ none ↦ false | some d ↦ python.floats.at_most (python.floats.distance p q) d ]
      || (not (python.floats.equal base python.floats.zero) && elim most_percent [
        | none ↦ false
        | some d ↦ python.floats.at_most (python.floats.percent (python.floats.distance p q) base) d
      ])

  -- The values `x` and `y` of the path agree by the rule.
  unfoldable pub agrees : Comparator F → V → V → Text → Bool
  unfolding is_ignored is_close
  agrees comparator x y path = is_ignored ignore_keys path || python.eq x y
  agrees (numeric_tolerance most most_percent) x y path =
      is_ignored ignore_keys path || elim (python.floats.float x) [
        | none ↦ python.eq x y
        | some p ↦ elim (python.floats.float y) [
          | none ↦ python.eq x y
          | some q ↦ is_close most most_percent p q
        ]
      ]
  agrees ignore_node x y path = true

  near-is_close :
      (most most_percent : Option F) (p q : F)
      → near python most most_percent p q ≡ is_close most most_percent p q
  unfolding near is_close
  near-is_close none none p q = ground arith
  near-is_close none (some e) p q = ground arith
  near-is_close (some d) none p q = ground arith
  near-is_close (some d) (some e) p q = ground arith

  near_values-agrees :
      (most most_percent : Option F) (x y : V) (p q : Option F)
      → near_values python most most_percent p q x y ≡ elim p [
        | none ↦ python.eq x y
        | some p' ↦ elim q [ none ↦ python.eq x y | some q' ↦ is_close most most_percent p' q' ]
      ]
  unfolding near_values
  near_values-agrees most most_percent x y none q = refl
  near_values-agrees most most_percent x y (some p) none = refl
  near_values-agrees most most_percent x y (some p) (some q) = near-is_close most most_percent p q

  pub agree-agrees :
      (rule : Comparator F) (x y : V) (path : Text)
      → agree python ignore_keys rule x y path ≡ agrees rule x y path
  unfolding agree agrees
  agree-agrees comparator x y path = rw (should_ignore-is_ignored ignore_keys path) refl
  agree-agrees (numeric_tolerance most most_percent) x y path =
      rw
        (
          should_ignore-is_ignored ignore_keys path,
          near_values-agrees most most_percent x y (python.floats.float x) (python.floats.float y),
        )
        refl
  agree-agrees ignore_node x y path = refl
