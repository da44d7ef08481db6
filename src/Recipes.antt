-- ===== src/Recipes.antt =====
-- Selection of benchmarks: src/core/recipes/configuration/registry.py and the metadata of
-- src/core/recipes/configuration/metadata.py. A Python set is a list that holds nothing twice; its
-- order of iteration, which Python leaves open, is the order in which the members were added.
pub mod Selection
pub mod Sets
pub mod Closure
pub mod Categories
pub mod Catalogue
mod Tests
use asct.Prelude.{
  ℕ, Bool, true, false, not, ◌&&◌, ◌||◌, Option, none, some, List, [], ◌∷◌, ◌++◌, map, Result, ok,
  err, and_then, if◌then◌else◌, ◌==◌, nat_key, ltb,
}
use asct.Text.{text_leb, Text, text_key, codes}
use asct.Dict.{Dict, keys, lookup, insert, contains}

pub data SelectionError : Type 0 where
  key_error : SelectionError

pub record Metadata : Type 0 where
  pub name : Text
  pub short_name : Text
  pub tags : List Text
  pub category : Text
  pub depends_on : List Text

pub record Filtered : Type 0 where
  pub positive_filter : List Text
  pub negative_filter : List Text
  pub filtered_list : List Text
  pub complete_list : List Text
  pub filtered_in : List Text
  pub filtered_out : List Text
  pub filtered_out_depends : List (Text × Text)
  pub added_dependencies : Dict Text (List Text)
  pub cached_dependencies : Dict Text (List Text)

-- `s.add(x)`
unfoldable pub add : Text → List Text → List Text
unfolding contains
add x s = if contains x s then s else s ++ x ∷ []

-- `bool(s.intersection(t))`
unfoldable pub intersects : List Text → List Text → Bool
unfolding contains
intersects [] t = false
intersects (x ∷ s) t = contains x t || intersects s t

-- `s - t`
unfoldable pub difference : List Text → List Text → List Text
unfolding contains
difference [] t = []
difference (x ∷ s) t = let rest = difference s t in if contains x t then rest else x ∷ rest

-- The positive and the negative filters among the keywords; `^` is CHR_NEG_FILTER.
unfoldable pub read_keywords : List Text → List Text → List Text → List Text × List Text
unfolding add
read_keywords positive negative [] = (positive, negative)
read_keywords positive negative ([] ∷ items) = read_keywords (add [] positive) negative items
read_keywords positive negative ((c ∷ s) ∷ items) =
    let taken = read_keywords positive (add s negative) items in
    let other = read_keywords (add (c ∷ s) positive) negative items in
    if c == b'^' then taken else other

or_default : List Text → List Text
or_default [] = codes "default" ∷ []
or_default (x ∷ s) = x ∷ s

-- `{item.name: item for item in metadata}`
unfoldable pub by_name : Dict Text Metadata → List Metadata → Dict Text Metadata
unfolding insert
by_name d [] = d
by_name d (m ∷ ms) = by_name (insert m.name m d) ms

-- `{item.name for item in metadata if positive_filter.intersection(item.tags)}`
unfoldable pub selected : List Text → List Text → List Metadata → List Text
unfolding add intersects
selected positive names [] = names
selected positive names (m ∷ ms) =
    selected positive (if intersects positive m.tags then add m.name names else names) ms

-- `d[k]`
unfoldable pub get : {V : Type 0} → Text → Dict Text V → Result SelectionError V
unfolding lookup
get k d = elim (lookup k d) [ none ↦ err key_error | some v ↦ ok v ]

-- The first dependency that a negative filter takes out.
unfoldable pub blocked_by :
    List Text → Dict Text Metadata → List Text → Result SelectionError (Option Text)
unfolding get intersects
blocked_by negative global [] = ok none
blocked_by negative global (depend_name ∷ depends_on) = and_then (get depend_name global) λ m.
    if intersects negative m.tags
    then ok (some depend_name)
    else blocked_by negative global depends_on

pub data Verdict : Type 0 where
  stays : Verdict
  removed : Verdict
  removed_for : Text → Verdict

-- The body of the loop over the added items.
unfoldable pub judge :
    List Text → Dict Text Metadata → Dict Text Metadata → Text → Result SelectionError Verdict
unfolding get intersects blocked_by
judge negative local global item = and_then (get item local) λ m.
    if intersects negative m.tags
    then ok removed
    else and_then (blocked_by negative global m.depends_on)
        λ b. elim b [ none ↦ ok stays | some d ↦ ok (removed_for d) ]

unfoldable pub judge_all :
    List Text
    → Dict Text Metadata
    → Dict Text Metadata
    → List Text
    → Result SelectionError (List (Text × Verdict))
unfolding judge
judge_all negative local global [] = ok []
judge_all negative local global (item ∷ items) =
    and_then (judge negative local global item)
      λ v. and_then (judge_all negative local global items) λ vs. ok ((item, v) ∷ vs)

unfoldable pub with_removed : List (Text × Verdict) → List Text
with_removed [] = []
with_removed ((item, removed) ∷ vs) = item ∷ with_removed vs
with_removed ((item, stays) ∷ vs) = with_removed vs
with_removed ((item, removed_for d) ∷ vs) = with_removed vs

unfoldable pub with_blocked : List (Text × Verdict) → List (Text × Text)
with_blocked [] = []
with_blocked ((item, removed_for d) ∷ vs) = (item, d) ∷ with_blocked vs
with_blocked ((item, stays) ∷ vs) = with_blocked vs
with_blocked ((item, removed) ∷ vs) = with_blocked vs

unfoldable pub firsts : List (Text × Text) → List Text
firsts [] = []
firsts ((a, b) ∷ l) = a ∷ firsts l
