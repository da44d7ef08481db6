-- ===== src/HugePages.antt =====
-- Huge pages: src/core/resources/hugepages.py, the page sizes and how a request is fitted to them.
pub mod Resize
pub mod Store
pub mod Manager
pub mod Allocation
pub mod Once
pub mod Preallocated
mod Tests
use asct.Prelude.{
  ℕ, ◌*◌, ◌/◌, ◌%◌, Bool, true, false, Option, none, some, List, [], ◌∷◌, Result, ok, err, and_then,
  ltb, leb, if◌then◌else◌, ◌==◌, nat_key,
}
use asct.Text.{Text, codes, digits_value, is_digit, text_beq}
use asct.Dict.{Dict, contains, lookup, insert}

pub data HugeError : Type 0 where
  memory_error assertion_error key_error zero_division : HugeError

-- The listings of the directories of sysfs, where `none` is a FileNotFoundError: the nodes, and
-- the `hugepages` directory of a node's entry.
pub record Listing : Type 0 where
  pub node_entries : Option (List Text)
  pub size_entries : Text → Option (List Text)

after : Text → Text → Option Text
after [] s = some s
after (p ∷ ps) [] = none
after (p ∷ ps) (c ∷ s) = if p == c then after ps s else none

leading_digits : Text → Text × Text
leading_digits [] = ([], [])
leading_digits (c ∷ s) =
    let (digits, behind) = leading_digits s in
    if is_digit c then (c ∷ digits, behind) else ([], c ∷ s)

-- The number of a match of `^prefix(\d+)suffix$`; a name has no line break.
unfoldable pub matched : Text → Text → Text → Option ℕ
unfolding after leading_digits digits_value text_beq
matched prefix suffix name = elim (after prefix name) [
  | none ↦ none
  | some s ↦
      (let (digits, behind) = leading_digits s in
        if text_beq behind suffix then digits_value 0 false digits else none)
]

insert_size : ℕ → List ℕ → List ℕ
insert_size n [] = n ∷ []
insert_size n (m ∷ ms) = if leb m n then n ∷ m ∷ ms else m ∷ insert_size n ms

-- `sorted(sizes, reverse=True)` of the sizes in the names
unfoldable pub sizes_of : List Text → List ℕ
unfolding insert_size matched
sizes_of [] = []
sizes_of (name ∷ names) = elim (matched (codes "hugepages-") (codes "kB") name) [
  | none ↦ sizes_of names
  | some n ↦ insert_size n (sizes_of names)
]

scan : Listing → List Text → Dict ℕ (List ℕ) → Dict ℕ (List ℕ)
unfolding matched sizes_of insert
scan l [] found = found
scan l (name ∷ names) found = elim (matched (codes "node") [] name) [
  | none ↦ scan l names found
  | some node ↦ scan l names (elim (l.size_entries name) [
    | none ↦ found
    | some entries ↦ insert node (sizes_of entries) found
  ])
]

unfoldable pub get_supported_hugepage_sizes : Listing → Dict ℕ (List ℕ)
unfolding scan
get_supported_hugepage_sizes l = elim l.node_entries [ none ↦ [] | some names ↦ scan l names [] ]

-- `self._get_available_page_sizes().get(node, [])`
unfoldable pub available : Dict ℕ (List ℕ) → ℕ → List ℕ
unfolding lookup
available sizes node = elim (lookup node sizes) [ none ↦ [] | some l ↦ l ]

-- The loop for a fallback over the available sizes; `valid` is `valid_func` for the node.
unfoldable pub find_fallback :
    (ℕ → ℕ → Result HugeError Bool) → ℕ → ℕ → List ℕ → Result HugeError (Option ℕ)
find_fallback valid size count [] = ok none
find_fallback valid size count (avail ∷ sizes) =
    let rest = find_fallback valid size count sizes in
    if ltb avail size
    then (if avail == 0
        then err zero_division
        else if size % avail == 0
        then and_then (valid avail (count * (size / avail)))
            (λ v. if v then ok (some avail) else rest)
        else rest)
    else rest

-- `fallback` and the scaled count
abbrev pub scaled : ℕ → ℕ → Option ℕ → Result HugeError (ℕ × ℕ)
scaled size count none = err memory_error
scaled size count (some fallback) = ok (fallback, count * (size / fallback))

-- `_adjust_to_available_size`, with the available sizes of the node
unfoldable pub adjust :
    Bool → (ℕ → ℕ → Result HugeError Bool) → List ℕ → ℕ → ℕ → Result HugeError (ℕ × ℕ)
unfolding find_fallback contains
adjust disable_resize valid sizes size count =
    and_then (if contains size sizes then valid size count else ok false) λ found.
      if found
      then ok (size, count)
      else and_then (if disable_resize then ok none else find_fallback valid size count sizes)
          (scaled size count)

-- The `valid_func` of `adjust_to_available_size`
abbrev pub any_size : ℕ → ℕ → Result HugeError Bool
any_size size count = ok true

-- `_has_enough_free_pages`, where the number of free pages is `none` when it cannot be read
abbrev pub has_enough_free_pages : (ℕ → Option ℕ) → ℕ → ℕ → Result HugeError Bool
has_enough_free_pages read_free size count = elim (read_free size) [
  | none ↦ err memory_error
  | some free_count ↦ ok (leb count free_count)
]
