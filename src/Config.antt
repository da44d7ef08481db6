-- ===== src/Config.antt =====
-- Conversion functions of user settings: src/core/recipes/configuration/schema.py.
pub mod Ranges
pub mod Lists
mod Tests
use asct.Prelude.{
  ℕ, zero, suc, ◌+◌, ◌-◌, Bool, true, false, not, ◌&&◌, ◌||◌, Option, none, some, List, [], ◌∷◌,
  ◌++◌, ℤ, pos, ◌+ℤ◌, leb_ℤ, Result, ok, err, and_then, if◌then◌else◌, pos_part, neg_part, nat_beq,
  ◌==◌, nat_key, Key,
}
use asct.Text.{Text, codes, has, split, split_once, strip, lower, int, text_beq}
use asct.Dict.{contains}

-- `diverges` stands for a loop that does not end within its fuel.
pub data ConvError : Type 0 where
  value_error type_error index_error diverges : ConvError

pub data Item : Type 0 where
  missing : Item
  number : ℤ → Item
  text : Text → Item

pub data Setting : Type 0 where
  one : Item → Setting
  many : List Item → Setting

unfoldable pub is_one_of : Text → List Text → Bool
unfolding text_beq
is_one_of s [] = false
is_one_of s (t ∷ ts) = text_beq s t || is_one_of s ts

abbrev none_tokens : List Text
none_tokens = [] ∷ codes "none" ∷ codes "default" ∷ codes "null" ∷ codes "nil" ∷ codes "~" ∷ []

-- `while start <= end: result.append(start); start += step`
unfoldable pub range_loop : ℕ → ℤ → ℤ → ℤ → Option (List ℤ)
range_loop zero start end step = none
range_loop (suc fuel) start end step =
    let rest = range_loop fuel (start +ℤ step) end step in
    if leb_ℤ start end then (elim rest [ none ↦ none | some l ↦ some (start ∷ l) ]) else some []

-- One round for each number from `start`, which is not negative, to `end`, and one more.
unfoldable pub expand_range : ℤ → ℤ → ℤ → Result ConvError (List ℤ)
unfolding range_loop
expand_range start end step =
    elim (range_loop (suc (pos_part end + 1 - pos_part start)) start end step) [
      | none ↦ err diverges
      | some l ↦ ok l
    ]

unfoldable pub num : Text → Result ConvError ℤ
unfolding int
num s = elim (int s) [ none ↦ err value_error | some n ↦ ok n ]

-- The text behind the first `-`: an end, or an end and a step.
read_end : Text → Result ConvError (ℤ × Text)
unfolding num split_once has
read_end end =
    if has b':' end
    then (let (stop, step_str) = split_once b':' end in
        and_then (num step_str) (λ step. ok (step, stop)))
    else ok (pos 1, end)

read_range : Text → Result ConvError (List ℤ)
unfolding expand_range read_end split_once
read_range part =
    let (start, rest) = split_once b'-' part in
    and_then (read_end rest)
      λ e. and_then (num start) λ s. and_then (num e.1) λ n. expand_range s n e.0

abbrev wrap : List ℤ → List (Option ℤ)
wrap [] = []
wrap (n ∷ ns) = some n ∷ wrap ns

-- The body of the loop over `value.split(separator)`.
unfoldable pub read_part : Bool → Bool → Text → Result ConvError (List (Option ℤ))
unfolding read_range strip lower is_one_of num has
read_part accept_ranges optional_items raw =
    let part = strip raw in
    if optional_items && is_one_of (lower part) none_tokens
    then ok (none ∷ [])
    else if accept_ranges && has b'-' part
    then and_then (read_range part) (λ ns. ok (wrap ns))
    else and_then (num part) (λ n. ok (some n ∷ []))

unfoldable pub read_parts : Bool → Bool → List Text → Result ConvError (List (Option ℤ))
unfolding read_part
read_parts accept_ranges optional_items [] = ok []
read_parts accept_ranges optional_items (p ∷ ps) =
    and_then (read_part accept_ranges optional_items p)
      λ xs. and_then (read_parts accept_ranges optional_items ps) λ ys. ok (xs ++ ys)

-- `num_type(item)`
read_item : Bool → Item → Result ConvError (Option ℤ)
unfolding num strip lower is_one_of
read_item optional_items missing = if optional_items then ok none else err type_error
read_item optional_items (number n) = ok (some n)
read_item optional_items (text s) =
    if optional_items && is_one_of (lower (strip s)) none_tokens
    then ok none
    else and_then (num s) (λ n. ok (some n))

read_items : Bool → List Item → Result ConvError (List (Option ℤ))
unfolding read_item
read_items optional_items [] = ok []
read_items optional_items (i ∷ is) =
    and_then (read_item optional_items i)
      λ x. and_then (read_items optional_items is) λ xs. ok (x ∷ xs)

unfoldable pub read_setting : Bool → Bool → Setting → Result ConvError (List (Option ℤ))
unfolding read_parts read_items split
read_setting accept_ranges optional_items (one missing) =
    if optional_items then ok (none ∷ []) else err type_error
read_setting accept_ranges optional_items (one (number n)) = ok (some n ∷ [])
read_setting accept_ranges optional_items (one (text [])) =
    ok (if optional_items then none ∷ [] else [])
read_setting accept_ranges optional_items (one (text (c ∷ s))) =
    read_parts accept_ranges optional_items (split b',' (c ∷ s))
read_setting accept_ranges optional_items (many items) = read_items optional_items items

abbrev in_bound : (ℤ → Bool) → Option ℤ → Bool
in_bound test none = true
in_bound test (some n) = test n

unfoldable pub keep : (ℤ → Bool) → List (Option ℤ) → List (Option ℤ)
keep test [] = []
keep test (x ∷ xs) = let rest = keep test xs in if in_bound test x then x ∷ rest else rest

abbrev pub above : Option ℤ → ℤ → Bool
above none n = true
above (some low) n = leb_ℤ low n

abbrev pub below : Option ℤ → ℤ → Bool
below none n = true
below (some high) n = leb_ℤ n high

abbrev int_beq : ℤ → ℤ → Bool
int_beq a b = leb_ℤ a b && leb_ℤ b a

abbrev pub item_beq : Option ℤ → Option ℤ → Bool
item_beq none none = true
item_beq none (some n) = false
item_beq (some m) none = false
item_beq (some m) (some n) = int_beq m n

abbrev pub seen_in : Option ℤ → List (Option ℤ) → Bool
seen_in x [] = false
seen_in x (y ∷ ys) = item_beq y x || seen_in x ys

-- `[x for x in result if not (x in seen or seen.add(x))]`
unfoldable pub unique : List (Option ℤ) → List (Option ℤ) → List (Option ℤ)
unique seen [] = []
unique seen (x ∷ xs) =
    let old = unique seen xs in
    let new = unique (x ∷ seen) xs in if seen_in x seen then old else x ∷ new

-- The parameters of `num_list_conv`, with `num_type` `int` and the separator `,`.
pub record Options : Type 0 where
  pub accept_ranges : Bool
  pub unique_items : Bool
  pub min_value : Option ℤ
  pub max_value : Option ℤ
  pub optional_items : Bool

-- The empty text is returned before the bounds are applied, which changes nothing.
unfoldable pub num_list_conv : Options → Setting → Result ConvError (List (Option ℤ))
unfolding read_setting keep unique
num_list_conv o value = and_then (read_setting o.accept_ranges o.optional_items value) λ result.
    let kept = keep (below o.max_value) (keep (above o.min_value) result) in
    ok (if o.unique_items then unique [] kept else kept)

-- `boolean_conv`; a value that is no text is converted by its truth.
unfoldable pub boolean_conv : Item → Result ConvError Bool
unfolding lower is_one_of
boolean_conv missing = ok false
boolean_conv (number n) = ok (not (pos_part n == 0 && neg_part n == 0))
boolean_conv (text s) =
    let value = lower s in
    if is_one_of value (codes "1" ∷ codes "true" ∷ codes "yes" ∷ [])
    then ok true
    else if is_one_of value (codes "0" ∷ codes "false" ∷ codes "no" ∷ [])
    then ok false
    else err value_error

unfoldable pub optional_int_conv : Item → Result ConvError (Option ℤ)
unfolding num
optional_int_conv missing = ok none
optional_int_conv (number n) = ok (some n)
optional_int_conv (text s) = and_then (num s) (λ n. ok (some n))

abbrev pub int_list_options : Options
int_list_options = record {
  accept_ranges = true;
  unique_items = false;
  min_value = none;
  max_value = none;
  optional_items = false;
}

unfoldable pub optional_int_list_conv : Setting → Result ConvError (List (Option ℤ))
unfolding num_list_conv
optional_int_list_conv (one missing) = ok []
optional_int_list_conv value = num_list_conv int_list_options value

drop_empty : List Text → List Text
drop_empty [] = []
drop_empty ([] ∷ ts) = drop_empty ts
drop_empty ((c ∷ s) ∷ ts) = (c ∷ s) ∷ drop_empty ts

-- `str_list_conv`, for a text and for a list of texts.
unfoldable pub str_list_conv : Text → List Text
unfolding drop_empty split
str_list_conv s = drop_empty (split b',' s)
