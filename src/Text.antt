-- ===== src/Text.antt =====
-- The operations of Python's `str` and `int` that the program applies to the text it reads. A text
-- is the list of its code points; the texts are ASCII.
pub mod Decimal
pub mod Split
use Prim.Native.Char.{code}
use asct.Prelude.{
  ℕ, zero, suc, ◌+◌, ◌-◌, ◌*◌, ◌/◌, ◌%◌, String, Bool, true, false, ◌&&◌, ◌||◌, not, Option, none,
  some, List, [], ◌∷◌, ◌++◌, leb, ltb, ◌==◌, Key, ◌≡◌, ◌↔◌, refl, nat_beq_iff, arith, if◌then◌else◌,
  ℤ, pos, neg, nat_key, take, length,
}

abbrev pub Text : Type 0
Text = List ℕ

-- The code points of a literal.
abbrev pub codes : String → Text
codes String.[] = []
codes (String.◌∷◌ c s) = code c ∷ codes s

abbrev pub is_digit : ℕ → Bool
is_digit c = leb b'0' c && leb c b'9'

abbrev pub is_space : ℕ → Bool
is_space c = leb 9 c && leb c 13 || leb 28 c && leb c 32

-- `s == t`
unfoldable pub text_beq : Text → Text → Bool
text_beq [] [] = true
text_beq [] (d ∷ t) = false
text_beq (c ∷ s) [] = false
text_beq (c ∷ s) (d ∷ t) = c == d && text_beq s t

pub text_beq_iff : (s t : Text) → (text_beq s t ≡ true) ↔ (s ≡ t)
unfolding text_beq
text_beq_iff [] [] = (λ h. refl, λ h. refl)
text_beq_iff [] (d ∷ t) = (λ h. cc h, λ h. cc h)
text_beq_iff (c ∷ s) [] = (λ h. cc h, λ h. cc h)
text_beq_iff (c ∷ s) (d ∷ t) = (
  λ h. ground (arith, nat_beq_iff c d, text_beq_iff s t, h),
  λ h. ground (arith, nat_beq_iff c d, text_beq_iff s t, h),
)

-- A text is a key of dictionaries and sets.
instance abbrev pub text_key : Key Text
text_key = record { equal = text_beq; equal_iff = text_beq_iff }

-- `c in s`, for one character
unfoldable pub has : ℕ → Text → Bool
has c [] = false
has c (x ∷ s) = x == c || has c s

-- The order of Python's `str`.
unfoldable pub text_leb : Text → Text → Bool
text_leb [] t = true
text_leb (c ∷ s) [] = false
text_leb (c ∷ s) (d ∷ t) = ltb c d || c == d && text_leb s t

-- `s.startswith(p)`
unfoldable pub starts_with : Text → Text → Bool
starts_with [] s = true
starts_with (x ∷ p) [] = false
starts_with (x ∷ p) (y ∷ s) = x == y && starts_with p s

-- `p in s`, for a text
unfoldable pub contains_text : Text → Text → Bool
unfolding starts_with
contains_text p [] = starts_with p []
contains_text p (x ∷ s) = starts_with p (x ∷ s) || contains_text p s

-- `s.endswith(p)`
unfoldable pub ends_with : Text → Text → Bool
unfolding text_beq
ends_with p [] = text_beq p []
ends_with p (x ∷ s) = text_beq p (x ∷ s) || ends_with p s

-- `s[:-n]`
abbrev pub drop_last : ℕ → Text → Text
drop_last n s = take (length s - n) s

cons_head : ℕ → List Text → List Text
cons_head c [] = (c ∷ []) ∷ []
cons_head c (t ∷ ts) = (c ∷ t) ∷ ts

-- `s.split(c)`
unfoldable pub split : ℕ → Text → List Text
unfolding cons_head
split c [] = [] ∷ []
split c (x ∷ s) = let rest = split c s in if x == c then [] ∷ rest else cons_head x rest

-- `s.split(c, maxsplit=1)` where `c in s`: what stands before and behind the first `c`
unfoldable pub split_once : ℕ → Text → Text × Text
split_once c [] = ([], [])
split_once c (x ∷ s) =
    let (before, behind) = split_once c s in if x == c then ([], s) else (x ∷ before, behind)

unfoldable pub lstrip : Text → Text
lstrip [] = []
lstrip (x ∷ s) = if is_space x then lstrip s else x ∷ s

unfoldable pub rstrip : Text → Text
rstrip [] = []
rstrip (x ∷ s) = elim (rstrip s) [ [] ↦ if is_space x then [] else x ∷ [] | y ∷ t ↦ x ∷ y ∷ t ]

unfoldable pub strip : Text → Text
unfolding lstrip rstrip
strip s = rstrip (lstrip s)

abbrev lower_code : ℕ → ℕ
lower_code c = if leb b'A' c && leb c b'Z' then c + 32 else c

-- `s.lower()`
unfoldable pub lower : Text → Text
lower [] = []
lower (c ∷ s) = lower_code c ∷ lower s

-- Digits with single underscores between them; `after_digit` says that the last character was one.
unfoldable pub digits_value : ℕ → Bool → Text → Option ℕ
digits_value acc after_digit [] = if after_digit then some acc else none
digits_value acc after_digit (c ∷ s) =
    let digit = digits_value (acc * 10 + (c - b'0')) true s in
    let underscore = digits_value acc false s in
    if is_digit c then digit else if c == b'_' && after_digit then underscore else none

signed : Text → Option ℤ
unfolding digits_value
signed [] = none
signed (c ∷ s) =
    if c == b'-'
    then elim (digits_value 0 false s) [ none ↦ none | some n ↦ some (neg n) ]
    else if c == b'+'
    then elim (digits_value 0 false s) [ none ↦ none | some n ↦ some (pos n) ]
    else elim (digits_value 0 false (c ∷ s)) [ none ↦ none | some n ↦ some (pos n) ]

-- `int(s)`; `none` is a ValueError
unfoldable pub int : Text → Option ℤ
unfolding signed strip
int s = signed (strip s)

-- `str(n)`, for a number that is not negative
pub show_fuel : ℕ → ℕ → Text
show_fuel zero n = []
show_fuel (suc fuel) n =
    let front = show_fuel fuel (n / 10) in
    if ltb n 10 then (b'0' + n) ∷ [] else front ++ (b'0' + n % 10) ∷ []

unfoldable pub show : ℕ → Text
unfolding show_fuel
show n = show_fuel (suc n) n
