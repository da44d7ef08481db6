-- ===== src/Config/Lists.antt =====
-- What comes out of a list setting: src/core/recipes/configuration/schema.py, `num_list_conv`.
use asct.Prelude.{
  ◌≡◌, refl, Bool, true, false, ◌||◌, Option, none, some, List, [], ◌∷◌, ℤ, ◌≤ℤ◌, if◌then◌else◌,
  arith, Result, ok, ◌∙◌, and_then-eq-ok, inl, inr, Bool-cases, subst,
}
use asct.Config.{
  ConvError, Setting, Options, num_list_conv, keep, unique, above, below, seen_in, item_beq,
  read_setting,
}

-- The number is at least the lower bound, if there is one.
unfoldable pub AtLeast : Option ℤ → ℤ → Type 0
AtLeast none n = Unit
AtLeast (some low) n = low ≤ℤ n

-- The number is at most the upper bound, if there is one.
unfoldable pub AtMost : Option ℤ → ℤ → Type 0
AtMost none n = Unit
AtMost (some high) n = n ≤ℤ high

-- The numbers are in the bounds.
pub InBounds : Options → List (Option ℤ) → Type 0
InBounds o [] = Unit
InBounds o (none ∷ xs) = InBounds o xs
InBounds o (some n ∷ xs) = AtLeast o.min_value n × AtMost o.max_value n × InBounds o xs

above→AtLeast : (o : Option ℤ) (n : ℤ) → above o n ≡ true → AtLeast o n
unfolding AtLeast
above→AtLeast none n h = tt
above→AtLeast (some low) n h = ground (arith, h)

AtLeast→above : (o : Option ℤ) (n : ℤ) → AtLeast o n → above o n ≡ true
unfolding AtLeast
AtLeast→above none n h = refl
AtLeast→above (some low) n h = ground (arith, h)

below→AtMost : (o : Option ℤ) (n : ℤ) → below o n ≡ true → AtMost o n
unfolding AtMost
below→AtMost none n h = tt
below→AtMost (some high) n h = ground (arith, h)

AtMost→below : (o : Option ℤ) (n : ℤ) → AtMost o n → below o n ≡ true
unfolding AtMost
AtMost→below none n h = refl
AtMost→below (some high) n h = ground (arith, h)

pub AreDistinct : List (Option ℤ) → Type 0
AreDistinct [] = Unit
AreDistinct (x ∷ xs) = (seen_in x xs ≡ false) × AreDistinct xs

keep-InBounds :
    (o : Options) (xs : List (Option ℤ))
    → InBounds o (keep (below o.max_value) (keep (above o.min_value) xs))
unfolding InBounds keep
keep-InBounds o [] = tt
keep-InBounds o (none ∷ xs) = keep-InBounds o xs
keep-InBounds o (some n ∷ xs) = elim (Bool-cases (above o.min_value n)) [
  | inl h ↦ elim (Bool-cases (below o.max_value n)) [
    | inl k ↦
        rw (h, k) (above→AtLeast o.min_value n h, below→AtMost o.max_value n k, keep-InBounds o xs)
    | inr k ↦ rw (h, k) (keep-InBounds o xs)
  ]
  | inr h ↦ rw h (keep-InBounds o xs)
]

unique-InBounds :
    (o : Options) (seen xs : List (Option ℤ)) → InBounds o xs → InBounds o (unique seen xs)
unfolding InBounds unique
unique-InBounds o seen [] h = tt
unique-InBounds o seen (none ∷ xs) h = elim (Bool-cases (seen_in none seen)) [
  | inl k ↦ rw k (unique-InBounds o seen xs h)
  | inr k ↦ rw k (unique-InBounds o (none ∷ seen) xs h)
]
unique-InBounds o seen (some n ∷ xs) (a, b, h) = elim (Bool-cases (seen_in (some n) seen)) [
  | inl k ↦ rw k (unique-InBounds o seen xs h)
  | inr k ↦ rw k (a, b, unique-InBounds o (some n ∷ seen) xs h)
]

item_beq_refl : (x : Option ℤ) → item_beq x x ≡ true
item_beq_refl none = refl
item_beq_refl (some n) = ground arith

item_beq_sym : (x y : Option ℤ) → item_beq x y ≡ item_beq y x
item_beq_sym none none = refl
item_beq_sym none (some n) = refl
item_beq_sym (some m) none = refl
item_beq_sym (some m) (some n) = ground arith

item_beq_trans : (x y z : Option ℤ) → item_beq x y ≡ true → item_beq x z ≡ item_beq y z
item_beq_trans none none z h = refl
item_beq_trans none (some n) z h = cc
item_beq_trans (some m) none z h = cc
item_beq_trans (some m) (some n) none h = refl
item_beq_trans (some m) (some n) (some k) h = ground (arith, h)

or_true : (a b : Bool) → b ≡ true → (a || b) ≡ true
or_true true b h = refl
or_true false b h = h

seen_in_trans :
    (x y : Option ℤ) (xs : List (Option ℤ)) → item_beq x y ≡ true → seen_in x xs ≡ seen_in y xs
seen_in_trans x y [] h = refl
seen_in_trans x y (z ∷ xs) h =
    rw (item_beq_sym z x, item_beq_sym z y, item_beq_trans x y z h, seen_in_trans x y xs h)

-- What is kept is new.
unique-seen :
    (x : Option ℤ) (seen xs : List (Option ℤ))
    → seen_in x seen ≡ true
    → seen_in x (unique seen xs) ≡ false
unfolding unique
unique-seen x seen [] h = refl
unique-seen x seen (y ∷ xs) h = elim (Bool-cases (seen_in y seen)) [
  | inl k ↦ rw k (unique-seen x seen xs h)
  | inr k ↦ elim (Bool-cases (item_beq y x)) [
    | inl m ↦ cc (k, h, seen_in_trans y x seen m)
    | inr m ↦ rw (k, m) (unique-seen x (y ∷ seen) xs (or_true (item_beq y x) (seen_in x seen) h))
  ]
]

unique-AreDistinct : (seen xs : List (Option ℤ)) → AreDistinct (unique seen xs)
unfolding AreDistinct unique
unique-AreDistinct seen [] = tt
unique-AreDistinct seen (x ∷ xs) =
    let self : item_beq x x ≡ true = item_beq_refl x in
    let first : seen_in x (x ∷ seen) ≡ true = rw self in
    elim (Bool-cases (seen_in x seen)) [
      | inl k ↦ rw k (unique-AreDistinct seen xs)
      | inr k ↦ rw k (unique-seen x (x ∷ seen) xs first, unique-AreDistinct (x ∷ seen) xs)
    ]

unique-seen_in :
    (x : Option ℤ) (seen xs : List (Option ℤ))
    → (seen_in x (unique seen xs) || seen_in x seen) ≡ (seen_in x xs || seen_in x seen)
unfolding unique
unique-seen_in x seen [] = refl
unique-seen_in x seen (y ∷ xs) = elim (Bool-cases (seen_in y seen)) [
  | inl k ↦ elim (Bool-cases (item_beq y x)) [
    | inl m ↦ rw k (ground (arith, k, m, seen_in_trans y x seen m, unique-seen_in x seen xs))
    | inr m ↦ rw (k, m) (unique-seen_in x seen xs)
  ]
  | inr k ↦ rw k (ground (arith, unique-seen_in x (y ∷ seen) xs))
]

abbrev kept : Options → List (Option ℤ) → List (Option ℤ)
kept o raw = keep (below o.max_value) (keep (above o.min_value) raw)

abbrev finished : Options → List (Option ℤ) → Result ConvError (List (Option ℤ))
finished o raw = ok (if o.unique_items then unique [] (kept o raw) else kept o raw)

unique_inv :
    (o : Options) (raw : List (Option ℤ)) {xs : List (Option ℤ)}
    → o.unique_items ≡ true
    → finished o raw ≡ ok xs
    → unique [] (kept o raw) ≡ xs
unique_inv o raw u h = cc (rw u at h)

plain_inv :
    (o : Options) (raw : List (Option ℤ)) {xs : List (Option ℤ)}
    → o.unique_items ≡ false
    → finished o raw ≡ ok xs
    → kept o raw ≡ xs
plain_inv o raw u h = cc (rw u at h)

-- A number in the bounds that was read is kept.
seen_in-keep :
    (test : ℤ → Bool) (n : ℤ) (xs : List (Option ℤ))
    → ((m : ℤ) → item_beq (some m) (some n) ≡ true → test m ≡ true)
    → seen_in (some n) (keep test xs) ≡ seen_in (some n) xs
unfolding keep
seen_in-keep test n [] h = refl
seen_in-keep test n (none ∷ xs) h = rw (seen_in-keep test n xs h) refl
seen_in-keep test n (some m ∷ xs) h = elim (Bool-cases (test m)) [
  | inl k ↦ rw k (rw (seen_in-keep test n xs h) refl)
  | inr k ↦ elim (Bool-cases (item_beq (some m) (some n))) [
    | inl e ↦ cc (h m e, k)
    | inr e ↦ rw (k, e) (seen_in-keep test n xs h)
  ]
]

above-equal :
    (o : Option ℤ) (m n : ℤ)
    → item_beq (some m) (some n) ≡ true
    → above o n ≡ true
    → above o m ≡ true
above-equal none m n e h = refl
above-equal (some low) m n e h = ground (arith, e, h)

below-equal :
    (o : Option ℤ) (m n : ℤ)
    → item_beq (some m) (some n) ≡ true
    → below o n ≡ true
    → below o m ≡ true
below-equal none m n e h = refl
below-equal (some high) m n e h = ground (arith, e, h)

-- A number in the bounds is in the one list exactly if it is in the other.
pub AgreeInBounds : Options → List (Option ℤ) → List (Option ℤ) → Type 0
AgreeInBounds o xs raw =
    (n : ℤ)
    → AtLeast o.min_value n
    → AtMost o.max_value n
    → seen_in (some n) xs ≡ seen_in (some n) raw

kept-AgreeInBounds : (o : Options) (raw : List (Option ℤ)) → AgreeInBounds o (kept o raw) raw
unfolding AgreeInBounds
kept-AgreeInBounds o raw n low high =
    seen_in-keep (below o.max_value) n (keep (above o.min_value) raw)
      (λ m e. below-equal o.max_value m n e (AtMost→below o.max_value n high))
    ∙ seen_in-keep (above o.min_value) n raw
        (λ m e. above-equal o.min_value m n e (AtLeast→above o.min_value n low))

unique-AgreeInBounds :
    (o : Options) (raw : List (Option ℤ)) → AgreeInBounds o (unique [] (kept o raw)) raw
unfolding AgreeInBounds
unique-AgreeInBounds o raw n low high =
    ground (arith, unique-seen_in (some n) [] (kept o raw)) ∙ kept-AgreeInBounds o raw n low high

-- The numbers of a converted list setting are within the bounds of its options, and each number
-- within them is there exactly if it is among the numbers that the setting is read to.
pub num_list_conv-InBounds :
    (o : Options) (value : Setting) (xs : List (Option ℤ))
    → num_list_conv o value ≡ ok xs
    → (raw : List (Option ℤ)) × (read_setting o.accept_ranges o.optional_items value ≡ ok raw)
      × InBounds o xs
      × AgreeInBounds o xs raw
unfolding num_list_conv
num_list_conv-InBounds o value xs h =
    let (raw, e, same) = and_then-eq-ok (read_setting o.accept_ranges o.optional_items value) _ h in
    elim (Bool-cases o.unique_items) [
      | inl u ↦
          let is : unique [] (kept o raw) ≡ xs = unique_inv o raw u same in
          (
            raw,
            e,
            subst (InBounds o) is (unique-InBounds o [] (kept o raw) (keep-InBounds o raw)),
            subst (λ l. AgreeInBounds o l raw) is (unique-AgreeInBounds o raw),
          )
      | inr u ↦
          let is : kept o raw ≡ xs = plain_inv o raw u same in
          (
            raw,
            e,
            subst (InBounds o) is (keep-InBounds o raw),
            subst (λ l. AgreeInBounds o l raw) is (kept-AgreeInBounds o raw),
          )
    ]

-- A converted list setting whose options ask for unique items holds no item twice.
pub num_list_conv-AreDistinct :
    (o : Options) (value : Setting) (xs : List (Option ℤ))
    → o.unique_items ≡ true
    → num_list_conv o value ≡ ok xs
    → AreDistinct xs
unfolding num_list_conv
num_list_conv-AreDistinct o value xs u h =
    let (raw, e, same) = and_then-eq-ok (read_setting o.accept_ranges o.optional_items value) _ h in
    subst AreDistinct (unique_inv o raw u same) (unique-AreDistinct [] (kept o raw))

-- Making the items of a list setting unique neither adds an item nor loses one.
pub unique-members : (x : Option ℤ) (xs : List (Option ℤ)) → seen_in x (unique [] xs) ≡ seen_in x xs
unique-members x xs = ground (arith, unique-seen_in x [] xs)
