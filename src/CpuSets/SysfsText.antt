-- ===== src/CpuSets/SysfsText.antt =====
-- Masks and the texts of sysfs: src/lib/sysreport/sr_cpulist.py, `cpusetstr_mask` and
-- `mask_cpusetstr`.
use Prim.Native.Nat.{bit_or}
use mathlib.Core.List.{append_assoc}
use asct.Prelude.{
  ℕ, ◌+◌, ◌-◌, ◌^◌, ◌≤◌, ◌<◌, ◌≡◌, refl, false, List, [], ◌∷◌, ◌++◌, arith, map, if◌then◌else◌,
  nat_key, ◌∙◌, ap, ok, some, true, leb, ◌&&◌, ◌≢◌, sym,
}
use asct.Text.{Text, has, split, show}
use asct.Text.Decimal.{int-show, int-blank_show, has-show, show-ne-nil}
use asct.Text.Split.{split-append, split-absent}
use asct.CpuSets.{
  add_bits, intlist_mask, intmask_list, part_mask, add_parts, range_mask, cpusetstr_mask, list_text,
  mask_cpusetstr,
}
use asct.CpuSets.Bits.{bit, bit-or, bit-zero, bit-range}
use asct.CpuSets.Masks.{intlist_mask-intmask_list}

abbrev pub blank_show : ℕ → Text
blank_show n = b' ' ∷ show n

has-append : (c : ℕ) (s t : Text) → has c s ≡ false → has c t ≡ false → has c (s ++ t) ≡ false
unfolding has
has-append c [] t p q = q
has-append c (x ∷ s) t p q = ground (arith, has-append c s t)

-- What stands before the first number, nothing or a blank, goes to its part.
pub split-list_text :
    (p : Text) (n : ℕ) (ns : List ℕ)
    → has 44 p ≡ false
    → split 44 (p ++ list_text (n ∷ ns)) ≡ (p ++ show n) ∷ map blank_show ns
unfolding list_text
split-list_text p n [] h =
    split-absent 44 (p ++ show n) (has-append 44 p (show n) h (has-show 44 n (omega arith)))
split-list_text p n (k ∷ ns) h = rw (← append_assoc p (show n) (44 ∷ 32 ∷ list_text (k ∷ ns))) (
    split-append 44 (p ++ show n) (32 ∷ list_text (k ∷ ns))
      (has-append 44 p (show n) h (has-show 44 n (omega arith)))
    ∙ ap (λ (rest : List Text). (p ++ show n) ∷ rest)
        (split-list_text (32 ∷ []) k ns (unfold has in ground arith)))

part_mask-show : (n : ℕ) → part_mask (show n) ≡ ok (2 ^ n)
unfolding part_mask
part_mask-show n = rw (has-show 45 n (omega arith), int-show n)

part_mask-blank_show : (n : ℕ) → part_mask (blank_show n) ≡ ok (2 ^ n)
unfolding part_mask has
part_mask-blank_show n = rw (has-show 45 n (omega arith), int-blank_show n)

add_parts-blank_show : (m : ℕ) (ns : List ℕ) → add_parts m (map blank_show ns) ≡ ok (add_bits m ns)
unfolding add_parts add_bits
add_parts-blank_show m [] = refl
add_parts-blank_show m (n ∷ ns) =
    rw (part_mask-blank_show n) (add_parts-blank_show (bit_or m (2 ^ n)) ns)

add_parts-list_text :
    (n : ℕ) (ns : List ℕ) → add_parts 0 (split 44 (list_text (n ∷ ns))) ≡ ok (intlist_mask (n ∷ ns))
unfolding intlist_mask add_bits has
add_parts-list_text n ns =
    rw (split-list_text [] n ns refl)
      (unfold add_parts in rw (part_mask-show n) (add_parts-blank_show (bit_or 0 (2 ^ n)) ns))

append-ne-nil : (s t : Text) → s ≢ [] → s ++ t ≢ []
append-ne-nil [] t full h = full refl
append-ne-nil (c ∷ s) t full h = cc

list_text-ne-nil : (n : ℕ) (ns : List ℕ) → list_text (n ∷ ns) ≢ []
unfolding list_text
list_text-ne-nil n [] = show-ne-nil n
list_text-ne-nil n (k ∷ ns) = append-ne-nil (show n) _ (show-ne-nil n)

cpusetstr_mask-of_parts :
    (s : Text) (m : ℕ) → s ≢ [] → add_parts 0 (split 44 s) ≡ ok m → cpusetstr_mask s ≡ ok (some m)
unfolding cpusetstr_mask
cpusetstr_mask-of_parts [] m full h = absurd (full refl)
cpusetstr_mask-of_parts (c ∷ s) m full h = rw h

mask_of_list :
    (m : ℕ) (ns : List ℕ)
    → 0 < m
    → intmask_list m ≡ ns
    → add_parts 0 (split 44 (list_text ns)) ≡ ok m × (list_text ns ≢ [])
mask_of_list m [] positive e = absurd (ground (arith, intlist_mask-intmask_list m, mask_of_nil))
  where
    mask_of_nil : intlist_mask [] ≡ 0
    mask_of_nil = unfold intlist_mask add_bits in refl
mask_of_list m (n ∷ ns) positive e = (
  add_parts-list_text n ns ∙ ap ok (ap intlist_mask (sym e) ∙ intlist_mask-intmask_list m),
  list_text-ne-nil n ns,
)

-- Every mask but 0 is read back from the text that `mask_cpusetstr` prints for it.
pub cpusetstr_mask-mask_cpusetstr :
    (m : ℕ) → 0 < m → cpusetstr_mask (mask_cpusetstr m) ≡ ok (some m)
unfolding mask_cpusetstr
cpusetstr_mask-mask_cpusetstr m positive =
    let (parts, full) = mask_of_list m (intmask_list m) positive refl in
    cpusetstr_mask-of_parts (list_text (intmask_list m)) m full parts

abbrev pub range_text : ℕ → ℕ → Text
range_text lo hi = show lo ++ (b'-' ∷ show hi)

has-dash : (s t : Text) → has 45 (s ++ 45 ∷ t) ≡ true
unfolding has
has-dash [] t = ground arith
has-dash (c ∷ s) t = ground (arith, has-dash s t)

range_mask-show :
    (lo hi : ℕ) → lo ≤ hi + 1 → range_mask (show lo) (show hi) ≡ ok (2 ^ (hi + 1) - 2 ^ lo)
unfolding range_mask
range_mask-show lo hi h = ground (arith, int-show lo, int-show hi)

part_mask-range :
    (lo hi : ℕ) → lo ≤ hi + 1 → part_mask (range_text lo hi) ≡ ok (2 ^ (hi + 1) - 2 ^ lo)
unfolding part_mask
part_mask-range lo hi h =
    rw
      (
        has-dash (show lo) (show hi),
        split-append 45 (show lo) (show hi) (has-show 45 lo (omega arith)),
        split-absent 45 (show hi) (has-show 45 hi (omega arith)),
      )
      (range_mask-show lo hi h)

has-comma_range : (lo hi : ℕ) → has 44 (range_text lo hi) ≡ false
has-comma_range lo hi =
    has-append 44 (show lo) (45 ∷ show hi) (has-show 44 lo (omega arith))
      (unfold has in ground (arith, has-show 44 hi))

bit-or_zero : (m k : ℕ) → bit (bit_or 0 m) k ≡ bit m k
bit-or_zero m k = ground (arith, bit-or 0 m k, bit-zero k)

-- The text `lo-hi`, with `lo` at most `hi`, is read as a mask whose bits are exactly those from
-- `lo` to `hi`.
pub cpusetstr_mask-range :
    (lo hi : ℕ)
    → lo ≤ hi
    → (m : ℕ) × (cpusetstr_mask (range_text lo hi) ≡ ok (some m))
      × ((k : ℕ) → bit m k ≡ (if leb lo k && leb k hi then 1 else 0))
unfolding add_parts
cpusetstr_mask-range lo hi h =
    let m : ℕ = bit_or 0 (2 ^ (hi + 1) - 2 ^ lo) in
    (
      m,
      cpusetstr_mask-of_parts (range_text lo hi) m
          (append-ne-nil (show lo) (45 ∷ show hi) (show-ne-nil lo))
          (rw (split-absent 44 (range_text lo hi) (has-comma_range lo hi))
            (rw (part_mask-range lo hi (omega arith)))),
      λ k.
          bit-or_zero (2 ^ (hi + 1) - 2 ^ lo) k
          ∙ ground (arith, bit-range (hi + 1) lo k (omega arith)),
    )
