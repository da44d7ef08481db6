-- ===== src/CpuSets.antt =====
-- Sets of CPUs as integer masks, as lists, and as the text of sysfs:
-- src/lib/sysreport/sr_cpulist.py, `intlist_mask` to `mask_cpusetstr`.
pub mod Bits
mod Digits
pub mod Masks
pub mod Subsets
pub mod SysfsText
mod Tests
use Prim.Native.Nat.{bit_or}
use asct.Prelude.{
  ℕ, zero, suc, ◌+◌, ◌-◌, ◌/◌, ◌%◌, ◌^◌, Option, none, some, List, [], ◌∷◌, ◌++◌, leb, ◌==◌,
  if◌then◌else◌, Result, ok, err, pos, and_then, nat_key, Bool, true, false,
}
use asct.Text.{Text, has, split, int, show}

add_bits : ℕ → List ℕ → ℕ
add_bits m [] = m
add_bits m (n ∷ ns) = add_bits (bit_or m (2 ^ n)) ns

unfoldable pub intlist_mask : List ℕ → ℕ
unfolding add_bits
intlist_mask = add_bits 0

-- The digits of `bin(n)`, from the last one.
binary : ℕ → ℕ → List ℕ
binary zero n = []
binary (suc fuel) zero = []
binary (suc fuel) (suc n) = suc n % 2 ∷ binary fuel (suc n / 2)

-- The positions, from `i` on, of the digits that are not 0.
positions : ℕ → List ℕ → List ℕ
positions i [] = []
positions i (d ∷ ds) = let rest = positions (i + 1) ds in if d == 0 then rest else i ∷ rest

unfoldable pub intmask_list : ℕ → List ℕ
unfolding binary positions
intmask_list n = positions 0 (binary n n)

-- Where `lo` passes `hi + 1` Python goes on with a negative mask, and the model stops with
-- `negative_mask`.
pub data MaskError : Type 0 where
  value_error negative_mask : MaskError

range_mask : Text → Text → Result MaskError ℕ
range_mask lo hi = elim (int hi) [
  | some (pos h) ↦ elim (int lo) [
    | some (pos l) ↦ if leb l (h + 1) then ok (2 ^ (h + 1) - 2 ^ l) else err negative_mask
    | _ ↦ err value_error
  ]
  | _ ↦ err value_error
]

-- `(lo, hi) = r.split("-")` wants exactly two parts.
dash_mask : List Text → Result MaskError ℕ
dash_mask (lo ∷ hi ∷ []) = range_mask lo hi
dash_mask _ = err value_error

part_mask : Text → Result MaskError ℕ
unfolding dash_mask range_mask
part_mask r =
    if has b'-' r
    then dash_mask (split b'-' r)
    else elim (int r) [ some (pos n) ↦ ok (2 ^ n) | _ ↦ err value_error ]

add_parts : ℕ → List Text → Result MaskError ℕ
unfolding part_mask
add_parts m [] = ok m
add_parts m (r ∷ rs) = and_then (part_mask r) (λ bits. add_parts (bit_or m bits) rs)

unfoldable pub cpusetstr_mask : Text → Result MaskError (Option ℕ)
unfolding add_parts
cpusetstr_mask [] = ok none
cpusetstr_mask (c ∷ s) = and_then (add_parts 0 (split b',' (c ∷ s))) (λ m. ok (some m))

-- `str(numbers)[1:-1]`
unfoldable pub list_text : List ℕ → Text
list_text [] = []
list_text (n ∷ []) = show n
list_text (n ∷ k ∷ ns) = show n ++ (b',' ∷ b' ' ∷ list_text (k ∷ ns))

unfoldable pub mask_cpusetstr : ℕ → Text
unfolding list_text
mask_cpusetstr m = list_text (intmask_list m)
