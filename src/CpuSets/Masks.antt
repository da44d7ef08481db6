-- ===== src/CpuSets/Masks.antt =====
-- Masks and lists of CPU numbers: src/lib/sysreport/sr_cpulist.py, `intlist_mask`, `intmask_list`.
use Prim.Native.Nat.{bit_or}
use asct.Prelude.{
  ℕ, zero, suc, ◌+◌, ◌^◌, ◌/◌, ◌≤◌, ◌<◌, ◌≡◌, refl, false, List, [], ◌∷◌, ◌==◌, arith,
  if◌then◌else◌, max, nat_key,
}
use asct.Dict.{contains}
use asct.CpuSets.{add_bits, intlist_mask, binary, positions, intmask_list}
use asct.CpuSets.Bits.{bit, bit-or, bit-zero, bit-pow, bit_ext, bit-le_one}

-- 1 if `k` stands in `ns`
abbrev pub member : ℕ → List ℕ → ℕ
member k ns = if contains k ns then 1 else 0

bit-add_bits : (m : ℕ) (ns : List ℕ) (k : ℕ) → bit (add_bits m ns) k ≡ max (bit m k) (member k ns)
unfolding add_bits contains
bit-add_bits m [] k = ground arith
bit-add_bits m (n ∷ ns) k =
    ground
      (arith, bit-add_bits (bit_or m (2 ^ n)) ns k, bit-or m (2 ^ n) k, bit-pow n k, bit-le_one m k)

-- Bit `k` of the mask of a list is set exactly when `k` is in the list.
pub bit-intlist_mask : (ns : List ℕ) (k : ℕ) → bit (intlist_mask ns) k ≡ member k ns
unfolding intlist_mask
bit-intlist_mask ns k = ground (arith, bit-add_bits 0 ns k, bit-zero k)

contains-positions_below : (i j : ℕ) (ds : List ℕ) → j < i → contains j (positions i ds) ≡ false
unfolding contains positions
contains-positions_below i j [] h = refl
contains-positions_below i j (d ∷ ds) h = ground (arith, contains-positions_below (i + 1) j ds)

contains-positions :
    (fuel m i k j : ℕ)
    → m ≤ fuel
    → i + k ≡ j
    → contains j (positions i (binary fuel m)) ≡ (bit m k == 1)
unfolding contains positions binary bit
contains-positions zero m i k j h e = ground (arith, bit-of_zero m k)
  where
    bit-of_zero : (m k : ℕ) → m ≤ 0 → bit m k ≡ 0
    bit-of_zero zero k p = bit-zero k
    bit-of_zero (suc m) k p = absurd (omega arith)
contains-positions (suc fuel) zero i k j h e = ground (arith, bit-zero k)
contains-positions (suc fuel) (suc m) i zero j h e =
    ground (arith, contains-positions_below (i + 1) j (binary fuel (suc m / 2)))
contains-positions (suc fuel) (suc m) i (suc k) j h e =
    ground (arith, contains-positions fuel (suc m / 2) (i + 1) k j)

-- `intmask_list` lists the bits that are set.
pub contains-intmask_list : (m k : ℕ) → contains k (intmask_list m) ≡ (bit m k == 1)
unfolding intmask_list
contains-intmask_list m k = contains-positions m m 0 k k (omega arith) (omega arith)

-- The mask of the list of a mask is that mask.
pub intlist_mask-intmask_list : (m : ℕ) → intlist_mask (intmask_list m) ≡ m
intlist_mask-intmask_list m = bit_ext _ m λ k.
    ground (arith, bit-intlist_mask (intmask_list m) k, contains-intmask_list m k, bit-le_one m k)

-- The list of the mask of a list has the same members as that list.
pub contains-intmask_list-intlist_mask :
    (ns : List ℕ) (k : ℕ) → contains k (intmask_list (intlist_mask ns)) ≡ contains k ns
contains-intmask_list-intlist_mask ns k =
    ground (arith, contains-intmask_list (intlist_mask ns) k, bit-intlist_mask ns k)
