-- ===== src/CpuSets/Subsets.antt =====
-- What `a & b` does to the bits, and inclusion of masks.
use Prim.Native.Nat.{bit_and, bit_and-bitwise}
use asct.Prelude.{
  ℕ, zero, suc, ◌+◌, ◌*◌, ◌/◌, ◌%◌, ◌≤◌, min, Bool, true, ◌≡◌, refl, ◌==◌, arith, nat_key,
  nat_beq_iff,
}
use asct.CpuSets.Bits.{bit, bit_ext}
use asct.CpuSets.Digits.{halves}

bit_and_step : (a b : ℕ) → bit_and a b ≡ bit_and (a / 2) (b / 2) * 2 + min (a % 2) (b % 2)
bit_and_step a b = halves (λ b. 0) min bit_and (λ a b. bit_and-bitwise a b) (λ b. omega arith) a b

bit_and-half : (a b : ℕ) → bit_and a b / 2 ≡ bit_and (a / 2) (b / 2)
bit_and-half a b = omega (arith, bit_and_step a b)

bit_and-last : (a b : ℕ) → bit_and a b % 2 ≡ min (a % 2) (b % 2)
bit_and-last a b = omega (arith, bit_and_step a b)

pub bit-and : (a b k : ℕ) → bit (bit_and a b) k ≡ min (bit a k) (bit b k)
unfolding bit
bit-and a b zero = bit_and-last a b
bit-and a b (suc k) = rw (bit_and-half a b) (bit-and (a / 2) (b / 2) k)

-- `is_subset` of `System.discover`
unfoldable pub is_subset : ℕ → ℕ → Bool
is_subset a b = bit_and a b == a

-- Every CPU of `a` is one of `b`.
abbrev pub Within : ℕ → ℕ → Type 0
Within a b = (k : ℕ) → bit a k ≤ bit b k

pub is_subset→Within : (a b : ℕ) → is_subset a b ≡ true → Within a b
unfolding is_subset
is_subset→Within a b h k =
    let same : bit_and a b ≡ a = (nat_beq_iff (bit_and a b) a).0 h in
    let bits : bit (bit_and a b) k ≡ bit a k = rw same refl in omega (arith, bit-and a b k)

pub Within→is_subset : (a b : ℕ) → Within a b → is_subset a b ≡ true
unfolding is_subset
Within→is_subset a b h =
    (nat_beq_iff (bit_and a b) a).1
      (bit_ext (bit_and a b) a (λ k. omega (arith, bit-and a b k, h k)))

pub Within-antisym : (a b : ℕ) → Within a b → Within b a → a ≡ b
Within-antisym a b h k = bit_ext a b (λ i. omega (arith, h i, k i))
