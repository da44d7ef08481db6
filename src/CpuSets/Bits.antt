-- ===== src/CpuSets/Bits.antt =====
-- The bits of a number, and what `|` and `1 << n` do to them.
use Prim.Native.Nat.{bit_or, bit_or-bitwise}
use native.Mathlib.Nat.{pow-suc, one-le-pow}
use asct.Prelude.{
  ℕ, zero, suc, ◌+◌, ◌*◌, ◌/◌, ◌%◌, ◌^◌, ◌≤◌, max, ◌≡◌, refl, ◌==◌, if◌then◌else◌, arith, nat_key,
  ◌-◌, ltb, leb, ◌&&◌, ◌∙◌,
}
use asct.CpuSets.Digits.{halves}

-- Bit `k` of `m`: `m >> k & 1`.
unfoldable pub bit : ℕ → ℕ → ℕ
bit m zero = m % 2
bit m (suc k) = bit (m / 2) k

bit_or_step : (a b : ℕ) → bit_or a b ≡ bit_or (a / 2) (b / 2) * 2 + max (a % 2) (b % 2)
bit_or_step a b = halves (λ b. b) max bit_or (λ a b. bit_or-bitwise a b) (λ b. omega arith) a b

bit_or-half : (a b : ℕ) → bit_or a b / 2 ≡ bit_or (a / 2) (b / 2)
bit_or-half a b = omega (arith, bit_or_step a b)

bit_or-last : (a b : ℕ) → bit_or a b % 2 ≡ max (a % 2) (b % 2)
bit_or-last a b = omega (arith, bit_or_step a b)

pub bit-or : (a b k : ℕ) → bit (bit_or a b) k ≡ max (bit a k) (bit b k)
unfolding bit
bit-or a b zero = bit_or-last a b
bit-or a b (suc k) = rw (bit_or-half a b) (bit-or (a / 2) (b / 2) k)

pub bit-zero : (k : ℕ) → bit 0 k ≡ 0
unfolding bit
bit-zero zero = refl
bit-zero (suc k) = bit-zero k

bit-one : (k : ℕ) → bit 1 (suc k) ≡ 0
unfolding bit
bit-one k = bit-zero k

pow-half : (n : ℕ) → 2 ^ suc n / 2 ≡ 2 ^ n
pow-half n = omega (arith, pow-suc 2 n)

bit-suc : (m k : ℕ) → bit m (suc k) ≡ bit (m / 2) k
unfolding bit
bit-suc m k = refl

bit-last : (m : ℕ) → bit m 0 ≡ m % 2
unfolding bit
bit-last m = refl

pub bit-pow : (n k : ℕ) → bit (2 ^ n) k ≡ (if n == k then 1 else 0)
bit-pow zero zero = unfold bit in refl
bit-pow zero (suc k) = ground (arith, bit-one k)
bit-pow (suc n) zero = ground (arith, pow-suc 2 n, bit-last (2 ^ suc n))
bit-pow (suc n) (suc k) = rw (bit-suc (2 ^ suc n) k, pow-half n) (bit-pow n k ∙ ground arith)

ones_half : (h : ℕ) → (2 ^ suc h - 1) / 2 ≡ 2 ^ h - 1
ones_half h = omega (arith, pow-suc 2 h, one-le-pow h 2)

bit-ones : (h k : ℕ) → bit (2 ^ h - 1) k ≡ (if ltb k h then 1 else 0)
bit-ones zero k = ground (arith, bit-zero k)
bit-ones (suc h) zero = ground (arith, pow-suc 2 h, one-le-pow h 2, bit-last (2 ^ suc h - 1))
bit-ones (suc h) (suc k) = rw (bit-suc (2 ^ suc h - 1) k, ones_half h) (bit-ones h k ∙ ground arith)

range_half : (h l : ℕ) → (2 ^ suc h - 2 ^ suc l) / 2 ≡ 2 ^ h - 2 ^ l
range_half h l = omega (arith, pow-suc 2 h, pow-suc 2 l)

-- The bits of `(1 << h) - (1 << l)` are those from `l` up to `h`, which is left out.
pub bit-range : (h l k : ℕ) → l ≤ h → bit (2 ^ h - 2 ^ l) k ≡ (if leb l k && ltb k h then 1 else 0)
bit-range h zero k p = ground (arith, bit-ones h k)
bit-range zero (suc l) k p = absurd (omega arith)
bit-range (suc h) (suc l) zero p =
    ground (arith, pow-suc 2 h, pow-suc 2 l, bit-last (2 ^ suc h - 2 ^ suc l))
bit-range (suc h) (suc l) (suc k) p =
    rw (bit-suc (2 ^ suc h - 2 ^ suc l) k, range_half h l)
      (bit-range h l k (omega arith) ∙ ground arith)

ext_fuel : (fuel a b : ℕ) → a ≤ fuel → b ≤ fuel → ((k : ℕ) → bit a k ≡ bit b k) → a ≡ b
ext_fuel zero a b p q h = omega arith
ext_fuel (suc fuel) a b p q h =
    let halves : a / 2 ≡ b / 2 =
      ext_fuel fuel (a / 2) (b / 2) (omega arith) (omega arith) (λ k. unfold bit in h (suc k)) in
    let last : a % 2 ≡ b % 2 = unfold bit in h 0 in omega arith

-- Two numbers with the same bits are equal.
pub bit_ext : (a b : ℕ) → ((k : ℕ) → bit a k ≡ bit b k) → a ≡ b
bit_ext a b h = ext_fuel (max a b) a b (omega arith) (omega arith) h

pub bit-le_one : (m k : ℕ) → bit m k ≤ 1
unfolding bit
bit-le_one m zero = omega arith
bit-le_one m (suc k) = bit-le_one (m / 2) k
