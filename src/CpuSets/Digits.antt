-- ===== src/CpuSets/Digits.antt =====
-- Operations on the binary digits of two numbers, such as `|` and `&`, in terms of the halves.
use Prim.Native.Nat.{digits}
use asct.Prelude.{ℕ, zero, suc, ◌+◌, ◌*◌, ◌/◌, ◌%◌, ◌≤◌, ◌≡◌, refl, ◌∙◌, sym, ap, arith}

-- `op` of two digits, and `rest` where the first number has no digit left.
module _ (rest : ℕ → ℕ) (op : ℕ → ℕ → ℕ) where
  -- More fuel than digits changes nothing.
  digits_enough :
      (n extra x y : ℕ) → n ≤ extra → x ≤ n → digits rest op extra x y ≡ digits rest op n x y
  digits_enough zero zero x y p q = refl
  digits_enough zero (suc extra) zero y p q = refl
  digits_enough (suc n) (suc extra) zero y p q = refl
  digits_enough (suc n) zero x y p q = absurd (omega (arith, p))
  digits_enough zero (suc extra) (suc x) y p q = absurd (omega (arith, q))
  digits_enough (suc n) (suc extra) (suc x) y p q =
      ap (λ d. d * 2 + op (suc x % 2) (y % 2))
        (digits_enough n extra (suc x / 2) (y / 2) (omega (arith, p)) (omega (arith, q)))

  module _ (bitwise : ℕ → ℕ → ℕ) (law : (a b : ℕ) → bitwise a b ≡ digits rest op a a b)
      (no_digit : (b : ℕ) → rest b ≡ rest (b / 2) * 2 + op 0 (b % 2)) where
    pub halves : (a b : ℕ) → bitwise a b ≡ bitwise (a / 2) (b / 2) * 2 + op (a % 2) (b % 2)
    halves zero b = law 0 b ∙ no_digit b ∙ ap (λ d. d * 2 + op 0 (b % 2)) (sym (law 0 (b / 2)))
    halves (suc a) b =
        let shorter = digits_enough (suc a / 2) a (suc a / 2) (b / 2) (omega arith) (omega arith) in
        law (suc a) b
        ∙ ap (λ d. d * 2 + op (suc a % 2) (b % 2)) (shorter ∙ sym (law (suc a / 2) (b / 2)))
