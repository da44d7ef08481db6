-- ===== src/Text/Decimal.antt =====
-- `int` on the texts that `str` prints.
use asct.Prelude.{
  ℕ, zero, suc, ◌+◌, ◌-◌, ◌*◌, ◌/◌, ◌%◌, ◌≤◌, ◌<◌, ◌≡◌, refl, ◌≢◌, true, false, some, [], ◌∷◌, ◌++◌,
  arith, pos, Bool-cases, ltb, inl, inr,
}
use asct.Text.{Text, has, digits_value, signed, int, show_fuel, show, strip, lstrip, rstrip}

abbrev pub IsDigit : ℕ → Type 0
IsDigit c = (48 ≤ c) × (c ≤ 57)

abbrev pub AllDigits : Text → Type 0
AllDigits [] = Unit {0}
AllDigits (c ∷ s) = IsDigit c × AllDigits s

unfoldable pub value : ℕ → Text → ℕ
value acc [] = acc
value acc (c ∷ s) = value (acc * 10 + (c - 48)) s

AllDigits-snoc : (s : Text) (c : ℕ) → AllDigits s → IsDigit c → AllDigits (s ++ c ∷ [])
AllDigits-snoc [] c h d = (d, tt)
AllDigits-snoc (x ∷ s) c h d = (h.0, AllDigits-snoc s c h.1 d)

value-snoc : (acc : ℕ) (s : Text) (c : ℕ) → value acc (s ++ c ∷ []) ≡ value acc s * 10 + (c - 48)
unfolding value
value-snoc acc [] c = refl
value-snoc acc (x ∷ s) c = value-snoc (acc * 10 + (x - 48)) s c

show_fuel-AllDigits : (fuel n : ℕ) → AllDigits (show_fuel fuel n)
unfolding show_fuel
show_fuel-AllDigits zero n = tt
show_fuel-AllDigits (suc fuel) n = elim (Bool-cases (ltb n 10)) [
  | inl small ↦ rw small (ground arith, tt)
  | inr large ↦
      rw large (
        AllDigits-snoc (show_fuel fuel (n / 10)) _ (show_fuel-AllDigits fuel (n / 10))
          (omega arith))
]

value-show : (fuel n : ℕ) → n < fuel → value 0 (show_fuel fuel n) ≡ n
unfolding show_fuel value
value-show zero n h = absurd (omega arith)
value-show (suc fuel) n h = elim (Bool-cases (ltb n 10)) [
  | inl small ↦ rw small (omega arith)
  | inr large ↦
      rw (large, value-snoc 0 (show_fuel fuel (n / 10)) (48 + n % 10))
        (ground (arith, value-show fuel (n / 10)))
]

digits_value-value :
    (acc : ℕ) (s : Text) → AllDigits s → digits_value acc true s ≡ some (value acc s)
unfolding digits_value value
digits_value-value acc [] h = refl
digits_value-value acc (c ∷ s) h = ground (arith, digits_value-value (acc * 10 + (c - 48)) s)

pub digits_value-cons :
    (c : ℕ) (s : Text) → AllDigits (c ∷ s) → digits_value 0 false (c ∷ s) ≡ some (value 0 (c ∷ s))
unfolding digits_value value
digits_value-cons c s h = ground (arith, digits_value-value (c - 48) s)

-- What `int` reads from digits, with a blank before them or not.
rstrip-digits : (s : Text) → AllDigits s → rstrip s ≡ s
unfolding rstrip
rstrip-digits [] h = refl
rstrip-digits (c ∷ []) h = ground arith
rstrip-digits (c ∷ d ∷ s) h = rw (rstrip-digits (d ∷ s) h.1)

lstrip-digits : (s : Text) → AllDigits s → lstrip s ≡ s
unfolding lstrip
lstrip-digits [] h = refl
lstrip-digits (c ∷ s) h = ground arith

strip-digits : (s : Text) → AllDigits s → strip s ≡ s
unfolding strip
strip-digits s h = rw (lstrip-digits s h, rstrip-digits s h)

strip-blank_digits : (s : Text) → AllDigits s → strip (32 ∷ s) ≡ s
unfolding strip
strip-blank_digits s h = strip-digits s h

signed-digits : (s : Text) → AllDigits s → s ≢ [] → signed s ≡ some (pos (value 0 s))
unfolding signed
signed-digits [] h full = absurd (full refl)
signed-digits (c ∷ s) h full = ground (arith, digits_value-cons c s h)

show-AllDigits : (n : ℕ) → AllDigits (show n)
unfolding show
show-AllDigits n = show_fuel-AllDigits (suc n) n

append-ne-nil : (s : Text) (c : ℕ) → s ++ c ∷ [] ≢ []
append-ne-nil [] c h = cc
append-ne-nil (x ∷ s) c h = cc

pub show-ne-nil : (n : ℕ) → show n ≢ []
unfolding show show_fuel
show-ne-nil n = elim (Bool-cases (ltb n 10)) [
  | inl small ↦ rw small (λ h. cc)
  | inr large ↦ rw large (append-ne-nil _ _)
]

value-of_show : (n : ℕ) → value 0 (show n) ≡ n
unfolding show
value-of_show n = value-show (suc n) n (omega arith)

pub int-show : (n : ℕ) → int (show n) ≡ some (pos n)
unfolding int
int-show n = rw (
  strip-digits (show n) (show-AllDigits n),
  signed-digits (show n) (show-AllDigits n) (show-ne-nil n),
  value-of_show n,
)

pub int-blank_show : (n : ℕ) → int (32 ∷ show n) ≡ some (pos n)
unfolding int
int-blank_show n = rw (
  strip-blank_digits (show n) (show-AllDigits n),
  signed-digits (show n) (show-AllDigits n) (show-ne-nil n),
  value-of_show n,
)

has-digits : (c : ℕ) (s : Text) → c < 48 → AllDigits s → has c s ≡ false
unfolding has
has-digits c [] small h = refl
has-digits c (x ∷ s) small h = ground (arith, has-digits c s small h.1)

pub has-show : (c n : ℕ) → c < 48 → has c (show n) ≡ false
has-show c n small = has-digits c (show n) small (show-AllDigits n)
