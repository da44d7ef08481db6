-- ===== src/Numeric/Powers.antt =====
-- `range_up` of src/lib/utility/numeric.py ends, and what it yields.
use native.Mathlib.Nat.{
  mul-le-mul_left, le-mul_of_pos_right, one-le-pow, pow-zero, pow-succ', mul_assoc,
}
use asct.Prelude.{
  ℕ, zero, suc, ◌+◌, ◌-◌, ◌*◌, ◌^◌, ◌≤◌, ◌<◌, ◌≡◌, refl, ◌∙◌, Bool, true, false, none, some, List,
  [], ◌∷◌, ok, arith, if◌then◌else◌, leb, get_elem?, Bool-cases, inl, inr, subst, sym, ap,
}
use asct.Numeric.{Yielded, exact, inter_steps, one_round, range_up_loop, range_up}

grows : (d step : ℕ) → 1 ≤ d → 2 ≤ step → d + 1 ≤ d * step
grows d step p q = omega (arith, p, q, mul-le-mul_left d q)

one_round-some :
    {F : Type 0} (d : ℕ) (r : List (Yielded F) × Bool) (rest : List (Yielded F))
    → (l : List (Yielded F)) × (one_round d r (some rest) ≡ some l)
one_round-some d (l, true) rest = (_, refl)
one_round-some d (l, false) rest = (_, refl)

-- The powers from `d` on that are at most `hi`.
unfoldable pub Powers : {F : Type 0} → ℕ → ℕ → ℕ → List (Yielded F) → Type 0
Powers d hi step l =
    (i : ℕ) → get_elem? l i ≡ (if leb (d * step ^ i) hi then some (exact (d * step ^ i)) else none)

module _ {F : Type 0} (intermediate : ℕ → ℕ → F) (is_above : F → Bool) where
  round_below :
      (fuel hi steps step d : ℕ)
      → leb d hi ≡ true
      → range_up_loop intermediate is_above (suc fuel) hi steps step d
        ≡ one_round d
            (inter_steps intermediate is_above (steps - 1) 1 d)
            (range_up_loop intermediate is_above fuel hi steps step (d * step))
  unfolding range_up_loop
  round_below fuel hi steps step d h = rw h refl

  round_above :
      (fuel hi steps step d : ℕ)
      → leb d hi ≡ false
      → range_up_loop intermediate is_above (suc fuel) hi steps step d ≡ some []
  unfolding range_up_loop
  round_above fuel hi steps step d h = rw h refl

  -- As many rounds as there are numbers from `d` to `hi`, and one more, are enough.
  range_up_loop-ends :
      (fuel hi steps step d : ℕ)
      → 1 ≤ d
      → 2 ≤ step
      → hi + 1 ≤ fuel + d
      → (l : List (Yielded F)) × (range_up_loop intermediate is_above (suc fuel) hi steps step d
          ≡ some l)
  range_up_loop-ends zero hi steps step d p q h =
      ([], round_above zero hi steps step d (ground arith))
  range_up_loop-ends (suc fuel) hi steps step d p q h =
      let more = grows d step p q in
      let (rest, e) =
        range_up_loop-ends fuel hi steps step (d * step) (omega arith) q (omega arith) in
      let (l, one) = one_round-some d (inter_steps intermediate is_above (steps - 1) 1 d) rest in
      elim (Bool-cases (leb d hi)) [
        | inl below ↦ (l, round_below (suc fuel) hi steps step d below ∙ rw e one)
        | inr above ↦ ([], round_above (suc fuel) hi steps step d above)
      ]

  Powers-nil : (d hi step : ℕ) → hi < d → 2 ≤ step → Powers {F = F} d hi step []
  unfolding Powers
  Powers-nil d hi step h q i =
      let larger = le-mul_of_pos_right d (one-le-pow i step (omega arith)) in ground arith

  Powers-cons :
      (d hi step : ℕ) (l : List (Yielded F))
      → d ≤ hi
      → Powers (d * step) hi step l
      → Powers d hi step (exact d ∷ l)
  unfolding Powers
  Powers-cons d hi step l h hl zero =
      let same : d * step ^ 0 ≡ d = ap (λ n. d * n) (pow-zero step) ∙ omega arith in
      rw same (ground arith)
  Powers-cons d hi step l h hl (suc i) =
      let same : d * step * step ^ i ≡ d * step ^ suc i =
        mul_assoc d step (step ^ i) ∙ ap (λ n. d * n) (sym (pow-succ' step i)) in
      subst (λ n. get_elem? l i ≡ (if leb n hi then some (exact n) else none)) same (hl i)

  range_up_loop-Powers :
      (fuel hi step d : ℕ)
      → 1 ≤ d
      → 2 ≤ step
      → hi + 1 ≤ fuel + d
      → (l : List (Yielded F)) × (range_up_loop intermediate is_above (suc fuel) hi 1 step d
          ≡ some l)
        × Powers d hi step l
  unfolding inter_steps
  range_up_loop-Powers zero hi step d p q h =
      ([], round_above zero hi 1 step d (ground arith), Powers-nil d hi step (omega arith) q)
  range_up_loop-Powers (suc fuel) hi step d p q h =
      let more = grows d step p q in
      let (rest, e, powers) =
        range_up_loop-Powers fuel hi step (d * step) (omega arith) q (omega arith) in
      elim (Bool-cases (leb d hi)) [
        | inl below ↦ (
          exact d ∷ rest,
          round_below (suc fuel) hi 1 step d below ∙ rw e refl,
          Powers-cons d hi step rest (ground (arith, below)) powers,
        )
        | inr above ↦ (
          [],
          round_above (suc fuel) hi 1 step d above,
          Powers-nil d hi step (ground (arith, above)) q,
        )
      ]

  range_up-loop :
      (fuel lo hi steps step : ℕ)
      → 1 ≤ steps
      → 2 ≤ step
      → range_up intermediate is_above fuel lo hi steps step
        ≡ ok (range_up_loop intermediate is_above fuel hi steps step lo)
  unfolding range_up
  range_up-loop fuel lo hi steps step s q =
      let positive : leb 1 steps ≡ true = ground arith in
      let large : leb 2 step ≡ true = ground arith in rw (positive, large) refl

  -- A range by a factor of at least 2 from a positive number ends within `hi` + 2 rounds, with any
  -- number of steps in between, and with none in between it yields the products of the start with
  -- the powers of the factor that are at most `hi`, in order, and nothing else.
  pub range_up-Powers :
      (lo hi steps step : ℕ)
      → 1 ≤ lo
      → 1 ≤ steps
      → 2 ≤ step
      → ((l : List (Yielded F)) × (range_up intermediate is_above (suc (hi + 1)) lo hi steps step
            ≡ ok (some l)))
        × ((l : List (Yielded F)) × (range_up intermediate is_above (suc (hi + 1)) lo hi 1 step
              ≡ ok (some l))
            × Powers lo hi step l)
  range_up-Powers lo hi steps step p s q =
      let (l, e) = range_up_loop-ends (hi + 1) hi steps step lo p q (omega arith) in
      let (powers, f, all) = range_up_loop-Powers (hi + 1) hi step lo p q (omega arith) in
      (
        (l, range_up-loop (suc (hi + 1)) lo hi steps step s q ∙ ap ok e),
        (powers, range_up-loop (suc (hi + 1)) lo hi 1 step (omega arith) q ∙ ap ok f, all),
      )
