-- ===== src/Config/Ranges.antt =====
-- The ranges of a setting: src/core/recipes/configuration/schema.py, `num_list_conv`.
use asct.Prelude.{
  ℕ, zero, suc, ◌+◌, ◌-◌, ◌*◌, ◌≤◌, ◌<◌, ◌≡◌, refl, ◌∙◌, ap, true, none, some, List, [], ◌∷◌, ℤ,
  pos, ◌+ℤ◌, leb, if◌then◌else◌, get_elem?, arith, ok, inl, inr, subst, Bool-cases, pos_plus,
}
use asct.Config.{range_loop, expand_range}

-- The numbers that a range of positive step stands for.
pub Steps : ℕ → ℕ → ℕ → List ℤ → Type 0
Steps start end step l =
    (i : ℕ)
    → get_elem? l i ≡ (if leb (start + i * step) end then some (pos (start + i * step)) else none)

Steps-nil : (s e st : ℕ) → e < s → Steps s e st []
unfolding Steps
Steps-nil s e st h i = ground (arith)

Steps-cons : (s e st : ℕ) (l : List ℤ) → s ≤ e → Steps (s + st) e st l → Steps s e st (pos s ∷ l)
unfolding Steps
Steps-cons s e st l h hl zero = ground arith
Steps-cons s e st l h hl (suc i) =
    let same : s + st + i * st ≡ s + suc i * st = omega arith in
    subst (λ n. get_elem? l i ≡ (if leb n e then some (pos n) else none)) same (hl i)

range_loop-round :
    (fuel s e st : ℕ) (l : List ℤ)
    → leb s e ≡ true
    → range_loop fuel (pos (s + st)) (pos e) (pos st) ≡ some l
    → range_loop (suc fuel) (pos s) (pos e) (pos st) ≡ some (pos s ∷ l)
unfolding range_loop
range_loop-round fuel s e st l h e1 = rw (pos_plus s st, e1) (ground (arith, h))

range_loop-Steps :
    (fuel s e st : ℕ)
    → 1 ≤ st
    → e + 1 ≤ fuel + s
    → (l : List ℤ) × (range_loop (suc fuel) (pos s) (pos e) (pos st) ≡ some l) × Steps s e st l
unfolding range_loop
range_loop-Steps zero s e st h1 h2 = ([], ground arith, Steps-nil s e st (omega arith))
range_loop-Steps (suc fuel) s e st h1 h2 =
    let (l, e1, hl) = range_loop-Steps fuel (s + st) e st h1 (omega arith) in
    elim (Bool-cases (leb s e)) [
      | inl h ↦ (
        pos s ∷ l,
        range_loop-round (suc fuel) s e st l h e1,
        Steps-cons s e st l (ground (arith, h)) hl,
      )
      | inr h ↦ ([], ground (arith, h), Steps-nil s e st (ground (arith, h)))
    ]

-- A range `start-end:step` of a setting with a step of at least 1 ends within its fuel, and its
-- number at each position i is start + i * step when that is at most end, with none behind.
pub expand_range-Steps :
    (s e st : ℕ)
    → 1 ≤ st
    → (l : List ℤ) × (expand_range (pos s) (pos e) (pos st) ≡ ok l)
      × ((i : ℕ) → get_elem? l i ≡ (if leb (s + i * st) e then some (pos (s + i * st)) else none))
unfolding expand_range Steps
expand_range-Steps s e st h =
    let (l, e1, hl) = range_loop-Steps (e + 1 - s) s e st h (omega arith) in
    (l, rw (e1, expand_range), hl)

-- A range of a setting whose step is zero and whose start is at most its end never ends: no number
-- of rounds is enough.
pub range_loop-zero_step : (fuel s e : ℕ) → s ≤ e → range_loop fuel (pos s) (pos e) (pos 0) ≡ none
unfolding range_loop
range_loop-zero_step zero s e h = refl
range_loop-zero_step (suc fuel) s e h =
    let same : (pos s +ℤ pos 0) ≡ pos s = pos_plus s 0 ∙ ap pos (omega arith) in
    rw (same, range_loop-zero_step fuel s e h) (ground arith)
