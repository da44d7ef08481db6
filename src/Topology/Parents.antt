-- ===== src/Topology/Parents.antt =====
-- The parent that `System.discover` finds for a group: src/lib/sysreport/sr_cpulist.py.
use asct.Prelude.{
  ℕ, zero, suc, ◌/◌, ◌%◌, ◌≤◌, true, ◌≡◌, ◌≢◌, refl, List, [], ◌∷◌, arith, ◌==◌, nat_key, not, ◌&&◌,
  nat_beq_iff, Bool-cases, inl, inr, if◌then◌else◌, ◌⊎◌, subst, sym,
}
use asct.Dict.{contains}
use asct.CpuSets.Bits.{bit}
use asct.CpuSets.Subsets.{is_subset, Within, is_subset→Within, Within→is_subset, Within-antisym}
use asct.Topology.{best_parent}

le_fuel : (fuel a b : ℕ) → a ≤ fuel → Within a b → a ≤ b
le_fuel zero a b p h = omega arith
le_fuel (suc fuel) zero b p h = omega arith
le_fuel (suc fuel) (suc a) b p h =
    let halves : suc a / 2 ≤ b / 2 =
      le_fuel fuel (suc a / 2) (b / 2) (omega arith) (λ k. unfold bit in h (suc k)) in
    let last : suc a % 2 ≤ b % 2 = unfold bit in h 0 in omega arith

pub Within-le : (a b : ℕ) → Within a b → a ≤ b
Within-le a b h = le_fuel a a b (omega arith) h

Within-trans : (a b c : ℕ) → Within a b → Within b c → Within a c
Within-trans a b c h k i = omega (arith, h i, k i)

-- `p` is a group around `g`, and no group of the list lies between the two.
pub record IsParent (g p top : ℕ) (masks : List ℕ) : Type 0 where
  pub around : Within g p
  pub other : p ≢ g
  pub inside : Within p top
  pub smallest : (m : ℕ) → contains m masks ≡ true → m ≢ g → Within g m → Within m p → m ≡ p

abbrev IsCandidate : ℕ → ℕ → Type 0
IsCandidate g m = (m ≢ g) × Within g m

-- One round of the loop.
next_best : ℕ → ℕ → ℕ → ℕ
next_best g best m = if not (m == g) && (is_subset g m && is_subset m best) then m else best

next_best-cases :
    (g best m : ℕ)
    → ((next_best g best m ≡ m) × (m ≢ g) × Within g m × Within m best)
      ⊎ ((next_best g best m ≡ best) × (IsCandidate g m → Within m best → ⊥))
unfolding next_best
next_best-cases g best m = elim (Bool-cases (m == g)) [
  | inl same ↦ inr (rw same refl, λ c _. c.0 ((nat_beq_iff m g).0 same))
  | inr other ↦ elim (Bool-cases (is_subset g m)) [
    | inr out ↦ inr (
      rw (other, out) refl,
      λ c _. let yes' : is_subset g m ≡ true = Within→is_subset g m c.1 in cc (out, yes'),
    )
    | inl around ↦ elim (Bool-cases (is_subset m best)) [
      | inr out ↦ inr (
        rw (other, around, out) refl,
        λ _ w. let yes' : is_subset m best ≡ true = Within→is_subset m best w in cc (out, yes'),
      )
      | inl inside ↦ inl (
        (rw (other, around, inside) refl),
        (λ e. let same : (m == g) ≡ true = (nat_beq_iff m g).1 e in cc (other, same)),
        is_subset→Within g m around,
        is_subset→Within m best inside,
      )
    ]
  ]
]

next_best-Within : (g best m : ℕ) → Within (next_best g best m) best
next_best-Within g best m = elim (next_best-cases g best m) [
  | inl taken ↦ subst (λ b. Within b best) (sym taken.0) taken.3
  | inr kept ↦ subst (λ b. Within b best) (sym kept.0) (λ k. omega arith)
]

next_best-IsCandidate : (g best m : ℕ) → IsCandidate g best → IsCandidate g (next_best g best m)
next_best-IsCandidate g best m c = elim (next_best-cases g best m) [
  | inl taken ↦ subst (IsCandidate g) (sym taken.0) (taken.1, taken.2)
  | inr kept ↦ subst (IsCandidate g) (sym kept.0) c
]

best_parent-cons :
    (g best m : ℕ) (ms : List ℕ)
    → best_parent g best (m ∷ ms) ≡ best_parent g (next_best g best m) ms
unfolding best_parent next_best
best_parent-cons g best m ms = refl

best_parent-Within : (g best : ℕ) (ms : List ℕ) → Within (best_parent g best ms) best
best_parent-Within g best [] = unfold best_parent in λ k. omega arith
best_parent-Within g best (m ∷ ms) = rw (best_parent-cons g best m ms) (
    Within-trans (best_parent g (next_best g best m) ms) (next_best g best m) best
      (best_parent-Within g (next_best g best m) ms) (next_best-Within g best m))

best_parent-IsCandidate :
    (g best : ℕ) (ms : List ℕ) → IsCandidate g best → IsCandidate g (best_parent g best ms)
best_parent-IsCandidate g best [] c = unfold best_parent in c
best_parent-IsCandidate g best (m ∷ ms) c =
    rw (best_parent-cons g best m ms)
      (best_parent-IsCandidate g (next_best g best m) ms (next_best-IsCandidate g best m c))

-- A candidate within the final parent, met in this round, is that parent.
met : (g best m p : ℕ) → Within p (next_best g best m) → IsCandidate g m → Within m p → m ≡ p
met g best m p below c w = elim (next_best-cases g best m) [
  | inl taken ↦ Within-antisym m p w (subst (Within p) taken.0 below)
  | inr kept ↦ absurd (kept.1 c (Within-trans m p best w (subst (Within p) kept.0 below)))
]

best_parent-smallest :
    (g best : ℕ) (ms : List ℕ) (m : ℕ)
    → contains m ms ≡ true
    → IsCandidate g m
    → Within m (best_parent g best ms)
    → m ≡ best_parent g best ms
unfolding contains
best_parent-smallest g best [] m h c w = cc h
best_parent-smallest g best (x ∷ ms) m h c w =
    rw (best_parent-cons g best x ms) (elim (Bool-cases (x == m)) [
      | inl same ↦
          let here : x ≡ m = (nat_beq_iff x m).0 same in
          met g best m (best_parent g (next_best g best x) ms)
            (rw (← here) (best_parent-Within g (next_best g best x) ms)) c
            (rw (← best_parent-cons g best x ms) w)
      | inr other ↦
          best_parent-smallest g (next_best g best x) ms m (ground (arith, other, h)) c
            (rw (← best_parent-cons g best x ms) w)
    ])

-- Between a group and the top one the loop finds a smallest group, in any family of masks.
pub best_parent-IsParent :
    (g top : ℕ) (masks : List ℕ)
    → g ≢ top
    → Within g top
    → IsParent g (best_parent g top masks) top masks
best_parent-IsParent g top masks ne w =
    let c = best_parent-IsCandidate g top masks (λ e. ne (sym e), w) in
    record {
      around = c.1;
      other = c.0;
      inside = best_parent-Within g top masks;
      smallest = λ m h o a b. best_parent-smallest g top masks m h (o, a) b;
    }
