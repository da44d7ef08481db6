-- ===== src/Sweep/Plateau.antt =====
-- The sizes that `explore_plateau` of src/core/sweep_algorithm.py asks for.
use asct.Prelude.{
  ℕ, ◌+◌, ◌/◌, ◌≤◌, ◌<◌, Bool, true, false, ◌≡◌, refl, Option, none, some, List, [], ◌∷◌, ◌++◌, ltb,
  arith, ◌||◌, nat_key, nat_beq_iff, Bool-cases, inl, inr, ◌⊎◌,
}
use asct.Text.{Text, text_key}
use asct.Dict.{Dict, contains, lookup}
use asct.Dict.Laws.{lookup-insert_self}
use asct.Sweep.{
  Row, Bounds, sizes, least, greatest, least_or, greatest_or, smaller, larger, explore_lower,
  explore_upper, plateau_sizes, lower_side, upper_side, explore_plateau,
}

greatest-ge : (m : ℕ) (ns : List ℕ) → m ≤ greatest m ns
unfolding greatest
greatest-ge m [] = omega arith
greatest-ge m (n ∷ ns) = ground (arith, greatest-ge m ns, greatest-ge n ns)

greatest-bound : (m : ℕ) (ns : List ℕ) (x : ℕ) → contains x ns ≡ true → x ≤ greatest m ns
unfolding greatest contains
greatest-bound m [] x h = cc h
greatest-bound m (n ∷ ns) x h = ground (
  arith,
  nat_beq_iff n x,
  greatest-ge m ns,
  greatest-ge n ns,
  greatest-bound m ns x,
  greatest-bound n ns x,
)

least-le : (m : ℕ) (ns : List ℕ) → least m ns ≤ m
unfolding least
least-le m [] = omega arith
least-le m (n ∷ ns) = ground (arith, least-le m ns, least-le n ns)

least-bound : (m : ℕ) (ns : List ℕ) (x : ℕ) → contains x ns ≡ true → least m ns ≤ x
unfolding least contains
least-bound m [] x h = cc h
least-bound m (n ∷ ns) x h =
    ground
      (arith, nat_beq_iff n x, least-le m ns, least-le n ns, least-bound m ns x, least-bound n ns x)

greatest_or-bound : (d : ℕ) (ns : List ℕ) (x : ℕ) → contains x ns ≡ true → x ≤ greatest_or d ns
greatest_or-bound d [] x h = unfold contains in cc h
greatest_or-bound d (n ∷ ns) x h =
    unfold contains in ground (arith, h, nat_beq_iff n x, greatest-ge n ns, greatest-bound n ns x)

least_or-bound : (d : ℕ) (ns : List ℕ) (x : ℕ) → contains x ns ≡ true → least_or d ns ≤ x
least_or-bound d [] x h = unfold contains in cc h
least_or-bound d (n ∷ ns) x h =
    unfold contains in ground (arith, h, nat_beq_iff n x, least-le n ns, least-bound n ns x)

contains-smaller :
    (b : ℕ) (ns : List ℕ) (x : ℕ) → contains x ns ≡ true → x < b → contains x (smaller b ns) ≡ true
unfolding smaller contains
contains-smaller b [] x h lt = cc h
contains-smaller b (n ∷ ns) x h lt = ground (arith, nat_beq_iff n x, contains-smaller b ns x)

contains-larger :
    (b : ℕ) (ns : List ℕ) (x : ℕ) → contains x ns ≡ true → b < x → contains x (larger b ns) ≡ true
unfolding larger contains
contains-larger b [] x h lt = cc h
contains-larger b (n ∷ ns) x h lt = ground (arith, nat_beq_iff n x, contains-larger b ns x)

-- Nothing that was measured lies strictly between the bound and the nearest size beyond it.
explore_lower-new :
    (all : List ℕ) (lb x : ℕ)
    → contains x (explore_lower all lb) ≡ true
    → (contains x all ≡ false) × (x < lb)
unfolding explore_lower
explore_lower-new all lb x h = elim (Bool-cases (ltb (greatest_or 0 (smaller lb all) + 1) lb)) [
  | inr narrow ↦ unfold contains in cc (rw narrow at h)
  | inl wide ↦
      let below = greatest_or 0 (smaller lb all) in
      let is : (lb + greatest_or 0 (smaller lb all)) / 2 ≡ x =
        unfold contains in ground (arith, rw wide at h, nat_beq_iff ((lb + below) / 2) x) in
      let lt : x < lb = ground (arith, wide, is) in
      let gt : greatest_or 0 (smaller lb all) < x = ground (arith, wide, is) in
      elim (Bool-cases (contains x all)) [
        | inr absent ↦ (absent, lt)
        | inl there ↦ absurd (
            omega
              (arith, greatest_or-bound 0 (smaller lb all) x (contains-smaller lb all x there lt)))
      ]
]

explore_upper-new :
    (top : ℕ) (all : List ℕ) (ub x : ℕ)
    → contains x (explore_upper top all ub) ≡ true
    → (contains x all ≡ false) × (ub < x)
unfolding explore_upper
explore_upper-new top all ub x h = elim (Bool-cases (ltb (ub + 1) (least_or top (larger ub all)))) [
  | inr narrow ↦ unfold contains in cc (rw narrow at h)
  | inl wide ↦
      let above = least_or top (larger ub all) in
      let is : (ub + least_or top (larger ub all)) / 2 ≡ x =
        unfold contains in ground (arith, rw wide at h, nat_beq_iff ((ub + above) / 2) x) in
      let gt : ub < x = ground (arith, wide, is) in
      let lt : x < least_or top (larger ub all) = ground (arith, wide, is) in
      elim (Bool-cases (contains x all)) [
        | inr absent ↦ (absent, gt)
        | inl there ↦ absurd (
            omega (arith, least_or-bound top (larger ub all) x (contains-larger ub all x there gt)))
      ]
]

lower_side-new :
    (least' : ℕ) (name : Option Text) (all plateau : List ℕ) (x : ℕ)
    → contains x (lower_side least' name all plateau).0 ≡ true
    → (contains x all ≡ false) × (x < (lower_side least' name all plateau).1)
unfolding lower_side
lower_side-new m (some name) all (n ∷ ns) x h = explore_lower-new all (least n ns) x h
lower_side-new m (some name) all [] x h = unfold contains in cc h
lower_side-new m none all [] x h = unfold contains in cc h
lower_side-new m none all (n ∷ ns) x h = unfold contains in cc h

upper_side-new :
    (most : ℕ) (next : Option Text) (all plateau : List ℕ) (x : ℕ)
    → contains x (upper_side most next all plateau).0 ≡ true
    → (contains x all ≡ false) × ((upper_side most next all plateau).1 < x)
unfolding upper_side
upper_side-new m (some next) all (n ∷ ns) x h = explore_upper-new m all (greatest n ns) x h
upper_side-new m (some next) all [] x h = unfold contains in cc h
upper_side-new m none all [] x h = unfold contains in cc h
upper_side-new m none all (n ∷ ns) x h = unfold contains in cc h

contains-append :
    (x : ℕ) (xs ys : List ℕ) → contains x (xs ++ ys) ≡ (contains x xs || contains x ys)
unfolding contains
contains-append x [] ys = refl
contains-append x (y ∷ xs) ys = ground (arith, contains-append x xs ys)

module _ {F : Type 0} (at_plateau at_next : F → Bool) where
  -- The bounds that are found for a level.
  abbrev pub low_of : ℕ → List (Row F) → Option Text → Option Text → ℕ
  low_of smallest df name next =
      (lower_side smallest name (sizes df) (plateau_sizes at_plateau at_next name next df)).1

  abbrev pub high_of : ℕ → List (Row F) → Option Text → Option Text → ℕ
  high_of most df name next =
      (upper_side most next (sizes df) (plateau_sizes at_plateau at_next name next df)).1

  -- Each size that is asked for is new: it was not measured before, and it lies outside the bounds
  -- that are recorded for the level.
  pub explore_plateau-new :
      (smallest most : ℕ) (df : List (Row F)) (new_sizes : List ℕ) (bounds : Dict Text Bounds)
      (name next : Option Text) (level : Text) (x : ℕ)
      → contains x
          (explore_plateau at_plateau at_next smallest most df new_sizes bounds name next level).0
        ≡ true
      → contains x new_sizes ≡ false
      → (contains x (sizes df) ≡ false)
        × ((b : Bounds) × (lookup level
                (explore_plateau at_plateau at_next smallest most df new_sizes bounds name next
                  level).1
              ≡ some b)
            × ((x < b.lower) ⊎ (b.upper < x)))
  unfolding explore_plateau
  explore_plateau-new smallest most df new_sizes bounds name next level x h old =
      let plateau = plateau_sizes at_plateau at_next name next df in
      let low = lower_side smallest name (sizes df) plateau in
      let high = upper_side most next (sizes df) plateau in
      let found : Bounds = record { lower = low.1; upper = high.1 } in
      elim (Bool-cases (contains x low.0)) [
        | inl here ↦
            let (absent, lt) = lower_side-new smallest name (sizes df) plateau x here in
            (absent, (found, lookup-insert_self level found bounds, inl lt))
        | inr not_low ↦
            let here : contains x (upper_side most next (sizes df) plateau).0 ≡ true = ground (
              arith,
              contains-append x (new_sizes ++ low.0) high.0,
              contains-append x new_sizes low.0,
              h,
              old,
              not_low,
            ) in
            let (absent, gt) = upper_side-new most next (sizes df) plateau x here in
            (absent, (found, lookup-insert_self level found bounds, inr gt))
      ]
