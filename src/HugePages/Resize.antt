-- ===== src/HugePages/Resize.antt =====
-- How a request is fitted to the page sizes of a node: src/core/resources/hugepages.py,
-- `HugePageSizeResolver._adjust_to_available_size`.
use asct.Prelude.{
  ℕ, ◌*◌, ◌/◌, ◌%◌, ◌≤◌, ◌<◌, ◌≡◌, ◌∙◌, ap, sym, subst, Bool, true, false, Option, none, some, List,
  [], ◌∷◌, Result, ok, err, and_then, ltb, if◌then◌else◌, ◌==◌, nat_key, arith, Bool-cases, inl,
  inr, ==_refl, ◌≢◌, nat_beq_iff, Result-cases, ◌⊎◌,
}
use native.Mathlib.Nat.{div-add-mod}
use asct.Dict.{contains}
use asct.HugePages.{HugeError, zero_division, scaled, find_fallback, adjust}

-- The sizes are sorted from the largest to the smallest.
unfoldable pub AreSorted : List ℕ → Type 0
AreSorted [] = Unit
AreSorted (a ∷ sizes) = ((b : ℕ) → contains b sizes ≡ true → b ≤ a) × AreSorted sizes

-- A size that the request of `count` pages of `size` may be fitted to.
unfoldable pub Fits : (ℕ → ℕ → Result HugeError Bool) → ℕ → ℕ → ℕ → Type 0
Fits valid size count avail =
    (avail < size)
    × (0 < avail)
    × (size % avail ≡ 0)
    × (valid avail (count * (size / avail)) ≡ ok true)

find_fallback-cases :
    (valid : ℕ → ℕ → Result HugeError Bool) (size count a : ℕ) (sizes : List ℕ)
    → ((find_fallback valid size count (a ∷ sizes) ≡ ok (some a)) × Fits valid size count a)
      ⊎ (((find_fallback valid size count (a ∷ sizes) ≡ find_fallback valid size count sizes)
            × ¬ Fits valid size count a)
          ⊎ ((e : HugeError) × (find_fallback valid size count (a ∷ sizes) ≡ err e)))
unfolding find_fallback Fits
find_fallback-cases valid size count a sizes = elim (Bool-cases (ltb a size)) [
  | inr l ↦ inr (inl (rw l, λ f. ground (arith, l, f.0)))
  | inl l ↦ elim (Bool-cases (a == 0)) [
    | inl z ↦ inr (inr (zero_division, rw (l, z)))
    | inr z ↦ elim (Bool-cases (size % a == 0)) [
      | inr d ↦ inr (inl (rw (l, z, d), λ f. cc (rw f.2 at d)))
      | inl d ↦ elim (Result-cases (valid a (count * (size / a)))) [
        | inr (e, v) ↦ inr (inr (e, rw (l, z, d, v)))
        | inl (true, v) ↦ inl (
          rw (l, z, d, v),
          (ground (arith, l), ground (arith, z), (nat_beq_iff (size % a) 0).0 d, v),
        )
        | inl (false, v) ↦ inr (inl (rw (l, z, d, v), λ f. cc (v, f.3)))
      ]
    ]
  ]
]

find_fallback-some :
    (valid : ℕ → ℕ → Result HugeError Bool) (size count : ℕ) (sizes : List ℕ) {avail : ℕ}
    → find_fallback valid size count sizes ≡ ok (some avail)
    → Fits valid size count avail × (contains avail sizes ≡ true)
unfolding contains find_fallback
find_fallback-some valid size count [] h = cc h
find_fallback-some valid size count (a ∷ sizes) {avail} h =
    elim (find_fallback-cases valid size count a sizes) [
      | inl (e, f) ↦
          let same : a ≡ avail = cc (e, h) in
          (subst (Fits valid size count) same f, rw (same, ==_refl avail))
      | inr (inl (e, f)) ↦
          let (g, m) = find_fallback-some valid size count sizes (cc (e, h)) in
          (g, ground (arith, m))
      | inr (inr (x, e)) ↦ cc (e, h)
    ]

-- The fallback is the largest size that fits.
find_fallback-largest :
    (valid : ℕ → ℕ → Result HugeError Bool) (size count : ℕ) (sizes : List ℕ) {avail : ℕ}
    → AreSorted sizes
    → find_fallback valid size count sizes ≡ ok (some avail)
    → (b : ℕ) → contains b sizes ≡ true
    → Fits valid size count b
    → b ≤ avail
unfolding contains find_fallback AreSorted
find_fallback-largest valid size count [] sorted h b m f = cc h
find_fallback-largest valid size count (a ∷ sizes) {avail} (below, sorted) h b m f =
    elim (find_fallback-cases valid size count a sizes) [
      | inl (e, g) ↦
          let same : a ≡ avail = cc (e, h) in
          elim (Bool-cases (a == b)) [
            | inl k ↦ ground (arith, same, (nat_beq_iff a b).0 k)
            | inr k ↦ ground (arith, same, below b (ground (arith, k, m)))
          ]
      | inr (inl (e, g)) ↦ elim (Bool-cases (a == b)) [
        | inl k ↦ absurd (g (subst (Fits valid size count) (sym ((nat_beq_iff a b).0 k)) f))
        | inr k ↦
            find_fallback-largest valid size count sizes sorted (cc (e, h)) b (ground (arith, k, m))
              f
      ]
      | inr (inr (x, e)) ↦ cc (e, h)
    ]

find_fallback-none :
    (valid : ℕ → ℕ → Result HugeError Bool) (size count : ℕ) (sizes : List ℕ)
    → find_fallback valid size count sizes ≡ ok none
    → (b : ℕ) → contains b sizes ≡ true
    → ¬ Fits valid size count b
unfolding contains find_fallback
find_fallback-none valid size count [] h b m f = cc m
find_fallback-none valid size count (a ∷ sizes) h b m f =
    elim (find_fallback-cases valid size count a sizes) [
      | inl (e, g) ↦ cc (e, h)
      | inr (inl (e, g)) ↦ elim (Bool-cases (a == b)) [
        | inl k ↦ g (subst (Fits valid size count) (sym ((nat_beq_iff a b).0 k)) f)
        | inr k ↦ find_fallback-none valid size count sizes (cc (e, h)) b (ground (arith, k, m)) f
      ]
      | inr (inr (x, e)) ↦ cc (e, h)
    ]

exact_size :
    (valid : ℕ → ℕ → Result HugeError Bool) (sizes : List ℕ) (size count : ℕ)
    → (if contains size sizes then valid size count else ok false) ≡ ok true
    → (contains size sizes ≡ true) × (valid size count ≡ ok true)
exact_size valid sizes size count h = elim (Bool-cases (contains size sizes)) [
  | inl k ↦ (k, rw k at h)
  | inr k ↦ cc (rw k at h)
]

chosen :
    (disabled : Bool) (fallback : Result HugeError (Option ℕ)) (size count : ℕ) {size' count' : ℕ}
    → and_then (if disabled then ok none else fallback) (scaled size count) ≡ ok (size', count')
    → (fallback ≡ ok (some size')) × (count' ≡ count * (size / size'))
chosen true fallback size count h = cc h
chosen false (ok none) size count h = cc h
chosen false (ok (some avail)) size count {size'} {count'} h =
    let same : avail ≡ size' = cc h in
    let pages : count * (size / avail) ≡ count' = cc h in
    (rw same, sym pages ∙ ap (λ a. count * (size / a)) same)
chosen false (err e) size count h = cc h

Exact : (ℕ → ℕ → Result HugeError Bool) → List ℕ → ℕ → ℕ → ℕ → ℕ → Type 0
Exact valid sizes size count size' count' =
    (size ≡ size') × (count ≡ count') × (contains size sizes ≡ true) × (valid size count ≡ ok true)

Chosen : (ℕ → ℕ → Result HugeError Bool) → List ℕ → ℕ → ℕ → ℕ → ℕ → Type 0
Chosen valid sizes size count size' count' =
    (find_fallback valid size count sizes ≡ ok (some size')) × (count' ≡ count * (size / size'))

adjust-cases :
    (disabled : Bool) (valid : ℕ → ℕ → Result HugeError Bool) (sizes : List ℕ) (size count : ℕ)
    {size' count' : ℕ}
    → adjust disabled valid sizes size count ≡ ok (size', count')
    → Exact valid sizes size count size' count' ⊎ Chosen valid sizes size count size' count'
unfolding adjust Exact Chosen
adjust-cases disabled valid sizes size count h =
    elim (Result-cases (if contains size sizes then valid size count else ok false)) [
      | inl (true, e) ↦
          let k : ok (size, count) ≡ ok _ = rw e at h in
          let (m, v) = exact_size valid sizes size count e in inl (cc k, cc k, m, v)
      | inl (false, e) ↦
          inr (chosen disabled (find_fallback valid size count sizes) size count (rw e at h))
      | inr (x, e) ↦ cc (rw e at h)
    ]

pages_keep :
    (size count avail : ℕ) → size % avail ≡ 0 → avail * (count * (size / avail)) ≡ size * count
pages_keep size count avail h =
    let whole : avail * (size / avail) ≡ size = omega (arith, div-add-mod size avail, h) in
    let swap : avail * (count * (size / avail)) ≡ avail * (size / avail) * count = omega arith in
    swap ∙ ap (λ n. n * count) whole

-- A request that is fitted to a page size keeps its memory: the size is one of the node's, it is at
-- most the requested one, the pages of that size add up to the memory that was requested, and the
-- size and the count pass the validity test.
pub adjust-memory :
    (disabled : Bool) (valid : ℕ → ℕ → Result HugeError Bool) (sizes : List ℕ)
    (size count size' count' : ℕ)
    → adjust disabled valid sizes size count ≡ ok (size', count')
    → (contains size' sizes ≡ true)
      × (size' ≤ size)
      × (size' * count' ≡ size * count)
      × (valid size' count' ≡ ok true)
unfolding Fits Exact Chosen
adjust-memory disabled valid sizes size count size' count' h =
    elim (adjust-cases disabled valid sizes size count h) [
      | inl (s, c, m, v) ↦ (
        subst (λ n. contains n sizes ≡ true) s m,
        omega (arith, s),
        rw (s, c),
        subst (λ n. valid n count' ≡ ok true) s (subst (λ n. valid size n ≡ ok true) c v),
      )
      | inr (e, c) ↦
          let ((l, z, d, v), m) = find_fallback-some valid size count sizes e in
          (
            m,
            omega (arith, l),
            ap (λ n. size' * n) c ∙ pages_keep size count size' d,
            subst (λ n. valid size' n ≡ ok true) (sym c) v,
          )
    ]

-- Where the requested size is not used and the sizes are sorted from the largest to the smallest,
-- no larger size of the node fits the request.
pub adjust-largest :
    (disabled : Bool) (valid : ℕ → ℕ → Result HugeError Bool) (sizes : List ℕ)
    (size count size' count' : ℕ)
    → AreSorted sizes
    → adjust disabled valid sizes size count ≡ ok (size', count')
    → size' ≢ size
    → (b : ℕ) → contains b sizes ≡ true
    → Fits valid size count b
    → b ≤ size'
unfolding Exact Chosen
adjust-largest disabled valid sizes size count size' count' sorted h ne b m f =
    elim (adjust-cases disabled valid sizes size count h) [
      | inl (s, c, _, v) ↦ absurd (ne (sym s))
      | inr (e, c) ↦ find_fallback-largest valid size count sizes sorted e b m f
    ]
