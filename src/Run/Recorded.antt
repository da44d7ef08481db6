-- ===== src/Run/Recorded.antt =====
-- What `execute_benchmarks` of src/lib/run/run_helper.py records.
use asct.Prelude.{
  ◌≡◌, refl, sym, ap, true, ◌||◌, List, [], ◌∷◌, ok, ◌==◌, arith, Bool-cases, inl, inr, subst,
  continue-eq-ok, ==_refl, ◌⊎◌,
}
use asct.Text.{Text, text_key, text_beq_iff}
use asct.Dict.{Dict, insert, contains}
use asct.Dict.Laws.{lookup-insert}
use asct.Run.{Benchmarks, RunState, is_in, record_result, run_one, run_all, execute_benchmarks}

pub is_in-insert :
    {V : Type 0} (k j : Text) (v : V) (d : Dict Text V)
    → is_in j (insert k v d) ≡ (k == j || is_in j d)
unfolding is_in
is_in-insert k j v d = elim (Bool-cases (k == j)) [
  | inl h ↦ rw (lookup-insert k j v d, h, is_in) refl
  | inr h ↦ rw (lookup-insert k j v d, h, is_in) refl
]

module _ {W : Type 0} (ops : Benchmarks W) where
  -- The benchmark is recorded, as completed or as failed.
  pub IsRecorded : RunState W → Text → Type 0
  IsRecorded s name = (is_in name s.completed || is_in name s.failures) ≡ true

  run_one-cases :
      (name : Text) (s t : RunState W)
      → run_one ops name s ≡ (ok tt, t)
      → ((t.completed ≡ insert name name s.completed) × (t.failures ≡ s.failures))
        ⊎ ((t.completed ≡ s.completed) × (t.failures ≡ insert name name s.failures))
  unfolding run_one record_result
  run_one-cases name s t h = elim (Bool-cases (ops.stop_requested s.world)) [
    | inl a ↦ cc (rw (a, run_one) at h)
    | inr a ↦ elim (Bool-cases (ops.run name s.world).0) [
      | inl b ↦ elim (Bool-cases (ops.write_benchmark_result name (ops.run name s.world).1).0) [
        | inl c ↦
            let e : _ ≡ t = ap (λ p. p.1) (rw (a, b, c, run_one, record_result) at h) in
            inl (sym (ap (λ u. u.completed) e), sym (ap (λ u. u.failures) e))
        | inr c ↦ cc (rw (a, b, c, run_one, record_result) at h)
      ]
      | inr b ↦ elim (Bool-cases (ops.stop_requested (ops.run name s.world).1)) [
        | inl c ↦ cc (rw (a, b, c, run_one) at h)
        | inr c ↦
            let e : _ ≡ t = ap (λ p. p.1) (rw (a, b, c, run_one) at h) in
            inr (sym (ap (λ u. u.completed) e), sym (ap (λ u. u.failures) e))
      ]
    ]
  ]

  run_one-IsRecorded :
      (name other : Text) (s t : RunState W)
      → run_one ops name s ≡ (ok tt, t)
      → IsRecorded t name × (IsRecorded s other → IsRecorded t other)
  unfolding IsRecorded
  run_one-IsRecorded name other s t h = elim (run_one-cases name s t h) [
    | inl (c, f) ↦ (
      rw (c, is_in-insert name name name s.completed, ==_refl name) refl,
      λ r. rw (c, f, is_in-insert name other name s.completed) (ground (arith, r)),
    )
    | inr (c, f) ↦ (
      rw (f, is_in-insert name name name s.failures, ==_refl name) (ground arith),
      λ r. rw (c, f, is_in-insert name other name s.failures) (ground (arith, r)),
    )
  ]

  run_all-IsRecorded :
      (list : List Text) (s t : RunState W) (other : Text)
      → run_all ops list s ≡ (ok tt, t)
      → (contains other list || (is_in other s.completed || is_in other s.failures)) ≡ true
      → IsRecorded t other
  unfolding run_all contains IsRecorded
  run_all-IsRecorded [] s t other h c = rw (← ap (λ p. p.1) h) c
  run_all-IsRecorded (name ∷ list) s t other h c =
      let (_, u, e, k) = continue-eq-ok (run_one ops name s) (λ _. run_all ops list) h in
      let (mine, keeps) = run_one-IsRecorded name other s u e in
      elim (Bool-cases (name == other)) [
        | inl same ↦
            let there : IsRecorded u other =
              subst (IsRecorded u) ((text_beq_iff name other).0 same) mine in
            run_all-IsRecorded list u t other k (ground (arith, there))
        | inr differs ↦ elim (Bool-cases (contains other list)) [
          | inl l ↦ run_all-IsRecorded list u t other k (rw l refl)
          | inr l ↦
              let there : IsRecorded u other = keeps (rw (differs, l) at c) in
              run_all-IsRecorded list u t other k (rw l there)
        ]
      ]

  -- A run that raises nothing records every benchmark of the priority list, as completed or as
  -- failed.
  pub execute_benchmarks-IsRecorded :
      (list : List Text) (s t : RunState W) (name : Text)
      → execute_benchmarks ops list s ≡ (ok tt, t)
      → contains name list ≡ true
      → IsRecorded t name
  unfolding execute_benchmarks contains IsRecorded
  execute_benchmarks-IsRecorded [] s t name h c = cc c
  execute_benchmarks-IsRecorded (x ∷ list) s t name h c =
      let r = run_all ops (x ∷ list) s in
      let fine : r.0 ≡ ok tt = ap (λ p. p.0) h in
      let same : run_all ops (x ∷ list) s ≡ (ok tt, r.1) = ap (λ z. (z, r.1)) fine in
      let there = run_all-IsRecorded (x ∷ list) s r.1 name same (rw c refl) in
      let completed : r.1.completed ≡ t.completed = ap (λ p. p.1.completed) h in
      let failures : r.1.failures ≡ t.failures = ap (λ p. p.1.failures) h in
      rw (← completed, ← failures) there
