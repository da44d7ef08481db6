-- ===== src/Progress/Loops.antt =====
-- The states of a container between the steps of a loop, src/lib/term_ui/progress_bar.py.
use asct.Prelude.{
  ℕ, zero, suc, ◌+◌, ◌<◌, ◌≤◌, true, false, ◌&&◌, Option, none, some, List, [], ◌∷◌, ◌++◌, ◌≡◌,
  refl, sym, ap, ◌∙◌, ok, Exec, length, get_elem?, set, get_elem?-set_self, get_elem?-set_ne,
  length-set, get_elem?-below, ◌==◌, nat_key, if◌then◌else◌, arith, Bool-cases, inl, inr,
}
use asct.Text.{Text}
use asct.Progress.{
  Error, Block, Update, Container, on_exit_iteration_block, exit_at, add_sample, share,
  count_global, completion, show_complete, complete,
}

module _ {A : Type 0} where
  pub set_twice : (xs : List A) (i : ℕ) (a b : A) → set (set xs i a) i b ≡ set xs i b
  set_twice [] i a b = refl
  set_twice (x ∷ xs) zero a b = refl
  set_twice (x ∷ xs) (suc i) a b = ap (λ ys. x ∷ ys) (set_twice xs i a b)

  pub set-get_elem? : (xs : List A) (i : ℕ) (a : A) → get_elem? xs i ≡ some a → set xs i a ≡ xs
  set-get_elem? [] i a e = refl
  set-get_elem? (x ∷ xs) zero a e = cc
  set-get_elem? (x ∷ xs) (suc i) a e = ap (λ ys. x ∷ ys) (set-get_elem? xs i a e)

-- The container runs, `depth` of its `max_depth` blocks are open, and the slots of the others are
-- empty.
unfoldable pub IsReady : ℕ → ℕ → Container → Type 0
IsReady max_depth depth c =
    (c.active ≡ true)
    × (c.max_depth ≡ max_depth)
    × (c.open_blocks ≡ depth)
    × (length c.iter_stack ≡ max_depth)
    × (length c.avg_step_count ≡ max_depth)
    × ((i : ℕ) → depth ≤ i → i < max_depth → get_elem? c.iter_stack i ≡ some none)

-- The same blocks are open, and `steps` more global steps are counted.
unfoldable pub Advances : ℕ → Container → Container → Type 0
Advances steps c t =
    (t.active ≡ c.active)
    × (t.has_async ≡ c.has_async)
    × (t.max_depth ≡ c.max_depth)
    × (t.open_blocks ≡ c.open_blocks)
    × (t.iter_stack ≡ c.iter_stack)
    × (length t.avg_step_count ≡ length c.avg_step_count)
    × (t.global_step_index ≡ c.global_step_index + steps)

-- Wherever `depth` blocks are open, the code succeeds and advances by `steps`.
unfoldable pub Runs : ℕ → ℕ → ℕ → Exec Error Container (Unit {0}) → Type 0
unfolding IsReady Advances
Runs max_depth depth steps m =
    (c : Container)
    → IsReady max_depth depth c
    → (t : Container) × (m c ≡ (ok tt, t)) × Advances steps c t

-- A step of a loop at the innermost depth counts as a global one.
unfoldable pub own_step : ℕ → ℕ → ℕ
own_step max_depth depth = if suc depth == max_depth then 1 else 0

module _ (max_depth depth : ℕ) where
  pub Advances-IsReady :
      (steps : ℕ) (c t : Container)
      → Advances steps c t
      → IsReady max_depth depth c
      → IsReady max_depth depth t
  unfolding Advances IsReady
  Advances-IsReady steps c t h r = (
    h.0 ∙ r.0,
    h.2 ∙ r.1,
    h.3 ∙ r.2,
    ap length h.4 ∙ r.3,
    h.5 ∙ r.4,
    λ i low high. ap (λ s. get_elem? s i) h.4 ∙ r.5 i low high,
  )

  pub count_global-Advances :
      (c : Container)
      → IsReady max_depth (suc depth) c
      → Advances (own_step max_depth depth) c (count_global c)
  unfolding Advances IsReady count_global own_step
  count_global-Advances c r = elim (Bool-cases (suc depth == max_depth)) [
    | inl last ↦ rw (r.1, r.2, last) (refl, refl, refl, refl, refl, refl, omega arith)
    | inr inner ↦ rw (r.1, r.2, inner) (refl, refl, refl, refl, refl, refl, omega arith)
  ]

  -- Filling the lowest empty slot, or rewriting it
  pub fill-IsReady :
      (c : Container) (s : List (Option Block)) (b : Block)
      → IsReady max_depth (suc depth) c
      → length s ≡ max_depth
      → c.iter_stack ≡ set s depth (some b)
      → (b' : Block)
      → IsReady max_depth (suc depth) (record c { iter_stack = set s depth (some b') })
  unfolding IsReady
  fill-IsReady c s b r len e b' = (
    r.0,
    r.1,
    r.2,
    length-set s depth (some b') ∙ len,
    r.4,
    λ i low high.
        get_elem?-set_ne s (some b') (omega arith)
        ∙ sym (get_elem?-set_ne s (some b) (omega arith))
        ∙ ap (λ l. get_elem? l i) (sym e)
        ∙ r.5 i low high,
  )

  pub share-filled :
      (c : Container) (s : List (Option Block)) (b b' : Block)
      → depth < length s
      → c.iter_stack ≡ set s depth (some b)
      → share (get_elem? c.iter_stack depth) depth b' c
        ≡ record c { iter_stack = set s depth (some b') }
  unfolding share
  share-filled c s b b' below e =
      rw (e, get_elem?-set_self s depth (some b) below, set_twice s depth (some b) (some b')) refl

  pub complete-ok :
      (last : Option (Option Text × Option ℕ)) (b : Block) (c : Container)
      → (last ≡ none → (b.is_sized && c.has_async) ≡ false)
      → (u : List Update) × (complete last b c ≡ (ok tt, record c { updates = u }))
  unfolding complete show_complete
  complete-ok none b c h = (c.updates, rw (h refl) refl)
  complete-ok (some l) b c h = elim (Bool-cases (b.is_sized && c.has_async)) [
    | inl shown ↦ (completion l b c, rw shown refl)
    | inr hidden ↦ (c.updates, rw hidden refl)
  ]

  pub exit-ok :
      (c : Container) (b : Block)
      → c.open_blocks ≡ suc depth
      → depth < length c.avg_step_count
      → get_elem? c.iter_stack depth ≡ some (some b)
      → (samples : List ℕ) × (on_exit_iteration_block c ≡ (
        ok tt,
        record c {
          avg_step_count = set c.avg_step_count depth samples;
          iter_stack = set c.iter_stack depth none;
          open_blocks = depth;
        },
      ))
  unfolding on_exit_iteration_block exit_at add_sample
  exit-ok c b opened below at =
      let (samples, e) = get_elem?-below c.avg_step_count depth below in
      (samples ++ (b.step_idx ∷ []), rw (opened, e, at) refl)
