-- ===== src/Progress/Nested.antt =====
-- A loop leaves the container as it found it, and counts its steps,
-- src/lib/term_ui/progress_bar.py.
use asct.Prelude.{
  lt→ltb, err, subst, ◌>>◌, ℕ, suc, ◌+◌, ◌*◌, ◌<◌, Bool, true, false, ◌&&◌, Option, none, some,
  List, [], ◌∷◌, ◌≡◌, refl, sym, ap, ◌∙◌, ok, Exec, length, get_elem?, set, get_elem?-set_self,
  get_elem?-set_ne, length-set, arith, nat_key,
}
use asct.Text.{Text}
use asct.Progress.{
  Error, Block, Container, on_enter_iteration_block, global_news, tell, counted, count_global,
  complete, show_complete, unbound_local_error,
}
use asct.Progress.Iteration.{
  new_block, stops, text_of, before_yield, finish_loop, iterate_loop, iterate, Ending,
}
use asct.Progress.Loops.{
  set_twice, set-get_elem?, IsReady, Advances, Runs, own_step, Advances-IsReady,
  count_global-Advances, fill-IsReady, share-filled, complete-ok, exit-ok,
}

-- The block is closed again, and `steps` more global steps are counted.
unfoldable pub Closes : ℕ → ℕ → List (Option Block) → Container → Container → Type 0
Closes depth steps s c t =
    (t.active ≡ c.active)
    × (t.has_async ≡ c.has_async)
    × (t.max_depth ≡ c.max_depth)
    × (t.open_blocks ≡ depth)
    × (t.iter_stack ≡ s)
    × (length t.avg_step_count ≡ length c.avg_step_count)
    × (t.global_step_index ≡ c.global_step_index + steps)

module _ {A : Type 0} (text_gen : Option (ℕ → A → Option Text))
    (body : A → Exec Error Container (Unit {0})) (max_depth depth : ℕ) where
  abbrev next_block : Block → Block
  next_block b = record (counted b) { step_idx = suc b.step_idx }

  pub finish-Closes :
      (last : Option (Option Text × Option ℕ)) (b : Block) (c : Container) (s : List (Option Block))
      → IsReady max_depth (suc depth) c
      → length s ≡ max_depth
      → depth < max_depth
      → get_elem? s depth ≡ some none
      → c.iter_stack ≡ set s depth (some b)
      → (last ≡ none → (b.is_sized && c.has_async) ≡ false)
      → (t : Container) × (finish_loop text_gen body stops b last c ≡ (ok tt, t))
        × Closes depth 0 s c t
  unfolding finish_loop IsReady Closes
  finish-Closes last b c s r len below empty filled shown =
      let (u, told) = complete-ok max_depth depth last b c shown in
      let d : Container = record c { updates = u } in
      let at : get_elem? d.iter_stack depth ≡ some (some b) =
        ap (λ l. get_elem? l depth) filled ∙ get_elem?-set_self s depth (some b) (omega arith) in
      let (samples, closed) = exit-ok max_depth depth d b r.2 (omega (arith, r.4)) at in
      let t : Container = record d {
        avg_step_count = set d.avg_step_count depth samples;
        iter_stack = set d.iter_stack depth none;
        open_blocks = depth;
      } in
      (
        t,
        rw told closed,
        (
          refl,
          refl,
          refl,
          refl,
          ap (λ l. set l depth none) filled
              ∙ set_twice s depth (some b) none
              ∙ set-get_elem? s depth none empty,
          length-set c.avg_step_count depth samples,
          omega arith,
        ),
      )

  module _ (steps : ℕ) (body-Runs : (item : A) → Runs max_depth (suc depth) steps (body item)) where
    loop-Closes :
        (items : List A) (last : Option (Option Text × Option ℕ)) (b : Block) (c : Container)
        (s : List (Option Block))
        → IsReady max_depth (suc depth) c
        → length s ≡ max_depth
        → depth < max_depth
        → get_elem? s depth ≡ some none
        → c.iter_stack ≡ set s depth (some b)
        → (items ≡ [] → last ≡ none → (b.is_sized && c.has_async) ≡ false)
        → (t : Container) × (iterate_loop text_gen body stops items depth b last c ≡ (ok tt, t))
          × Closes depth (length items * (steps + own_step max_depth depth)) s c t
    unfolding iterate_loop Runs IsReady Closes Advances
    loop-Closes [] last b c s r len below empty filled shown =
        let (t, finished, closes) =
          finish-Closes last b c s r len below empty filled (shown refl) in
        (
          t,
          finished,
          (closes.0, closes.1, closes.2, closes.3, closes.4, closes.5, omega (arith, closes.6)),
        )
    loop-Closes (item ∷ items) last b c s r len below empty filled shown =
        let told : Container =
          tell (text_of text_gen body text_gen b.step_idx item) (counted b) (global_news c) c in
        let u : Container = record told { iter_stack = set s depth (some (next_block b)) } in
        let yields : before_yield text_gen body item depth b c ≡ u =
          share-filled max_depth depth told s b (next_block b) (omega arith) filled in
        let ready : IsReady max_depth (suc depth) u =
          fill-IsReady max_depth depth told s b r len filled (next_block b) in
        let (t1, ran, advances) = body-Runs item u ready in
        let ready1 = Advances-IsReady max_depth (suc depth) steps u t1 advances ready in
        let counts = count_global-Advances max_depth depth t1 ready1 in
        let t2 : Container = count_global t1 in
        let ready2 : IsReady max_depth (suc depth) t2 =
          Advances-IsReady max_depth (suc depth) (own_step max_depth depth) t1 t2 counts ready1 in
        let (t, looped, closes) =
          loop-Closes items (some (text_of text_gen body text_gen b.step_idx item, global_news c))
            (next_block b) t2 s ready2 len below empty (counts.4 ∙ advances.4) (λ e last. cc) in
        (
          t,
          rw yields (rw ran looped),
          (
            closes.0 ∙ counts.0 ∙ advances.0,
            closes.1 ∙ counts.1 ∙ advances.1,
            closes.2 ∙ counts.2 ∙ advances.2,
            closes.3,
            closes.4,
            closes.5 ∙ counts.5 ∙ advances.5,
            omega (arith, closes.6, counts.6, advances.6),
          ),
        )

  enter-ok :
      (b : Block) (c : Container)
      → IsReady max_depth depth c
      → depth < max_depth
      → on_enter_iteration_block b c ≡ (
        ok tt,
        record c {
          open_blocks = suc c.open_blocks;
          iter_stack = set c.iter_stack c.open_blocks (some b);
        },
      )
  unfolding on_enter_iteration_block IsReady
  enter-ok b c r below =
      rw (lt→ltb c.open_blocks (length c.iter_stack) (omega (arith, r.2, r.3))) refl

  pub entered-IsReady :
      (b : Block) (c : Container)
      → IsReady max_depth depth c
      → IsReady max_depth (suc depth) (record c {
        open_blocks = suc c.open_blocks;
        iter_stack = set c.iter_stack c.open_blocks (some b);
      })
  unfolding IsReady
  entered-IsReady b c r = (
    r.0,
    r.1,
    ap suc r.2,
    length-set c.iter_stack c.open_blocks (some b) ∙ r.3,
    r.4,
    λ i low high.
        get_elem?-set_ne c.iter_stack (some b) (omega (arith, r.2)) ∙ r.5 i (omega arith) high,
  )

  pub enters :
      (n : Exec Error Container (Unit {0})) (b : Block) (c : Container)
      → IsReady max_depth depth c
      → depth < max_depth
      → (on_enter_iteration_block b >> n) c
        ≡ n (record c {
          open_blocks = suc c.open_blocks;
          iter_stack = set c.iter_stack c.open_blocks (some b);
        })
  enters n b c r below = rw (enter-ok b c r below) refl

  pub iterate-active :
      (is_sized : Bool) (ending : Ending) (items : List A) (c : Container)
      → IsReady max_depth depth c
      → iterate text_gen body is_sized ending items c
        ≡ (on_enter_iteration_block (new_block is_sized items)
              >> iterate_loop text_gen body ending items depth (new_block is_sized items) none)
            c
  unfolding iterate IsReady
  iterate-active is_sized ending items c r =
      subst
        (λ k.
          iterate text_gen body is_sized ending items c
          ≡ (on_enter_iteration_block (new_block is_sized items)
                >> iterate_loop text_gen body ending items k (new_block is_sized items) none)
              c)
        r.2 (rw r.0 refl)

  -- If a body succeeds at the depth below and advances by `steps`, and this depth is below the
  -- greatest one, then a loop over items, of which there is one or whose number is not known at
  -- first, succeeds with that body, closes its block again, and advances by as many steps for each
  -- item, and one more where it is innermost.
  pub iterate-Runs :
      (steps : ℕ) (is_sized : Bool) (items : List A)
      → ((item : A) → Runs max_depth (suc depth) steps (body item))
      → depth < max_depth
      → (items ≡ [] → is_sized ≡ false)
      → Runs max_depth depth
          (length items * (steps + own_step max_depth depth))
          (iterate text_gen body is_sized stops items)
  unfolding Runs IsReady Closes Advances
  iterate-Runs steps is_sized items body-Runs below known c r =
      let b : Block = new_block is_sized items in
      let entered : Container = record c {
        open_blocks = suc c.open_blocks;
        iter_stack = set c.iter_stack c.open_blocks (some b);
      } in
      let (t, looped, closes) =
        loop-Closes steps body-Runs items none b entered c.iter_stack (entered-IsReady b c r) r.3
          below (r.5 depth (omega arith) below) (ap (λ k. set c.iter_stack k (some b)) r.2)
          (λ e last. rw (known e) refl) in
      (
        t,
        iterate-active is_sized stops items c r
            ∙ enters (iterate_loop text_gen body stops items depth b none) b c r below
            ∙ looped,
        (closes.0, closes.1, closes.2, closes.3 ∙ sym r.2, closes.4, closes.5, closes.6),
      )

  -- A loop over an empty list below the greatest depth raises an `UnboundLocalError` where there is
  -- an asynchronous tracker, and leaves its block open.
  pub iterate-empty :
      (c : Container)
      → IsReady max_depth depth c
      → depth < max_depth
      → c.has_async ≡ true
      → let (r, t) = iterate text_gen body true stops [] c in
        (r ≡ err unbound_local_error) × (t.open_blocks ≡ suc depth)
  unfolding iterate_loop finish_loop complete show_complete IsReady
  iterate-empty c r below async =
      let b : Block = new_block {A = A} true [] in
      rw
        (iterate-active true stops [] c r
          ∙ enters (iterate_loop text_gen body stops [] depth b none) b c r below)
        (rw async (refl, ap suc r.2))
