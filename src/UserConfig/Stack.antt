-- ===== src/UserConfig/Stack.antt =====
-- The loop over `dict_stack` of src/lib/run/run_helper.py, `get_conv_user_config`.
use asct.Prelude.{
  ℕ, zero, suc, ◌+◌, ◌≡◌, ◌∙◌, refl, ap, List, [], ◌∷◌, ◌++◌, Result, ok, err, Exec, pure, continue,
  ◌>>◌, arith,
}
use asct.Text.{Text}
use asct.Trees.{Value, Entries, leaf, dict, list, end, entry}
use asct.Config.{ConvError}
use asct.UserConfig.{Stack, push_all, loop, size, size_entries}

module _ {R S : Type 0} (visit : List Text → Value R → Exec ConvError S Unit) where
  -- The leaves of a value, those of later keys first.
  unfoldable mutual
    pub walk : List Text → Value R → Exec ConvError S Unit
    walk path (leaf r) = visit path (leaf r)
    walk path (list l) = visit path (list l)
    walk path (dict d) = walk_entries path d

    pub walk_entries : List Text → Entries R → Exec ConvError S Unit
    walk_entries path end = pure tt
    walk_entries path (entry key value d) = walk_entries path d >> walk (path ++ key ∷ []) value

  then_cong :
      (r : Result ConvError Unit) (m n : Exec ConvError S Unit) (s : S)
      → ((t : S) → m t ≡ n t)
      → continue r (λ _. m) s ≡ continue r (λ _. n) s
  then_cong (ok u) m n s h = h s
  then_cong (err e) m n s h = refl

  then_assoc :
      (r : Result ConvError Unit) (m n : Exec ConvError S Unit) (s : S)
      → continue r (λ _. m >> n) s ≡ (let p = continue r (λ _. m) s in continue p.0 (λ _. n) p.1)
  then_assoc (ok u) m n s = refl
  then_assoc (err e) m n s = refl

  mutual
    unfolding loop walk size push_all

    loop-size :
        (fuel n : ℕ) (path : List Text) (v : Value R) (stack : Stack R) (s : S)
        → fuel ≡ size v + n
        → loop visit fuel ((path, v) ∷ stack) s ≡ (walk path v >> loop visit n stack) s
    loop-size zero n path (leaf r) stack s h = absurd (omega arith)
    loop-size zero n path (list l) stack s h = absurd (omega arith)
    loop-size zero n path (dict d) stack s h = absurd (omega arith)
    loop-size (suc fuel) n path (leaf r) stack s h =
        ap (λ f. (visit path (leaf r) >> loop visit f stack) s) (omega arith)
    loop-size (suc fuel) n path (list l) stack s h =
        ap (λ f. (visit path (list l) >> loop visit f stack) s) (omega arith)
    loop-size (suc fuel) n path (dict d) stack s h =
        loop-size_entries fuel n path d stack s (omega arith)

    loop-size_entries :
        (fuel n : ℕ) (path : List Text) (d : Entries R) (stack : Stack R) (s : S)
        → fuel ≡ size_entries d + n
        → loop visit fuel (push_all path d stack) s ≡ (walk_entries path d >> loop visit n stack) s
    loop-size_entries fuel n path end stack s h = ap (λ f. loop visit f stack s) (omega arith)
    loop-size_entries fuel n path (entry key v d) stack s h =
        let here = path ++ key ∷ [] in
        let r = walk_entries path d s in
        loop-size_entries fuel (size v + n) path d ((here, v) ∷ stack) s (omega arith)
        ∙ then_cong r.0 (loop visit (size v + n) ((here, v) ∷ stack))
            (walk here v >> loop visit n stack) r.1
            (λ t. loop-size (size v + n) n here v stack t refl)
        ∙ then_assoc r.0 (walk here v) (loop visit n stack) r.1

  then_pure : (r : Result ConvError Unit) (s : S) → continue r (λ _. pure tt) s ≡ (r, s)
  then_pure (ok tt) s = refl
  then_pure (err e) s = refl

  -- The loop over `dict_stack` ends: with one round for the given value and for each value in it
  -- and one round more, it does what the recursive traversal does that visits later keys first.
  pub loop-walk :
      (path : List Text) (v : Value R) (s : S)
      → loop visit (suc (size v)) ((path, v) ∷ []) s ≡ walk path v s
  unfolding loop
  loop-walk path v s =
      let r = walk path v s in
      loop-size (suc (size v)) 1 path v [] s (omega arith) ∙ then_pure r.0 r.1
