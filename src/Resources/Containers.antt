-- ===== src/Resources/Containers.antt =====
-- `MultiResourceContainer` of src/core/resources/resource_base.py: its setup and its teardown.
use asct.Prelude.{
  ℕ, ◌≡◌, ◌∙◌, sym, subst, ap, Bool, true, false, List, [], ◌∷◌, ◌++◌, Result, ok, err, Exec, pure,
  ◌>>◌, if◌then◌else◌, ◌==◌, nat_key, length,
}
use asct.Resources.{Class, set_applied}

-- `RuntimeError` joins the exceptions of all resources.
pub data ContainerError : Type 0 where
  raised : ℕ → ContainerError
  joined : List ℕ → ContainerError

-- The flags of the resources of the container, and the world outside
abbrev pub Inside : Type 0 → Type 0
Inside W = (ℕ → Bool) × W

module _ {W : Type 0} where
  -- A method of the resource `r`
  abbrev pub on_own : ℕ → Exec ℕ (Bool × W) (Unit {0}) → Exec ℕ (Inside W) (Unit {0})
  on_own r m s = let (result, p) = m (s.0 r, s.1) in (result, (set_applied s.0 r p.0, p.1))

  -- The exceptions after one setup, given those of the resources behind it.
  abbrev pub after_setup :
      Bool → Result ℕ (Unit {0}) × Inside W → List ℕ × Inside W → List ℕ × Inside W
  after_setup require_all (ok x, v) (failures, u) = (failures, u)
  after_setup true (err n, v) (failures, u) = (n ∷ [], v)
  after_setup false (err n, v) (failures, u) = (n ∷ failures, u)

module _ {W : Type 0} (class : Class W) where
  -- The loop of `setup`: the exceptions it collects.
  unfoldable pub setup_each : Bool → List ℕ → Inside W → List ℕ × Inside W
  setup_each require_all [] w = ([], w)
  setup_each require_all (r ∷ rs) w =
      let p = on_own r (class.setup r) w in
      after_setup require_all p (setup_each require_all rs p.1)

  -- The container's own flag, which is set at the end, stands in front.
  abbrev setup_result :
      Bool
      → List ℕ
      → Bool
      → List ℕ × Inside W
      → Result ContainerError (Unit {0}) × (Bool × Inside W)
  setup_result require_all rs applied ([], v) = (ok tt, (true, v))
  setup_result require_all rs applied (n ∷ ns, v) =
      if require_all
      then (err (raised n), (applied, v))
      else if length (n ∷ ns) == length rs
      then (err (joined (n ∷ ns)), (applied, v))
      else (ok tt, (true, v))

  unfoldable pub setup_container : Bool → List ℕ → Exec ContainerError (Bool × Inside W) (Unit {0})
  unfolding setup_each
  setup_container require_all rs (applied, w) =
      setup_result require_all rs applied (setup_each require_all rs w)

  unfoldable pub teardown_container : List ℕ → Exec ℕ (Inside W) (Unit {0})
  teardown_container [] = pure tt
  teardown_container (r ∷ rs) = on_own r (class.teardown r) >> teardown_container rs

  -- The setups of the list raise nothing and lead from the one state to the other.
  unfoldable pub LeadsTo : List ℕ → Inside W → Inside W → Type 0
  LeadsTo [] w v = w ≡ v
  LeadsTo (r ∷ rs) w v = (u : Inside W) × (on_own r (class.setup r) w ≡ (ok tt, u)) × LeadsTo rs u v

  setup_each-LeadsTo :
      (rs : List ℕ) (r n : ℕ) (more : List ℕ) (w v u : Inside W)
      → LeadsTo rs w v
      → on_own r (class.setup r) v ≡ (err n, u)
      → setup_each true (rs ++ r ∷ more) w ≡ (n ∷ [], u)
  unfolding LeadsTo setup_each
  setup_each-LeadsTo [] r n more w v u same e =
      let here : on_own r (class.setup r) w ≡ (err n, u) =
        subst (λ z. on_own r (class.setup r) z ≡ (err n, u)) (sym same) e in
      ap (λ p. after_setup true p (setup_each true more p.1)) here
  setup_each-LeadsTo (q ∷ rs) r n more w v u (x, good, rest) e =
      ap (λ p. after_setup true p (setup_each true (rs ++ r ∷ more) p.1)) good
      ∙ setup_each-LeadsTo rs r n more x v u rest e

  -- Where the setups of the first resources of a container that requires all succeed and the next
  -- one raises, the container raises the same and keeps its own flag, and the rest of the state is
  -- the one that this setup leaves: the first resources stay set up, and the later ones are not
  -- tried.
  pub setup_container-LeadsTo :
      (rs : List ℕ) (r n : ℕ) (more : List ℕ) (applied : Bool) (w v u : Inside W)
      → LeadsTo rs w v
      → on_own r (class.setup r) v ≡ (err n, u)
      → setup_container true (rs ++ r ∷ more) (applied, w) ≡ (err (raised n), (applied, u))
  unfolding setup_container
  setup_container-LeadsTo rs r n more applied w v u leads e =
      ap (setup_result true (rs ++ r ∷ more) applied) (setup_each-LeadsTo rs r n more w v u leads e)
