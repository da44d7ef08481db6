-- ===== src/Resources/Applied.antt =====
-- `_apply_all` of src/core/managers/resource_manager.py on one list of resources.
use asct.Prelude.{ℕ, ◌≡◌, Bool, true, false, List, [], ◌∷◌, ◌++◌, ok, err, nat_key, ◌⊎◌}
use asct.Resources.{Class, World, raised, set_applied, after_call, apply_list}

abbrev pub AreOn : (ℕ → Bool) → List ℕ → Type 0
AreOn applied [] = Unit {0}
AreOn applied (r ∷ rs) = (applied r ≡ true) × AreOn applied rs

module _ {W : Type 0} (class : Class W) where
  -- The state behind a `setup` that succeeds.
  abbrev done : ℕ → Bool × W → World W → World W
  done r p w = record (after_call r p w) {
    applied = set_applied (set_applied w.applied r p.0) r true;
  }

  -- The first resources of the list are applied without an exception, and in the state that they
  -- leave, the next one has no flag, its `setup` raises `n`, and that is what comes out.
  abbrev pub Stops : List ℕ → World W → Type 0
  Stops rs w =
      (before : List ℕ) × (r : ℕ) × (after : List ℕ) × (n : ℕ) × (p : Bool × W) × (rs
        ≡ before ++ r ∷ after)
      × (let (result, u) = apply_list class before w in
          (result ≡ ok tt)
          × (u.applied r ≡ false)
          × (class.setup r (false, u.outside) ≡ (err n, p))
          × (apply_list class rs w ≡ (err (raised n), after_call r p u)))

  abbrev pub Outcome : List ℕ → World W → Type 0
  Outcome rs w =
      ((apply_list class rs w).0 ≡ ok tt) × AreOn (apply_list class rs w).1.applied rs ⊎ Stops rs w
