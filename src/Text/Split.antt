-- ===== src/Text/Split.antt =====
-- The laws of `split`.
use asct.Prelude.{ℕ, ◌≡◌, refl, false, [], ◌∷◌, ◌++◌, arith}
use asct.Text.{Text, has, split}

pub split-append : (c : ℕ) (s t : Text) → has c s ≡ false → split c (s ++ c ∷ t) ≡ s ∷ split c t
unfolding split has
split-append c [] t h = ground arith
split-append c (x ∷ s) t h = ground (arith, split-append c s t)

pub split-absent : (c : ℕ) (s : Text) → has c s ≡ false → split c s ≡ s ∷ []
unfolding split has
split-absent c [] h = refl
split-absent c (x ∷ s) h = ground (arith, split-absent c s)
