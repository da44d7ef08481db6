-- ===== src/Sweep/Tests.antt =====
-- Three sizes, of which the middle one is on the plateau; miss rates in percent.
use asct.Prelude.{
  ℕ, ◌<◌, Bool, true, false, ◌≡◌, refl, some, List, [], ◌∷◌, ltb, leb, if◌then◌else◌, nat_key, ◌⊎◌,
}
use asct.Text.{Text, text_key, codes, text_beq}
use asct.Dict.{Dict, contains, lookup}
use asct.Sweep.{Row, Bounds, sizes, explore_plateau}
use asct.Sweep.Plateau.{explore_plateau-new}

abbrev level : Text
level = codes "L2"

abbrev row : ℕ → ℕ → ℕ → Row ℕ
row n first second = record {
  size = n;
  misses = λ name. if text_beq name (codes "L1DMPI") then first else second;
}

abbrev frame : List (Row ℕ)
frame = row 10 20 0 ∷ row 40 97 1 ∷ row 100 98 60 ∷ []

abbrev high : ℕ → Bool
high rate = leb 95 rate

abbrev low : ℕ → Bool
low rate = ltb rate 5

abbrev explored : List ℕ × Dict Text Bounds
explored =
    explore_plateau high low 1 1000 frame [] [] (some (codes "L1DMPI")) (some (codes "L2MPI")) level

explored_sizes : explored.0 ≡ 25 ∷ 70 ∷ []
unfolding explore_plateau text_beq
explored_sizes = refl

asked : contains 25 explored.0 ≡ true
unfolding explore_plateau text_beq contains
asked = refl

nothing_old : contains {A = ℕ} 25 [] ≡ false
unfolding contains
nothing_old = refl

explore_plateau-new_example :
    (contains 25 (sizes frame) ≡ false)
    × ((b : Bounds) × (lookup level explored.1 ≡ some b) × ((25 < b.lower) ⊎ (b.upper < 25)))
explore_plateau-new_example =
    explore_plateau-new high low 1 1000 frame [] [] (some (codes "L1DMPI")) (some (codes "L2MPI"))
      level 25 asked nothing_old
