-- ===== src/Numeric/Tests.antt =====
-- Powers of 2 from 128 to 512, with the intermediate steps as numbers.
use asct.Prelude.{ℕ, suc, ◌+◌, ◌*◌, ◌/◌, ◌≡◌, Bool, some, List, ok, ltb, arith}
use asct.Numeric.{Yielded, range_up}
use asct.Numeric.Powers.{Powers, range_up-Powers}

abbrev half_more : ℕ → ℕ → ℕ
half_more d i = d + i * (d / 2)

abbrev is_above : ℕ → Bool
is_above m = ltb 512 m

range_up-Powers_example :
    ((l : List (Yielded ℕ)) × (range_up half_more is_above (suc (512 + 1)) 128 512 2 2
        ≡ ok (some l)))
    × ((l : List (Yielded ℕ)) × (range_up half_more is_above (suc (512 + 1)) 128 512 1 2
          ≡ ok (some l))
        × Powers 128 512 2 l)
range_up-Powers_example =
    range_up-Powers half_more is_above 128 512 2 2 (omega arith) (omega arith) (omega arith)
