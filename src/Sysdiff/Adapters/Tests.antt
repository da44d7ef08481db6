-- ===== src/Sysdiff/Adapters/Tests.antt =====
-- A latency sweep of two levels of the memory, by columns.
use asct.Prelude.{ℕ, ◌≡◌, refl, [], ◌∷◌, ok}
use asct.Text.{codes, text_key, text_beq}
use asct.Trees.{Entries, leaf, dict, end, entry, find, find_path}
use asct.Sysdiff.Adapters.{latency_sweep_data}
use asct.Sysdiff.Adapters.Transposed.{AreDistinct, IsTable, latency_sweep_data-transposed}

abbrev sweep : Entries ℕ
sweep =
    entry (codes "Latency")
      (dict (entry (codes "L1") (leaf 4) (entry (codes "DRAM") (leaf 120) end)))
      (entry (codes "Size") (dict (entry (codes "L1") (leaf 32) end)) end)

sweep-IsTable : IsTable sweep
unfolding IsTable AreDistinct find text_beq
sweep-IsTable = ((refl, (refl, tt)), ((refl, tt), tt))

sweep-AreDistinct : AreDistinct sweep
unfolding AreDistinct find text_beq
sweep-AreDistinct = (refl, (refl, tt))

latency_sweep_data-transposed_example :
    (m : Entries ℕ) × (latency_sweep_data sweep ≡ ok m)
    × (find_path (codes "DRAM" ∷ codes "Latency" ∷ []) m
        ≡ find_path (codes "Latency" ∷ codes "DRAM" ∷ []) sweep)
latency_sweep_data-transposed_example =
    latency_sweep_data-transposed sweep (codes "DRAM") (codes "Latency") sweep-IsTable
      sweep-AreDistinct
