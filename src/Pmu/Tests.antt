-- ===== src/Pmu/Tests.antt =====
-- Three events of which one is named twice.
use asct.Prelude.{ℕ, String, ◌≡◌, ◌≤◌, refl, List, [], ◌∷◌, ok, length}
use asct.Pmu.{max_events, unique_names, checked_events, event_names}
use asct.Pmu.Reverse.{event_names-checked_events}

abbrev some_names : List String
some_names = "CPU_CYCLES" ∷ "SW_INCR" ∷ "CPU_CYCLES" ∷ "L1D_CACHE_RD" ∷ []

some_ids : checked_events some_names ≡ ok (0x11 ∷ 0 ∷ 0x40 ∷ [])
unfolding checked_events
some_ids = refl

event_names-checked_events_example :
    (event_names (0x11 ∷ 0 ∷ 0x40 ∷ []) ≡ ok (unique_names [] some_names))
    × (length {A = ℕ} (0x11 ∷ 0 ∷ 0x40 ∷ []) ≤ max_events)
event_names-checked_events_example = event_names-checked_events some_names some_ids
