-- ===== src/Pmu/Reverse.antt =====
-- The two tables of events in src/core/asct_pmu_api.py are inverse to each other.
use asct.Prelude.{
  ℕ, String, Bool, true, false, ◌&&◌, ◌≡◌, ◌≤◌, ◌<◌, suc, refl, ◌∙◌, some, List, [], ◌∷◌, ok,
  and_then-eq-ok, leb, ◌==◌, string_key, nat_key, nat_beq_iff, length, arith, Bool-cases,
  Option-cases, inl, inr, leb→le, ap,
}
use asct.Dict.{Dict, lookup, insert}
use asct.Dict.Laws.{lookup-insert}
use asct.Pmu.{
  armv8_pmuv3_events, reversed_onto, reverse_armv8_pmuv3_events, unique_names, max_events,
  event_ids, checked_events, event_names,
}

-- The codes of a table ascend strictly, from a bound on.
is_ascending : ℕ → Dict String ℕ → Bool
is_ascending low [] = true
is_ascending low ((k, v) ∷ events) = leb low v && is_ascending (suc v) events

events_ascend : is_ascending 0 armv8_pmuv3_events ≡ true
unfolding is_ascending armv8_pmuv3_events
events_ascend = refl

-- A code below the bound is not overwritten.
reversed_onto-below :
    (low v : ℕ) (result : Dict ℕ String) (events : Dict String ℕ)
    → is_ascending low events ≡ true
    → v < low
    → lookup v (reversed_onto result events) ≡ lookup v result
unfolding reversed_onto is_ascending
reversed_onto-below low v result [] h le = refl
reversed_onto-below low v result ((k, w) ∷ events) h le =
    reversed_onto-below (suc w) v (insert w k result) events (ground (arith, h))
      (ground (arith, h, le))
    ∙ lookup-insert w v k result
    ∙ rw (let other : (w == v) ≡ false = ground (arith, h, le) in other) refl

reversed_onto-lookup :
    (low : ℕ) (n : String) {v : ℕ} (result : Dict ℕ String) (events : Dict String ℕ)
    → is_ascending low events ≡ true
    → lookup n events ≡ some v
    → lookup v (reversed_onto result events) ≡ some n
unfolding reversed_onto is_ascending
reversed_onto-lookup low n {v} result [] h found = unfold lookup in cc found
reversed_onto-lookup low n {v} result ((k, w) ∷ events) h found = elim (Bool-cases (k == n)) [
  | inr other ↦
      reversed_onto-lookup (suc w) n (insert w k result) events (ground (arith, h))
        (unfold lookup in rw other at found)
  | inl same ↦
      let name : k ≡ n = (string_key.equal_iff k n).0 same in
      let code : w ≡ v = unfold lookup in cc (rw same at found) in
      reversed_onto-below (suc w) v (insert w k result) events (ground (arith, h)) (omega arith)
      ∙ lookup-insert w v k result
      ∙ rw ((nat_beq_iff w v).1 code, name) refl
]

-- Looking an event up by its code gives the name back.
reverse-lookup :
    (n : String) {v : ℕ}
    → lookup n armv8_pmuv3_events ≡ some v
    → lookup v reverse_armv8_pmuv3_events ≡ some n
unfolding reverse_armv8_pmuv3_events
reverse-lookup n h = reversed_onto-lookup 0 n [] armv8_pmuv3_events events_ascend h

event_names-cons :
    (n : String) (v : ℕ) (names : List String) (ids : List ℕ)
    → lookup n armv8_pmuv3_events ≡ some v
    → event_names ids ≡ ok names
    → event_names (v ∷ ids) ≡ ok (n ∷ names)
unfolding event_names
event_names-cons n v names ids e back = rw (reverse-lookup n e, event_names) (rw back refl)

event_names-event_ids :
    (names : List String) {ids : List ℕ}
    → event_ids names ≡ ok ids
    → (event_names ids ≡ ok names) × (length ids ≡ length names)
unfolding event_ids
event_names-event_ids [] {ids} h =
    let none_left : [] ≡ ids = cc h in rw (← none_left) (unfold event_names in (refl, refl))
event_names-event_ids (n ∷ names) {ids} h = elim (Option-cases (lookup n armv8_pmuv3_events)) [
  | inl gone ↦ cc (rw (gone, event_ids) at h)
  | inr (v, e) ↦
      let (rest, more, all) = and_then-eq-ok (event_ids names) _ (rw (e, event_ids) at h) in
      let is : v ∷ rest ≡ ids = cc all in
      let (back, size) = event_names-event_ids names more in
      rw (← is) (event_names-cons n v names rest e back, ap suc size)
]

-- The events that a run is set up for are read back by their names, each once, and there are at
-- most seven of them.
pub event_names-checked_events :
    (raw_event_names : List String) {ids : List ℕ}
    → checked_events raw_event_names ≡ ok ids
    → (event_names ids ≡ ok (unique_names [] raw_event_names)) × (length ids ≤ max_events)
unfolding checked_events
event_names-checked_events raw {ids} h =
    elim (Bool-cases (leb (length (unique_names [] raw)) max_events)) [
      | inr many ↦ cc (rw many at h)
      | inl few ↦
          let (back, size) = event_names-event_ids (unique_names [] raw) (rw few at h) in
          (back, omega (arith, size, leb→le (length (unique_names [] raw)) max_events few))
    ]
