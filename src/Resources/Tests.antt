-- ===== src/Resources/Tests.antt =====
-- A stack as the world outside: a setup pushes its resource, and the one of resource 3 raises.
use asct.Prelude.{
  true, string_key, ℕ, Bool, ◌≡◌, refl, String, false, List, [], ◌∷◌, ok, err, if◌then◌else◌, ◌==◌,
  nat_key, Exec,
}
use asct.Graph.{static_order}
use asct.Resources.{Class, World, raised, apply_list, topological_sort}
use asct.Dict.{contains}
use asct.Resources.Sorted.{AreSorted, names, topological_sort-AreSorted}

abbrev push : ℕ → Exec ℕ (Bool × List ℕ) Unit
push r (applied, v) = if r == 3 then (err 7, (applied, v)) else (ok tt, (applied, r ∷ v))

abbrev pop : ℕ → Exec ℕ (Bool × List ℕ) Unit
pop r (applied, []) = (err 0, (applied, []))
pop r (applied, x ∷ v) = (ok tt, (false, v))

abbrev title : ℕ → String
title r = if r == 1 then "governor" else if r == 2 then "hugepages" else "prefetcher"

abbrev before : ℕ → List String
before r = if r == 2 then "governor" ∷ [] else []

abbrev stacks : Class (List ℕ)
stacks = record {
  name = title;
  depends_on = before;
  same = λ r q. r == q;
  setup = push;
  teardown = pop;
}

abbrev fresh_world : World (List ℕ)
fresh_world = record {
  global_resources = [];
  local_resources = (5, 2 ∷ 1 ∷ []) ∷ [];
  applied = λ r. false;
  outside = 4 ∷ [];
}

pair_sorted : topological_sort stacks (2 ∷ 1 ∷ []) ≡ ok (1 ∷ 2 ∷ [])
unfolding topological_sort static_order
pair_sorted = refl

third_raises : (apply_list stacks (1 ∷ 3 ∷ 2 ∷ []) fresh_world).0 ≡ err (raised 7)
unfolding apply_list
third_raises = refl

topological_sort-AreSorted_example :
    AreSorted stacks [] (1 ∷ 2 ∷ [])
    × ((n : String)
        → contains n (names stacks (2 ∷ 1 ∷ [])) ≡ true
        → contains n (names stacks (1 ∷ 2 ∷ [])) ≡ true)
topological_sort-AreSorted_example =
    topological_sort-AreSorted stacks (2 ∷ 1 ∷ []) (1 ∷ 2 ∷ []) pair_sorted
