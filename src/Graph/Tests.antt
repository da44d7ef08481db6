-- ===== src/Graph/Tests.antt =====
-- Three names of which one depends on the other two.
use asct.Prelude.{◌≡◌, refl, [], ◌∷◌, ok}
use asct.Graph.{Graph, static_order}

abbrev graph : Graph
graph = ("pages", "sudo" ∷ "governor" ∷ []) ∷ ("governor", "sudo" ∷ []) ∷ []

sorted : static_order graph ≡ ok ("sudo" ∷ "governor" ∷ "pages" ∷ [])
unfolding static_order
sorted = refl
