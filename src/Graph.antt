-- ===== src/Graph.antt =====
-- `graphlib.TopologicalSorter(graph).static_order()` of the standard library, which
-- src/core/managers/resource_manager.py and src/core/recipes/configuration/registry.py call with a
-- dictionary from a name to the names that it depends on. Nodes without unplaced predecessors are
-- placed in the order in which they became ready; a graph with a cycle raises CycleError.
pub mod Order
mod Tests
use asct.Prelude.{
  ℕ, zero, suc, String, Bool, true, false, ◌&&◌, not, List, [], ◌∷◌, ◌++◌, Result, ok, err,
  string_key, if◌then◌else◌, length, ◌==◌,
}
use asct.Dict.{Dict, keys, lookup, contains}

abbrev pub Graph : Type 0
Graph = Dict String (List String)

pub data CycleError : Type 0 where
  cycle_error : CycleError

-- `all(x in ys for x in xs)`
unfoldable pub all_in : List String → List String → Bool
unfolding contains
all_in [] ys = true
all_in (x ∷ xs) ys = contains x ys && all_in xs ys

-- A name becomes a node when it is first met, as a key or as a predecessor.
unfoldable pub add_names : List String → List String → List String
add_names nodes [] = nodes
add_names nodes (x ∷ xs) = add_names (if contains x nodes then nodes else nodes ++ x ∷ []) xs

unfoldable pub nodes_from : List String → Graph → List String
unfolding add_names contains
nodes_from nodes [] = nodes
nodes_from nodes ((n, deps) ∷ g) = nodes_from (add_names nodes (n ∷ deps)) g

-- The predecessors of a node; one that is no key has none.
unfoldable pub predecessors : Graph → String → List String
unfolding lookup
predecessors [] n = []
predecessors ((k, deps) ∷ g) n = if k == n then deps else predecessors g n

-- The nodes that have no predecessor.
initial : Graph → List String → List String
unfolding predecessors
initial g [] = []
initial g (n ∷ ns) =
    let rest = initial g ns in if all_in (predecessors g n) [] then n ∷ rest else rest

-- The successors of `n`, among the keys, that placing `n` makes ready: `placed` ends with `n`.
released : Graph → List String → String → List String → List String
unfolding all_in contains predecessors
released g placed n [] = []
released g placed n (k ∷ ks) =
    let deps = predecessors g k in
    let rest = released g placed n ks in
    if contains n deps && all_in deps placed then k ∷ rest else rest

-- Places the ready nodes one by one; there is a round of fuel for each node.
unfoldable pub place : ℕ → Graph → List String → List String → List String
unfolding released
place zero g placed ready = placed
place (suc fuel) g placed [] = placed
place (suc fuel) g placed (n ∷ ready) =
    place fuel g (placed ++ n ∷ []) (ready ++ released g (placed ++ n ∷ []) n (keys g))

unfoldable pub static_order : Graph → Result CycleError (List String)
unfolding nodes_from initial place all_in
static_order g =
    let nodes = nodes_from [] g in
    let placed = place (length nodes) g [] (initial g nodes) in
    if all_in nodes placed then ok placed else err cycle_error
