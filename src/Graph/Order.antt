-- ===== src/Graph/Order.antt =====
-- The order of `static_order`, which src/core/managers/resource_manager.py applies resources in.
use asct.Prelude.{
  ◌||◌, ◌==◌, subst, ℕ, zero, suc, String, ◌≡◌, refl, true, ◌&&◌, List, [], ◌∷◌, ◌++◌, ok, arith,
  string_key, length, Bool-cases, inl, inr,
}
use mathlib.Core.List
use mathlib.Core.List.{append_assoc}
use asct.Dict.{contains, keys}
use asct.Graph.{
  add_names, Graph, all_in, nodes_from, predecessors, initial, released, place, static_order,
}

pub contains-append_left :
    (x : String) (xs ys : List String) → contains x xs ≡ true → contains x (xs ++ ys) ≡ true
unfolding contains
contains-append_left x [] ys h = cc
contains-append_left x (y ∷ xs) ys h = ground (arith, contains-append_left x xs ys)

contains_snoc :
    (x y : String) (xs : List String) → contains x (xs ++ y ∷ []) ≡ (contains x xs || y == x)
unfolding contains
contains_snoc x y [] = ground arith
contains_snoc x y (z ∷ xs) = ground (arith, contains_snoc x y xs)

contains_equal :
    (x y : String) (xs : List String)
    → (x == y) ≡ true
    → contains x xs ≡ true
    → contains y xs ≡ true
contains_equal x y xs same h =
    subst (λ z. contains z xs ≡ true) ((string_key.equal_iff x y).0 same) h

pub all_in-append : (xs ys zs : List String) → all_in xs ys ≡ true → all_in xs (ys ++ zs) ≡ true
unfolding all_in
all_in-append [] ys zs h = refl
all_in-append (x ∷ xs) ys zs h =
    ground (arith, contains-append_left x ys zs, all_in-append xs ys zs)

-- `seen` and the names in front hold all predecessors of each name of the list.
abbrev pub IsOrdered : Graph → List String → List String → Type 0
IsOrdered g seen [] = Unit {0}
IsOrdered g seen (n ∷ ns) =
    (all_in (predecessors g n) seen ≡ true) × IsOrdered g (seen ++ n ∷ []) ns

IsOrdered-snoc :
    (g : Graph) (seen ns : List String) (n : String)
    → IsOrdered g seen ns
    → all_in (predecessors g n) (seen ++ ns) ≡ true
    → IsOrdered g seen (ns ++ n ∷ [])
IsOrdered-snoc g seen [] n h p = (rw append-nil at p, tt)
  where
    append-nil : seen ++ [] ≡ seen
    append-nil = List.append-nil seen
IsOrdered-snoc g seen (m ∷ ns) n h p =
    (h.0, IsOrdered-snoc g (seen ++ m ∷ []) ns n h.1 (rw (← append_assoc seen (m ∷ []) ns) at p))

-- Every ready node has all of its predecessors placed.
abbrev AreReady : Graph → List String → List String → Type 0
AreReady g placed [] = Unit {0}
AreReady g placed (n ∷ ns) = (all_in (predecessors g n) placed ≡ true) × AreReady g placed ns

AreReady-grow :
    (g : Graph) (placed more ns : List String)
    → AreReady g placed ns
    → AreReady g (placed ++ more) ns
AreReady-grow g placed more [] h = tt
AreReady-grow g placed more (n ∷ ns) h =
    (all_in-append (predecessors g n) placed more h.0, AreReady-grow g placed more ns h.1)

AreReady-append :
    (g : Graph) (placed ns ms : List String)
    → AreReady g placed ns
    → AreReady g placed ms
    → AreReady g placed (ns ++ ms)
AreReady-append g placed [] ms h k = k
AreReady-append g placed (n ∷ ns) ms h k = (h.0, AreReady-append g placed ns ms h.1 k)

AreReady-initial : (g : Graph) (ns : List String) → AreReady g [] (initial g ns)
unfolding initial
AreReady-initial g [] = tt
AreReady-initial g (n ∷ ns) = elim (Bool-cases (all_in (predecessors g n) [])) [
  | inl free ↦ rw free (free, AreReady-initial g ns)
  | inr bound ↦ rw bound (AreReady-initial g ns)
]

AreReady-released :
    (g : Graph) (placed : List String) (n : String) (ks : List String)
    → AreReady g placed (released g placed n ks)
unfolding released
AreReady-released g placed n [] = tt
AreReady-released g placed n (k ∷ ks) =
    let test = contains n (predecessors g k) && all_in (predecessors g k) placed in
    elim (Bool-cases test) [
      | inl ready ↦ rw ready (ground arith, AreReady-released g placed n ks)
      | inr waits ↦ rw waits (AreReady-released g placed n ks)
    ]

IsOrdered-place :
    (fuel : ℕ) (g : Graph) (placed ready : List String)
    → IsOrdered g [] placed
    → AreReady g placed ready
    → IsOrdered g [] (place fuel g placed ready)
unfolding place
IsOrdered-place zero g placed ready h r = h
IsOrdered-place (suc fuel) g placed [] h r = h
IsOrdered-place (suc fuel) g placed (n ∷ ready) h r =
    IsOrdered-place fuel g (placed ++ n ∷ []) _ (IsOrdered-snoc g [] placed n h r.0) (
      AreReady-append g (placed ++ n ∷ []) ready _ (AreReady-grow g placed (n ∷ []) ready r.1)
        (AreReady-released g (placed ++ n ∷ []) n _))

-- The order that `static_order` returns has every name behind its predecessors, and it holds all
-- nodes of the graph.
pub static_order-IsOrdered :
    (g : Graph) (order : List String)
    → static_order g ≡ ok order
    → IsOrdered g [] order × (all_in (nodes_from [] g) order ≡ true)
unfolding static_order
static_order-IsOrdered g order e = elim (Bool-cases (all_in (nodes_from [] g) placed)) [
  | inl all ↦
      let same : placed ≡ order = cc (rw all at e) in
      (
        rw same at (
            IsOrdered-place (length (nodes_from [] g)) g [] _ tt
              (AreReady-initial g (nodes_from [] g))),
        rw same at all,
      )
  | inr some_left ↦ cc (rw some_left at e)
]
  where
    placed : List String
    placed = place (length (nodes_from [] g)) g [] (initial g (nodes_from [] g))

-- What is in a list stays there when names are added, and each key becomes a node.
contains-add_names :
    (n : String) (nodes xs : List String)
    → contains n (add_names nodes xs) ≡ (contains n nodes || contains n xs)
unfolding add_names contains
contains-add_names n nodes [] = ground arith
contains-add_names n nodes (x ∷ xs) = elim (Bool-cases (contains x nodes)) [
  | inl known ↦
      rw (known, contains-add_names n nodes xs) (ground (arith, contains_equal x n nodes, known))
  | inr new ↦
      rw (new, contains-add_names n (nodes ++ x ∷ []) xs, contains_snoc n x nodes) (ground arith)
]

pub contains-nodes_from :
    (n : String) (nodes : List String) (g : Graph)
    → (contains n nodes || contains n (keys g)) ≡ true
    → contains n (nodes_from nodes g) ≡ true
unfolding nodes_from contains
contains-nodes_from n nodes [] h = ground (arith, h)
contains-nodes_from n nodes ((k, deps) ∷ g) h =
    contains-nodes_from n (add_names nodes (k ∷ deps)) g
      (rw (contains-add_names n nodes (k ∷ deps)) (ground (arith, h)))

pub all_in-contains :
    (x : String) (xs ys : List String)
    → all_in xs ys ≡ true
    → contains x xs ≡ true
    → contains x ys ≡ true
unfolding all_in contains
all_in-contains x [] ys h k = cc k
all_in-contains x (z ∷ xs) ys h k =
    ground (arith, h, k, contains_equal z x ys, all_in-contains x xs ys)
