-- ===== src/Resources/Sorted.antt =====
-- The order of `_topological_sort` of src/core/managers/resource_manager.py.
use asct.Prelude.{
  ◌||◌, ℕ, String, ◌≡◌, ◌∙◌, refl, sym, subst, true, Option, none, some, List, [], ◌∷◌, ◌++◌,
  Result, ok, err, and_then, and_then-eq-ok, string_key, Bool-cases, inl, inr, ◌==◌, arith,
}
use asct.Dict.{Dict, keys, contains, lookup, insert}
use asct.Dict.Laws.{lookup-insert}
use asct.Graph.{Graph, CycleError, all_in, predecessors, nodes_from, static_order}
use asct.Graph.Order.{IsOrdered, static_order-IsOrdered, all_in-contains, contains-nodes_from}
use asct.Resources.{
  Class, key_error, cycle, topological_sort, find_all, name_to_resource, dep_graph,
}

contains-insert :
    {V : Type 0} (j k : String) (v : V) (d : Dict String V)
    → contains j (keys (insert k v d)) ≡ (k == j || contains j (keys d))
unfolding contains insert
contains-insert j k v [] = ground arith
contains-insert j k v ((i, u) ∷ d) =
    ground (arith, string_key.equal_iff i k, contains-insert j k v d)

module _ {W : Type 0} (class : Class W) where
  abbrev pub names : List ℕ → List String
  names [] = []
  names (r ∷ rs) = class.name r ∷ names rs

  -- `seen` and the resources in front have all names that each resource of the list depends on.
  unfoldable pub AreSorted : List String → List ℕ → Type 0
  unfolding all_in
  AreSorted seen [] = Unit {0}
  AreSorted seen (r ∷ rs) =
      (all_in (class.depends_on r) seen ≡ true) × AreSorted (seen ++ class.name r ∷ []) rs

  -- The entries of a dictionary and of a graph go with each other.
  abbrev Fits : Dict String ℕ → Graph → Type 0
  Fits d g =
      (n : String) (r : ℕ)
      → lookup n d ≡ some r
      → (class.name r ≡ n) × (lookup n g ≡ some (class.depends_on r))

  Fits-insert :
      (r : ℕ) (d : Dict String ℕ) (g : Graph)
      → Fits d g
      → Fits (insert (class.name r) r d) (insert (class.name r) (class.depends_on r) g)
  Fits-insert r d g fits n q found = elim (Bool-cases (class.name r == n)) [
    | inl same ↦
        let is : some r ≡ some q =
          sym (lookup-insert (class.name r) n r d ∙ rw same refl) ∙ found in
        let r_is : r ≡ q = cc is in
        subst
          (λ z.
            (class.name z ≡ n)
            × (lookup n (insert (class.name r) (class.depends_on r) g) ≡ some (class.depends_on z)))
          r_is
          (
            (string_key.equal_iff (class.name r) n).0 same,
            lookup-insert (class.name r) n (class.depends_on r) g ∙ rw same refl,
          )
    | inr other ↦
        let older = fits n q (sym (lookup-insert (class.name r) n r d ∙ rw other refl) ∙ found) in
        (older.0, lookup-insert (class.name r) n (class.depends_on r) g ∙ rw other older.1)
  ]

  Fits-resources :
      (rs : List ℕ) (d : Dict String ℕ) (g : Graph)
      → Fits d g
      → Fits (name_to_resource class rs d) (dep_graph class rs g)
  unfolding name_to_resource dep_graph
  Fits-resources [] d g fits = fits
  Fits-resources (r ∷ rs) d g fits = Fits-resources rs _ _ (Fits-insert r d g fits)

  predecessors-lookup :
      (g : Graph) (n : String) (deps : List String)
      → lookup n g ≡ some deps
      → predecessors g n ≡ deps
  unfolding predecessors lookup
  predecessors-lookup [] n deps h = cc h
  predecessors-lookup ((k, ds) ∷ g) n deps h = elim (Bool-cases (k == n)) [
    | inl same ↦ rw same (cc (rw same at h))
    | inr other ↦ rw other (predecessors-lookup g n deps (rw other at h))
  ]

  -- The resources that are found have the names, and are in order where the names are.
  find_all-AreSorted :
      (ns seen : List String) (d : Dict String ℕ) (g : Graph) (sorted : List ℕ)
      → Fits d g
      → find_all class ns d ≡ ok sorted
      → IsOrdered g seen ns
      → AreSorted seen sorted × (names sorted ≡ ns)
  unfolding find_all AreSorted
  find_all-AreSorted [] seen d g sorted fits found ordered =
      let is : [] ≡ sorted = cc found in
      subst (λ l. AreSorted seen l × (names l ≡ [])) is (tt, refl)
  find_all-AreSorted (n ∷ ns) seen d g sorted fits found ordered =
      by_lookup (lookup n d) refl found (λ rest found_rest.
        find_all-AreSorted ns (seen ++ n ∷ []) d g rest fits found_rest ordered.1)
    where
      by_lookup :
          (o : Option ℕ)
          → lookup n d ≡ o
          → (elim o [
            | none ↦ err key_error
            | some r ↦ and_then (find_all class ns d) (λ rs. ok (r ∷ rs))
          ])
            ≡ ok sorted
          → ((rest : List ℕ)
              → find_all class ns d ≡ ok rest
              → AreSorted (seen ++ n ∷ []) rest × (names rest ≡ ns))
          → AreSorted seen sorted × (names sorted ≡ n ∷ ns)
      by_lookup none e bad ih = cc bad
      by_lookup (some r) e good ih =
          let (rest, found_rest, same) = and_then-eq-ok (find_all class ns d) _ good in
          let (named, deps) = fits n r e in
          let (behind, names_rest) = ih rest found_rest in
          let is : r ∷ rest ≡ sorted = cc same in
          subst (λ l. AreSorted seen l × (names l ≡ n ∷ ns)) is
            (
              (
                subst (λ ds. all_in ds seen ≡ true)
                    (predecessors-lookup g n (class.depends_on r) deps) ordered.0,
                subst (λ m. AreSorted (seen ++ m ∷ []) rest) (sym named) behind,
              ),
              rw (named, names_rest) refl,
            )

  contains-dep_graph :
      (n : String) (rs : List ℕ) (g : Graph)
      → (contains n (names rs) || contains n (keys g)) ≡ true
      → contains n (keys (dep_graph class rs g)) ≡ true
  unfolding dep_graph contains
  contains-dep_graph n [] g h = ground (arith, h)
  contains-dep_graph n (r ∷ rs) g h =
      contains-dep_graph n rs (insert (class.name r) (class.depends_on r) g)
        (rw (contains-insert n (class.name r) (class.depends_on r) g) (ground (arith, h)))

  -- What is known of the names is known of the resources.
  topological_sort-found :
      (rs : List ℕ) (order : List String) (sorted : List ℕ)
      → static_order (dep_graph class rs []) ≡ ok order
      → find_all class order (name_to_resource class rs []) ≡ ok sorted
      → AreSorted [] sorted
        × ((n : String) → contains n (names rs) ≡ true → contains n (names sorted) ≡ true)
  unfolding lookup contains
  topological_sort-found rs order sorted placed found =
      let g : Graph = dep_graph class rs [] in
      let (ordered, complete) = static_order-IsOrdered g order placed in
      let (behind, named) =
        find_all-AreSorted order [] (name_to_resource class rs []) g sorted
          (Fits-resources rs [] [] (λ n r h. cc h)) found ordered in
      (
        behind,
        λ n h.
            subst (λ l. contains n l ≡ true) (sym named)
              (all_in-contains n (nodes_from [] g) order complete
                (contains-nodes_from n [] g (contains-dep_graph n rs [] (ground (arith, h))))),
      )

  -- In the order that `_topological_sort` returns, the names that a resource depends on are those of
  -- resources in front of it, and each name of a resource of the list is the name of one in it.
  pub topological_sort-AreSorted :
      (rs sorted : List ℕ)
      → topological_sort class rs ≡ ok sorted
      → AreSorted [] sorted
        × ((n : String) → contains n (names rs) ≡ true → contains n (names sorted) ≡ true)
  unfolding topological_sort
  topological_sort-AreSorted rs sorted h = by_order (static_order (dep_graph class rs [])) refl h
    where
      by_order :
          (o : Result CycleError (List String))
          → static_order (dep_graph class rs []) ≡ o
          → (elim o [
            | err _ ↦ err cycle
            | ok order ↦ find_all class order (name_to_resource class rs [])
          ])
            ≡ ok sorted
          → AreSorted [] sorted
            × ((n : String) → contains n (names rs) ≡ true → contains n (names sorted) ≡ true)
      by_order (err e) placed bad = cc bad
      by_order (ok order) placed found = topological_sort-found rs order sorted placed found
