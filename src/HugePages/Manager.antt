-- ===== src/HugePages/Manager.antt =====
-- `HugePageManager` of src/core/resources/hugepages.py.
use asct.Prelude.{
  ℕ, Bool, true, false, not, none, some, List, [], ◌∷◌, ◌++◌, pure, raise, ◌>>=◌, ◌>>◌, gets,
  modify, lift, length, if◌then◌else◌, ◌==◌, nat_key,
}
use asct.Dict.{Dict, keys, lookup, insert}
use asct.HugePages.{assertion_error, available, adjust, any_size}
use asct.HugePages.Store.{
  ready, failed, config_unreadable, node_missing, file_missing, not_writeable, Request, SizeEntry,
  Kernel, Manager, Action, entry_of, set_entry, sizes_at, set_request_state,
}

-- The dictionary of a request: page counts by page size, by node.
abbrev pub RequestInfo : Type 0
RequestInfo = Dict ℕ (Dict ℕ ℕ)

abbrev pub no_entry : SizeEntry
no_entry = record { initial_count = 0; allocated_count = 0; requests = [] }

abbrev any_request : Request → Bool
any_request r = true

module _ {K : Type 0} where
  -- `if node not in alloc_status.nodes: ...`
  add_node : ℕ → Manager K → Manager K
  unfolding lookup insert
  add_node node m = elim (lookup node m.nodes) [
    | none ↦ record m { nodes = insert node [] m.nodes }
    | some sizes ↦ m
  ]

  -- The new request object becomes the requestor's at its entry and is appended to its list.
  unfoldable pub add_request : ℕ → Request → Manager K → Manager K
  unfolding entry_of set_entry lookup insert
  add_request requestor r m =
      let i = length m.heap in
      let e : SizeEntry = elim (entry_of m r.node r.page_size) [ none ↦ no_entry | some e ↦ e ] in
      let placed =
        set_entry r.node r.page_size (record e { requests = insert requestor i e.requests }) m in
      let mine : List ℕ = elim (lookup requestor m.all_requests) [ none ↦ [] | some l ↦ l ] in
      record placed {
        heap = m.heap ++ r ∷ [];
        all_requests = insert requestor (mine ++ i ∷ []) m.all_requests;
      }

  request_sizes : Bool → List ℕ → ℕ → ℕ → Dict ℕ ℕ → Action K Unit
  unfolding adjust add_request
  request_sizes disable_resize sizes requestor node [] = pure tt
  request_sizes disable_resize sizes requestor node ((size, count) ∷ rest) =
      lift (adjust disable_resize any_size sizes size count) >>= λ adjusted.
      modify (
        add_request requestor (record {
          node = node;
          page_size = adjusted.0;
          page_count = adjusted.1;
          error = none;
          orig_page_size = if adjusted.0 == size then none else some size;
          state = ready;
        }))
      >> request_sizes disable_resize sizes requestor node rest

  request_nodes : Bool → Dict ℕ (List ℕ) → ℕ → RequestInfo → Action K Unit
  unfolding request_sizes add_node available
  request_nodes disable_resize supported requestor [] = pure tt
  request_nodes disable_resize supported requestor ((node, sizes) ∷ info) =
      modify (add_node node)
      >> request_sizes disable_resize (available supported node) requestor node sizes
      >> request_nodes disable_resize supported requestor info

  unfoldable pub request_allocation : Bool → Dict ℕ (List ℕ) → ℕ → RequestInfo → Action K Unit
  unfolding request_nodes
  request_allocation disable_resize supported requestor info = gets (λ m. m.alloc_done) >>= λ done.
      if done then raise assertion_error else request_nodes disable_resize supported requestor info

module _ {K : Type 0} (kernel : Kernel K) where
  verify_sizes : ℕ → List ℕ → Manager K → Manager K
  unfolding set_request_state
  verify_sizes node [] m = m
  verify_sizes node (size ∷ sizes) m = verify_sizes node sizes (
      if not (kernel.file_exists m.kernel node size)
      then set_request_state node (some size) failed (some file_missing) any_request m
      else if not (kernel.writeable m.kernel node size)
      then set_request_state node (some size) failed (some not_writeable) any_request m
      else m)

  verify_nodes : List ℕ → Manager K → Manager K
  unfolding verify_sizes set_request_state sizes_at
  verify_nodes [] m = m
  verify_nodes (node ∷ nodes) m = verify_nodes nodes (
      if not (kernel.node_exists m.kernel node)
      then set_request_state node none failed (some node_missing) any_request m
      else verify_sizes node (sizes_at m node) m)

  unfoldable pub preverify : Manager K → Manager K
  unfolding verify_nodes
  preverify m = verify_nodes (keys m.nodes) m

  read_sizes : ℕ → List ℕ → Manager K → Manager K
  unfolding set_request_state entry_of set_entry
  read_sizes node [] m = m
  read_sizes node (size ∷ sizes) m =
      read_sizes node sizes (elim (kernel.read_count m.kernel node size) [
        | none ↦ set_request_state node (some size) failed (some config_unreadable) any_request m
        | some n ↦ elim (entry_of m node size) [
          | none ↦ m
          | some e ↦ set_entry node size (record e { initial_count = n }) m
        ]
      ])

  read_nodes : List ℕ → Manager K → Manager K
  unfolding read_sizes sizes_at
  read_nodes [] m = m
  read_nodes (node ∷ nodes) m = read_nodes nodes (read_sizes node (sizes_at m node) m)

  unfoldable pub get_hugepage_settings : Manager K → Manager K
  unfolding read_nodes
  get_hugepage_settings m = read_nodes (keys m.nodes) m

  -- `HugepageUtility._allocate_huge_page`: whether it raises nothing
  unfoldable pub allocate_huge_page : ℕ → ℕ → ℕ → Manager K → Bool × Manager K
  allocate_huge_page node size count m =
      let (went_through, k) = kernel.write_count m.kernel node size count in
      if went_through
      then (
        elim (kernel.read_count k node size) [ none ↦ false | some n ↦ n == count ],
        record m { kernel = k },
      )
      else (false, record m { kernel = k })
