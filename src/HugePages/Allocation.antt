-- ===== src/HugePages/Allocation.antt =====
-- Allocation and release in `HugePageManager` of src/core/resources/hugepages.py.
use asct.Prelude.{
  Option, Result, ok, err, ℕ, ◌+◌, Bool, true, false, not, ◌&&◌, none, some, List, [], ◌∷◌, ltb,
  leb, pure, raise, ◌>>=◌, ◌>>◌, gets, modify, get_elem?, if◌then◌else◌, ◌==◌, nat_key,
}
use asct.Dict.{keys, values, lookup, remove}
use asct.HugePages.{HugeError, memory_error, assertion_error, key_error}
use asct.HugePages.Store.{
  AllocState, ready, failed, success, allocation_failed, Request, SizeEntry, Kernel, Manager,
  Action, state_beq, entry_of, set_entry, sizes_at, set_request_state,
}
use asct.HugePages.Manager.{preverify, get_hugepage_settings, allocate_huge_page}

-- A count in the place that keeps the list sorted from the largest to the smallest, once.
insert_count : ℕ → List ℕ → List ℕ
insert_count n [] = n ∷ []
insert_count n (m ∷ ms) =
    let rest = insert_count n ms in
    if n == m then m ∷ ms else if leb m n then n ∷ m ∷ ms else m ∷ rest

-- `sorted({req.page_count ... if req.state == READY}, reverse=True)`
unfoldable pub page_counts : List Request → List ℕ → List ℕ
unfolding insert_count
page_counts heap [] = []
page_counts heap (i ∷ refs) = elim (get_elem? heap i) [
  | none ↦ page_counts heap refs
  | some r ↦
      if state_beq r.state ready
      then insert_count r.page_count (page_counts heap refs)
      else page_counts heap refs
]

module _ {K : Type 0} (kernel : Kernel K) where
  -- Step 3 of `_allocate`, for an entry.
  unfoldable pub allocate_counts : ℕ → ℕ → ℕ → List ℕ → Manager K → Manager K
  unfolding allocate_huge_page set_request_state entry_of set_entry
  allocate_counts node size initial [] m = m
  allocate_counts node size initial (count ∷ counts) m =
      let (done, tried) = allocate_huge_page kernel node size (initial + count) m in
      let stays =
        set_request_state node (some size) failed (some allocation_failed)
          (λ r. r.page_count == count) tried in
      let fails = allocate_counts node size initial counts stays in
      let entered : Manager K = elim (entry_of tried node size) [
        | none ↦ tried
        | some e ↦ set_entry node size (record e { allocated_count = initial + count }) tried
      ] in
      if done
      then set_request_state node (some size) success none (λ r. leb r.page_count count) entered
      else fails

  allocate_sizes : ℕ → List ℕ → Manager K → Manager K
  unfolding allocate_counts page_counts entry_of
  allocate_sizes node [] m = m
  allocate_sizes node (size ∷ sizes) m = allocate_sizes node sizes (elim (entry_of m node size) [
    | none ↦ m
    | some e ↦ allocate_counts node size e.initial_count (page_counts m.heap (values e.requests)) m
  ])

  allocate_nodes : List ℕ → Manager K → Manager K
  unfolding allocate_sizes sizes_at
  allocate_nodes [] m = m
  allocate_nodes (node ∷ nodes) m = allocate_nodes nodes (allocate_sizes node (sizes_at m node) m)

  unfoldable pub allocate : Manager K → Manager K
  unfolding allocate_nodes preverify get_hugepage_settings
  allocate m =
      let read = get_hugepage_settings kernel (preverify kernel m) in
      record (allocate_nodes (keys read.nodes) read) { alloc_done = true }

unfoldable pub states : List Request → List ℕ → List AllocState
states heap [] = []
states heap (i ∷ refs) = elim (get_elem? heap i) [
  | none ↦ states heap refs
  | some r ↦ r.state ∷ states heap refs
]

unfoldable pub has_state : AllocState → List AllocState → Bool
has_state s [] = false
has_state s (t ∷ ts) = if state_beq t s then true else has_state s ts

unfoldable pub all_state : AllocState → List AllocState → Bool
all_state s [] = true
all_state s (t ∷ ts) = state_beq t s && all_state s ts

-- The end of `acquire`, given the requests of the requestor.
unfoldable pub outcome : Option (List ℕ) → List Request → Result HugeError (Unit {0})
unfolding states all_state has_state
outcome none heap = err assertion_error
outcome (some refs) heap =
    if all_state success (states heap refs)
    then ok tt
    else if has_state failed (states heap refs)
    then err memory_error
    else ok tt

module _ {K : Type 0} (kernel : Kernel K) where
  -- `if not self._alloc_done: ...`
  unfoldable pub allocate_unless : Bool → Manager K → Manager K
  unfolding allocate
  allocate_unless true m = m
  allocate_unless false m = allocate kernel m

  unfoldable pub acquire : ℕ → Action K Unit
  unfolding allocate_unless outcome lookup
  acquire requestor m =
      let after = allocate_unless m.alloc_done m in
      (outcome (lookup requestor after.all_requests) after.heap, after)

  -- The last request of an entry to go sets the count back; an OSError or a ValueError is logged.
  unfoldable pub free_entry : ℕ → ℕ → SizeEntry → Manager K → Manager K
  free_entry node size e m = elim e.requests [
    | [] ↦
        if ltb e.initial_count e.allocated_count
        then record m { kernel = (kernel.write_count m.kernel node size e.initial_count).1 }
        else m
    | r ∷ rs ↦ m
  ]

  release_one : ℕ → Request → Action K Unit
  unfolding entry_of set_entry free_entry lookup remove
  release_one requestor r = gets (λ m. entry_of m r.node r.page_size) >>= λ entry. elim entry [
    | none ↦ raise key_error
    | some e ↦ elim (lookup requestor e.requests) [
      | none ↦ raise key_error
      | some i ↦
          let left = record e { requests = remove requestor e.requests } in
          modify (λ m. free_entry r.node r.page_size left (set_entry r.node r.page_size left m))
    ]
  ]

  release_all : ℕ → List ℕ → Action K Unit
  unfolding release_one
  release_all requestor [] = pure tt
  release_all requestor (i ∷ refs) = gets (λ m. get_elem? m.heap i) >>= λ found. elim found [
    | none ↦ raise key_error
    | some r ↦ release_one requestor r >> release_all requestor refs
  ]

  unfoldable pub release : ℕ → Action K Unit
  unfolding release_all lookup remove
  release requestor = gets (λ m. m) >>= λ m.
      if not m.alloc_done then raise assertion_error else elim (lookup requestor m.all_requests) [
        | none ↦ raise assertion_error
        | some refs ↦
            release_all requestor refs
            >> modify (λ n. record n { all_requests = remove requestor n.all_requests })
      ]
