-- ===== src/HugePages/Store.antt =====
-- The objects of `HugePageManager`: src/core/resources/hugepages.py. The tables of the nodes and
-- the list of a requestor hold the same request objects, so both hold references into a heap.
use asct.Prelude.{
  ℕ, Bool, true, false, Option, none, some, List, [], ◌∷◌, Exec, get_elem?, set, if◌then◌else◌,
  nat_key,
}
use asct.Dict.{Dict, keys, lookup, insert}
use asct.HugePages.{HugeError}

pub data AllocState : Type 0 where
  ready failed success : AllocState

-- The texts that the manager writes to `error`, less what they quote.
pub data Message : Type 0 where
  config_unreadable node_missing file_missing not_writeable allocation_failed : Message

pub record Request : Type 0 where
  pub node : ℕ
  pub page_size : ℕ
  pub page_count : ℕ
  pub error : Option Message
  pub orig_page_size : Option ℕ
  pub state : AllocState

pub record SizeEntry : Type 0 where
  pub initial_count : ℕ
  pub allocated_count : ℕ
  pub requests : Dict ℕ ℕ

-- The files of sysfs, for a node and a size, over a type of states of the kernel. A read is `none`
-- on an OSError or a ValueError; a write says whether it went through.
pub record Kernel (K : Type 0) : Type 0 where
  pub read_count : K → ℕ → ℕ → Option ℕ
  pub write_count : K → ℕ → ℕ → ℕ → Bool × K
  pub node_exists : K → ℕ → Bool
  pub file_exists : K → ℕ → ℕ → Bool
  pub writeable : K → ℕ → ℕ → Bool

-- A requestor stands as its `id`.
pub record Manager (K : Type 0) : Type 0 where
  pub kernel : K
  pub alloc_done : Bool
  pub nodes : Dict ℕ (Dict ℕ SizeEntry)
  pub all_requests : Dict ℕ (List ℕ)
  pub heap : List Request

abbrev pub Action : Type 0 → Type 0 → Type 0
Action K A = Exec HugeError (Manager K) A

abbrev pub state_beq : AllocState → AllocState → Bool
state_beq ready ready = true
state_beq failed failed = true
state_beq success success = true
state_beq _ _ = false

module _ {K : Type 0} where
  unfoldable pub entry_of : Manager K → ℕ → ℕ → Option SizeEntry
  unfolding lookup
  entry_of m node size = elim (lookup node m.nodes) [ none ↦ none | some sizes ↦ lookup size sizes ]

  unfoldable pub set_entry : ℕ → ℕ → SizeEntry → Manager K → Manager K
  unfolding lookup insert
  set_entry node size e m = elim (lookup node m.nodes) [
    | none ↦ m
    | some sizes ↦ record m { nodes = insert node (insert size e sizes) m.nodes }
  ]

  -- The sizes that a node has entries of.
  unfoldable pub sizes_at : Manager K → ℕ → List ℕ
  unfolding lookup
  sizes_at m node = elim (lookup node m.nodes) [ none ↦ [] | some sizes ↦ keys sizes ]

abbrev pub written : AllocState → Option Message → Request → Request
written state none r = record r { state = state }
written state (some e) r = record r { state = state; error = some e }

-- The loop of `_set_request_state` over the requests of an entry.
unfoldable pub mark :
    (Request → Bool) → AllocState → Option Message → List ℕ → List Request → List Request
mark test state error [] heap = heap
mark test state error (i ∷ refs) heap = mark test state error refs (elim (get_elem? heap i) [
  | none ↦ heap
  | some r ↦ if test r then set heap i (written state error r) else heap
])

module _ {K : Type 0} where
  set_sizes : (Request → Bool) → AllocState → Option Message → ℕ → List ℕ → Manager K → Manager K
  unfolding entry_of mark
  set_sizes test state error node [] m = m
  set_sizes test state error node (size ∷ sizes) m =
      set_sizes test state error node sizes (elim (entry_of m node size) [
        | none ↦ m
        | some e ↦ record m { heap = mark test state error (refs e.requests) m.heap }
      ])
    where
      refs : Dict ℕ ℕ → List ℕ
      refs [] = []
      refs ((k, i) ∷ d) = i ∷ refs d

  -- `_set_request_state` for a node; a size that is `none` means all of them. The callers give a
  -- node always.
  unfoldable pub set_request_state :
      ℕ → Option ℕ → AllocState → Option Message → (Request → Bool) → Manager K → Manager K
  unfolding set_sizes sizes_at
  set_request_state node none state error test m =
      set_sizes test state error node (sizes_at m node) m
  set_request_state node (some size) state error test m =
      set_sizes test state error node (size ∷ []) m
