-- ===== src/HugePages/Preallocated.antt =====
-- `PreallocatedHugepageImpl` of src/core/resources/hugepages.py.
use asct.Prelude.{
  ℕ, Bool, Option, none, some, List, [], ◌∷◌, ◌++◌, Result, ok, and_then, if◌then◌else◌, ◌==◌,
  nat_key,
}
use asct.Dict.{Dict}
use asct.HugePages.{HugeError, available, adjust, has_enough_free_pages}
use asct.HugePages.Store.{success, Request}
use asct.HugePages.Manager.{RequestInfo}

-- `_resolve_request`; the MemoryError of the handler stands for the one it catches.
unfoldable pub resolve_request :
    Bool → List ℕ → (ℕ → Option ℕ) → ℕ → ℕ → ℕ → Result HugeError Request
unfolding adjust
resolve_request disable_resize sizes read_free node size count =
    and_then (adjust disable_resize (has_enough_free_pages read_free) sizes size count) λ adjusted.
      ok (record {
        node = node;
        page_size = adjusted.0;
        page_count = adjusted.1;
        error = none;
        orig_page_size = if adjusted.0 == size then none else some size;
        state = success;
      })

unfoldable pub resolve_sizes :
    Bool → List ℕ → (ℕ → Option ℕ) → ℕ → Dict ℕ ℕ → Result HugeError (List Request)
unfolding resolve_request
resolve_sizes disable_resize sizes read_free node [] = ok []
resolve_sizes disable_resize sizes read_free node ((size, count) ∷ rest) =
    and_then (resolve_request disable_resize sizes read_free node size count)
      λ r. and_then (resolve_sizes disable_resize sizes read_free node rest) λ rs. ok (r ∷ rs)

-- `setup`: the requests, given the sizes of each node and the free pages of a node and a size
unfoldable pub setup :
    Bool → Dict ℕ (List ℕ) → (ℕ → ℕ → Option ℕ) → RequestInfo → Result HugeError (List Request)
unfolding resolve_sizes available
setup disable_resize supported read_free [] = ok []
setup disable_resize supported read_free ((node, sizes) ∷ info) =
    and_then (resolve_sizes disable_resize (available supported node) (read_free node) node sizes)
      λ rs. and_then (setup disable_resize supported read_free info) λ more. ok (rs ++ more)
