-- ===== src/HugePages/Tests.antt =====
-- A node with pages of 1 GiB, 2 MiB and 64 KiB.
use asct.Prelude.{
  some, none, ℕ, ◌≡◌, refl, ◌≤◌, ◌*◌, Bool, true, false, List, [], ◌∷◌, ok, arith, Result, ltb,
  if◌then◌else◌, ◌==◌, nat_key,
}
use asct.Dict.{contains}
use asct.HugePages.{HugeError, adjust}
use asct.HugePages.Store.{Kernel, Manager, ready}
use asct.HugePages.Allocation.{acquire}
use asct.HugePages.Once.{acquire-once}
use asct.HugePages.Resize.{AreSorted, Fits, adjust-memory, adjust-largest}

abbrev sizes : List ℕ
sizes = 1048576 ∷ 2048 ∷ 64 ∷ []

-- A single page of the largest size is free, and enough of the others.
abbrev valid : ℕ → ℕ → Result HugeError Bool
valid size count = ok (if size == 1048576 then ltb count 2 else true)

fitted : adjust false valid sizes 1048576 3 ≡ ok (2048, 1536)
unfolding adjust
fitted = refl

adjust-memory_example :
    (contains 2048 sizes ≡ true)
    × (2048 ≤ 1048576)
    × (2048 * 1536 ≡ 1048576 * 3)
    × (valid 2048 1536 ≡ ok true)
adjust-memory_example = adjust-memory false valid sizes 1048576 3 2048 1536 fitted

sorted : AreSorted sizes
unfolding AreSorted contains
sorted = (λ b h. ground arith, (λ b h. ground arith, (λ b h. cc h, tt)))

small-Fits : Fits valid 1048576 3 64
unfolding Fits
small-Fits = (omega arith, omega arith, refl, refl)

has_small : contains 64 sizes ≡ true
unfolding contains
has_small = refl

adjust-largest_example : 64 ≤ 2048
adjust-largest_example =
    adjust-largest false valid sizes 1048576 3 2048 1536 sorted fitted (λ e. omega arith) 64
      has_small small-Fits

abbrev kernel : Kernel ℕ
kernel = record {
  read_count = λ k node size. some k;
  write_count = λ k node size count. (true, count);
  node_exists = λ k node. true;
  file_exists = λ k node size. true;
  writeable = λ k node size. true;
}

abbrev manager : Manager ℕ
manager = record {
  kernel = 2;
  alloc_done = false;
  nodes =
      (0, (64, record { initial_count = 0; allocated_count = 0; requests = (7, 0) ∷ [] }) ∷ [])
      ∷ [];
  all_requests = (7, 0 ∷ []) ∷ [];
  heap =
      record {
        node = 0;
        page_size = 64;
        page_count = 5;
        error = none;
        orig_page_size = none;
        state = ready;
      }
      ∷ [];
}

acquire-once_example :
    (acquire kernel 8 (acquire kernel 7 manager).1).1 ≡ (acquire kernel 7 manager).1
acquire-once_example = acquire-once kernel 7 8 manager
