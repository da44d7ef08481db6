-- ===== src/HugePages/Once.antt =====
-- The state that `HugePageManager.acquire` leaves: src/core/resources/hugepages.py.
use asct.Prelude.{ℕ, ◌≡◌, refl, Bool, true, false}
use asct.HugePages.Store.{Kernel, Manager}
use asct.HugePages.Allocation.{allocate, allocate_unless, acquire}

module _ {K : Type 0} (kernel : Kernel K) where
  allocate_unless-alloc_done :
      (b : Bool) (m : Manager K) → m.alloc_done ≡ b → (allocate_unless kernel b m).alloc_done ≡ true
  unfolding allocate_unless allocate
  allocate_unless-alloc_done true m h = h
  allocate_unless-alloc_done false m h = refl

  allocate_unless_again : (b : Bool) (m : Manager K) → b ≡ true → allocate_unless kernel b m ≡ m
  unfolding allocate_unless
  allocate_unless_again true m h = refl
  allocate_unless_again false m h = cc h

  -- Pages are allocated once: whoever acquires first, whether or not that raises, acquiring again
  -- for any requestor changes no state.
  pub acquire-once :
      (r q : ℕ) (m : Manager K)
      → (acquire kernel q (acquire kernel r m).1).1 ≡ (acquire kernel r m).1
  unfolding acquire
  acquire-once r q m =
      let after = allocate_unless kernel m.alloc_done m in
      allocate_unless_again after.alloc_done after (allocate_unless-alloc_done m.alloc_done m refl)
