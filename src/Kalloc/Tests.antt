-- ===== src/Kalloc/Tests.antt =====
-- kernel/kalloc.c: runs on a memory with two free pages.
use xv6_riscv.Base.{count, ℕ, ◌≡◌, ◌≢◌, refl, true, false, [], ◌∷◌, some, ◌⊎◌, arith, update}
use xv6_riscv.Kalloc.{fill, Mem, frame, kalloc}
use xv6_riscv.Kalloc.Chain.{IsPage, kalloc-some}
use xv6_riscv.Kalloc.Ledger.{Heap, Step, allocs, Balanced}
use xv6_riscv.Kalloc.History.{here, next, kalloc_fresh}

abbrev kernel_end : ℕ
kernel_end = 0x80010000

abbrev free_page : ℕ
free_page = 0x80010000

abbrev next_page : ℕ
next_page = 0x80011000

-- two free pages
abbrev small : Heap
small = record {
  mem = record {
    page = update (λ _ _. 0) free_page (λ _. next_page);
    freelist = free_page;
    refs = λ _. 0;
    lock_kalloc = true;
    locked = false;
  };
  held = [];
}

small-Balanced : Balanced kernel_end small
small-Balanced = record {
  pages = free_page ∷ next_page ∷ [];
  chain = (refl, λ e. absurd (omega (arith, e)), (refl, λ e. absurd (omega (arith, e)), refl));
  distinct = (((λ e. absurd (omega (arith, e))), tt), (tt, tt));
  free = (
    ((omega arith, omega arith, omega arith), refl),
    (((omega arith, omega arith, omega arith), refl), tt),
  );
  counted = λ q good. refl;
  owned = λ q pos. absurd (omega (arith, pos));
  unlocked = refl;
}

-- the memory after one allocation
abbrev used : Heap
used = record {
  mem = record small.mem {
    page = update small.mem.page free_page (fill 5);
    freelist = next_page;
    refs = update small.mem.refs (frame free_page) 1;
    locked = false;
  };
  held = free_page ∷ [];
}

allocated : kalloc small.mem ≡ some (free_page, used.mem)
allocated = kalloc-some small.mem (λ e. absurd (omega (arith, e))) refl

first_alloc : Step kernel_end small used
first_alloc = allocs allocated (λ e. absurd (omega (arith, e)))

kalloc_fresh_example :
    (r : ℕ) × (m : Mem) × (kalloc used.mem ≡ some (r, m))
    × (((r ≡ 0) × (used.mem.freelist ≡ 0) × (m ≡ used.mem))
        ⊎ ((used.mem.freelist ≢ 0)
            × (r ≡ used.mem.freelist)
            × IsPage kernel_end r
            × (count r used.held ≡ 0)
            × (m.refs (frame r) ≡ 1)
            × ((p : ℕ) → r ≢ p → m.page p ≡ used.mem.page p)))
kalloc_fresh_example =
    kalloc_fresh kernel_end {h = small} {h' = used} (omega arith) small-Balanced
      (next here first_alloc)

-- memory at boot: zero
abbrev boot_memory : Mem
boot_memory = record {
  page = λ _ _. 0;
  freelist = 0;
  refs = λ _. 0;
  lock_kalloc = false;
  locked = false;
}
