-- ===== src/Cow/Run.antt =====
-- kernel/trap.c: the code of `handleCOW` run on a shared page.
use xv6_riscv.Base.{
  ℕ, ◌-◌, ◌%◌, ◌<◌, ◌≡◌, ◌≢◌, refl, ap, ◌∙◌, true, false, ◌==◌, some, update, ne→==,
}
use xv6_riscv.Kalloc.{
  Mem, frame, fill, kalloc, count_fresh, memref_lock, memref_unlock, memref_get, memref_set,
  memref_lock_kalloc, memref_unlock_kalloc, pgsize,
}
use xv6_riscv.Vm.{is_valid, maxva, pte2pa, pte_flags, set_pte, leaf}
use xv6_riscv.Vm.Tree.{Slot, write_self}
use xv6_riscv.Vm.User.{has_flag, pte_u, pte_cow}
use xv6_riscv.Vm.One.{uvmunmap_one, mappages_one}
use xv6_riscv.Cow.{own, finish, replace_page, resolve, fault}

-- The memory while `handleCOW` holds the lock.
abbrev pub locked : Mem → Mem
locked m = record m { locked = true; lock_kalloc = false }

abbrev pub unlocked : Mem → Mem
unlocked m = record m { locked = false; lock_kalloc = true }

pub fault-resolve :
    (kend root a p i : ℕ) (m : Mem)
    → a ≢ 0
    → has_flag pte_cow (m.page p i) ≡ true
    → is_valid (m.page p i) ≡ true
    → has_flag pte_u (m.page p i) ≡ true
    → m.locked ≡ false
    → fault kend root a p i m ≡ resolve kend root a p i (locked m)
unfolding fault memref_lock memref_unlock_kalloc
fault-resolve kend root a p i m ne c v u free = rw (ne→== a 0 ne, c, v, u, free) refl

pub finish_lem : (m : Mem) → m.locked ≡ true → finish m ≡ some (0, unlocked m)
unfolding finish memref_unlock memref_lock_kalloc
finish_lem m held = rw held refl

pub resolve_reused :
    (kend root a p i : ℕ) (m : Mem)
    → m.refs (frame (pte2pa (m.page p i))) ≡ 1
    → resolve kend root a p i (locked m) ≡ some (0, unlocked (set_pte p i (own (m.page p i)) m))
unfolding resolve memref_get
resolve_reused kend root a p i m one =
    rw one (finish_lem (set_pte p i (own (m.page p i)) (locked m)) refl)

pub resolve_full :
    (kend root a p i : ℕ) (m : Mem)
    → m.refs (frame (pte2pa (m.page p i))) ≢ 1
    → m.freelist ≡ 0
    → resolve kend root a p i (locked m)
      ≡ some (1, record m { locked = false; lock_kalloc = false })
unfolding resolve memref_get kalloc memref_unlock
resolve_full kend root a p i m many full =
    rw (ne→== (m.refs (frame (pte2pa (m.page p i)))) 1 many, full) refl

-- `kalloc` takes a page without the lock.
pub kalloc_locked :
    (m : Mem)
    → m.freelist ≢ 0
    → kalloc (locked m)
      ≡ some (
        m.freelist,
        record (locked m) {
          page = update m.page m.freelist (fill 5);
          freelist = m.page m.freelist 0;
          refs = update m.refs (frame m.freelist) 1;
        },
      )
unfolding kalloc count_fresh memref_set
kalloc_locked m ne = rw (ne→== m.freelist 0 ne) refl

pub replace_page_lem :
    (kend root a p i pa flags fq new : ℕ) (m : Mem)
    → a % pgsize ≡ 0
    → a < maxva
    → (let page = update m.page new (m.page pa) in
        Slot page root a p i
        × (is_valid (page p i) ≡ true)
        × ((pte_flags (page p i) == 1) ≡ false)
        × Slot (set_pte p i 0 (record m { page = page })).page root a p i)
    → m.locked ≡ true
    → replace_page kend root a pa flags fq new m
      ≡ some (
        0,
        unlocked (
            memref_set pa (fq - 1) (
              set_pte p i
                (leaf new flags)
                (set_pte p i 0 (record m { page = update m.page new (m.page pa) })))),
      )
unfolding replace_page memref_set
replace_page_lem kend root a p i pa flags fq new m al lt (s, v, no_table, s') held =
    rw
      (uvmunmap_one kend root a p i (record m { page = update m.page new (m.page pa) }) al lt s v
        no_table)
      (rw
        (mappages_one root a new flags p i
          (set_pte p i 0 (record m { page = update m.page new (m.page pa) })) al lt s'
          (ap is_valid (write_self (update m.page new (m.page pa)) p i 0) ∙ refl))
        (finish_lem _ held))
