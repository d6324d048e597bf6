-- ===== src/Cow.antt =====
-- kernel/trap.c: `handleCOW`, which gives a process that stores to a shared page one of its own. It holds
-- `memref.lock` while it works, with the switch off that makes `kalloc` take that lock. `kend` is the
-- linker's symbol `end`, and `none` a panic or a fault in the kernel. A counter that is 0 stays 0 where
-- the source would make it -1; a page that is mapped has a counter above 0.
pub mod Entry
pub mod Fault
pub mod Copied
pub mod Run
pub mod Resolve
pub mod Tests
use xv6_riscv.Base.{
  ℕ, zero, suc, ◌+◌, ◌-◌, ◌*◌, ◌/◌, ◌%◌, ◌^◌, Bool, true, false, ◌||◌, not, Option, none, some,
  update, if◌then◌else◌, leb, ◌==◌,
}
use xv6_riscv.Kalloc.{
  Mem, ◌>>=◌, kalloc, kfree, memref_lock, memref_unlock, memref_get, memref_set, memref_lock_kalloc,
  memref_unlock_kalloc, pgsize,
}
use xv6_riscv.Vm.{is_valid, maxva, pgrounddown, pte2pa, pte_flags, set_pte, walk, mappages}
use xv6_riscv.Vm.User.{has_flag, set_flag, clear_flag, pte_u, pte_w, pte_cow, uvmunmap}

-- `(pte & ~PTE_COW) | PTE_W`
abbrev pub own : ℕ → ℕ
own pte = set_flag pte_w (clear_flag pte_cow pte)

-- The end of `handleCOW`, where the page is resolved.
unfoldable pub finish : Mem → Option (ℕ × Mem)
finish m = memref_unlock (memref_lock_kalloc m) >>= λ m'. some (0, m')

-- The page `pa` is copied to the new page `mem`, which is mapped in its place.
unfoldable pub replace_page : ℕ → ℕ → ℕ → ℕ → ℕ → ℕ → ℕ → Mem → Option (ℕ × Mem)
replace_page kend pt va pa flags fq mem m =
    let copied = record m { page = update m.page mem (m.page pa) } in
    uvmunmap kend pt va 1 false copied >>= λ m1. mappages pt va pgsize mem flags m1 >>= λ s.
    if s.0
    then finish (memref_set pa (fq - 1) s.1)
    else (kfree kend mem s.1 >>= λ m2. memref_unlock m2 >>= λ m3. some (1, m3))

-- With the lock held: the only holder of a page may store to it, any other gets a copy.
unfoldable pub resolve : ℕ → ℕ → ℕ → ℕ → ℕ → Mem → Option (ℕ × Mem)
resolve kend pt va p i m =
    let pte = m.page p i in
    let pa = pte2pa pte in
    let fq = memref_get pa m in
    if fq == 1
    then finish (set_pte p i (own pte) m)
    else (kalloc m >>= λ r.
        if r.0 == 0
        then (memref_unlock r.1 >>= λ m1. some (1, m1))
        else replace_page kend pt va pa (own (pte_flags pte)) fq r.0 r.1)

-- `handleCOW` from where it has the entry.
unfoldable pub fault : ℕ → ℕ → ℕ → ℕ → ℕ → Mem → Option (ℕ × Mem)
fault kend pt va p i m =
    let pte = m.page p i in
    if va == 0 || not (has_flag pte_cow pte) || not (is_valid pte) || not (has_flag pte_u pte)
    then some (1, m)
    else (memref_lock m >>= λ m1. resolve kend pt va p i (memref_unlock_kalloc m1))

-- It reads the entry before it tests the pointer to it.
unfoldable pub handle_cow : ℕ → ℕ → ℕ → Mem → Option (ℕ × Mem)
handle_cow kend pt va m =
    if leb maxva va
    then some (1, m)
    else (walk false pt (pgrounddown va) m >>= λ r. elim r.0 [
      | none ↦ none
      | some (p, i) ↦ fault kend pt (pgrounddown va) p i r.1
    ])
