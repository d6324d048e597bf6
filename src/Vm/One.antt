-- ===== src/Vm/One.antt =====
-- kernel/vm.c: one page is removed, or mapped, where all tables are there.
use xv6_riscv.Base.{
  ℕ, suc, ◌+◌, ◌-◌, ◌*◌, ◌%◌, ◌^◌, ◌<◌, ◌≡◌, refl, true, false, arith, ◌==◌, some, ltb, leb,
}
use xv6_riscv.Kalloc.{Mem, pgsize}
use xv6_riscv.Vm.{is_valid, maxva, set_pte, pte_flags, leaf, map_loop, mappages, pgrounddown}
use xv6_riscv.Vm.Tree.{Slot}
use xv6_riscv.Vm.User.{unmap_loop, uvmunmap}
use xv6_riscv.Vm.Unmap.{walk-Slot}

pub uvmunmap_one :
    (kend root a p i : ℕ) (m : Mem)
    → a % pgsize ≡ 0
    → a < maxva
    → Slot m.page root a p i
    → is_valid (m.page p i) ≡ true
    → (pte_flags (m.page p i) == 1) ≡ false
    → uvmunmap kend root a 1 false m ≡ some (set_pte p i 0 m)
unfolding uvmunmap unmap_loop
uvmunmap_one kend root a p i m al lt s v no_table =
    let more : leb ((a + 1 * pgsize) % 2 ^ 64) a ≡ false = ground (arith, lt) in
    let done : ltb (a + pgsize) ((a + 1 * pgsize) % 2 ^ 64) ≡ false = ground (arith, lt) in
    rw (al, more, walk-Slot false root a p i m lt s, v, no_table, done) refl

map_loop_one :
    (fuel root a pa perm p i : ℕ) (m : Mem)
    → a < maxva
    → Slot m.page root a p i
    → is_valid (m.page p i) ≡ false
    → map_loop (suc fuel) root a a pa perm m ≡ some (true, set_pte p i (leaf pa perm) m)
unfolding map_loop
map_loop_one fuel root a pa perm p i m lt s v =
    let last : (a == a) ≡ true = ground arith in rw (walk-Slot true root a p i m lt s, v, last) refl

pub mappages_one :
    (root a pa perm p i : ℕ) (m : Mem)
    → a % pgsize ≡ 0
    → a < maxva
    → Slot m.page root a p i
    → is_valid (m.page p i) ≡ false
    → mappages root a pgsize pa perm m ≡ some (true, set_pte p i (leaf pa perm) m)
unfolding mappages
mappages_one root a pa perm p i m al lt s v =
    let first : pgrounddown a ≡ a = omega (arith, al) in
    let last : pgrounddown ((a + pgsize - 1) % 2 ^ 64) ≡ a = omega (arith, al, lt) in
    rw (first, last) (map_loop_one (2 ^ 26) root a pa perm p i m lt s v)
