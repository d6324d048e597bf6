-- ===== src/Vm.antt =====
-- kernel/vm.c and the macros of kernel/riscv.h: page tables of the Sv39 scheme, over the pages of the
-- allocator. A page table is the address of its page, and a pointer to an entry of it that page and an
-- index. `none` is a panic; a null pointer to an entry is `none` too, inside the result.
pub mod Bits
pub mod Tree
pub mod Grow
pub mod Hang
pub mod Leaf
pub mod Descend
pub mod Walk
pub mod Map
pub mod Range
pub mod User
pub mod Bytes
pub mod Translate
pub mod Copyin
pub mod Copyinstr
pub mod Copyout
pub mod Unmap
pub mod Kept
pub mod One
pub mod Space
pub mod Seen
pub mod Tests
use xv6_riscv.Base.{
  ℕ, zero, suc, ◌+◌, ◌-◌, ◌*◌, ◌/◌, ◌%◌, ◌^◌, Bool, true, false, ◌||◌, ◌&&◌, not, Option, none,
  some, update, if◌then◌else◌, ltb, leb, ◌==◌,
}
use xv6_riscv.Kalloc.{Mem, Page, ◌>>=◌, fill, kalloc, kfree, pgsize, pgroundup}

abbrev pub maxva : ℕ
maxva = 2 ^ 38

-- `PGROUNDDOWN`
abbrev pub pgrounddown : ℕ → ℕ
pgrounddown a = a / pgsize * pgsize

abbrev pub px : ℕ → ℕ → ℕ
px level va = va / 2 ^ (12 + 9 * level) % 512

-- `*pte & PTE_V`
abbrev pub is_valid : ℕ → Bool
is_valid pte = pte % 2 == 1

abbrev pub pa2pte : ℕ → ℕ
pa2pte pa = pa / 4096 * 1024

abbrev pub pte2pa : ℕ → ℕ
pte2pa pte = pte / 1024 * 4096 % 2 ^ 64

abbrev pub pte_flags : ℕ → ℕ
pte_flags pte = pte % 1024

-- `flags | PTE_V`
abbrev pub with_v : ℕ → ℕ
with_v flags = flags / 2 * 2 + 1

-- `PA2PTE(pa) | flags | PTE_V`, for flags that fit below the address
abbrev pub leaf : ℕ → ℕ → ℕ
leaf pa flags = pa2pte pa + with_v flags

-- `*pte = v`
abbrev pub set_pte : ℕ → ℕ → ℕ → Mem → Mem
set_pte p i v m = record m { page = update m.page p (update (m.page p) i v) }

-- `memset(pa, 0, PGSIZE)`
abbrev pub zero_page : ℕ → Mem → Mem
zero_page pa m = record m { page = update m.page pa (fill 0) }

-- A round of the loop of `walk`: the table of the next level.
unfoldable pub descend : Bool → ℕ → ℕ → ℕ → Mem → Option (Option ℕ × Mem)
descend alloc level pt va m =
    let pte = m.page pt (px level va) in
    if is_valid pte
    then some (some (pte2pa pte), m)
    else if not alloc
    then some (none, m)
    else (kalloc m >>= λ r.
        if r.0 == 0
        then some (none, r.1)
        else some (some r.0, set_pte pt (px level va) (pa2pte r.0 + 1) (zero_page r.0 r.1)))

-- The loop of `walk` from a level down.
unfoldable pub walk_from : Bool → ℕ → ℕ → ℕ → Mem → Option (Option (ℕ × ℕ) × Mem)
walk_from alloc zero pt va m = some (some (pt, px 0 va), m)
walk_from alloc (suc level) pt va m = descend alloc (suc level) pt va m >>= λ r. elim r.0 [
  | none ↦ some (none, r.1)
  | some next ↦ walk_from alloc level next va r.1
]

unfoldable pub walk : Bool → ℕ → ℕ → Mem → Option (Option (ℕ × ℕ) × Mem)
walk alloc pt va m = if leb maxva va then none else walk_from alloc 2 pt va m

-- The loop of `mappages`, with fuel; true is the result 0, and false -1.
unfoldable pub map_loop : ℕ → ℕ → ℕ → ℕ → ℕ → ℕ → Mem → Option (Bool × Mem)
map_loop zero pt a last pa perm m = none
map_loop (suc fuel) pt a last pa perm m = walk true pt a m >>= λ r. elim r.0 [
  | none ↦ some (false, r.1)
  | some (p, i) ↦
      if is_valid (r.1.page p i)
      then none
      else (let m' = set_pte p i (leaf pa perm) r.1 in
          let rest = map_loop fuel pt (a + pgsize) last (pa + pgsize) perm m' in
          if a == last then some (true, m') else rest)
]

-- The fuel is more than the pages below MAXVA.
unfoldable pub mappages : ℕ → ℕ → ℕ → ℕ → ℕ → Mem → Option (Bool × Mem)
mappages pt va size pa perm m =
    if size == 0
    then none
    else map_loop (2 ^ 26 + 1) pt (pgrounddown va) (pgrounddown ((va + size - 1) % 2 ^ 64)) pa perm
        m
