-- ===== src/Kalloc.antt =====
-- kernel/kalloc.c: the page allocator with reference counts for copy-on-write.
-- Physical memory is its pages, each of 512 words of eight bytes, by page address. A free page
-- holds the link to the next one in its first word. `kend` is the linker's symbol `end`.
-- `none` is a panic. `kmem.lock` is held only inside a call, and is left out; `memref.lock` is kept,
-- since `handleCOW` calls the allocator while it holds it.
pub mod Boot
pub mod Chain
pub mod Ledger
pub mod History
pub mod Tests
use xv6_riscv.Base.{
  ℕ, zero, suc, ◌+◌, ◌-◌, ◌*◌, ◌/◌, ◌%◌, ◌^◌, Bool, true, false, ◌||◌, ◌&&◌, not, Option, none,
  some, update, if◌then◌else◌, ltb, leb, ◌==◌,
}

-- kernel/memlayout.h and kernel/riscv.h
abbrev pub kernbase : ℕ
kernbase = 0x80000000

abbrev pub phystop : ℕ
phystop = kernbase + 128 * 1024 * 1024

abbrev pub pgsize : ℕ
pgsize = 4096

-- the macro `fn` of kalloc.c
abbrev pub frame : ℕ → ℕ
frame pa = (pa - kernbase) / pgsize

abbrev pub Page : Type 0
Page = ℕ → ℕ

-- `kmem` and `memref`; a null pointer is 0.
pub record Mem : Type 0 where
  pub page : ℕ → Page
  pub freelist : ℕ
  pub refs : ℕ → ℕ
  pub lock_kalloc : Bool
  pub locked : Bool

-- `memset` of a whole page with a byte, by words
abbrev pub fill : ℕ → Page
fill byte i = byte * 0x0101010101010101

-- `acquire` panics on a lock that this CPU holds, and `release` on one that it does not.
unfoldable pub memref_lock : Mem → Option Mem
memref_lock m = if m.locked then none else some (record m { locked = true })

unfoldable pub memref_unlock : Mem → Option Mem
memref_unlock m = if m.locked then some (record m { locked = false }) else none

unfoldable pub memref_get : ℕ → Mem → ℕ
memref_get pa m = m.refs (frame pa)

unfoldable pub memref_set : ℕ → ℕ → Mem → Mem
memref_set pa n m = record m { refs = update m.refs (frame pa) n }

unfoldable pub memref_lock_kalloc : Mem → Mem
memref_lock_kalloc m = record m { lock_kalloc = true }

unfoldable pub memref_unlock_kalloc : Mem → Mem
memref_unlock_kalloc m = record m { lock_kalloc = false }

infixl 5 ◌>>=◌
abbrev pub ◌>>=◌ : {A B : Type 0} → Option A → (A → Option B) → Option B
none >>= f = none
some a >>= f = f a

abbrev pub bad_page : ℕ → ℕ → Bool
bad_page kend pa = not (pa % pgsize == 0) || ltb pa kend || leb phystop pa

-- the free page `pa` put at the head of the list
unfoldable pub push_free : ℕ → Mem → Mem
push_free pa m = record m { page = update m.page pa (update (fill 1) 0 m.freelist); freelist = pa }

-- `kfree` from where it holds `memref.lock`.
pub kfree_locked : ℕ → Mem → Option Mem
kfree_locked pa m =
    if ltb 1 (memref_get pa m)
    then memref_unlock (memref_set pa (memref_get pa m - 1) m)
    else (memref_unlock (memref_set pa 0 m) >>= λ m'. some (push_free pa m'))

-- One reference less; the last one frees the page.
pub kfree : ℕ → ℕ → Mem → Option Mem
kfree kend pa m = if bad_page kend pa then none else (memref_lock m >>= kfree_locked pa)

-- the count of a fresh page, under the lock if `lock_kalloc` is set
unfoldable pub count_fresh : ℕ → Mem → Option Mem
count_fresh r m =
    if m.lock_kalloc
    then (memref_lock m >>= λ m'. memref_unlock (memref_set r 1 m'))
    else some (memref_set r 1 m)

unfoldable pub kalloc : Mem → Option (ℕ × Mem)
kalloc m =
    let r = m.freelist in
    if r == 0
    then some (0, m)
    else (count_fresh r (record m { freelist = m.page r 0 }) >>= λ m1.
        some (r, record m1 { page = update m1.page r (fill 5) }))

-- `uvmcopy` counts one more reference to a page that parent and child share.
pub share : ℕ → Mem → Option Mem
share pa m = do m1 ← memref_lock m; memref_unlock (memref_set pa (memref_get pa m1 + 1) m1)

-- PGROUNDUP
abbrev pub pgroundup : ℕ → ℕ
pgroundup a = (a + pgsize - 1) / pgsize * pgsize

-- `freerange` from the page `p` on, with `k` rounds of fuel; a round is made while the page ends
-- before `pa_end`.
pub freerange : ℕ → ℕ → ℕ → ℕ → Mem → Option Mem
freerange kend zero pa_end p m = some m
freerange kend (suc k) pa_end p m =
    let rest : Option Mem = kfree kend p m >>= freerange kend k pa_end (p + pgsize) in
    if leb (p + pgsize) pa_end then rest else some m

-- The `memset` over `memref.fr` counts bytes: of 32769 bytes, 8192 whole counters and the low byte
-- of the next.
abbrev pub clear_refs : (ℕ → ℕ) → ℕ → ℕ
clear_refs refs i = if ltb i 8192 then 0 else if i == 8192 then refs i / 256 * 256 else refs i

-- The fuel covers every page below PHYSTOP.
pub kinit : ℕ → Mem → Option Mem
kinit kend m = do
  m1 ← freerange kend 32769 phystop (pgroundup kend) m
  let m2 = memref_lock_kalloc m1
  some (record m2 { refs = clear_refs m2.refs })
