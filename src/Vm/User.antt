-- ===== src/Vm/User.antt =====
-- kernel/vm.c: the operations on the memory of a process. `kend` is the linker's symbol `end`, `none` a
-- panic, and true the result 0 of an operation that answers 0 or -1.
use xv6_riscv.Base.{
  ℕ, zero, suc, ◌+◌, ◌-◌, ◌*◌, ◌/◌, ◌%◌, ◌^◌, Bool, true, false, ◌&&◌, not, Option, none, some,
  if◌then◌else◌, ltb, leb, ◌==◌,
}
use xv6_riscv.Kalloc.{Mem, ◌>>=◌, kalloc, kfree, share, pgsize, pgroundup}
use xv6_riscv.Vm.{is_valid, maxva, pte2pa, pte_flags, set_pte, zero_page, walk, mappages}

-- bit `k` of a word: tested, set, cleared
abbrev pub has_flag : ℕ → ℕ → Bool
has_flag k x = x / 2 ^ k % 2 == 1

abbrev pub set_flag : ℕ → ℕ → ℕ
set_flag k x = if has_flag k x then x else x + 2 ^ k

abbrev pub clear_flag : ℕ → ℕ → ℕ
clear_flag k x = if has_flag k x then x - 2 ^ k else x

abbrev pub pte_r : ℕ
pte_r = 1

abbrev pub pte_w : ℕ
pte_w = 2

abbrev pub pte_x : ℕ
pte_x = 3

abbrev pub pte_u : ℕ
pte_u = 4

abbrev pub pte_cow : ℕ
pte_cow = 9

-- `PGROUNDUP` on 64 bits
abbrev pub round_up : ℕ → ℕ
round_up a = pgroundup a % 2 ^ 64

-- an `int` made of a 64-bit word, as a 64-bit word again
abbrev pub int_of : ℕ → ℕ
int_of x = if ltb (x % 2 ^ 32) (2 ^ 31) then x % 2 ^ 32 else x % 2 ^ 32 + (2 ^ 64 - 2 ^ 32)

unfoldable pub walkaddr : ℕ → ℕ → Mem → Option ℕ
walkaddr pt va m =
    if leb maxva va
    then some 0
    else (walk false pt va m >>= λ r. elim r.0 [
      | none ↦ some 0
      | some (p, i) ↦
          let pte = r.1.page p i in
          if not (is_valid pte)
          then some 0
          else if not (has_flag pte_u pte)
          then some 0
          else some (pte2pa pte)
    ])

-- The loop of `uvmunmap`, with fuel, up to the address `stop`.
unfoldable pub unmap_loop : ℕ → ℕ → ℕ → ℕ → ℕ → Bool → Mem → Option Mem
unmap_loop kend zero pt a stop do_free m = if ltb a stop then none else some m
unmap_loop kend (suc fuel) pt a stop do_free m =
    if leb stop a
    then some m
    else (walk false pt a m >>= λ r. elim r.0 [
      | none ↦ none
      | some (p, i) ↦
          let pte = r.1.page p i in
          if not (is_valid pte)
          then none
          else if pte_flags pte == 1
          then none
          else ((if do_free then kfree kend (pte2pa pte) r.1 else some r.1) >>= λ m'.
              unmap_loop kend fuel pt (a + pgsize) stop do_free (set_pte p i 0 m'))
    ])

-- The loop ends after `npages` rounds, or panics before.
unfoldable pub uvmunmap : ℕ → ℕ → ℕ → ℕ → Bool → Mem → Option Mem
uvmunmap kend pt va npages do_free m =
    if not (va % pgsize == 0)
    then none
    else unmap_loop kend npages pt va ((va + npages * pgsize) % 2 ^ 64) do_free m

unfoldable pub uvmcreate : Mem → Option (ℕ × Mem)
uvmcreate m = kalloc m >>= λ r. if r.0 == 0 then some (0, r.1) else some (r.0, zero_page r.0 r.1)

unfoldable pub uvmdealloc : ℕ → ℕ → ℕ → ℕ → Mem → Option (ℕ × Mem)
uvmdealloc kend pt oldsz newsz m =
    if leb oldsz newsz
    then some (oldsz, m)
    else if ltb (round_up newsz) (round_up oldsz)
    then (uvmunmap kend pt (round_up newsz) (int_of ((round_up oldsz - round_up newsz) / pgsize))
          true m
        >>= λ m'. some (newsz, m'))
    else some (newsz, m)

-- The error path of `uvmalloc`.
unfoldable pub undo_alloc : ℕ → ℕ → ℕ → ℕ → Mem → Option (ℕ × Mem)
undo_alloc kend pt a oldsz m = uvmdealloc kend pt a oldsz m >>= λ d. some (0, d.1)

-- The loop of `uvmalloc`, with fuel.
unfoldable pub alloc_loop : ℕ → ℕ → ℕ → ℕ → ℕ → ℕ → ℕ → Mem → Option (ℕ × Mem)
alloc_loop kend zero pt oldsz a newsz xperm m = none
alloc_loop kend (suc fuel) pt oldsz a newsz xperm m =
    if leb newsz a
    then some (newsz, m)
    else (kalloc m >>= λ r.
        if r.0 == 0
        then undo_alloc kend pt a oldsz r.1
        else (mappages pt a pgsize r.0 (set_flag pte_r (set_flag pte_u xperm)) (zero_page r.0 r.1)
            >>= λ s.
                let rest = alloc_loop kend fuel pt oldsz (a + pgsize) newsz xperm s.1 in
                if s.0 then rest else (kfree kend r.0 s.1 >>= undo_alloc kend pt a oldsz)))

-- The fuel is more than the pages below MAXVA, where `mappages` panics.
unfoldable pub uvmalloc : ℕ → ℕ → ℕ → ℕ → ℕ → Mem → Option (ℕ × Mem)
uvmalloc kend pt oldsz newsz xperm m =
    if ltb newsz oldsz
    then some (oldsz, m)
    else alloc_loop kend (2 ^ 26 + 2) pt (round_up oldsz) (round_up oldsz) newsz xperm m

-- The loop of `freewalk` over the entries from `i` on, where `free` frees the table below.
unfoldable pub free_entries : (ℕ → Mem → Option Mem) → ℕ → ℕ → ℕ → Mem → Option Mem
free_entries free zero i pt m = some m
free_entries free (suc k) i pt m =
    let pte = m.page pt i in
    if is_valid pte
      && not (has_flag pte_r pte)
      && not (has_flag pte_w pte)
      && not (has_flag pte_x pte)
    then (free (pte2pa pte) m >>= λ m'. free_entries free k (suc i) pt (set_pte pt i 0 m'))
    else if is_valid pte
    then none
    else free_entries free k (suc i) pt m

-- The fuel is the depth of the recursion.
unfoldable pub freewalk : ℕ → ℕ → ℕ → Mem → Option Mem
freewalk kend zero pt m = none
freewalk kend (suc depth) pt m =
    free_entries (freewalk kend depth) 512 0 pt m >>= λ m'. kfree kend pt m'

-- A tree of page tables has three levels.
unfoldable pub uvmfree : ℕ → ℕ → ℕ → Mem → Option Mem
uvmfree kend pt sz m =
    (if ltb 0 sz then uvmunmap kend pt 0 (round_up sz / pgsize) true m else some m)
    >>= freewalk kend 3 pt

-- `(pte & ~PTE_W) | PTE_COW`
abbrev pub cow : ℕ → ℕ
cow pte = set_flag pte_cow (clear_flag pte_w pte)

-- The loop of `uvmcopy`, with fuel.
unfoldable pub copy_loop : ℕ → ℕ → ℕ → ℕ → ℕ → ℕ → Mem → Option (Bool × Mem)
copy_loop kend zero old new i sz m = none
copy_loop kend (suc fuel) old new i sz m =
    if leb sz i
    then some (true, m)
    else (walk false old i m >>= λ r. elim r.0 [
      | none ↦ none
      | some (p, j) ↦
          let pte = r.1.page p j in
          if not (is_valid pte)
          then none
          else (mappages new i pgsize (pte2pa pte) (cow (pte_flags pte)) (set_pte p j (cow pte) r.1)
              >>= λ s.
                  let rest = share (pte2pa pte) s.1 >>= λ m'.
                  copy_loop kend fuel old new (i + pgsize) sz m' in
                  if s.0
                  then rest
                  else (uvmunmap kend new 0 (i / pgsize) true s.1 >>= λ m'. some (false, m')))
    ])

-- The fuel is more than the pages below MAXVA, where `walk` panics.
unfoldable pub uvmcopy : ℕ → ℕ → ℕ → ℕ → Mem → Option (Bool × Mem)
uvmcopy kend old new sz m = copy_loop kend (2 ^ 26 + 2) old new 0 sz m

unfoldable pub uvmclear : ℕ → ℕ → Mem → Option Mem
uvmclear pt va m = walk false pt va m >>= λ r. elim r.0 [
  | none ↦ none
  | some (p, i) ↦ some (set_pte p i (clear_flag pte_u (r.1.page p i)) r.1)
]

-- The kernel's own page table gets a mapping at boot.
pub kvmmap : ℕ → ℕ → ℕ → ℕ → ℕ → Mem → Option Mem
kvmmap kpgtbl va pa sz perm m =
    mappages kpgtbl va sz pa perm m >>= λ r. if r.0 then some r.1 else none
