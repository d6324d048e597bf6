-- ===== src/Vm/Range.antt =====
-- kernel/vm.c: the loop of `mappages`, and `mappages`.
use xv6_riscv.Base.{
  ℕ, zero, suc, ◌+◌, ◌-◌, ◌*◌, ◌%◌, ◌^◌, ◌≤◌, ◌<◌, ◌≡◌, subst, Bool, true, false, arith, ◌==◌,
  if◌then◌else◌, Bool-cases, inl, inr, Option, none, some, ==→eq, ==→ne,
}
use xv6_riscv.Kalloc.{Mem, ◌>>=◌, kernbase, pgsize}
use xv6_riscv.Kalloc.Ledger.{Heap}
use xv6_riscv.Vm.{is_valid, maxva, leaf, set_pte, walk, map_loop, mappages, pgrounddown}
use xv6_riscv.Vm.Descend.{Good}
use xv6_riscv.Vm.Walk.{Walked, walk-Walked}
use xv6_riscv.Vm.Map.{
  Maps, Mapped, none-Maps, one-Maps, remapped, rest-Mapped, written, written-Good,
}

module _ (kend root a last pa perm : ℕ) (low : kernbase ≤ kend) (h : Heap)
    (aligned : a % pgsize ≡ 0) (last_aligned : last % pgsize ≡ 0) (le : a ≤ last)
    (fits : last < maxva) (rest : Mem → Option (Bool × Mem))
    (more : (h' : Heap)
      → Good kend root h'
      → a + pgsize ≤ last
      → Mapped kend root (a + pgsize) last (pa + pgsize) perm h' (rest h'.mem)) where
  -- A round, after `walk`.
  round-Mapped :
      (o : Option (Option (ℕ × ℕ) × Mem))
      → Walked kend root a h o
      → Mapped kend root a last pa perm h (
          o >>= λ r. elim r.0 [
            | none ↦ some (false, r.1)
            | some (p, i) ↦
                if is_valid (r.1.page p i)
                then none
                else (let m' = set_pte p i (leaf pa perm) r.1 in
                    let others = rest m' in if a == last then some (true, m') else others)
          ])
  round-Mapped none w = absurd w
  round-Mapped (some (none, m)) (held', (g, grew)) = (
    a,
    (
      omega arith,
      (
        le,
        (
          held',
          none-Maps kend root a pa perm low h aligned (omega (arith, le, fits))
              (record { mem = m; held = held' }) g grew,
        ),
      ),
    ),
  )
  round-Mapped (some (some (p, i), m)) (held', (g, (grew, (s, pos)))) =
      let h1 : Heap = record { mem = m; held = held' } in
      let below : a < maxva = omega (arith, le, fits) in
      elim (Bool-cases (is_valid (m.page p i))) [
        | inl old ↦ rw old (
          a,
          (
            omega arith,
            (le, remapped kend root a pa perm low h aligned below h1 p i g grew s pos old),
          ),
        )
        | inr new ↦ elim (Bool-cases (a == last)) [
          | inl e ↦
              rw (new, e)
                (
                  held',
                  subst
                      (λ x.
                        Maps kend root a (x + pgsize) pa perm h
                          (written kend root a pa perm low h aligned below h1 p i g grew s pos))
                      (==→eq a last e)
                      (one-Maps kend root a pa perm low h aligned below h1 p i g grew s pos),
                )
          | inr ne ↦
              let step : a + pgsize ≤ last =
                omega (arith, ==→ne a last ne, aligned, last_aligned, le) in
              rw (new, ne)
                (rest-Mapped kend root a pa perm low h aligned below h1 p i g grew s pos last _ step
                  fits
                  (more _ (written-Good kend root a pa perm low h aligned below h1 p i g grew s pos)
                    step))
        ]
      ]

map_loop-Mapped :
    (fuel kend root a last pa perm : ℕ) (h : Heap)
    → kernbase ≤ kend
    → a % pgsize ≡ 0
    → last % pgsize ≡ 0
    → a ≤ last
    → last < maxva
    → last < a + fuel * pgsize
    → Good kend root h
    → Mapped kend root a last pa perm h (map_loop fuel root a last pa perm h.mem)
unfolding map_loop
map_loop-Mapped zero kend root a last pa perm h low al la le fits enough g =
    absurd (omega (arith, le, enough))
map_loop-Mapped (suc fuel) kend root a last pa perm h low al la le fits enough g =
    round-Mapped kend root a last pa perm low h al la le fits
      (λ m. map_loop fuel root (a + pgsize) last (pa + pgsize) perm m)
      (λ h' g' step.
        map_loop-Mapped fuel kend root (a + pgsize) last (pa + pgsize) perm h' low
          (omega (arith, al)) la step fits (omega (arith, enough)) g')
      (walk true root a h.mem) (walk-Walked kend root a h low (omega (arith, le, fits)) g)

-- Over a tree of page tables with right counters, mappages of a range of at least a byte that
-- ends below MAXVA panics only if a page of the range is mapped already; if the result is 0,
-- every page of the range is mapped to its page from pa on, with the flags, and if it is -1, the
-- pages from the first on up to some page of the range are. No other address is mapped
-- differently, and the tree stays a tree.
pub mappages-Mapped :
    (kend root va size pa perm : ℕ) (h : Heap)
    → kernbase ≤ kend
    → 0 < size
    → va + size ≤ maxva
    → Good kend root h
    → Mapped kend root
        (pgrounddown va)
        (pgrounddown (va + size - 1))
        pa
        perm
        h
        (mappages root va size pa perm h.mem)
unfolding mappages
mappages-Mapped kend root va size pa perm h low pos fits g =
    let some_size : (size == 0) ≡ false = ground (arith, pos) in
    let no_wrap : (va + size - 1) % 2 ^ 64 ≡ va + size - 1 = omega (arith, fits, pos) in
    rw (some_size, no_wrap)
      (map_loop-Mapped (2 ^ 26 + 1) kend root (pgrounddown va) (pgrounddown (va + size - 1)) pa perm
        h low (omega arith) (omega arith) (omega (arith, pos)) (omega (arith, fits, pos))
        (omega (arith, fits, pos)) g)
