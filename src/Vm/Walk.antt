-- ===== src/Vm/Walk.antt =====
-- kernel/vm.c: `walk` with `alloc` set finds the leaf entry of an address, and changes no mapping.
use xv6_riscv.Base.{
  ℕ, ◌≤◌, ◌<◌, ◌≡◌, ◌≢◌, refl, sym, ap, ◌∙◌, subst, true, false, arith, List, count, Option, none,
  some, leb,
}
use xv6_riscv.Kalloc.{Mem, ◌>>=◌, kernbase}
use xv6_riscv.Kalloc.Ledger.{Heap}
use xv6_riscv.Vm.{px, pte2pa, is_valid, maxva, descend, walk_from, walk}
use xv6_riscv.Vm.Bits.{px_lt}
use xv6_riscv.Vm.Tree.{child, Has, Slot, middle-ne-top}
use xv6_riscv.Vm.Grow.{Hung, top-Grown}
use xv6_riscv.Vm.Hang.{middle-Grown}
use xv6_riscv.Vm.Descend.{Good, Grew, Grew-refl, Grew-trans, Below, Descended, descend-Descended}

-- A pointer to the leaf entry of the address, or no memory for a table.
abbrev pub Walked : ℕ → ℕ → ℕ → Heap → Option (Option (ℕ × ℕ) × Mem) → Type 0
Walked kend root va h none = ⊥
Walked kend root va h (some (none, m)) =
    (held' : List ℕ) × (Good kend root (record { mem = m; held = held' })
      × Grew root h (record { mem = m; held = held' }))
Walked kend root va h (some (some (p, i), m)) =
    (held' : List ℕ) × (Good kend root (record { mem = m; held = held' })
      × (Grew root h (record { mem = m; held = held' })
          × (Slot m.page root va p i × (0 < count p held'))))

-- The first round put nothing or a table there, the second the table of the leaf.
second :
    (kend root va c : ℕ) (h h1 : Heap) (o : Option (Option ℕ × Mem))
    → Good kend root h
    → Good kend root h1
    → Below root root (px 2 va) c h h1
    → Descended kend root c (px 1 va) h1 o
    → Walked kend root va h
        (o >>= λ r. elim r.0 [ none ↦ some (none, r.1) | some next ↦ walk_from true 0 next va r.1 ])
unfolding walk_from
second kend root va c h h1 none g g1 b d = d
second kend root va c h h1 (some (none, m)) g g1 b d = (
  h1.held,
  (
    subst (λ (x : Mem). Good kend root (record { mem = x; held = h1.held })) (sym d) g1,
    subst (λ (x : Mem). Grew root h (record { mem = x; held = h1.held })) (sym d) b.grew,
  ),
)
second kend root va c h h1 (some (some low, m)) g g1 b (held', (g2, b2)) =
    let is_mid : child h1.mem.page root (px 2 va) ≡ c = b.is_child in
    let apart : root ≢ c = λ e.
      middle-ne-top h1.mem.page h1.held root g1.tree (px 2 va) (px_lt 2 va) b.here
        (is_mid ∙ sym e) in
    let same : m.page root (px 2 va) ≡ h1.mem.page root (px 2 va) =
      b2.rest root (px 2 va) g1.tree.top_held (λ e. absurd (apart e)) in
    let top : Has m.page root (px 2 va) = ap is_valid same ∙ b.here in
    let way : child m.page root (px 2 va) ≡ c = ap pte2pa same ∙ is_mid in
    let mid : Has m.page (child m.page root (px 2 va)) (px 1 va) =
      subst (λ x. Has m.page x (px 1 va)) (sym way) b2.here in
    let leaf_table : child m.page (child m.page root (px 2 va)) (px 1 va) ≡ low =
      ap (λ x. child m.page x (px 1 va)) way ∙ b2.is_child in
    (
      held',
      (
        g2,
        (
          Grew-trans root h h1 (record { mem = m; held = held' }) b.grew b2.grew,
          (
            record { top = top; middle = mid; table = sym leaf_table; index = refl },
            subst (λ x. 0 < count x held') leaf_table
                (g2.tree.low_held (px 2 va) (px 1 va) (px_lt 2 va) (px_lt 1 va) top mid),
          ),
        ),
      ),
    )

first :
    (kend root va : ℕ) (low : kernbase ≤ kend) (h : Heap) (o : Option (Option ℕ × Mem))
    → Good kend root h
    → Descended kend root root (px 2 va) h o
    → Walked kend root va h
        (o >>= λ r. elim r.0 [ none ↦ some (none, r.1) | some next ↦ walk_from true 1 next va r.1 ])
unfolding walk_from
first kend root va low h none g d = d
first kend root va low h (some (none, m)) g d = (
  h.held,
  (
    subst (λ (x : Mem). Good kend root (record { mem = x; held = h.held })) (sym d) g,
    subst (λ (x : Mem). Grew root h (record { mem = x; held = h.held })) (sym d) (Grew-refl root h),
  ),
)
first kend root va low h (some (some c, m)) g (held', (g1, b)) =
    let h1 : Heap = record { mem = m; held = held' } in
    let mid_held : 0 < count c held' =
      subst (λ x. 0 < count x held') b.is_child
        (g1.tree.middle_held (px 2 va) (px_lt 2 va) b.here) in
    second kend root va c h h1 (descend true 1 c va m) g g1 b (
      descend-Descended kend root c 1 va low h1 g1 mid_held (λ page' r was hung.
        middle-Grown m.page page' held' root r (px 2 va) (px 1 va) g1.tree (px_lt 2 va) (px_lt 1 va)
          b.here (subst (λ x. Hung m.page page' held' r x (px 1 va)) (sym b.is_child) hung)))

-- Over a tree of page tables with right counters, walk with alloc set does not panic for an
-- address below MAXVA; it answers no entry, or the place of the leaf entry of the address in a
-- table that is held, after hanging the tables that were missing into the tree, and no address is
-- mapped differently.
pub walk-Walked :
    (kend root va : ℕ) (h : Heap)
    → kernbase ≤ kend
    → va < maxva
    → Good kend root h
    → Walked kend root va h (walk true root va h.mem)
unfolding walk walk_from
walk-Walked kend root va h low lt g =
    let inside : leb maxva va ≡ false = ground (arith, lt) in
    rw inside (
      first kend root va low h (descend true 2 root va h.mem) g (
        descend-Descended kend root root 2 va low h g g.tree.top_held (λ page' r was hung.
          top-Grown h.mem.page page' h.held root r root (px 2 va) g.tree hung refl (px_lt 2 va))))
