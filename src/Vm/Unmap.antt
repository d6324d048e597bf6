-- ===== src/Vm/Unmap.antt =====
-- kernel/vm.c: `uvmunmap` without `do_free` removes a range of pages, and no other.
use xv6_riscv.Base.{
  ℕ, zero, suc, ◌+◌, ◌*◌, ◌/◌, ◌%◌, ◌^◌, ◌≤◌, ◌<◌, ◌≡◌, ◌≢◌, refl, sym, ap, ◌∙◌, subst, Bool, true,
  false, arith, ◌==◌, Bool-cases, ◌⊎◌, inl, inr, Option, none, some, ltb, leb, count, ==→eq,
}
use native.Mathlib.Decide.{dec_lt}
use xv6_riscv.Kalloc.{Mem, kernbase, pgsize}
use xv6_riscv.Kalloc.Ledger.{Heap}
use xv6_riscv.Vm.{px, is_valid, maxva, set_pte, pte_flags, walk, walk_from, descend}
use xv6_riscv.Vm.Bits.{px_lt}
use xv6_riscv.Vm.Tree.{Pages, child, lookup, Slot, lookup-some, lookup-none_top, lookup-none_middle}
use xv6_riscv.Vm.Leaf.{write-Tree, write-lookup_self, write-lookup_ne}
use xv6_riscv.Vm.Descend.{Good, page-Balanced}
use xv6_riscv.Vm.User.{unmap_loop, uvmunmap}
use xv6_riscv.Vm.Translate.{find, walk-find}

-- Where all tables are there, `walk` finds the entry, and allocates nothing.
pub walk-Slot :
    (alloc : Bool) (root va p i : ℕ) (m : Mem)
    → va < maxva
    → Slot m.page root va p i
    → walk alloc root va m ≡ some (some (p, i), m)
unfolding walk walk_from descend
walk-Slot alloc root va p i m lt s =
    let inside : leb maxva va ≡ false = ground (arith, lt) in
    rw (inside, s.top, s.middle, s.table, s.index) refl

-- The entry of an address is in its slot, or the address is not mapped.
pub Slot-or_none :
    (page : Pages) (root va : ℕ)
    → ((p : ℕ) × (i : ℕ) × (Slot page root va p i × (find page root va ≡ some (p, i))))
      ⊎ ((find page root va ≡ none) × (lookup page root va ≡ 0))
unfolding find
Slot-or_none page root va = elim (Bool-cases (is_valid (page root (px 2 va)))) [
  | inr f ↦ inr (rw f refl, lookup-none_top page root va f)
  | inl t ↦ elim (Bool-cases (is_valid (page (child page root (px 2 va)) (px 1 va)))) [
    | inr f' ↦ inr (rw (t, f') refl, lookup-none_middle page root va f')
    | inl t' ↦ inl (
      child page (child page root (px 2 va)) (px 1 va),
      px 0 va,
      (record { top = t; middle = t'; table = refl; index = refl }, rw (t, t') refl),
    )
  ]
]

pub Slot-lookup :
    (page : Pages) (root va p i : ℕ) → Slot page root va p i → lookup page root va ≡ page p i
Slot-lookup page root va p i s =
    lookup-some page root va s.top s.middle
    ∙ (ap (λ x. page x (px 0 va)) (sym s.table) ∙ ap (page p) (sym s.index))

-- No entry, or one that is no leaf.
abbrev pub NotLeaf : ℕ → Type 0
NotLeaf pte = (is_valid pte ≡ false) ⊎ (pte_flags pte ≡ 1)

-- The pages from `a` to before `stop` are not mapped any more, and the other addresses as they were.
pub record Clears (kend root a stop : ℕ) (h : Heap) (m : Mem) : Type 0 where
  pub good : Good kend root (record { mem = m; held = h.held })
  pub inside : (va : ℕ) → va < maxva → a ≤ va → va < stop → lookup m.page root va ≡ 0
  pub outside :
      (va : ℕ)
      → va < maxva
      → (va < a) ⊎ (stop ≤ va)
      → lookup m.page root va ≡ lookup h.mem.page root va

-- A panic on a page of the range that is no mapped leaf, or the range is removed.
abbrev pub Unmapped : ℕ → ℕ → ℕ → ℕ → Heap → Option Mem → Type 0
Unmapped kend root a stop h none =
    (va : ℕ) × ((a ≤ va) × ((va < stop) × NotLeaf (lookup h.mem.page root va)))
Unmapped kend root a stop h (some m) = Clears kend root a stop h m

module _ (kend root a stop : ℕ) (low : kernbase ≤ kend) (h : Heap) (aligned : a % pgsize ≡ 0)
    (stop_aligned : stop % pgsize ≡ 0) (le : a < stop) (fits : stop ≤ maxva) (g : Good kend root h)
    (p i : ℕ) (s : Slot h.mem.page root a p i) where
  abbrev cleared : Heap
  cleared = record { mem = set_pte p i 0 (h.mem); held = h.held }

  slot_held : 0 < count p h.held
  slot_held =
      subst (λ x. 0 < count x h.held) (sym s.table)
        (g.tree.low_held (px 2 a) (px 1 a) (px_lt 2 a) (px_lt 1 a) s.top s.middle)

  cleared-Good : Good kend root cleared
  cleared-Good = record {
    balanced = page-Balanced kend low h p _ g.balanced slot_held;
    tree = write-Tree h.mem.page h.held root p i 0 g.tree a s;
  }

  cleared_self : (va : ℕ) → a / 4096 ≡ va / 4096 → lookup cleared.mem.page root va ≡ 0
  cleared_self va e = write-lookup_self h.mem.page h.held root p i 0 g.tree a s va e

  cleared_ne :
      (va : ℕ)
      → va < maxva
      → a / 4096 ≢ va / 4096
      → lookup cleared.mem.page root va ≡ lookup h.mem.page root va
  cleared_ne va lt ne =
      write-lookup_ne h.mem.page h.held root p i 0 g.tree a s va (omega (arith, le, fits)) lt ne

  more-Unmapped :
      (o : Option Mem)
      → Unmapped kend root (a + pgsize) stop cleared o
      → Unmapped kend root a stop h o
  more-Unmapped none (va, (from, (to, why))) = (
    va,
    (
      omega (arith, from),
      (
        to,
        subst NotLeaf
            (cleared_ne va (omega (arith, to, fits))
              (λ e. absurd (omega (arith, from, e, aligned))))
            why,
      ),
    ),
  )
  more-Unmapped (some m) r = record {
    good = r.good;
    inside = λ va lt from to. elim (dec_lt va (a + pgsize)) [
      | yes first ↦
          r.outside va lt (inl first) ∙ cleared_self va (omega (arith, aligned, from, first))
      | no later ↦ r.inside va lt (omega (arith, later)) to
    ];
    outside = λ va lt why. elim why [
      | inl before ↦
          r.outside va lt (inl (omega (arith, before)))
          ∙ cleared_ne va lt (λ e. absurd (omega (arith, aligned, before, e)))
      | inr after ↦
          r.outside va lt (inr after)
          ∙ cleared_ne va lt (λ e. absurd (omega (arith, aligned, stop_aligned, after, le, e)))
    ];
  }

unmap_loop-Unmapped :
    (fuel kend root a stop : ℕ) (h : Heap)
    → kernbase ≤ kend
    → a % pgsize ≡ 0
    → stop % pgsize ≡ 0
    → stop ≤ maxva
    → stop ≤ a + fuel * pgsize
    → Good kend root h
    → Unmapped kend root a stop h (unmap_loop kend fuel root a stop false h.mem)
unfolding unmap_loop
unmap_loop-Unmapped zero kend root a stop h low al sal fits enough g =
    let past : ltb a stop ≡ false = ground (arith, enough) in
    rw past record {
      good = g;
      inside = λ va lt from to. absurd (omega (arith, from, to, enough));
      outside = λ va lt why. refl;
    }
unmap_loop-Unmapped (suc fuel) kend root a stop h low al sal fits enough g = elim (dec_lt a stop) [
  | no past ↦
      let at_end : leb stop a ≡ true = ground (arith, past) in
      rw at_end record {
        good = g;
        inside = λ va lt from to. absurd (omega (arith, from, to, past));
        outside = λ va lt why. refl;
      }
  | yes le ↦
      let more : leb stop a ≡ false = ground (arith, le) in
      let below : a < maxva = omega (arith, le, fits) in
      elim (Slot-or_none h.mem.page root a) [
        | inr (gone, unmapped) ↦
            rw (more, walk-find root a h.mem below, gone)
              (a, (omega arith, (le, inl (ap is_valid unmapped ∙ refl))))
        | inl (p, i, (s, there)) ↦
            let entry : lookup h.mem.page root a ≡ h.mem.page p i =
              Slot-lookup h.mem.page root a p i s in
            elim (Bool-cases (is_valid (h.mem.page p i))) [
              | inr f ↦
                  rw (more, walk-find root a h.mem below, there, f)
                    (a, (omega arith, (le, inl (ap is_valid entry ∙ f))))
              | inl t ↦ elim (Bool-cases (pte_flags (h.mem.page p i) == 1)) [
                | inl table ↦
                    rw (more, walk-find root a h.mem below, there, t, table)
                      (a, (omega arith, (le, inr (ap pte_flags entry ∙ ==→eq _ 1 table))))
                | inr leaf ↦
                    rw (more, walk-find root a h.mem below, there, t, leaf)
                      (more-Unmapped kend root a stop low h al sal le fits g p i s _ (
                        unmap_loop-Unmapped fuel kend root (a + pgsize) stop
                          (cleared kend root a stop low h al sal le fits g p i s) low
                          (omega (arith, al)) sal fits (omega (arith, enough))
                          (cleared-Good kend root a stop low h al sal le fits g p i s)))
              ]
            ]
      ]
]

-- Over a tree of page tables with right counters, uvmunmap without do_free, of a range of whole
-- pages that ends below MAXVA, panics only if a page of the range is not mapped by a leaf;
-- otherwise no address of the range is mapped any more, every other address is mapped as before,
-- and the tree stays a tree.
pub uvmunmap-Unmapped :
    (kend root va npages : ℕ) (h : Heap)
    → kernbase ≤ kend
    → va % pgsize ≡ 0
    → va + npages * pgsize ≤ maxva
    → Good kend root h
    → Unmapped kend root va (va + npages * pgsize) h (uvmunmap kend root va npages false h.mem)
unfolding uvmunmap
uvmunmap-Unmapped kend root va npages h low al fits g =
    let no_wrap : (va + npages * pgsize) % 2 ^ 64 ≡ va + npages * pgsize = omega (arith, fits) in
    rw (al, no_wrap)
      (unmap_loop-Unmapped npages kend root va (va + npages * pgsize) h low al (omega (arith, al))
        fits (omega arith) g)
