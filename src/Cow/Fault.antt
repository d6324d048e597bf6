-- ===== src/Cow/Fault.antt =====
-- kernel/trap.c: what `handleCOW` owes the process, and the case where no copy is needed.
use xv6_riscv.Base.{
  ℕ, ◌/◌, ◌≤◌, ◌<◌, ◌≡◌, ◌≢◌, refl, sym, ap, ◌∙◌, subst, true, false, count, update_ne,
}
use xv6_riscv.Kalloc.{Page, kernbase}
use xv6_riscv.Kalloc.Ledger.{Heap}
use xv6_riscv.Vm.{px, maxva, pte2pa, pte_flags, set_pte}
use xv6_riscv.Vm.Bits.{px_lt}
use xv6_riscv.Vm.Tree.{child, lookup, Slot}
use xv6_riscv.Vm.Leaf.{write-Tree, write-lookup_self, write-lookup_ne}
use xv6_riscv.Vm.Descend.{Good, page-Balanced}
use xv6_riscv.Vm.Unmap.{Slot-lookup}
use xv6_riscv.Vm.Kept.{switch-Balanced}
use xv6_riscv.Cow.{own}
use xv6_riscv.Cow.Entry.{own-flags, own-page}

-- The page at `a` is the process's own now, with what it had before; no other page that somebody held is
-- written, but the table with the entry.
pub record Owned (kend root a : ℕ) (h h' : Heap) : Type 0 where
  pub good : Good kend root h'
  pub flags : pte_flags (lookup h'.mem.page root a) ≡ own (pte_flags (lookup h.mem.page root a))
  pub sole : count (pte2pa (lookup h'.mem.page root a)) h'.held ≡ 1
  pub same_bytes :
      (k : ℕ)
      → h'.mem.page (pte2pa (lookup h'.mem.page root a)) k
        ≡ h.mem.page (pte2pa (lookup h.mem.page root a)) k
  pub others :
      (va : ℕ)
      → va < maxva
      → a / 4096 ≢ va / 4096
      → lookup h'.mem.page root va ≡ lookup h.mem.page root va
  pub rest :
      (q k : ℕ)
      → 0 < count q h.held
      → child h.mem.page (child h.mem.page root (px 2 a)) (px 1 a) ≢ q
      → h'.mem.page q k ≡ h.mem.page q k

module _ (kend root a p i : ℕ) (low : kernbase ≤ kend) (h : Heap) (fits : a < maxva)
    (g : Good kend root h) (s : Slot h.mem.page root a p i) where
  pub table_held : 0 < count p h.held
  table_held =
      subst (λ x. 0 < count x h.held) (sym s.table)
        (g.tree.low_held (px 2 a) (px 1 a) (px_lt 2 a) (px_lt 1 a) s.top s.middle)

  abbrev pub reused : Heap
  reused = record {
    mem = record (set_pte p i (own (h.mem.page p i)) (h.mem)) {
      lock_kalloc = true;
      locked = false;
    };
    held = h.held;
  }

  pub reused-Owned :
      pte2pa (h.mem.page p i) ≢ p
      → count (pte2pa (h.mem.page p i)) h.held ≡ 1
      → Owned kend root a h reused
  reused-Owned no_table one =
      let new : lookup reused.mem.page root a ≡ own (h.mem.page p i) =
        write-lookup_self h.mem.page h.held root p i (own (h.mem.page p i)) g.tree a s a refl in
      let old : lookup h.mem.page root a ≡ h.mem.page p i = Slot-lookup h.mem.page root a p i s in
      let same : pte2pa (lookup reused.mem.page root a) ≡ pte2pa (h.mem.page p i) =
        ap pte2pa new ∙ own-page (h.mem.page p i) in
      record {
        good = record {
          balanced =
              switch-Balanced kend (set_pte p i (own (h.mem.page p i)) h.mem) h.held true
                (page-Balanced kend low h p _ g.balanced table_held);
          tree = write-Tree h.mem.page h.held root p i (own (h.mem.page p i)) g.tree a s;
        };
        flags =
            ap pte_flags new ∙ (own-flags (h.mem.page p i) ∙ ap (λ x. own (pte_flags x)) (sym old));
        sole = ap (λ x. count x h.held) same ∙ one;
        same_bytes = λ k.
            ap (λ x. reused.mem.page x k) same
            ∙ (ap (λ (f : Page). f k) (update_ne h.mem.page p _ _ (λ e. no_table (sym e)))
                ∙ ap (λ x. h.mem.page (pte2pa x) k) (sym old));
        others = λ va lt ne.
            write-lookup_ne h.mem.page h.held root p i (own (h.mem.page p i)) g.tree a s va fits lt
              ne;
        rest = λ q k pos ne.
            ap (λ (f : Page). f k) (update_ne h.mem.page p q _ (λ e. ne (sym s.table ∙ e)));
      }
