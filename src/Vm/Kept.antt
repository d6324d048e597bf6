-- ===== src/Vm/Kept.antt =====
-- kernel/vm.c: page tables that a change of memory leaves alone.
use xv6_riscv.Base.{ℕ, ◌<◌, ◌≡◌, refl, sym, ap, ◌∙◌, subst, List, count, false, Bool}
use xv6_riscv.Kalloc.{Mem}
use xv6_riscv.Kalloc.Ledger.{Balanced}
use xv6_riscv.Vm.{px, pte2pa, is_valid}
use xv6_riscv.Vm.Bits.{px_lt}
use xv6_riscv.Vm.Tree.{Pages, child, Has, lookup, Tree, Slot, lookup_same}

-- The pages held are as they were, and are held still.
module _ (page page' : Pages) (held held' : List ℕ) (root : ℕ) (t : Tree page held root)
    (same : (q k : ℕ) → 0 < count q held → page' q k ≡ page q k)
    (kept : (q : ℕ) → 0 < count q held → 0 < count q held') where
  same_top : (i : ℕ) → page' root i ≡ page root i
  same_top i = same root i t.top_held

  same_middle :
      (i j : ℕ)
      → i < 512
      → Has page root i
      → page' (child page root i) j ≡ page (child page root i) j
  same_middle i j lt e = same (child page root i) j (t.middle_held i lt e)

  same_child : (i : ℕ) → child page' root i ≡ child page root i
  same_child i = ap pte2pa (same_top i)

  same_low :
      (i j : ℕ)
      → i < 512
      → Has page root i
      → page' (child page' root i) j ≡ page (child page root i) j
  same_low i j lt e = ap (λ q. page' q j) (same_child i) ∙ same_middle i j lt e

  pub kept-Tree : Tree page' held' root
  kept-Tree = record {
    label = t.label;
    top = t.top;
    top_held = kept root t.top_held;
    middle = λ i lt e.
        let old : Has page root i = ap is_valid (sym (same_top i)) ∙ e in
        ap t.label (same_child i) ∙ t.middle i lt old;
    middle_held = λ i lt e.
        let old : Has page root i = ap is_valid (sym (same_top i)) ∙ e in
        subst (λ q. 0 < count q held') (sym (same_child i)) (kept _ (t.middle_held i lt old));
    low = λ i j lt lt' e e'.
        let old : Has page root i = ap is_valid (sym (same_top i)) ∙ e in
        let old' : Has page (child page root i) j = ap is_valid (sym (same_low i j lt old)) ∙ e' in
        ap (λ x. t.label (pte2pa x)) (same_low i j lt old) ∙ t.low i j lt lt' old old';
    low_held = λ i j lt lt' e e'.
        let old : Has page root i = ap is_valid (sym (same_top i)) ∙ e in
        let old' : Has page (child page root i) j = ap is_valid (sym (same_low i j lt old)) ∙ e' in
        subst (λ x. 0 < count (pte2pa x) held') (sym (same_low i j lt old))
          (kept _ (t.low_held i j lt lt' old old'));
  }

  pub kept-lookup : (va : ℕ) → lookup page' root va ≡ lookup page root va
  kept-lookup va =
      lookup_same page page' root va (same_top (px 2 va))
        (λ e. same_middle (px 2 va) (px 1 va) (px_lt 2 va) e)
        (λ e e'. same _ (px 0 va) (t.low_held (px 2 va) (px 1 va) (px_lt 2 va) (px_lt 1 va) e e'))

  pub kept-Slot : (va p i : ℕ) → Slot page root va p i → Slot page' root va p i
  kept-Slot va p i s =
      let low = same_low (px 2 va) (px 1 va) (px_lt 2 va) s.top in
      record {
        top = ap is_valid (same_top (px 2 va)) ∙ s.top;
        middle = ap is_valid low ∙ s.middle;
        table = s.table ∙ ap pte2pa (sym low);
        index = s.index;
      }

-- The switch for the lock in `kalloc` has no part in the ledger, and the lock has to be free.
pub switch-Balanced :
    (kend : ℕ) (m : Mem) (held : List ℕ) (b : Bool)
    → Balanced kend (record { mem = m; held = held })
    → Balanced kend (record { mem = record m { lock_kalloc = b; locked = false }; held = held })
switch-Balanced kend m held b v = record {
  pages = v.pages;
  chain = v.chain;
  distinct = v.distinct;
  free = v.free;
  counted = v.counted;
  owned = v.owned;
  unlocked = refl;
}
