-- ===== src/Vm/Leaf.antt =====
-- kernel/vm.c: an entry of a leaf is written.
use xv6_riscv.Base.{ℕ, ◌/◌, ◌<◌, ◌≡◌, ◌≢◌, refl, sym, ap, ◌∙◌, subst, arith, List, count}
use native.Mathlib.Decide.{ℕ_discrete}
use xv6_riscv.Vm.{px, pte2pa, is_valid, maxva}
use xv6_riscv.Vm.Bits.{px_lt, px_inj}
use xv6_riscv.Vm.Tree.{
  Pages, child, Has, lookup, Tree, Slot, write, write_self, write_page, write_index, lookup-some,
  lookup_same, low-ne-top, low-ne-middle, low_inj,
}

module _ (page : Pages) (held : List ℕ) (root p i v : ℕ) (t : Tree page held root) (va : ℕ)
    (s : Slot page root va p i) where
  at_low : p ≡ child page (child page root (px 2 va)) (px 1 va)
  at_low = s.table

  same_top : (k : ℕ) → write page p i v root k ≡ page root k
  same_top k = write_page page p root i k v (λ e.
      low-ne-top page held root t (px 2 va) (px 1 va) (px_lt 2 va) (px_lt 1 va) s.top s.middle
        (sym at_low ∙ e))

  same_middle :
      (k l : ℕ)
      → k < 512
      → Has page root k
      → write page p i v (child page root k) l ≡ page (child page root k) l
  same_middle k l lt e = write_page page p (child page root k) i l v (λ q.
      low-ne-middle page held root t (px 2 va) (px 1 va) k (px_lt 2 va) (px_lt 1 va) lt s.top
        s.middle e (sym at_low ∙ q))

  same_entry :
      (k l : ℕ)
      → k < 512
      → Has page root k
      → write page p i v (child (write page p i v) root k) l ≡ page (child page root k) l
  same_entry k l lt e = ap (λ x. write page p i v (pte2pa x) l) (same_top k) ∙ same_middle k l lt e

  -- The tables stay as they are.
  pub write-Tree : Tree (write page p i v) held root
  write-Tree = record {
    label = t.label;
    top = t.top;
    top_held = t.top_held;
    middle = λ k lt e. ap (λ x. t.label (pte2pa x)) (same_top k) ∙ t.middle k lt (was k e);
    middle_held = λ k lt e.
        subst (λ x. 0 < count (pte2pa x) held) (sym (same_top k)) (t.middle_held k lt (was k e));
    low = λ k l ltk ltl e e'.
        ap (λ x. t.label (pte2pa x)) (same_entry k l ltk (was k e))
        ∙ t.low k l ltk ltl (was k e) (ap is_valid (sym (same_entry k l ltk (was k e))) ∙ e');
    low_held = λ k l ltk ltl e e'.
        subst (λ x. 0 < count (pte2pa x) held) (sym (same_entry k l ltk (was k e)))
          (t.low_held k l ltk ltl (was k e)
            (ap is_valid (sym (same_entry k l ltk (was k e))) ∙ e'));
  }
    where
      was : (k : ℕ) → Has (write page p i v) root k → Has page root k
      was k e = ap is_valid (sym (same_top k)) ∙ e

  -- The entry stays where it is.
  pub write-Slot : Slot (write page p i v) root va p i
  write-Slot = record {
    top = ap is_valid (same_top (px 2 va)) ∙ s.top;
    middle = ap is_valid (same_entry (px 2 va) (px 1 va) (px_lt 2 va) s.top) ∙ s.middle;
    table = s.table ∙ ap pte2pa (sym (same_entry (px 2 va) (px 1 va) (px_lt 2 va) s.top));
    index = s.index;
  }

  -- The page of the address is mapped by what was written,
  pub write-lookup_self :
      (va' : ℕ) → va / 4096 ≡ va' / 4096 → lookup (write page p i v) root va' ≡ v
  write-lookup_self va' e =
      let e2 : px 2 va ≡ px 2 va' = omega (arith, e) in
      let e1 : px 1 va ≡ px 1 va' = omega (arith, e) in
      let e0 : px 0 va ≡ px 0 va' = omega (arith, e) in
      let top' : Has page root (px 2 va') = subst (λ x. Has page root x) e2 s.top in
      let mid' : Has page (child page root (px 2 va')) (px 1 va') =
        subst (λ x. Has page (child page root (px 2 va')) x) e1
          (subst (λ x. Has page (child page root x) (px 1 va)) e2 s.middle) in
      lookup-some (write page p i v) root va' (ap is_valid (same_top (px 2 va')) ∙ top')
        (ap is_valid (same_entry (px 2 va') (px 1 va') (px_lt 2 va') top') ∙ mid')
      ∙ (ap (λ x. write page p i v (pte2pa x) (px 0 va'))
            (same_entry (px 2 va') (px 1 va') (px_lt 2 va') top')
          ∙ (ap (λ x. write page p i v x (px 0 va'))
                (ap (λ x. child page (child page root x) (px 1 va')) (sym e2)
                  ∙ (ap (child page (child page root (px 2 va))) (sym e1) ∙ sym at_low))
              ∙ (ap (write page p i v p) (sym e0 ∙ sym s.index) ∙ write_self page p i v)))

  -- and every other page as before.
  pub write-lookup_ne :
      (va' : ℕ)
      → va < maxva
      → va' < maxva
      → va / 4096 ≢ va' / 4096
      → lookup (write page p i v) root va' ≡ lookup page root va'
  write-lookup_ne va' lt lt' ne =
      lookup_same page (write page p i v) root va' (same_top (px 2 va'))
        (λ e. same_middle (px 2 va') (px 1 va') (px_lt 2 va') e)
        (λ e e'. low_entry e e' (child page (child page root (px 2 va')) (px 1 va')) refl)
    where
      low_entry :
          Has page root (px 2 va')
          → Has page (child page root (px 2 va')) (px 1 va')
          → (q : ℕ) → child page (child page root (px 2 va')) (px 1 va') ≡ q
          → write page p i v q (px 0 va') ≡ page q (px 0 va')
      low_entry e e' q at = elim (ℕ_discrete p q) [
        | no other ↦ write_page page p q i (px 0 va') v other
        | yes same ↦
            let (e2, e1) =
              low_inj page held root t (px 2 va) (px 1 va) (px 2 va') (px 1 va') (px_lt 2 va)
                (px_lt 1 va) (px_lt 2 va') (px_lt 1 va') s.top s.middle e e'
                (sym at_low ∙ (same ∙ sym at)) in
            subst (λ x. write page p i v x (px 0 va') ≡ page x (px 0 va')) same
              (write_index page p i (px 0 va') v
                (λ e0. ne (px_inj va va' lt lt' e2 e1 (sym s.index ∙ e0))))
      ]
