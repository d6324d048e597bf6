-- ===== src/Vm/Grow.antt =====
-- kernel/vm.c: a fresh, empty table is hung into the tree, and a leaf is written.
use xv6_riscv.Base.{
  ℕ, ◌+◌, ◌<◌, ◌≡◌, ◌≢◌, refl, sym, ap, ◌∙◌, subst, true, false, arith, List, ◌∷◌, count,
  count_self, count_ne, update, update_self, update_ne,
}
use native.Mathlib.Decide.{ℕ_discrete}
use xv6_riscv.Vm.{px, pte2pa, is_valid}
use xv6_riscv.Vm.Bits.{px_lt}
use xv6_riscv.Vm.Tree.{
  Pages, child, Has, lookup, Tree, lookup-none_top, lookup-none_middle, lookup_same, middle-ne-top,
  low-ne-top,
}

-- The empty page `r`, which nobody held, now hangs in the free entry `i` of the table `p`.
pub record Hung (page page' : Pages) (held : List ℕ) (r p i : ℕ) : Type 0 where
  pub is_fresh : count r held ≡ 0
  pub was : is_valid (page p i) ≡ false
  pub here : is_valid (page' p i) ≡ true
  pub next : child page' p i ≡ r
  pub empty : (k : ℕ) → page' r k ≡ 0
  pub rest : (q k : ℕ) → q ≢ r → (q ≡ p → k ≢ i) → page' q k ≡ page q k

-- What the tree and its map become.
abbrev pub Grown : Pages → Pages → List ℕ → ℕ → ℕ → Type 0
Grown page page' held r root =
    Tree page' (r ∷ held) root × ((va : ℕ) → lookup page' root va ≡ lookup page root va)

module _ (page page' : Pages) (held : List ℕ) (root r p i : ℕ) (t : Tree page held root)
    (h : Hung page page' held r p i) where
  pub apart : (q : ℕ) → 0 < count q held → q ≢ r
  apart q pos e = omega (arith, h.is_fresh, pos, ap (λ k. count k held) e)

  pub kept : (q : ℕ) → 0 < count q held → 0 < count q (r ∷ held)
  kept q pos = omega (arith, count_ne r q held (λ e. apart q pos (sym e)), pos)

  pub taken : 0 < count r (r ∷ held)
  taken = omega (arith, count_self r held)

  pub old_label : (n q : ℕ) → 0 < count q held → update t.label r n q ≡ t.label q
  old_label n q pos = update_ne t.label r q n (λ e. apart q pos (sym e))

  pub none_below : (k : ℕ) → ¬ Has page' r k
  none_below k e = ground (arith, h.empty k, e)

  module _ (at : p ≡ root) (lt : i < 512) where
    same_top : (j : ℕ) → j ≢ i → page' root j ≡ page root j
    same_top j ne = h.rest root j (apart root t.top_held) (λ _. ne)

    same_below :
        (j k : ℕ)
        → j < 512
        → Has page root j
        → page' (child page root j) k ≡ page (child page root j) k
    same_below j k ltj e =
        h.rest (child page root j) k (apart (child page root j) (t.middle_held j ltj e))
          (λ q. absurd (middle-ne-top page held root t j ltj e (q ∙ at)))

    new_child : child page' root i ≡ r
    new_child = subst (λ q. child page' q i ≡ r) at h.next

    top-Tree : Tree page' (r ∷ held) root
    top-Tree = record {
      label = update t.label r (1 + i);
      top = old_label (1 + i) root t.top_held ∙ t.top;
      top_held = kept root t.top_held;
      middle = λ j ltj e. elim (ℕ_discrete j i) [
        | yes q ↦
            ap (λ x. update t.label r (1 + i) (child page' root x)) q
            ∙ (ap (update t.label r (1 + i)) new_child
                ∙ (update_self t.label r (1 + i) ∙ ap (λ x. 1 + x) (sym q)))
        | no ne ↦
            let old : Has page root j = ap is_valid (sym (same_top j ne)) ∙ e in
            ap (λ x. update t.label r (1 + i) (pte2pa x)) (same_top j ne)
            ∙ (old_label (1 + i) (child page root j) (t.middle_held j ltj old) ∙ t.middle j ltj old)
      ];
      middle_held = λ j ltj e. elim (ℕ_discrete j i) [
        | yes q ↦
            subst (λ x. 0 < count x (r ∷ held)) (sym (ap (child page' root) q ∙ new_child)) taken
        | no ne ↦
            let old : Has page root j = ap is_valid (sym (same_top j ne)) ∙ e in
            subst (λ x. 0 < count (pte2pa x) (r ∷ held)) (sym (same_top j ne))
              (kept (child page root j) (t.middle_held j ltj old))
      ];
      low = λ j k ltj ltk e e'. elim (ℕ_discrete j i) [
        | yes q ↦
            absurd
              (none_below k (subst (λ x. Has page' x k) (ap (child page' root) q ∙ new_child) e'))
        | no ne ↦
            let old : Has page root j = ap is_valid (sym (same_top j ne)) ∙ e in
            let same : page' (child page' root j) k ≡ page (child page root j) k =
              ap (λ x. page' (pte2pa x) k) (same_top j ne) ∙ same_below j k ltj old in
            let old' : Has page (child page root j) k = ap is_valid (sym same) ∙ e' in
            ap (λ x. update t.label r (1 + i) (pte2pa x)) same
            ∙ (old_label (1 + i) (child page (child page root j) k)
                  (t.low_held j k ltj ltk old old')
                ∙ t.low j k ltj ltk old old')
      ];
      low_held = λ j k ltj ltk e e'. elim (ℕ_discrete j i) [
        | yes q ↦
            absurd
              (none_below k (subst (λ x. Has page' x k) (ap (child page' root) q ∙ new_child) e'))
        | no ne ↦
            let old : Has page root j = ap is_valid (sym (same_top j ne)) ∙ e in
            let same : page' (child page' root j) k ≡ page (child page root j) k =
              ap (λ x. page' (pte2pa x) k) (same_top j ne) ∙ same_below j k ltj old in
            let old' : Has page (child page root j) k = ap is_valid (sym same) ∙ e' in
            subst (λ x. 0 < count (pte2pa x) (r ∷ held)) (sym same)
              (kept (child page (child page root j) k) (t.low_held j k ltj ltk old old'))
      ];
    }

    pub top-Grown : Grown page page' held r root
    top-Grown = (
      top-Tree,
      λ va. elim (ℕ_discrete (px 2 va) i) [
        | yes q ↦
            lookup-none_middle page' root va (
              ap is_valid (
                ap (λ x. page' x (px 1 va)) (ap (child page' root) q ∙ new_child)
                ∙ h.empty (px 1 va))
              ∙ refl)
            ∙ sym (
                lookup-none_top page root va (
                  ap (λ x. is_valid (page root x)) q
                  ∙ subst (λ x. is_valid (page x i) ≡ false) at h.was))
        | no ne ↦
            lookup_same page page' root va (same_top (px 2 va) ne)
              (λ e. same_below (px 2 va) (px 1 va) (px_lt 2 va) e)
              (λ e e'.
                h.rest _ (px 0 va)
                  (apart _ (t.low_held (px 2 va) (px 1 va) (px_lt 2 va) (px_lt 1 va) e e'))
                  (λ q. absurd (
                    low-ne-top page held root t (px 2 va) (px 1 va) (px_lt 2 va) (px_lt 1 va) e e'
                      (q ∙ at))))
      ],
    )
