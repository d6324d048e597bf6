-- ===== src/Vm/Hang.antt =====
-- kernel/vm.c: a fresh, empty table is hung below a table of the middle level.
use xv6_riscv.Base.{
  ℕ, ◌+◌, ◌*◌, ◌<◌, ◌≡◌, ◌≢◌, sym, ap, ◌∙◌, subst, arith, List, ◌∷◌, count, update, update_self,
  ◌⊎◌, inl, inr,
}
use native.Mathlib.Decide.{ℕ_discrete}
use xv6_riscv.Vm.{px, pte2pa, is_valid}
use xv6_riscv.Vm.Bits.{px_lt}
use xv6_riscv.Vm.Tree.{
  Pages, child, Has, lookup, Tree, lookup-none_middle, lookup-some, lookup_same, middle-ne-top,
  low-ne-middle, middle_inj,
}
use xv6_riscv.Vm.Grow.{Hung, Grown, apart, kept, taken, old_label}

module _ (page page' : Pages) (held : List ℕ) (root r i j : ℕ) (t : Tree page held root)
    (lti : i < 512) (ltj : j < 512) (up : Has page root i)
    (h : Hung page page' held r (child page root i) j) where
  abbrev n : ℕ
  n = 513 + 512 * i + j

  held_old : (q : ℕ) → 0 < count q held → q ≢ r
  held_old = apart page page' held root r (child page root i) j t h

  keep : (q : ℕ) → 0 < count q held → 0 < count q (r ∷ held)
  keep = kept page page' held root r (child page root i) j t h

  label_old : (q : ℕ) → 0 < count q held → update t.label r n q ≡ t.label q
  label_old = old_label page page' held root r (child page root i) j t h n

  same_top : (k : ℕ) → page' root k ≡ page root k
  same_top k =
      h.rest root k (held_old root t.top_held)
        (λ e. absurd (middle-ne-top page held root t i lti up (sym e)))

  same_middle :
      (k l : ℕ)
      → k < 512
      → Has page root k
      → (k ≡ i → l ≢ j)
      → page' (child page root k) l ≡ page (child page root k) l
  same_middle k l ltk e ne =
      h.rest (child page root k) l (held_old (child page root k) (t.middle_held k ltk e))
        (λ q. ne (middle_inj page held root t k i ltk lti e up q))

  same_low :
      (k l m : ℕ)
      → k < 512
      → l < 512
      → Has page root k
      → Has page (child page root k) l
      → page' (child page (child page root k) l) m ≡ page (child page (child page root k) l) m
  same_low k l m ltk ltl e e' =
      h.rest _ m (held_old _ (t.low_held k l ltk ltl e e'))
        (λ q. absurd (low-ne-middle page held root t k l i ltk ltl lti e e' up q))

  -- An entry of the middle level of the new tree is the new one or an old one.
  new_or_old :
      (k l : ℕ)
      → k < 512
      → l < 512
      → Has page' root k
      → Has page' (child page' root k) l
      → ((k ≡ i) × ((l ≡ j) × (child page' (child page' root k) l ≡ r)))
        ⊎ (Has page root k
            × (Has page (child page root k) l
                × (child page' (child page' root k) l ≡ child page (child page root k) l)))
  new_or_old k l ltk ltl e e' =
      let old : Has page root k = ap is_valid (sym (same_top k)) ∙ e in
      let up_same : child page' root k ≡ child page root k = ap pte2pa (same_top k) in
      elim (ℕ_discrete k i) [
        | yes q ↦ elim (ℕ_discrete l j) [
          | yes q' ↦ inl (
            q,
            (
              q',
              ap (λ x. child page' x l) (up_same ∙ ap (child page root) q)
                  ∙ (ap (child page' (child page root i)) q' ∙ h.next),
            ),
          )
          | no ne ↦ old_one old up_same (λ _. ne)
        ]
        | no ne ↦ old_one old up_same (λ q. absurd (ne q))
      ]
    where
      old_one :
          Has page root k
          → child page' root k ≡ child page root k
          → (k ≡ i → l ≢ j)
          → ((k ≡ i) × ((l ≡ j) × (child page' (child page' root k) l ≡ r)))
            ⊎ (Has page root k
                × (Has page (child page root k) l
                    × (child page' (child page' root k) l ≡ child page (child page root k) l)))
      old_one old up_same ne =
          let same : page' (child page' root k) l ≡ page (child page root k) l =
            ap (λ x. page' x l) up_same ∙ same_middle k l ltk old ne in
          inr (old, (ap is_valid (sym same) ∙ e', ap pte2pa same))

  middle-Tree : Tree page' (r ∷ held) root
  middle-Tree = record {
    label = update t.label r n;
    top = label_old root t.top_held ∙ t.top;
    top_held = keep root t.top_held;
    middle = λ k ltk e.
        let old : Has page root k = ap is_valid (sym (same_top k)) ∙ e in
        ap (λ x. update t.label r n (pte2pa x)) (same_top k)
        ∙ (label_old (child page root k) (t.middle_held k ltk old) ∙ t.middle k ltk old);
    middle_held = λ k ltk e.
        let old : Has page root k = ap is_valid (sym (same_top k)) ∙ e in
        subst (λ x. 0 < count (pte2pa x) (r ∷ held)) (sym (same_top k))
          (keep (child page root k) (t.middle_held k ltk old));
    low = λ k l ltk ltl e e'. elim (new_or_old k l ltk ltl e e') [
      | inl (q, (q', new)) ↦
          ap (update t.label r n) new ∙ (update_self t.label r n ∙ omega (arith, q, q'))
      | inr (old, (old', same)) ↦
          ap (update t.label r n) same
          ∙ (label_old _ (t.low_held k l ltk ltl old old') ∙ t.low k l ltk ltl old old')
    ];
    low_held = λ k l ltk ltl e e'. elim (new_or_old k l ltk ltl e e') [
      | inl (q, (q', new)) ↦
          subst (λ x. 0 < count x (r ∷ held)) (sym new)
            (taken page page' held root r (child page root i) j t h)
      | inr (old, (old', same)) ↦
          subst (λ x. 0 < count x (r ∷ held)) (sym same) (keep _ (t.low_held k l ltk ltl old old'))
    ];
  }

  -- The new table maps nothing yet.
  new_maps_none : (va : ℕ) → px 2 va ≡ i → px 1 va ≡ j → lookup page' root va ≡ lookup page root va
  new_maps_none va q q' =
      let way : child page root (px 2 va) ≡ child page root i = ap (child page root) q in
      let top' : Has page' root (px 2 va) =
        ap is_valid (same_top (px 2 va)) ∙ (ap (λ x. is_valid (page root x)) q ∙ up) in
      let way' : child page' root (px 2 va) ≡ child page root i =
        ap pte2pa (same_top (px 2 va)) ∙ way in
      let middle' : page' (child page' root (px 2 va)) (px 1 va) ≡ page' (child page root i) j =
        ap (λ x. page' x (px 1 va)) way' ∙ ap (page' (child page root i)) q' in
      lookup-some page' root va top' (ap is_valid middle' ∙ h.here)
      ∙ (ap (λ x. page' x (px 0 va)) (ap pte2pa middle' ∙ h.next)
          ∙ (h.empty (px 0 va)
              ∙ sym (
                  lookup-none_middle page root va (
                    ap (λ x. is_valid (page x (px 1 va))) way
                    ∙ (ap (λ x. is_valid (page (child page root i) x)) q' ∙ h.was)))))

  pub middle-Grown : Grown page page' held r root
  middle-Grown = (
    middle-Tree,
    λ va. elim (ℕ_discrete (px 2 va) i) [
      | yes q ↦ elim (ℕ_discrete (px 1 va) j) [
        | yes q' ↦ new_maps_none va q q'
        | no ne ↦ others va (λ _. ne)
      ]
      | no ne ↦ others va (λ q. absurd (ne q))
    ],
  )
    where
      others : (va : ℕ) → (px 2 va ≡ i → px 1 va ≢ j) → lookup page' root va ≡ lookup page root va
      others va ne =
          lookup_same page page' root va (same_top (px 2 va))
            (λ e. same_middle (px 2 va) (px 1 va) (px_lt 2 va) e ne)
            (λ e e'. same_low (px 2 va) (px 1 va) (px 0 va) (px_lt 2 va) (px_lt 1 va) e e')
