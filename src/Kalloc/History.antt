-- ===== src/Kalloc/History.antt =====
-- kernel/kalloc.c: histories of allocations, sharings and frees.
use xv6_riscv.Base.{
  count, remove, ℕ, ◌≤◌, ◌<◌, ◌≡◌, ◌≢◌, refl, sym, ap, ◌∙◌, subst, ◌∷◌, some, ◌⊎◌, inl, inr, arith,
}
use native.Mathlib.Decide.{ℕ_discrete, dec_lt}
use xv6_riscv.Base.{some_inj, update, update_self, update_ne, false, ◌-◌}
use xv6_riscv.Kalloc.{fill, Mem, frame, kernbase, kfree, kalloc, push_free}
use xv6_riscv.Kalloc.Chain.{IsPage, kfree_more, kfree_last, kalloc-none, kalloc-some, share_lem}
use xv6_riscv.Kalloc.Ledger.{
  Heap, Step, allocs, runs_out, shares, frees, Balanced, share-Balanced, more-Balanced,
  last-Balanced, alloc-Balanced,
}

-- Every allocation, sharing of a held page and free of a held page keeps each counter equal to
-- the number of references held, and the free list a chain of distinct pages that nobody holds.
pub Step-Balanced :
    (kend : ℕ) {h h' : Heap} → kernbase ≤ kend → Step kend h h' → Balanced kend h → Balanced kend h'
Step-Balanced kend {h} low (allocs {r = r} {m = m} e ne) v = elim (ℕ_discrete h.mem.freelist 0) [
  | yes none_left ↦
      absurd
        (ne (sym (ap (λ (q : ℕ × Mem). q.0) (some_inj (sym (kalloc-none h.mem none_left) ∙ e)))))
  | no some_left ↦
      subst (λ (q : ℕ × Mem). Balanced kend (record { mem = q.1; held = q.0 ∷ h.held }))
        (some_inj (sym (kalloc-some h.mem some_left v.unlocked) ∙ e))
        (alloc-Balanced kend low h v v.pages some_left v.chain v.distinct v.free).2
]
Step-Balanced kend {h} low (runs_out {m = m} e) v = elim (ℕ_discrete h.mem.freelist 0) [
  | yes none_left ↦
      subst (λ (q : ℕ × Mem). Balanced kend (record { mem = q.1; held = h.held }))
        (some_inj (sym (kalloc-none h.mem none_left) ∙ e)) v
  | no some_left ↦ absurd (
      some_left
        (ap (λ (q : ℕ × Mem). q.0) (some_inj (sym (kalloc-some h.mem some_left v.unlocked) ∙ e))))
]
Step-Balanced kend {h} low (shares {m = m} q pos e) v =
    subst (λ (m : Mem). Balanced kend (record { mem = m; held = q ∷ h.held }))
      (some_inj (sym (share_lem q h.mem v.unlocked) ∙ e)) (share-Balanced kend low h v q pos)
Step-Balanced kend {h} low (frees {m = m} q pos e) v = elim (dec_lt 1 (h.mem.refs (frame q))) [
  | yes more ↦
      subst (λ (m : Mem). Balanced kend (record { mem = m; held = remove q h.held }))
        (some_inj (sym (kfree_more kend q h.mem (v.owned q pos) v.unlocked more) ∙ e))
        (more-Balanced kend low h v q pos)
  | no last ↦
      let few : h.mem.refs (frame q) < 2 = omega arith in
      subst (λ (m : Mem). Balanced kend (record { mem = m; held = remove q h.held }))
        (some_inj (sym (kfree_last kend q h.mem (v.owned q pos) v.unlocked few) ∙ e))
        (last-Balanced kend low h v q pos few)
]

pub data Reach (kend : ℕ) (start : Heap) : Heap → Type 0 where
  here : Reach kend start start
  next : {h h' : Heap} → Reach kend start h → Step kend h h' → Reach kend start h'

pub Reach-Balanced :
    (kend : ℕ) {h h' : Heap}
    → kernbase ≤ kend
    → Balanced kend h
    → Reach kend h h'
    → Balanced kend h'
Reach-Balanced kend low v here = v
Reach-Balanced kend low v (next r s) = Step-Balanced kend low s (Reach-Balanced kend low v r)

-- After any history of allocations, sharings and frees from a balanced heap, kalloc does not
-- panic. It answers a null pointer just when the free list is empty, and changes nothing then;
-- otherwise it takes the head of the free list, a page that nobody holds, sets its counter to 1,
-- and writes no other page.
pub kalloc_fresh :
    (kend : ℕ) {h h' : Heap}
    → kernbase ≤ kend
    → Balanced kend h
    → Reach kend h h'
    → (r : ℕ) × (m : Mem) × (kalloc h'.mem ≡ some (r, m))
      × (((r ≡ 0) × (h'.mem.freelist ≡ 0) × (m ≡ h'.mem))
          ⊎ ((h'.mem.freelist ≢ 0)
              × (r ≡ h'.mem.freelist)
              × IsPage kend r
              × (count r h'.held ≡ 0)
              × (m.refs (frame r) ≡ 1)
              × ((p : ℕ) → r ≢ p → m.page p ≡ h'.mem.page p)))
kalloc_fresh kend {h} {h'} low v reach = elim (ℕ_discrete h'.mem.freelist 0) [
  | yes none_left ↦ (0, h'.mem, kalloc-none h'.mem none_left, inl (refl, none_left, refl))
  | no some_left ↦
      let (good, zero_held, after) =
        alloc-Balanced kend low h' w w.pages some_left w.chain w.distinct w.free in
      (
        h'.mem.freelist,
        record h'.mem {
          page = update h'.mem.page h'.mem.freelist (fill 5);
          freelist = h'.mem.page h'.mem.freelist 0;
          refs = update h'.mem.refs (frame h'.mem.freelist) 1;
          locked = false;
        },
        kalloc-some h'.mem some_left w.unlocked,
        inr (
          some_left,
          refl,
          good,
          zero_held,
          update_self h'.mem.refs (frame h'.mem.freelist) 1,
          λ p ne. update_ne h'.mem.page h'.mem.freelist p (fill 5) ne,
        ),
      )
]
  where
    w : Balanced kend h'
    w = Reach-Balanced kend low v reach

-- After any history from a balanced heap, kfree of a held page does not panic; it puts the page
-- at the head of the free list if that was the last reference, and keeps the free list otherwise.
pub kfree_held :
    (kend : ℕ) {h h' : Heap} (q : ℕ)
    → kernbase ≤ kend
    → Balanced kend h
    → Reach kend h h'
    → 0 < count q h'.held
    → (m : Mem) × (kfree kend q h'.mem ≡ some m)
      × (((count q h'.held ≡ 1) × (m.freelist ≡ q) × (m.page q 0 ≡ h'.mem.freelist))
          ⊎ ((1 < count q h'.held) × (m.freelist ≡ h'.mem.freelist)))
unfolding push_free
kfree_held kend {h} {h'} q low v reach pos = elim (dec_lt 1 (h'.mem.refs (frame q))) [
  | yes more ↦ (
    record h'.mem {
      refs = update h'.mem.refs (frame q) (h'.mem.refs (frame q) - 1);
      locked = false;
    },
    kfree_more kend q h'.mem (w.owned q pos) w.unlocked more,
    inr (omega (arith, w.counted q (w.owned q pos)), refl),
  )
  | no last ↦ (
    push_free q (record h'.mem { refs = update h'.mem.refs (frame q) 0; locked = false }),
    kfree_last kend q h'.mem (w.owned q pos) w.unlocked (omega arith),
    inl (
      omega (arith, w.counted q (w.owned q pos)),
      refl,
      ap (λ (f : ℕ → ℕ). f 0) (update_self h'.mem.page q _),
    ),
  )
]
  where
    w : Balanced kend h'
    w = Reach-Balanced kend low v reach
