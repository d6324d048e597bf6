-- ===== src/Kalloc/Boot.antt =====
-- kernel/kalloc.c: `kinit`, which frees every page of the memory above the kernel.
use xv6_riscv.Base.{
  count, count_self, count_ne, ℕ, zero, suc, ◌+◌, ◌*◌, ◌%◌, ◌≤◌, ◌<◌, ◌≡◌, ◌≢◌, refl, sym, ◌∙◌,
  subst, true, false, List, [], ◌∷◌, All, All-map, update, update_self, update_ne, arith, some, leb,
  Bool-cases, inl, inr,
}
use native.Mathlib.Decide.{ℕ_discrete}
use xv6_riscv.Kalloc.{
  Page, Mem, frame, fill, kernbase, phystop, pgsize, pgroundup, freerange, kinit, push_free,
  clear_refs, memref_lock_kalloc,
}
use xv6_riscv.Kalloc.Chain.{Chain, Apart, Distinct, IsPage, update-Chain, kfree_last}
use xv6_riscv.Kalloc.Ledger.{Balanced}

-- All pages below `p`, and no others, are free, and no counter is set.
pub record Building (kend p : ℕ) (m : Mem) : Type 0 where
  pub pages : List ℕ
  pub chain : Chain m.page m.freelist pages
  pub distinct : Distinct pages
  pub below : All (λ q. IsPage kend q × (q < p)) pages
  pub whole : (q : ℕ) → IsPage kend q → q < p → 0 < count q pages
  pub zeros : (i : ℕ) → m.refs i ≡ 0
  pub unlocked : m.locked ≡ false

-- the memory after `kfree` of the page `p`
abbrev freed : ℕ → Mem → Mem
freed p m = push_free p (record m { refs = update m.refs (frame p) 0; locked = false })

free_one :
    (kend p : ℕ) (m : Mem)
    → kernbase ≤ kend
    → IsPage kend p
    → Building kend p m
    → Building kend (p + pgsize) (freed p m)
unfolding push_free
free_one kend p m low good v = record {
  pages = p ∷ v.pages;
  chain = (
    refl,
    omega (arith, good, low),
    subst (λ (w : Page). Chain (update m.page p linked) (w 0) v.pages)
        (sym (update_self m.page p linked))
        (update-Chain m.page p linked m.freelist v.pages apart v.chain),
  );
  distinct = (apart, v.distinct);
  below = (
    (good, omega arith),
    All-map (λ q. IsPage kend q × (q < p)) (λ q. IsPage kend q × (q < p + pgsize)) v.pages
        (λ q h. (h.0, omega (arith, h.1))) v.below,
  );
  whole = λ q page lt. elim (ℕ_discrete p q) [
    | yes e ↦ subst (λ k. 0 < count k (p ∷ v.pages)) e (omega (arith, count_self p v.pages))
    | no ne ↦
        omega (arith, count_ne p q v.pages ne, v.whole q page (omega (arith, page, good, lt, ne)))
  ];
  zeros = λ i. elim (ℕ_discrete (frame p) i) [
    | yes e ↦ subst (λ k. update m.refs (frame p) 0 k ≡ 0) e (update_self m.refs (frame p) 0)
    | no ne ↦ update_ne m.refs (frame p) i 0 ne ∙ v.zeros i
  ];
  unlocked = refl;
}
  where
    linked : Page
    linked = update (fill 1) 0 m.freelist

    apart : Apart p v.pages
    apart =
        All-map (λ q. IsPage kend q × (q < p)) (λ q. p ≢ q) v.pages
          (λ q h e. absurd (omega (arith, h.1, e))) v.below

freerange-Building :
    (kend k p : ℕ) (m : Mem)
    → kernbase ≤ kend
    → (p % pgsize ≡ 0)
    → kend ≤ p
    → p ≤ phystop
    → phystop ≤ p + k * pgsize
    → Building kend p m
    → (m' : Mem) × ((freerange kend k phystop p m ≡ some m') × Building kend phystop m')
unfolding freerange
freerange-Building kend zero p m low round from to fuel v =
    let end : p ≡ phystop = omega (arith, to, fuel) in
    (m, (refl, subst (λ q. Building kend q m) end v))
freerange-Building kend (suc k) p m low round from to fuel v =
    elim (Bool-cases (leb (p + pgsize) phystop)) [
      | inl more ↦
          let good : IsPage kend p = (round, from, ground (arith, more)) in
          let (m', (e, done)) =
            freerange-Building kend k (p + pgsize) (freed p m) low (omega (arith, round))
              (omega (arith, from)) (ground (arith, more)) (omega (arith, fuel))
              (free_one kend p m low good v) in
          (
            m',
            (
              rw (more, kfree_last kend p m good v.unlocked (omega (arith, v.zeros (frame p)))) e,
              done,
            ),
          )
      | inr last ↦
          let end : p ≡ phystop = ground (arith, last, round, to) in
          (m, (rw last, subst (λ q. Building kend q m) end v))
    ]

-- If the kernel ends within the memory, the free list is empty, every counter is 0 and the lock
-- is free, kinit does not panic, and leaves a balanced heap in which nobody holds a page and
-- every page from the end of the kernel up to PHYSTOP is on the free list.
pub kinit-Balanced :
    (kend : ℕ) (m : Mem)
    → kernbase ≤ kend
    → kend ≤ phystop
    → m.freelist ≡ 0
    → ((i : ℕ) → m.refs i ≡ 0)
    → m.locked ≡ false
    → (m' : Mem) × ((kinit kend m ≡ some m')
        × ((b : Balanced kend (record { mem = m'; held = [] })) × ((q : ℕ)
              → IsPage kend q
              → 0 < count q b.pages)))
unfolding kinit memref_lock_kalloc
kinit-Balanced kend m low high empty zeros unlocked =
    let (m1, (e, done)) =
      freerange-Building kend 32769 (pgroundup kend) m low (omega arith) (omega arith)
        (omega (arith, high)) (omega (arith, low)) start in
    let m2 : Mem = record m1 { refs = clear_refs m1.refs; lock_kalloc = true } in
    (
      m2,
      (
        rw e refl,
        (
          record {
            pages = done.pages;
            chain = done.chain;
            distinct = done.distinct;
            free =
                All-map (λ q. IsPage kend q × (q < phystop))
                  (λ q. IsPage kend q × (◌≡◌ {A = ℕ} 0 0)) done.pages (λ q h. (h.0, refl))
                  done.below;
            counted = λ q page. clear_zero m1.refs done.zeros (frame q);
            owned = λ q pos. absurd (omega (arith, pos));
            unlocked = done.unlocked;
          },
          λ q page. done.whole q page page.2,
        ),
      ),
    )
  where
    clear_zero : (f : ℕ → ℕ) → ((i : ℕ) → f i ≡ 0) → (i : ℕ) → clear_refs f i ≡ 0
    clear_zero f h i = ground (arith, h i)

    start : Building kend (pgroundup kend) m
    start = record {
      pages = [];
      chain = empty;
      distinct = tt;
      below = tt;
      whole = λ q page lt. absurd (omega (arith, page, lt));
      zeros = zeros;
      unlocked = unlocked;
    }
