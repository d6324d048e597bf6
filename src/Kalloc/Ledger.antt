-- ===== src/Kalloc/Ledger.antt =====
-- kernel/kalloc.c: the counters against a ledger of the references that are held. A reference is
-- made by `kalloc`, or by the sharing in `uvmcopy`, and ended by `kfree`.
use xv6_riscv.Base.{
  count, remove, count_self, count_ne, count-remove_self, count-remove_ne, ℕ, suc, ◌+◌, ◌-◌, ◌≤◌,
  ◌<◌, ◌≡◌, ◌≢◌, refl, sym, ap, ◌∙◌, subst, false, List, [], ◌∷◌, All, All-map, update, update_self,
  update_ne, arith, some,
}
use native.Mathlib.Decide.{ℕ_discrete}
use xv6_riscv.Kalloc.{Page, Mem, frame, fill, kernbase, kfree, kalloc, share, push_free}
use xv6_riscv.Kalloc.Chain.{Chain, Apart, Distinct, IsPage, update-Chain, frame_inj}

pub record Heap : Type 0 where
  pub mem : Mem
  pub held : List ℕ

pub data Step (kend : ℕ) (h : Heap) : Heap → Type 0 where
  allocs :
      {r : ℕ} {m : Mem}
      → kalloc h.mem ≡ some (r, m)
      → r ≢ 0
      → Step kend h (record { mem = m; held = r ∷ h.held })
  runs_out :
      {m : Mem} → kalloc h.mem ≡ some (0, m) → Step kend h (record { mem = m; held = h.held })
  shares :
      {m : Mem} (q : ℕ)
      → 0 < count q h.held
      → share q h.mem ≡ some m
      → Step kend h (record { mem = m; held = q ∷ h.held })
  frees :
      {m : Mem} (q : ℕ)
      → 0 < count q h.held
      → kfree kend q h.mem ≡ some m
      → Step kend h (record { mem = m; held = remove q h.held })

-- Every counter is the number of references held, and the free list has distinct pages that nobody
-- holds.
pub record Balanced (kend : ℕ) (h : Heap) : Type 0 where
  pub pages : List ℕ
  pub chain : Chain h.mem.page h.mem.freelist pages
  pub distinct : Distinct pages
  pub free : All (λ p. IsPage kend p × (count p h.held ≡ 0)) pages
  pub counted : (q : ℕ) → IsPage kend q → h.mem.refs (frame q) ≡ count q h.held
  pub owned : (q : ℕ) → 0 < count q h.held → IsPage kend q
  pub unlocked : h.mem.locked ≡ false

still_free :
    (kend r : ℕ) (held ps : List ℕ)
    → Apart r ps
    → All (λ p. IsPage kend p × (count p held ≡ 0)) ps
    → All (λ p. IsPage kend p × (count p (r ∷ held) ≡ 0)) ps
still_free kend r held [] a f = tt
still_free kend r held (p ∷ ps) a f =
    ((f.0.0, count_ne r p held a.0 ∙ f.0.1), still_free kend r held ps a.1 f.1)

module _ (kend : ℕ) (low : kernbase ≤ kend) (h : Heap) (v : Balanced kend h) where
  open h use {mem, held}

  -- Setting one counter to the new number of its references keeps the counters right.
  recount :
      (p n : ℕ) (held' : List ℕ)
      → IsPage kend p
      → count p held' ≡ n
      → ((q : ℕ) → p ≢ q → count q held' ≡ count q held)
      → (q : ℕ) → IsPage kend q
      → update mem.refs (frame p) n (frame q) ≡ count q held'
  recount p n held' good at else_same q good' = elim (ℕ_discrete p q) [
    | yes e ↦
        subst (λ k. update mem.refs (frame p) n (frame k) ≡ count k held') e
          (update_self mem.refs (frame p) n ∙ sym at)
    | no ne ↦
        update_ne mem.refs (frame p) (frame q) n (λ e. ne (frame_inj kend p q low good good' e))
        ∙ v.counted q good'
        ∙ sym (else_same q ne)
  ]

  -- A page that somebody holds is not on the free list.
  pub held-Apart : (q : ℕ) → 0 < count q held → Apart q v.pages
  held-Apart q pos =
      All-map (λ p. IsPage kend p × (count p held ≡ 0)) (λ p. q ≢ p) v.pages
        (λ p f e. omega (arith, f.1, ap (λ k. count k held) e)) v.free

  -- The free pages stay free under any change of the ledger that gives none of them out.
  refree :
      (held' : List ℕ)
      → ((p : ℕ) → count p held ≡ 0 → count p held' ≡ 0)
      → All (λ p. IsPage kend p × (count p held' ≡ 0)) v.pages
  refree held' keep =
      All-map (λ p. IsPage kend p × (count p held ≡ 0)) (λ p. IsPage kend p × (count p held' ≡ 0))
        v.pages (λ p f. (f.0, keep p f.1)) v.free

  pub share-Balanced :
      (q : ℕ)
      → 0 < count q held
      → Balanced kend (record {
        mem = record mem {
          refs = update mem.refs (frame q) (mem.refs (frame q) + 1);
          locked = false;
        };
        held = q ∷ held;
      })
  share-Balanced q pos = record {
    pages = v.pages;
    chain = v.chain;
    distinct = v.distinct;
    free =
        refree (q ∷ held)
          (λ p e. count_ne q p held (λ same. omega (arith, ap (λ k. count k held) same)) ∙ e);
    counted =
        recount q (mem.refs (frame q) + 1) (q ∷ held) (v.owned q pos)
          (count_self q held ∙ omega (arith, v.counted q (v.owned q pos)))
          (λ p ne. count_ne q p held ne);
    owned = λ p pos'. elim (ℕ_discrete q p) [
      | yes e ↦ subst (IsPage kend) e (v.owned q pos)
      | no ne ↦ v.owned p (omega (arith, count_ne q p held ne))
    ];
    unlocked = refl;
  }

  remove-Balanced :
      (q : ℕ) (pos : 0 < count q held) (refs' : ℕ → ℕ)
      → refs' ≡ update mem.refs (frame q) (mem.refs (frame q) - 1)
      → (p : ℕ) → IsPage kend p
      → refs' (frame p) ≡ count p (remove q held)
  remove-Balanced q pos refs' e p good =
      ap (λ (f : ℕ → ℕ). f (frame p)) e
      ∙ recount q (mem.refs (frame q) - 1) (remove q held) (v.owned q pos)
          (count-remove_self q held ∙ omega (arith, v.counted q (v.owned q pos)))
          (λ r ne. count-remove_ne q r held ne) p good

  remove_owned : (q : ℕ) (p : ℕ) → 0 < count p (remove q held) → IsPage kend p
  remove_owned q p pos = elim (ℕ_discrete q p) [
    | yes e ↦ v.owned p (
        omega (
          arith,
          count-remove_self q held,
          ap (λ k. count k (remove q held)) e,
          ap (λ k. count k held) e,
        ))
    | no ne ↦ v.owned p (omega (arith, count-remove_ne q p held ne))
  ]

  remove_zero : (q p : ℕ) → count p held ≡ 0 → count p (remove q held) ≡ 0
  remove_zero q p e = elim (ℕ_discrete q p) [
    | yes same ↦ omega (
      arith,
      count-remove_self q held,
      ap (λ k. count k (remove q held)) same,
      ap (λ k. count k held) same,
    )
    | no ne ↦ count-remove_ne q p held ne ∙ e
  ]

  -- Ending one of several references.
  pub more-Balanced :
      (q : ℕ)
      → 0 < count q held
      → Balanced kend (record {
        mem = record mem {
          refs = update mem.refs (frame q) (mem.refs (frame q) - 1);
          locked = false;
        };
        held = remove q held;
      })
  more-Balanced q pos = record {
    pages = v.pages;
    chain = v.chain;
    distinct = v.distinct;
    free = refree (remove q held) (remove_zero q);
    counted = remove-Balanced q pos (update mem.refs (frame q) (mem.refs (frame q) - 1)) refl;
    owned = remove_owned q;
    unlocked = refl;
  }

  -- Ending the last reference.
  pub last-Balanced :
      (q : ℕ)
      → 0 < count q held
      → mem.refs (frame q) < 2
      → Balanced kend (record {
        mem = push_free q (record mem { refs = update mem.refs (frame q) 0; locked = false });
        held = remove q held;
      })
  unfolding push_free
  last-Balanced q pos few = record {
    pages = q ∷ v.pages;
    chain = (
      refl,
      omega (arith, v.owned q pos),
      subst (λ (w : Page). Chain (update mem.page q linked) (w 0) v.pages)
          (sym (update_self mem.page q linked))
          (update-Chain mem.page q linked mem.freelist v.pages (held-Apart q pos) v.chain),
    );
    distinct = (held-Apart q pos, v.distinct);
    free = (
      (v.owned q pos, omega (arith, count-remove_self q held, v.counted q (v.owned q pos))),
      refree (remove q held) (remove_zero q),
    );
    counted =
        remove-Balanced q pos (update mem.refs (frame q) 0)
          (ap (update mem.refs (frame q)) (omega (arith, v.counted q (v.owned q pos))));
    owned = remove_owned q;
    unlocked = refl;
  }
    where
      linked : Page
      linked = update (fill 1) 0 mem.freelist

  -- `kalloc` takes the head of the list, which nobody held.
  pub alloc-Balanced :
      (ps : List ℕ)
      → mem.freelist ≢ 0
      → Chain mem.page mem.freelist ps
      → Distinct ps
      → All (λ p. IsPage kend p × (count p held ≡ 0)) ps
      → IsPage kend mem.freelist
        × (count mem.freelist held ≡ 0)
        × Balanced kend (record {
          mem = record mem {
            page = update mem.page mem.freelist (fill 5);
            freelist = mem.page mem.freelist 0;
            refs = update mem.refs (frame mem.freelist) 1;
            locked = false;
          };
          held = mem.freelist ∷ held;
        })
  alloc-Balanced [] ne c d f = absurd (ne c)
  alloc-Balanced (p ∷ ps) ne c d f = (
    good,
    zero_held,
    record {
      pages = ps;
      chain =
          update-Chain mem.page mem.freelist (fill 5) (mem.page mem.freelist 0) ps apart
            (subst (λ k. Chain mem.page (mem.page k 0) ps) (sym c.0) c.2);
      distinct = d.1;
      free = still_free kend mem.freelist held ps apart f.1;
      counted =
          recount mem.freelist 1 (mem.freelist ∷ held) good
            (count_self mem.freelist held ∙ ap suc zero_held)
            (λ q ne. count_ne mem.freelist q held ne);
      owned = λ q pos. elim (ℕ_discrete mem.freelist q) [
        | yes e ↦ subst (IsPage kend) e good
        | no ne ↦ v.owned q (omega (arith, count_ne mem.freelist q held ne))
      ];
      unlocked = refl;
    },
  )
    where
      good : IsPage kend mem.freelist
      good = subst (IsPage kend) (sym c.0) f.0.0

      zero_held : count mem.freelist held ≡ 0
      zero_held = ap (λ k. count k held) c.0 ∙ f.0.1

      apart : Apart mem.freelist ps
      apart = subst (λ k. Apart k ps) (sym c.0) d.0
