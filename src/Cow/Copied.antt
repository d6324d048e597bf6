-- ===== src/Cow/Copied.antt =====
-- kernel/trap.c: the case of `handleCOW` where the page is shared and gets copied.
use xv6_riscv.Base.{
  ℕ, suc, ◌-◌, ◌≤◌, ◌<◌, ◌≡◌, ◌≢◌, refl, sym, ap, ◌∙◌, subst, true, false, arith, ◌∷◌, count,
  remove, update, update_ne, update_self, count_self, count_ne, count-remove_self, count-remove_ne,
}
use native.Mathlib.Decide.{ℕ_discrete}
use xv6_riscv.Kalloc.{Page, frame, kernbase, fill}
use xv6_riscv.Kalloc.Chain.{IsPage, frame_inj}
use xv6_riscv.Kalloc.Ledger.{Heap, Balanced, alloc-Balanced, more-Balanced}
use xv6_riscv.Vm.{is_valid, maxva, pte2pa, pte_flags, leaf}
use xv6_riscv.Vm.Bits.{pte2pa-leaf}
use xv6_riscv.Vm.Tree.{Pages, Tree, lookup, Slot, write, write_page}
use xv6_riscv.Vm.Leaf.{write-Tree, write-Slot, write-lookup_self, write-lookup_ne}
use xv6_riscv.Vm.Descend.{Good, page-Balanced}
use xv6_riscv.Vm.Unmap.{Slot-lookup}
use xv6_riscv.Vm.Kept.{kept-Tree, kept-lookup, kept-Slot, switch-Balanced}
use xv6_riscv.Cow.{own}
use xv6_riscv.Cow.Entry.{own_lt, own-is_valid, leaf-flags, flags-is_valid}
use xv6_riscv.Cow.Fault.{Owned, table_held}

module _ (kend root a p i : ℕ) (low : kernbase ≤ kend) (h : Heap) (fits : a < maxva)
    (g : Good kend root h) (s : Slot h.mem.page root a p i)
    (is_leaf : is_valid (h.mem.page p i) ≡ true)
    (shared : 1 < count (pte2pa (h.mem.page p i)) h.held) (ne : h.mem.freelist ≢ 0) where
  abbrev pub new_page : ℕ
  new_page = h.mem.freelist

  abbrev pub old_page : ℕ
  old_page = pte2pa (h.mem.page p i)

  abbrev pub taken : Pages
  taken = update h.mem.page new_page (fill 5)

  abbrev pub doubled : Pages
  doubled = update taken new_page (taken old_page)

  abbrev pub new_entry : ℕ
  new_entry = leaf new_page (own (pte_flags (h.mem.page p i)))

  -- The pages before and after the new mapping.
  abbrev pub unmapped : Pages
  unmapped = write doubled p i 0

  abbrev pub remapped : Pages
  remapped = write unmapped p i new_entry

  abbrev pub new_refs : ℕ → ℕ
  new_refs =
      update (update h.mem.refs (frame new_page) 1) (frame old_page)
        (h.mem.refs (frame old_page) - 1)

  abbrev pub copied : Heap
  copied = record {
    mem = record {
      page = remapped;
      freelist = h.mem.page new_page 0;
      refs = new_refs;
      lock_kalloc = true;
      locked = false;
    };
    held = remove old_page (new_page ∷ h.held);
  }

  pub alloc :
      IsPage kend new_page
      × (count new_page h.held ≡ 0)
      × Balanced kend (record {
        mem = record (h.mem) {
          page = taken;
          freelist = h.mem.page new_page 0;
          refs = update h.mem.refs (frame new_page) 1;
          locked = false;
        };
        held = new_page ∷ h.held;
      })
  alloc =
      alloc-Balanced kend low h g.balanced g.balanced.pages ne g.balanced.chain g.balanced.distinct
        g.balanced.free

  apart : (q : ℕ) → 0 < count q h.held → q ≢ new_page
  apart q pos e = omega (arith, alloc.1, pos, ap (λ k. count k h.held) e)

  held_more : (q : ℕ) → 0 < count q h.held → 0 < count q (new_page ∷ h.held)
  held_more q pos = omega (arith, count_ne new_page q h.held (λ e. apart q pos (sym e)), pos)

  old_held : 0 < count old_page h.held
  old_held = omega (arith, shared)

  -- A page that somebody held was not written by the copy.
  pub doubled_same : (q k : ℕ) → 0 < count q h.held → doubled q k ≡ h.mem.page q k
  doubled_same q k pos =
      ap (λ (f : Page). f k)
        (update_ne taken new_page q _ (λ e. apart q pos (sym e))
          ∙ update_ne h.mem.page new_page q _ (λ e. apart q pos (sym e)))

  doubled-Tree : Tree doubled (new_page ∷ h.held) root
  doubled-Tree =
      kept-Tree h.mem.page doubled h.held (new_page ∷ h.held) root g.tree doubled_same held_more

  doubled-lookup : (va : ℕ) → lookup doubled root va ≡ lookup h.mem.page root va
  doubled-lookup =
      kept-lookup h.mem.page doubled h.held (new_page ∷ h.held) root g.tree doubled_same held_more

  pub doubled-Slot : Slot doubled root a p i
  doubled-Slot =
      kept-Slot h.mem.page doubled h.held (new_page ∷ h.held) root g.tree doubled_same held_more a p
        i s

  unmapped-Tree : Tree unmapped (new_page ∷ h.held) root
  unmapped-Tree = write-Tree doubled (new_page ∷ h.held) root p i 0 doubled-Tree a doubled-Slot

  pub unmapped-Slot : Slot unmapped root a p i
  unmapped-Slot = write-Slot doubled (new_page ∷ h.held) root p i 0 doubled-Tree a doubled-Slot

  remapped-Tree : Tree remapped (new_page ∷ h.held) root
  remapped-Tree =
      write-Tree unmapped (new_page ∷ h.held) root p i new_entry unmapped-Tree a unmapped-Slot

  -- No page lost its last holder.
  still_held : (q : ℕ) → 0 < count q (new_page ∷ h.held) → 0 < count q copied.held
  still_held q pos = elim (ℕ_discrete old_page q) [
    | yes e ↦
        subst (λ x. 0 < count x copied.held) e
          (omega (
            arith,
            count-remove_self old_page (new_page ∷ h.held),
            count_ne new_page old_page h.held (λ e. apart old_page old_held (sym e)),
            shared,
          ))
    | no other ↦ omega (arith, count-remove_ne old_page q (new_page ∷ h.held) other, pos)
  ]

  table_pos : 0 < count p (new_page ∷ h.held)
  table_pos = held_more p (table_held kend root a p i low h fits g s)

  frames_differ : frame new_page ≢ frame old_page
  frames_differ e =
      apart old_page old_held
        (sym (frame_inj kend new_page old_page low alloc.0 (g.balanced.owned old_page old_held) e))

  refs_same : update h.mem.refs (frame new_page) 1 (frame old_page) ≡ h.mem.refs (frame old_page)
  refs_same = update_ne h.mem.refs (frame new_page) (frame old_page) 1 frames_differ

  copied-Balanced : Balanced kend copied
  copied-Balanced =
      switch-Balanced kend (record (copied.mem) { lock_kalloc = h.mem.lock_kalloc }) copied.held
        true
        (subst
          (λ n. Balanced kend (record {
            mem = record {
              page = remapped;
              freelist = h.mem.page new_page 0;
              refs = update (update h.mem.refs (frame new_page) 1) (frame old_page) (n - 1);
              lock_kalloc = h.mem.lock_kalloc;
              locked = false;
            };
            held = copied.held;
          }))
          refs_same
          (more-Balanced kend low _
            (page-Balanced kend low _ p _
              (page-Balanced kend low _ p _
                (page-Balanced kend low _ new_page _ alloc.2
                  (omega (arith, count_self new_page h.held)))
                table_pos)
              table_pos)
            old_page (held_more old_page old_held)))

  new_lookup : lookup remapped root a ≡ new_entry
  new_lookup =
      write-lookup_self unmapped (new_page ∷ h.held) root p i new_entry unmapped-Tree a
        unmapped-Slot a refl

  new_is_valid : is_valid (own (pte_flags (h.mem.page p i))) ≡ true
  new_is_valid =
      own-is_valid (pte_flags (h.mem.page p i)) ∙ (flags-is_valid (h.mem.page p i) ∙ is_leaf)

  new_target : pte2pa (lookup remapped root a) ≡ new_page
  new_target =
      ap pte2pa new_lookup
      ∙ pte2pa-leaf new_page (own (pte_flags (h.mem.page p i))) alloc.0.0 (omega (arith, alloc.0))
          (own_lt (h.mem.page p i))

  sole_count : count new_page copied.held ≡ 1
  sole_count =
      count-remove_ne old_page new_page (new_page ∷ h.held) (apart old_page old_held)
      ∙ (count_self new_page h.held ∙ ap suc alloc.1)

  new_bytes : (k : ℕ) → remapped new_page k ≡ h.mem.page old_page k
  new_bytes k =
      let other : p ≢ new_page = apart p (table_held kend root a p i low h fits g s) in
      write_page unmapped p new_page i k new_entry other
      ∙ (write_page doubled p new_page i k 0 other
          ∙ ap (λ (f : Page). f k)
              (update_self taken new_page _
                ∙ update_ne h.mem.page new_page old_page _ (λ e. apart old_page old_held (sym e))))

  pub copied-Owned : Owned kend root a h copied
  copied-Owned = record {
    good = record {
      balanced = copied-Balanced;
      tree =
          kept-Tree remapped remapped (new_page ∷ h.held) copied.held root remapped-Tree
            (λ q k pos. refl) still_held;
    };
    flags =
        ap pte_flags new_lookup
        ∙ (leaf-flags new_page (own (pte_flags (h.mem.page p i))) (own_lt (h.mem.page p i))
              new_is_valid
            ∙ ap (λ x. own (pte_flags x)) (sym (Slot-lookup h.mem.page root a p i s)));
    sole = ap (λ x. count x copied.held) new_target ∙ sole_count;
    same_bytes = λ k.
        ap (λ x. remapped x k) new_target
        ∙ (new_bytes k
            ∙ ap (λ x. h.mem.page (pte2pa x) k) (sym (Slot-lookup h.mem.page root a p i s)));
    others = λ va lt ne'.
        write-lookup_ne unmapped (new_page ∷ h.held) root p i new_entry unmapped-Tree a
          unmapped-Slot va fits lt ne'
        ∙ (write-lookup_ne doubled (new_page ∷ h.held) root p i 0 doubled-Tree a doubled-Slot va
              fits lt ne'
            ∙ doubled-lookup va);
    rest = λ q k pos ne'.
        let other : p ≢ q = λ e. ne' (sym s.table ∙ e) in
        write_page unmapped p q i k new_entry other
        ∙ (write_page doubled p q i k 0 other ∙ doubled_same q k pos);
  }
