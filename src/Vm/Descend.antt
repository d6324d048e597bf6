-- ===== src/Vm/Descend.antt =====
-- kernel/vm.c: a round of the loop of `walk` with `alloc` set, over the page allocator.
use xv6_riscv.Base.{
  ℕ, ◌+◌, ◌^◌, ◌≤◌, ◌<◌, ◌≡◌, ◌≢◌, refl, sym, ap, ◌∙◌, subst, true, false, arith, ◌==◌, List, ◌∷◌,
  count, count_self, count_ne, update, update_self, update_ne, if◌then◌else◌, Bool-cases, inl, inr,
  Option, none, some, ne→==,
}
use native.Mathlib.Decide.{ℕ_discrete}
use xv6_riscv.Kalloc.{Mem, Page, ◌>>=◌, fill, kalloc, frame, kernbase}
use xv6_riscv.Kalloc.Chain.{IsPage, kalloc-none, kalloc-some, update-Chain}
use xv6_riscv.Kalloc.Ledger.{Heap, Balanced, alloc-Balanced, held-Apart}
use xv6_riscv.Vm.{px, pa2pte, pte2pa, is_valid, set_pte, zero_page, descend}
use xv6_riscv.Vm.Bits.{pte2pa-table}
use xv6_riscv.Vm.Tree.{Pages, child, Has, lookup, Tree, write, write_self, write_page, write_index}
use xv6_riscv.Vm.Grow.{Hung, Grown}

-- A page that somebody holds may be written.
pub page-Balanced :
    (kend : ℕ) (low : kernbase ≤ kend) (h : Heap) (p : ℕ) (f : Page)
    → Balanced kend h
    → 0 < count p h.held
    → Balanced kend
        (record { mem = record (h.mem) { page = update h.mem.page p f }; held = h.held })
page-Balanced kend low h p f v pos = record {
  pages = v.pages;
  chain =
      update-Chain h.mem.page p f h.mem.freelist v.pages (held-Apart kend low h v p pos) v.chain;
  distinct = v.distinct;
  free = v.free;
  counted = v.counted;
  owned = v.owned;
  unlocked = v.unlocked;
}

-- The counters of the pages are right, and the page tables below `root` are a tree of held pages.
pub record Good (kend root : ℕ) (h : Heap) : Type 0 where
  pub balanced : Balanced kend h
  pub tree : Tree h.mem.page h.held root

-- What grows without a change of the map: the pages held.
pub record Grew (root : ℕ) (h h' : Heap) : Type 0 where
  pub maps : (va : ℕ) → lookup h'.mem.page root va ≡ lookup h.mem.page root va
  pub holds : (q : ℕ) → count q h.held ≤ count q h'.held

pub Grew-refl : (root : ℕ) (h : Heap) → Grew root h h
Grew-refl root h = record { maps = λ va. refl; holds = λ q. omega arith }

pub Grew-trans : (root : ℕ) (h h' h'' : Heap) → Grew root h h' → Grew root h' h'' → Grew root h h''
Grew-trans root h h' h'' a b = record {
  maps = λ va. b.maps va ∙ a.maps va;
  holds = λ q. omega (arith, a.holds q, b.holds q);
}

-- The table below entry `i` of the table `p` is there now, and the other entries are as before.
pub record Below (root p i c : ℕ) (h h' : Heap) : Type 0 where
  pub grew : Grew root h h'
  pub here : Has h'.mem.page p i
  pub is_child : child h'.mem.page p i ≡ c
  pub rest : (q k : ℕ) → 0 < count q h.held → (q ≡ p → k ≢ i) → h'.mem.page q k ≡ h.mem.page q k

abbrev pub Descended : ℕ → ℕ → ℕ → ℕ → Heap → Option (Option ℕ × Mem) → Type 0
Descended kend root p i h none = ⊥
Descended kend root p i h (some (none, m)) = m ≡ h.mem
Descended kend root p i h (some (some c, m)) =
    (held' : List ℕ) × (Good kend root (record { mem = m; held = held' })
      × Below root p i c h (record { mem = m; held = held' }))

module _ (kend root p i : ℕ) (low : kernbase ≤ kend) (h : Heap) (g : Good kend root h)
    (pos : 0 < count p h.held) where
  abbrev fresh_page : ℕ
  fresh_page = h.mem.freelist

  abbrev taken : Pages
  taken = update h.mem.page fresh_page (fill 5)

  abbrev cleared : Pages
  cleared = update taken fresh_page (fill 0)

  -- The memory after `kalloc`, `memset` and the store to the entry.
  abbrev with_table : Mem
  with_table = record (h.mem) {
    page = write cleared p i (pa2pte fresh_page + 1);
    freelist = h.mem.page fresh_page 0;
    refs = update h.mem.refs (frame fresh_page) 1;
    locked = false;
  }

  module _ (ne : h.mem.freelist ≢ 0) where
    alloc :
        IsPage kend fresh_page
        × (count fresh_page h.held ≡ 0)
        × Balanced kend (record {
          mem = record (h.mem) {
            page = update h.mem.page fresh_page (fill 5);
            freelist = h.mem.page fresh_page 0;
            refs = update h.mem.refs (frame fresh_page) 1;
            locked = false;
          };
          held = fresh_page ∷ h.held;
        })
    alloc =
        alloc-Balanced kend low h g.balanced g.balanced.pages ne g.balanced.chain
          g.balanced.distinct g.balanced.free

    apart : (q : ℕ) → 0 < count q h.held → q ≢ fresh_page
    apart q posq e = omega (arith, alloc.1, posq, ap (λ k. count k h.held) e)

    with_table-Balanced : Balanced kend (record { mem = with_table; held = fresh_page ∷ h.held })
    with_table-Balanced =
        page-Balanced kend low
          (record {
            mem = record (h.mem) {
              page = update (update h.mem.page fresh_page (fill 5)) fresh_page (fill 0);
              freelist = h.mem.page fresh_page 0;
              refs = update h.mem.refs (frame fresh_page) 1;
              locked = false;
            };
            held = fresh_page ∷ h.held;
          })
          p
          (update (update (update h.mem.page fresh_page (fill 5)) fresh_page (fill 0) p) i
            (pa2pte fresh_page + 1))
          (page-Balanced kend low _ fresh_page (fill 0) alloc.2
            (omega (arith, count_self fresh_page h.held)))
          (omega (arith, count_ne fresh_page p h.held (λ e. apart p pos (sym e)), pos))

    old_page : (q k : ℕ) → q ≢ fresh_page → (q ≡ p → k ≢ i) → with_table.page q k ≡ h.mem.page q k
    old_page q k other entry = elim (ℕ_discrete p q) [
      | yes e ↦
          subst (λ x. with_table.page x k ≡ h.mem.page x k) e
            (write_index cleared p i k (pa2pte fresh_page + 1) (λ s. entry (sym e) (sym s))
              ∙ ap (λ (f : Page). f k)
                  (update_ne taken fresh_page p (fill 0) (λ s. other (sym e ∙ sym s))
                    ∙ update_ne h.mem.page fresh_page p (fill 5) (λ s. other (sym e ∙ sym s))))
      | no ne' ↦
          write_page cleared p q i k (pa2pte fresh_page + 1) ne'
          ∙ ap (λ (f : Page). f k)
              (update_ne taken fresh_page q (fill 0) (λ s. other (sym s))
                ∙ update_ne h.mem.page fresh_page q (fill 5) (λ s. other (sym s)))
    ]

    fresh_lt : fresh_page < 2 ^ 56
    fresh_lt = omega (arith, alloc.0)

    with_table-Hung :
        is_valid (h.mem.page p i) ≡ false → Hung h.mem.page with_table.page h.held fresh_page p i
    with_table-Hung was = record {
      is_fresh = alloc.1;
      was = was;
      here = ap is_valid (write_self cleared p i (pa2pte fresh_page + 1)) ∙ ground arith;
      next =
          ap pte2pa (write_self cleared p i (pa2pte fresh_page + 1))
          ∙ pte2pa-table fresh_page alloc.0.0 fresh_lt;
      empty = λ k.
          write_page cleared p fresh_page i k (pa2pte fresh_page + 1) (apart p pos)
          ∙ ap (λ (f : Page). f k) (update_self taken fresh_page (fill 0));
      rest = old_page;
    }

  -- A round of the loop of `walk`, where a new table may be hung in here.
  with_table-Descended :
      ((page' : Pages) (r : ℕ)
        → Hung h.mem.page page' h.held r p i
        → Grown h.mem.page page' h.held r root)
      → is_valid (h.mem.page p i) ≡ false
      → Descended kend root p i h (
          kalloc h.mem >>= λ r.
          if r.0 == 0
          then some (none, r.1)
          else some (some r.0, set_pte p i (pa2pte r.0 + 1) (zero_page r.0 r.1)))
  with_table-Descended grow was = elim (ℕ_discrete h.mem.freelist 0) [
    | yes empty ↦ rw (kalloc-none h.mem empty) refl
    | no ne ↦
        let is_hung = with_table-Hung ne was in
        let (tree, maps) = grow with_table.page fresh_page is_hung in
        rw (kalloc-some h.mem ne g.balanced.unlocked, ne→== h.mem.freelist 0 ne)
          (
            fresh_page ∷ h.held,
            (
              record { balanced = with_table-Balanced ne; tree = tree },
              record {
                grew = record { maps = maps; holds = λ q. ground arith };
                here = is_hung.here;
                is_child = is_hung.next;
                rest = λ q k posq. old_page ne q k (apart ne q posq);
              },
            ),
          )
  ]

pub descend-Descended :
    (kend root p level va : ℕ) (low : kernbase ≤ kend) (h : Heap)
    → Good kend root h
    → 0 < count p h.held
    → ((page' : Pages) (r : ℕ)
        → is_valid (h.mem.page p (px level va)) ≡ false
        → Hung h.mem.page page' h.held r p (px level va)
        → Grown h.mem.page page' h.held r root)
    → Descended kend root p (px level va) h (descend true level p va h.mem)
unfolding descend
descend-Descended kend root p level va low h g pos grow =
    elim (Bool-cases (is_valid (h.mem.page p (px level va)))) [
      | inl old ↦ rw old (
        h.held,
        (
          g,
          record {
            grew = Grew-refl root h;
            here = old;
            is_child = refl;
            rest = λ q k posq ne. refl;
          },
        ),
      )
      | inr new ↦ rw new (
          with_table-Descended kend root p (px level va) low h g pos (λ page' r. grow page' r new)
            new)
    ]
