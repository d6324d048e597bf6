-- ===== src/Vm/Map.antt =====
-- kernel/vm.c: `mappages` maps a range of pages, and no other.
use xv6_riscv.Base.{
  ℕ, ◌+◌, ◌-◌, ◌/◌, ◌%◌, ◌≤◌, ◌<◌, ◌≡◌, ◌≢◌, sym, ap, ◌∙◌, Bool, true, false, arith, List, count,
  ◌⊎◌, inl, inr, Option, none, some,
}
use native.Mathlib.Decide.{dec_lt}
use xv6_riscv.Kalloc.{Mem, kernbase, pgsize}
use xv6_riscv.Kalloc.Ledger.{Heap}
use xv6_riscv.Vm.{px, is_valid, maxva, leaf, set_pte, pgrounddown}
use xv6_riscv.Vm.Tree.{lookup, Slot, lookup-some}
use xv6_riscv.Vm.Leaf.{write-Tree, write-lookup_self, write-lookup_ne}
use xv6_riscv.Vm.Descend.{Good, Grew, page-Balanced}

-- From `h` on, the pages from `a` to before `stop` have been mapped to those from `pa` on.
pub record Maps (kend root a stop pa perm : ℕ) (h h' : Heap) : Type 0 where
  pub good : Good kend root h'
  pub inside :
      (va : ℕ)
      → va < maxva
      → a ≤ va
      → va < stop
      → lookup h'.mem.page root va ≡ leaf (pa + (pgrounddown va - a)) perm
  pub outside :
      (va : ℕ)
      → va < maxva
      → (va < a) ⊎ (stop ≤ va)
      → lookup h'.mem.page root va ≡ lookup h.mem.page root va
  pub holds : (q : ℕ) → count q h.held ≤ count q h'.held

-- A panic on a page of the range that is mapped already; the whole range is mapped; or, out of memory, a
-- part of it.
abbrev pub Mapped : ℕ → ℕ → ℕ → ℕ → ℕ → ℕ → Heap → Option (Bool × Mem) → Type 0
Mapped kend root a last pa perm h none =
    (va : ℕ) × ((a ≤ va) × ((va ≤ last) × (is_valid (lookup h.mem.page root va) ≡ true)))
Mapped kend root a last pa perm h (some (true, m)) =
    (held' : List ℕ) × Maps kend root a (last + pgsize) pa perm h (record { mem = m; held = held' })
Mapped kend root a last pa perm h (some (false, m)) =
    (stop : ℕ) × ((a ≤ stop)
      × ((stop ≤ last)
          × ((held' : List ℕ) × Maps kend root a stop pa perm h
                (record { mem = m; held = held' }))))

module _ (kend root a pa perm : ℕ) (low : kernbase ≤ kend) (h : Heap) (aligned : a % pgsize ≡ 0)
    (fits : a < maxva) where
  pub none-Maps : (h1 : Heap) → Good kend root h1 → Grew root h h1 → Maps kend root a a pa perm h h1
  none-Maps h1 g grew = record {
    good = g;
    inside = λ va lt le lt'. absurd (omega (arith, le, lt'));
    outside = λ va lt where_else. grew.maps va;
    holds = grew.holds;
  }

  module _ (h1 : Heap) (p i : ℕ) (g : Good kend root h1) (grew : Grew root h h1)
      (s : Slot h1.mem.page root a p i) (pos : 0 < count p h1.held) where
    abbrev pub written : Heap
    written = record { mem = set_pte p i (leaf pa perm) (h1.mem); held = h1.held }

    pub written-Good : Good kend root written
    written-Good = record {
      balanced = page-Balanced kend low h1 p _ g.balanced pos;
      tree = write-Tree h1.mem.page h1.held root p i (leaf pa perm) g.tree a s;
    }

    written_self : (va : ℕ) → a / 4096 ≡ va / 4096 → lookup written.mem.page root va ≡ leaf pa perm
    written_self va e =
        write-lookup_self h1.mem.page h1.held root p i (leaf pa perm) g.tree a s va e

    written_ne :
        (va : ℕ)
        → va < maxva
        → a / 4096 ≢ va / 4096
        → lookup written.mem.page root va ≡ lookup h.mem.page root va
    written_ne va lt ne =
        write-lookup_ne h1.mem.page h1.held root p i (leaf pa perm) g.tree a s va fits lt ne
        ∙ grew.maps va

    pub one-Maps : Maps kend root a (a + pgsize) pa perm h written
    one-Maps = record {
      good = written-Good;
      inside = λ va lt le lt'.
          let there : pa ≡ pa + (pgrounddown va - a) = omega (arith, aligned, le, lt') in
          written_self va (omega (arith, aligned, le, lt')) ∙ ap (λ x. leaf x perm) there;
      outside = λ va lt why. elim why [
        | inl before ↦ written_ne va lt (λ e. absurd (omega (arith, aligned, before, e)))
        | inr after ↦ written_ne va lt (λ e. absurd (omega (arith, aligned, after, e)))
      ];
      holds = grew.holds;
    }

    more-Maps :
        (stop : ℕ) (h' : Heap)
        → a + pgsize ≤ stop
        → Maps kend root (a + pgsize) stop (pa + pgsize) perm written h'
        → Maps kend root a stop pa perm h h'
    more-Maps stop h' le r = record {
      good = r.good;
      inside = λ va lt le' lt'. elim (dec_lt va (a + pgsize)) [
        | yes first ↦
            let there : pa ≡ pa + (pgrounddown va - a) = omega (arith, aligned, le', first) in
            r.outside va lt (inl first)
            ∙ (written_self va (omega (arith, aligned, le', first)) ∙ ap (λ x. leaf x perm) there)
        | no later ↦
            let there : pa + pgsize + (pgrounddown va - (a + pgsize)) ≡ pa + (pgrounddown va - a) =
              omega (arith, aligned, later) in
            r.inside va lt (omega (arith, later)) lt' ∙ ap (λ x. leaf x perm) there
      ];
      outside = λ va lt why. elim why [
        | inl before ↦
            r.outside va lt (inl (omega (arith, before)))
            ∙ written_ne va lt (λ e. absurd (omega (arith, aligned, before, e)))
        | inr after ↦
            r.outside va lt (inr after)
            ∙ written_ne va lt (λ e. absurd (omega (arith, aligned, after, le, e)))
      ];
      holds = λ q. omega (arith, grew.holds q, r.holds q);
    }

    -- An entry that is valid was so before.
    pub remapped : is_valid (h1.mem.page p i) ≡ true → is_valid (lookup h.mem.page root a) ≡ true
    remapped e =
        let same : lookup h1.mem.page root a ≡ h1.mem.page p i =
          lookup-some h1.mem.page root a s.top s.middle
          ∙ (ap (λ x. h1.mem.page x (px 0 a)) (sym s.table) ∙ ap (h1.mem.page p) (sym s.index)) in
        ap is_valid (sym (grew.maps a) ∙ same) ∙ e

    pub rest-Mapped :
        (last : ℕ) (o : Option (Bool × Mem))
        → a + pgsize ≤ last
        → last < maxva
        → Mapped kend root (a + pgsize) last (pa + pgsize) perm written o
        → Mapped kend root a last pa perm h o
    rest-Mapped last none le lt (va, (from, (to, e))) = (
      va,
      (
        omega (arith, from),
        (
          to,
          ap is_valid (
                sym (
                  written_ne va (omega (arith, to, lt))
                    (λ q. absurd (omega (arith, q, from, aligned)))))
              ∙ e,
        ),
      ),
    )
    rest-Mapped last (some (true, m)) le lt (held', r) =
        (held', more-Maps (last + pgsize) _ (omega (arith, le)) r)
    rest-Mapped last (some (false, m)) le lt (stop, (from, (to, (held', r)))) =
        (stop, (omega (arith, from), (to, (held', more-Maps stop _ from r))))
