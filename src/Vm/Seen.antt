-- ===== src/Vm/Seen.antt =====
-- kernel/vm.c: what a user sees of the small space.
use xv6_riscv.Base.{ℕ, ◌≡◌, ◌≢◌, refl, sym, ap, ◌∙◌, true, arith, ◌&&◌, Bool-cases, inl, inr, leb}
use xv6_riscv.Vm.{px, is_valid, maxva, leaf, pte2pa}
use xv6_riscv.Vm.Tree.{Pages, child, lookup, lookup-none_top, lookup-none_middle, lookup-some}
use xv6_riscv.Vm.User.{has_flag, pte_u}
use xv6_riscv.Vm.Translate.{translate}
use xv6_riscv.Vm.Copyout.{Apart}
use xv6_riscv.Vm.Space.{
  root_table, leaf_table, user_page, user_flags, one_entry, space_pages, only_entry, low_entry,
}

-- An address that a user may see is mapped.
translate-valid :
    (page : Pages) (root va : ℕ)
    → translate page root va ≢ 0
    → (is_valid (lookup page root va) ≡ true)
      × (translate page root va ≡ pte2pa (lookup page root va))
translate-valid page root va ne = elim (Bool-cases (leb maxva va)) [
  | inl out ↦ absurd (ne (rw out refl))
  | inr inside ↦
      elim (Bool-cases (is_valid (lookup page root va) && has_flag pte_u (lookup page root va))) [
        | inr hidden ↦ absurd (ne (rw (inside, hidden) refl))
        | inl both ↦ (ground (arith, both), rw (inside, both) refl)
      ]
]

-- All of it is in one page.
lookup_one :
    (va : ℕ)
    → is_valid (lookup space_pages root_table va) ≡ true
    → lookup space_pages root_table va ≡ leaf user_page user_flags
lookup_one va v = elim (Bool-cases (is_valid (space_pages root_table (px 2 va)))) [
  | inr f ↦ absurd (ground (arith, ap is_valid (lookup-none_top space_pages root_table va f), v))
  | inl t ↦
      elim (Bool-cases
        (is_valid (space_pages (child space_pages root_table (px 2 va)) (px 1 va)))) [
          | inr f ↦
              absurd
                (ground (arith, ap is_valid (lookup-none_middle space_pages root_table va f), v))
          | inl t' ↦
              let (e2, e1) = low_entry (px 2 va) (px 1 va) t t' in
              let entry : ℕ → ℕ → ℕ = λ i j.
                space_pages (child space_pages (child space_pages root_table i) j) (px 0 va) in
              let found : lookup space_pages root_table va
                  ≡ one_entry 1 (leaf user_page user_flags) (px 0 va) =
                lookup-some space_pages root_table va t t'
                ∙ (ap (entry (px 2 va)) (sym e1) ∙ ap (λ i. entry i 0) (sym e2)) in
              let e0 : 1 ≡ px 0 va = only_entry 1 _ (px 0 va) (ap is_valid (sym found) ∙ v) in
              found ∙ ap (one_entry 1 (leaf user_page user_flags)) (sym e0)
        ]
]

only_page :
    (va : ℕ)
    → translate space_pages root_table va ≢ 0
    → translate space_pages root_table va ≡ user_page
only_page va ne =
    let (v, there) = translate-valid space_pages root_table va ne in
    there ∙ ap pte2pa (lookup_one va v)

-- The page is not a page table.
pub space-Apart : Apart space_pages root_table
space-Apart va va' ne =
    let at = only_page va ne in
    (
      λ e. absurd (omega (arith, at, e)),
      (
        λ h e.
            let first : 0 ≡ px 2 va' = only_entry 0 _ (px 2 va') h in
            absurd (omega (arith, at, e, ap (child space_pages root_table) (sym first))),
        λ h h' e.
            let (e2, e1) = low_entry (px 2 va') (px 1 va') h h' in
            let table : child space_pages (child space_pages root_table (px 2 va')) (px 1 va')
                ≡ leaf_table =
              ap (child space_pages (child space_pages root_table (px 2 va'))) (sym e1)
              ∙ ap (λ i. child space_pages (child space_pages root_table i) 0) (sym e2) in
            absurd (omega (arith, at, e, table)),
      ),
    )
