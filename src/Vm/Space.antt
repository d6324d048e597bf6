-- ===== src/Vm/Space.antt =====
-- kernel/vm.c: a process with three page tables and one page of memory at 0x1000, which it shares.
use xv6_riscv.Base.{
  ℕ, ◌+◌, ◌*◌, ◌<◌, ◌≡◌, refl, sym, ap, subst, true, false, arith, ◌==◌, [], ◌∷◌, count, update,
  update_ne, if◌then◌else◌,
}
use native.Mathlib.Decide.{ℕ_discrete}
use xv6_riscv.Kalloc.{Page, kernbase, pgsize, frame}
use xv6_riscv.Kalloc.Ledger.{Heap, Balanced}
use xv6_riscv.Vm.{is_valid, pa2pte, leaf}
use xv6_riscv.Vm.Tree.{Pages, Tree, child, Has}
use xv6_riscv.Vm.Descend.{Good}

abbrev pub kernel_end : ℕ
kernel_end = 0x80010000

abbrev pub root_table : ℕ
root_table = 0x80010000

abbrev pub middle_table : ℕ
middle_table = 0x80011000

abbrev pub leaf_table : ℕ
leaf_table = 0x80012000

abbrev pub user_page : ℕ
user_page = 0x80013000

abbrev pub free_page : ℕ
free_page = 0x80014000

-- valid, readable, for users, and marked for copy-on-write
abbrev pub user_flags : ℕ
user_flags = 512 + 16 + 2 + 1

abbrev pub one_entry : ℕ → ℕ → Page
one_entry i v = update (λ _. 0) i v

abbrev pub space_pages : Pages
space_pages =
    update
      (update
        (update (update (λ _ _. 0) root_table (one_entry 0 (pa2pte middle_table + 1))) middle_table
          (one_entry 0 (pa2pte leaf_table + 1)))
        leaf_table (one_entry 1 (leaf user_page user_flags)))
      user_page (λ k. 7)

abbrev pub space : Heap
space = record {
  mem = record {
    page = space_pages;
    freelist = free_page;
    refs = λ f.
        count (kernbase + f * pgsize)
          (root_table ∷ middle_table ∷ leaf_table ∷ user_page ∷ user_page ∷ []);
    lock_kalloc = true;
    locked = false;
  };
  held = root_table ∷ middle_table ∷ leaf_table ∷ user_page ∷ user_page ∷ [];
}

space-Balanced : Balanced kernel_end space
space-Balanced = record {
  pages = free_page ∷ [];
  chain = (refl, λ e. absurd (omega (arith, e)), refl);
  distinct = (tt, tt);
  free = (((omega arith, omega arith, omega arith), refl), tt);
  counted = λ q good.
      let back : kernbase + frame q * pgsize ≡ q = omega (arith, good) in
      ap (λ x. count x space.held) back;
  owned = λ q pos. ground (arith, pos);
  unlocked = refl;
}

pub only_entry : (i v k : ℕ) → is_valid (one_entry i v k) ≡ true → i ≡ k
only_entry i v k e = elim (ℕ_discrete i k) [
  | yes same ↦ same
  | no ne ↦ absurd (ground (arith, update_ne (λ (_ : ℕ). 0) i k v ne, e))
]

-- The label of a table.
abbrev level : ℕ → ℕ
level q = if q == middle_table then 1 else if q == leaf_table then 513 else 0

abbrev pub low_table : ℕ → ℕ → ℕ
low_table i j = child space_pages (child space_pages root_table i) j

pub low_entry :
    (i j : ℕ)
    → Has space_pages root_table i
    → Has space_pages (child space_pages root_table i) j
    → (0 ≡ i) × (0 ≡ j)
low_entry i j e e' =
    let first : 0 ≡ i = only_entry 0 _ i e in
    (
      first,
      only_entry 0 _ j
          (subst (λ k. Has space_pages (child space_pages root_table k) j) (sym first) e'),
    )

space-Tree : Tree space_pages space.held root_table
space-Tree = record {
  label = level;
  top = refl;
  top_held = omega arith;
  middle = λ i lt e.
      subst (λ k. level (child space_pages root_table k) ≡ 1 + k) (only_entry 0 _ i e) refl;
  middle_held = λ i lt e.
      subst (λ k. 0 < count (child space_pages root_table k) space.held) (only_entry 0 _ i e)
        (omega arith);
  low = λ i j lt lt' e e'.
      let (ei, ej) = low_entry i j e e' in
      subst (λ k. level (low_table i k) ≡ 513 + 512 * i + k) ej
        (subst (λ k. level (low_table k 0) ≡ 513 + 512 * k + 0) ei refl);
  low_held = λ i j lt lt' e e'.
      let (ei, ej) = low_entry i j e e' in
      subst (λ k. 0 < count (low_table i k) space.held) ej
        (subst (λ k. 0 < count (low_table k 0) space.held) ei (omega arith));
}

pub space-Good : Good kernel_end root_table space
space-Good = record { balanced = space-Balanced; tree = space-Tree }
