-- ===== src/Inode/Get.antt =====
-- kernel/fs.c: `iget`, by what the search of the table found.
use mathlib.Core.Option
use xv6_riscv.Base.{
  ℕ, ◌+◌, ◌<◌, ◌≡◌, ◌≢◌, refl, sym, ap, ◌∙◌, subst, true, false, Option, none, some, List, ◌∷◌, All,
  arith, get_elem?, ◌==◌, count_self, count_ne,
}
use xv6_riscv.Inode.{Inode, Itable, is_inode, Found, entry, free, search_table, at_entry, iget}
use xv6_riscv.Inode.Search.{Answer, search_table-Answer}
use xv6_riscv.Inode.Unique.{get_elem?-at_entry_self, get_elem?-at_entry_ne, Uses, not_used}
use xv6_riscv.Inode.Steps.{ref_at, IsValid, keep-IsValid, take-IsValid}

-- `iget` by what the search of the table found
abbrev taken : ℕ → ℕ → Itable → Found → Option (ℕ × Itable)
taken dev inum s (entry i) =
    some (i, record s { inodes = at_entry i (λ ip. record ip { ref = ip.ref + 1 }) s.inodes })
taken dev inum s (free none) = none
taken dev inum s (free (some i)) = some (
  i,
  record s {
    inodes =
        at_entry i (λ ip. record ip { dev = dev; inum = inum; ref = 1; valid = false }) s.inodes;
  },
)

iget-taken :
    (dev inum : ℕ) (s : Itable)
    → iget dev inum s ≡ taken dev inum s (search_table dev inum none 0 s.inodes)
unfolding iget
iget-taken dev inum s = elim (search_table dev inum none 0 s.inodes) [
  | entry i ↦ refl
  | free none ↦ refl
  | free (some i) ↦ refl
]

is_inode-fields :
    (dev inum : ℕ) (p : Inode)
    → is_inode dev inum p ≡ true
    → (0 < p.ref) × ((p.dev ≡ dev) × (p.inum ≡ inum))
is_inode-fields dev inum p e = (ground (arith, e), (ground (arith, e), ground (arith, e)))

-- What `iget` answers: an entry in use for the inode, and no other is, or a panic.
abbrev pub Got : ℕ → ℕ → List Inode → List ℕ → Option (ℕ × Itable) → Type 0
Got dev inum t held none = ((j : ℕ) → ¬ Uses t j dev inum) × All (λ ip. (ip.ref == 0) ≡ false) t
Got dev inum t held (some (i, u)) =
    IsValid u.inodes (i ∷ held)
    × (Uses u.inodes i dev inum × ((j : ℕ) → i ≢ j → get_elem? u.inodes j ≡ get_elem? t j))

taken-Got :
    (dev inum : ℕ) (s : Itable) (held : List ℕ) (r : Found)
    → IsValid s.inodes held
    → Answer dev inum s.inodes r
    → Got dev inum s.inodes held (taken dev inum s r)
taken-Got dev inum s held (entry i) v (p, (at, same)) =
    let (pos, (d, n)) = is_inode-fields dev inum p same in
    let f : Inode → Inode = λ ip. record ip { ref = ip.ref + 1 } in
    (
      keep-IsValid s.inodes held (i ∷ held) i f p v at pos (λ q. (refl, refl))
          (omega (arith, count_self i held, v.counted i, ap ref_at at))
          (λ j ne. count_ne i j held ne),
      (
        (f p, (get_elem?-at_entry_self i f s.inodes ∙ ap (Option.map f) at, (omega arith, (d, n)))),
        λ j ne. get_elem?-at_entry_ne i j f s.inodes ne,
      ),
    )
taken-Got dev inum s held (free none) v (all, busy) = (λ j. not_used dev inum s.inodes j all, busy)
taken-Got dev inum s held (free (some i)) v (all, (p, (at, idle))) =
    let f : Inode → Inode = λ ip. record ip { dev = dev; inum = inum; ref = 1; valid = false } in
    (
      take-IsValid s.inodes held i dev inum p v at idle all,
      (
        (
          f p,
          (
            get_elem?-at_entry_self i f s.inodes ∙ ap (Option.map f) at,
            (omega arith, (refl, refl)),
          ),
        ),
        λ j ne. get_elem?-at_entry_ne i j f s.inodes ne,
      ),
    )

pub iget-Got :
    (dev inum : ℕ) (s : Itable) (held : List ℕ)
    → IsValid s.inodes held
    → Got dev inum s.inodes held (iget dev inum s)
iget-Got dev inum s held v = subst (Got dev inum s.inodes held) (sym (iget-taken dev inum s)) (
    taken-Got dev inum s held (search_table dev inum none 0 s.inodes) v
      (search_table-Answer dev inum s.inodes))
