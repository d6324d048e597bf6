-- ===== src/Inode/Pointers.antt =====
-- kernel/fs.c: what a pointer to an inode is good for, in any history.
use xv6_riscv.Base.{
  ℕ, ◌<◌, ◌≡◌, ◌≢◌, refl, ap, ◌∙◌, true, false, Option, none, some, List, All, arith, ◌⊎◌, inl, inr,
  Bool-cases, get_elem?, ◌==◌, count, update_self,
}
use xv6_riscv.Inode.{Inode, Itable, Dinode, iget, iput, wiped}
use xv6_riscv.Inode.Unique.{Uses}
use xv6_riscv.Inode.Steps.{Ledger, held_entry}
use xv6_riscv.Inode.Get.{Got, iget-Got}
use xv6_riscv.Inode.History.{Valid, Reach, Reach-Valid, frees, iput-keeps, iput-frees}

-- What `iget` does on the entries `t`: a panic where nothing is left, or the one entry of the inode.
abbrev pub OneEntry : ℕ → ℕ → List Inode → Option (ℕ × Itable) → Type 0
OneEntry dev inum t none = ((j : ℕ) → ¬ Uses t j dev inum) × All (λ ip. (ip.ref == 0) ≡ false) t
OneEntry dev inum t (some (i, u)) =
    Uses u.inodes i dev inum
    × (((j : ℕ) → Uses u.inodes j dev inum → j ≡ i)
        × ((j : ℕ) → i ≢ j → get_elem? u.inodes j ≡ get_elem? t j))

Got-OneEntry :
    (dev inum : ℕ) (t : List Inode) (held : List ℕ) (r : Option (ℕ × Itable))
    → Got dev inum t held r
    → OneEntry dev inum t r
Got-OneEntry dev inum t held none g = g
Got-OneEntry dev inum t held (some (i, u)) (w, (used, rest)) =
    (used, (λ j also. w.unique dev inum j i also used, rest))

-- After any history of iget, idup, ilock, iunlock and iput from a valid table, iget panics only
-- if the inode has no entry and no entry is free; otherwise it returns the only entry in use for
-- the inode, and changes no other entry.
pub iget-OneEntry :
    {s t : Ledger} (dev inum : ℕ)
    → Valid s
    → Reach s t
    → OneEntry dev inum t.table.inodes (iget dev inum t.table)
iget-OneEntry {s} {t} dev inum v reach =
    Got-OneEntry dev inum t.table.inodes t.held (iget dev inum t.table)
      (iget-Got dev inum t.table t.held (Reach-Valid v reach))

-- After any history of calls on the table of inodes from a valid table, two different pointers
-- that are held point to entries of different inodes, and the count of an entry is the number of
-- pointers to it that are held.
pub pointers_differ :
    {s t : Ledger} (i j : ℕ)
    → Valid s
    → Reach s t
    → 0 < count i t.held
    → 0 < count j t.held
    → i ≢ j
    → (p : Inode) × ((q : Inode) × ((get_elem? t.table.inodes i ≡ some p)
          × ((get_elem? t.table.inodes j ≡ some q)
              × ((p.ref ≡ count i t.held) × ((p.dev ≡ q.dev) → p.inum ≢ q.inum)))))
pointers_differ {s} {t} i j v reach pos pos' ne =
    let w : Valid t = Reach-Valid v reach in
    let (p, (at, same)) = held_entry t.table.inodes t.held i w pos in
    let (q, (at', same')) = held_entry t.table.inodes t.held j w pos' in
    let differ : p.dev ≡ q.dev → p.inum ≢ q.inum = λ d n. ne (
      w.unique q.dev q.inum i j (p, (at, (omega (arith, same, pos), (d, n))))
        (q, (at', (omega (arith, same', pos'), (refl, refl))))) in
    (p, (q, (at, (at', (same, differ)))))

-- After any history of calls on the table of inodes from a valid table, iput of a held pointer
-- frees the inode on the disk if the pointer is the last one, the inode has been read and it has
-- no links, and otherwise leaves the disk as it was.
pub iput_held :
    {s t : Ledger} (i : ℕ)
    → Valid s
    → Reach s t
    → 0 < count i t.held
    → (p : Inode) × ((get_elem? t.table.inodes i ≡ some p)
        × (((count i t.held ≡ 1)
              × ((p.valid ≡ true)
                  × ((p.copy.nlink ≡ 0) × ((iput i t.table).disk p.dev p.inum ≡ wiped p.copy))))
            ⊎ (((count i t.held ≢ 1) ⊎ ((p.valid ≡ false) ⊎ (p.copy.nlink ≢ 0)))
                × ((iput i t.table).disk ≡ t.table.disk))))
iput_held {s} {t} i v reach pos =
    let (p, (at, same)) = held_entry t.table.inodes t.held i (Reach-Valid v reach) pos in
    (
      p,
      (
        at,
        elim (Bool-cases (frees p)) [
          | inl gone ↦ inl (
            ground (arith, gone, same),
            (
              ground (arith, gone),
              (
                ground (arith, gone),
                ap (λ (u : Itable). u.disk p.dev p.inum) (iput-frees i t.table p at gone)
                    ∙ (ap (λ (d : ℕ → Dinode). d p.inum) (update_self t.table.disk p.dev _)
                        ∙ update_self (t.table.disk p.dev) p.inum (wiped p.copy)),
              ),
            ),
          )
          | inr stays ↦
              inr (kept p same stays, ap (λ (u : Itable). u.disk) (iput-keeps i t.table p at stays))
        ],
      ),
    )
  where
    kept :
        (p : Inode)
        → p.ref ≡ count i t.held
        → frees p ≡ false
        → (count i t.held ≢ 1) ⊎ ((p.valid ≡ false) ⊎ (p.copy.nlink ≢ 0))
    kept p same e = elim (Bool-cases p.valid) [
      | inr stale ↦ inr (inl stale)
      | inl full ↦ elim (Bool-cases (p.ref == 1)) [
        | inr more ↦ inl (λ one. ground (arith, more, same, one))
        | inl one ↦ inr (inr (λ z. ground (arith, e, full, one, z)))
      ]
    ]
