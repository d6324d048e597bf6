-- ===== src/Itrunc.antt =====
-- kernel/fs.c: the blocks that `itrunc` frees, over the bitmap. What it does to the size of the inode and
-- to its copy on the disk is in the table of inodes. `none` is a panic.
pub mod Frees
pub mod Loops
pub mod Truncated
pub mod Tests
use xv6_riscv.Base.{ℕ, zero, suc, ◌+◌, Bool, true, false, Option, none, some, update, ◌==◌}
use xv6_riscv.Blocks.{Superblock, Disk, bfree}
use xv6_riscv.Inode.{ndirect}
use xv6_riscv.Bmap.{Content, word, nindirect}

-- The loop over the direct blocks from `i` on, with `left` of them to go.
pub free_direct : Superblock → ℕ → ℕ → Content → Option Content
free_direct sb zero i s = some s
free_direct sb (suc left) i s = elim (s.addrs i == 0) [
  | true ↦ free_direct sb left (suc i) s
  | false ↦ elim (bfree sb (s.addrs i) s.disk) [
    | none ↦ none
    | some d ↦ free_direct sb left (suc i) (record { disk = d; addrs = update s.addrs i 0 })
  ]
]

-- The loop over the words of the indirect block from `j` on.
pub free_words : Superblock → ℕ → ℕ → ℕ → Disk → Option Disk
free_words sb block zero j disk = some disk
free_words sb block (suc left) j disk = elim (word (disk block) j == 0) [
  | true ↦ free_words sb block left (suc j) disk
  | false ↦ elim (bfree sb (word (disk block) j) disk) [
    | none ↦ none
    | some d ↦ free_words sb block left (suc j) d
  ]
]

-- The second half of `itrunc`.
pub free_indirect : Superblock → Content → Option Content
free_indirect sb s = elim (s.addrs ndirect == 0) [
  | true ↦ some s
  | false ↦ elim (free_words sb (s.addrs ndirect) nindirect 0 s.disk) [
    | none ↦ none
    | some d ↦ elim (bfree sb (s.addrs ndirect) d) [
      | none ↦ none
      | some d' ↦ some (record { disk = d'; addrs = update s.addrs ndirect 0 })
    ]
  ]
]

pub itrunc : Superblock → Content → Option Content
itrunc sb s = elim (free_direct sb ndirect 0 s) [ none ↦ none | some t ↦ free_indirect sb t ]
