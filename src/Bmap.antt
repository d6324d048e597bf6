-- ===== src/Bmap.antt =====
-- kernel/fs.c: `bmap`, from the blocks of a file to those of the disk. The words of an indirect block
-- are little-endian; the buffer of that block is the disk's block.
pub mod Words
pub mod Refs
pub mod Grow
pub mod Entry
pub mod Lookup
pub mod Tests
use xv6_riscv.Base.{
  ℕ, zero, suc, ◌+◌, ◌-◌, ◌*◌, ◌/◌, ◌%◌, Bool, true, false, Option, none, some, update,
  if◌then◌else◌, ltb, ◌==◌,
}
use xv6_riscv.Blocks.{Superblock, Disk, balloc}
use xv6_riscv.Inode.{ndirect}

-- `NINDIRECT`
abbrev pub nindirect : ℕ
nindirect = 256

-- `((uint*)bp->data)[i]`, and an assignment to it
abbrev pub word : (ℕ → ℕ) → ℕ → ℕ
word bytes i =
    bytes (4 * i)
    + bytes (4 * i + 1) * 256
    + bytes (4 * i + 2) * 65536
    + bytes (4 * i + 3) * 16777216

abbrev pub put_word : (ℕ → ℕ) → ℕ → ℕ → ℕ → ℕ
put_word bytes i v =
    update
      (update (update (update bytes (4 * i) (v % 256)) (4 * i + 1) (v / 256 % 256)) (4 * i + 2)
        (v / 65536 % 256))
      (4 * i + 3) (v / 16777216 % 256)

-- The disk, and `addrs` of the inode.
pub record Content : Type 0 where
  pub disk : Disk
  pub addrs : ℕ → ℕ

-- The address in `addrs[k]`, where a block is allocated if there is none.
pub slot : Superblock → ℕ → Content → ℕ × Content
slot sb k s =
    let r = balloc sb s.disk in
    if s.addrs k == 0
    then (if r.0 == 0
        then (0, record s { disk = r.1 })
        else (r.0, record { disk = r.1; addrs = update s.addrs k r.0 }))
    else (s.addrs k, s)

-- The same of the word `bn` of the indirect block.
pub entry_slot : Superblock → ℕ → ℕ → Content → ℕ × Content
entry_slot sb bn block s =
    let r = balloc sb s.disk in
    if word (s.disk block) bn == 0
    then (if r.0 == 0
        then (0, record s { disk = r.1 })
        else (r.0, record s { disk = update r.1 block (put_word (r.1 block) bn r.0) }))
    else (word (s.disk block) bn, s)

-- `none` is a panic.
pub bmap : Superblock → ℕ → Content → Option (ℕ × Content)
bmap sb bn s =
    if ltb bn ndirect
    then some (slot sb bn s)
    else if ltb (bn - ndirect) nindirect
    then (let p = slot sb ndirect s in
        some (if p.0 == 0 then (0, p.1) else entry_slot sb (bn - ndirect) p.0 p.1))
    else none
