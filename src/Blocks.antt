-- ===== src/Blocks.antt =====
-- kernel/fs.c: the bitmap of the blocks of the disk, `balloc` and `bfree`. The disk is what the
-- buffer cache and the log show of it: `bread` reads a block of it, and `log_write` changes one. A
-- block is the bytes at its offsets.
pub mod Bits
pub mod Bitmap
pub mod Alloc
pub mod Effects
pub mod Undo
pub mod Tests
use xv6_riscv.Base.{
  ℕ, zero, suc, ◌+◌, ◌-◌, ◌*◌, ◌/◌, ◌%◌, Bool, true, false, Option, none, some, update,
  if◌then◌else◌, ltb, ◌==◌,
}

-- `BPB`, the bits of a bitmap block
abbrev pub bpb : ℕ
bpb = 8192

-- The part of `struct superblock` that says where the bitmap is.
pub record Superblock : Type 0 where
  pub size : ℕ
  pub bmapstart : ℕ

abbrev pub Disk : Type 0
Disk = ℕ → ℕ → ℕ

abbrev pub bblock : ℕ → Superblock → ℕ
bblock b sb = b / bpb + sb.bmapstart

-- `x & (1 << k)`, as 0 or 1; `x | (1 << k)`; and `x & ~(1 << k)`
unfoldable pub bit : ℕ → ℕ → ℕ
bit x zero = x % 2
bit x (suc k) = bit (x / 2) k

pub set_bit : ℕ → ℕ → ℕ
set_bit x zero = x / 2 * 2 + 1
set_bit x (suc k) = set_bit (x / 2) k * 2 + x % 2

pub clear_bit : ℕ → ℕ → ℕ
clear_bit x zero = x / 2 * 2
clear_bit x (suc k) = clear_bit (x / 2) k * 2 + x % 2

abbrev pub bit_of : (ℕ → ℕ) → ℕ → ℕ
bit_of bytes bi = bit (bytes (bi / 8)) (bi % 8)

abbrev pub with_bit : (ℕ → ℕ → ℕ) → (ℕ → ℕ) → ℕ → ℕ → ℕ
with_bit change bytes bi = update bytes (bi / 8) (change (bytes (bi / 8)) (bi % 8))

pub bzero : ℕ → Disk → Disk
bzero bno disk = update disk bno (λ _. 0)

-- The inner loop of `balloc`, with `left = BPB - bi`: the first free bit.
pub free_bit : (ℕ → ℕ) → ℕ → ℕ → ℕ → ℕ → Option ℕ
free_bit bytes size b zero bi = none
free_bit bytes size b (suc left) bi = elim (ltb (b + bi) size) [
  | false ↦ none
  | true ↦ elim (bit_of bytes bi == 0) [
    | true ↦ some bi
    | false ↦ free_bit bytes size b left (suc bi)
  ]
]

-- The outer loop from block `b` on, with fuel: the block that it takes.
pub free_block : Superblock → Disk → ℕ → ℕ → Option (ℕ × ℕ)
free_block sb disk zero b = none
free_block sb disk (suc fuel) b = elim (ltb b sb.size) [
  | false ↦ none
  | true ↦ elim (free_bit (disk (bblock b sb)) sb.size b bpb 0) [
    | some bi ↦ some (b, bi)
    | none ↦ free_block sb disk fuel (b + bpb)
  ]
]

pub balloc : Superblock → Disk → ℕ × Disk
balloc sb disk = elim (free_block sb disk sb.size 0) [
  | none ↦ (0, disk)
  | some (b, bi) ↦ (
    b + bi,
    bzero (b + bi) (update disk (bblock b sb) (with_bit set_bit (disk (bblock b sb)) bi)),
  )
]

-- `none` is a panic.
pub bfree : Superblock → ℕ → Disk → Option Disk
bfree sb b disk =
    if bit_of (disk (bblock b sb)) (b % bpb) == 0
    then none
    else some (update disk (bblock b sb) (with_bit clear_bit (disk (bblock b sb)) (b % bpb)))
