-- ===== src/Blocks/Tests.antt =====
-- kernel/fs.c: a disk of 20 blocks, of which the bitmap has the first three in use.
use xv6_riscv.Base.{ℕ, ◌+◌, ◌<◌, ◌≡◌, ◌≢◌, refl, some, arith, update, ◌⊎◌, sym, ap, ◌∙◌, ◌/◌}
use xv6_riscv.Blocks.{Superblock, Disk, balloc, bfree, bzero, free_block, free_bit, bit}
use xv6_riscv.Blocks.Bitmap.{mark}
use xv6_riscv.Blocks.Effects.{IsValid, marked, Balloced, balloc-Balloced}
use xv6_riscv.Blocks.Undo.{bfree-balloc}

abbrev pub small : Superblock
small = record { size = 20; bmapstart = 2 }

abbrev pub disk_3 : Disk
disk_3 = update (λ _ _. 9) 2 (update (λ _. 0) 0 7)

pub disk_3-IsValid : IsValid small disk_3
unfolding bit
disk_3-IsValid = record {
  boot = λ z. absurd (omega (arith, z));
  bitmap = λ n lt z.
      let block : n / 8192 + 2 ≡ 2 = omega (arith, lt) in
      absurd (omega (arith, sym (ap (mark small disk_3) block) ∙ z));
  within = λ n lt. omega (arith, lt);
}

taken : balloc small disk_3 ≡ (3, bzero 3 (marked small 3 disk_3))
unfolding balloc free_block free_bit bit
taken = refl

balloc-Balloced_example :
    ((balloc small disk_3 ≡ (0, disk_3)) × ((n : ℕ) → n < 20 → mark small disk_3 n ≢ 0))
    ⊎ ((r : ℕ) × ((disk' : Disk) × ((balloc small disk_3 ≡ (r, disk'))
            × Balloced small disk_3 r disk')))
balloc-Balloced_example = balloc-Balloced small disk_3 disk_3-IsValid

bfree-balloc_example :
    (back : Disk) × ((bfree small 3 (bzero 3 (marked small 3 disk_3)) ≡ some back)
      × ((c o : ℕ) → c ≢ 3 → back c o ≡ disk_3 c o))
bfree-balloc_example =
    bfree-balloc small disk_3 (bzero 3 (marked small 3 disk_3)) 3 disk_3-IsValid taken
      (λ z. absurd (omega (arith, z)))
