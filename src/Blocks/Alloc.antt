-- ===== src/Blocks/Alloc.antt =====
-- kernel/fs.c: what `balloc` and `bfree` do to the bitmap.
use xv6_riscv.Base.{
  ℕ, zero, suc, ◌+◌, ◌-◌, ◌%◌, ◌≤◌, ◌<◌, ◌≡◌, ◌≢◌, refl, sym, ap, ◌∙◌, Bool, true, false, Option,
  none, some, ltb, arith,
}
use native.Mathlib.Decide.{dec_lt}
use xv6_riscv.Blocks.{bpb, Superblock, Disk, bblock, bit_of, free_bit, free_block}
use xv6_riscv.Blocks.Bitmap.{mark, BitFound, free_bit-BitFound}

-- What the outer loop finds from the block `b` on.
abbrev pub BlockFound : Superblock → Disk → ℕ → Option (ℕ × ℕ) → Type 0
BlockFound sb disk b none = (n : ℕ) → b ≤ n → n < sb.size → mark sb disk n ≢ 0
BlockFound sb disk b (some (c, i)) =
    (c % bpb ≡ 0)
    × ((i < bpb)
        × ((b ≤ c)
            × ((c + i < sb.size)
                × ((mark sb disk (c + i) ≡ 0)
                    × ((n : ℕ) → b ≤ n → n < c + i → mark sb disk n ≢ 0)))))

-- The marks of the blocks of one bitmap block.
mark_at :
    (sb : Superblock) (disk : Disk) (b i : ℕ)
    → b % bpb ≡ 0
    → i < bpb
    → mark sb disk (b + i) ≡ bit_of (disk (bblock b sb)) i
mark_at sb disk b i aligned lt =
    let block : bblock (b + i) sb ≡ bblock b sb = omega (arith, aligned, lt) in
    let index : (b + i) % bpb ≡ i = omega (arith, aligned, lt) in
    ap (λ k. bit_of (disk k) ((b + i) % bpb)) block ∙ ap (bit_of (disk (bblock b sb))) index

marks_full :
    (sb : Superblock) (disk : Disk) (b : ℕ)
    → b % bpb ≡ 0
    → BitFound (disk (bblock b sb)) sb.size b bpb 0 none
    → (n : ℕ) → b ≤ n
    → n < b + bpb
    → n < sb.size
    → mark sb disk n ≢ 0
marks_full sb disk b aligned h n le lt inside z =
    let back : b + (n - b) ≡ n = omega (arith, le) in
    h (n - b) (omega arith) (omega (arith, le, lt)) (omega (arith, le, inside)) (
      sym (mark_at sb disk b (n - b) aligned (omega (arith, le, lt)))
      ∙ (ap (mark sb disk) back ∙ z))

block_later :
    (sb : Superblock) (disk : Disk) (b : ℕ) (r : Option (ℕ × ℕ))
    → b % bpb ≡ 0
    → BitFound (disk (bblock b sb)) sb.size b bpb 0 none
    → BlockFound sb disk (b + bpb) r
    → BlockFound sb disk b r
block_later sb disk b none aligned full h = λ n le inside. elim (dec_lt n (b + bpb)) [
  | yes lt ↦ marks_full sb disk b aligned full n le lt inside
  | no ge ↦ h n (omega (arith, ge)) inside
]
block_later sb disk b (some (c, i)) aligned full (al, (lt, (le, (inside, (z, lower))))) = (
  al,
  (
    lt,
    (
      omega (arith, le),
      (
        inside,
        (
          z,
          λ n le' lt'. elim (dec_lt n (b + bpb)) [
            | yes near ↦ marks_full sb disk b aligned full n le' near (omega (arith, lt', inside))
            | no far ↦ lower n (omega (arith, far)) lt'
          ],
        ),
      ),
    ),
  ),
)

block_here :
    (sb : Superblock) (disk : Disk) (b i : ℕ)
    → b % bpb ≡ 0
    → BitFound (disk (bblock b sb)) sb.size b bpb 0 (some i)
    → BlockFound sb disk b (some (b, i))
block_here sb disk b i aligned (_, (lt, (inside, (z, lower)))) = (
  aligned,
  (
    omega (arith, lt),
    (
      omega arith,
      (
        inside,
        (
          mark_at sb disk b i aligned (omega (arith, lt)) ∙ z,
          λ n le lt' set.
              let back : b + (n - b) ≡ n = omega (arith, le) in
              lower (n - b) (omega arith) (omega (arith, le, lt')) (
                sym (mark_at sb disk b (n - b) aligned (omega (arith, le, lt', lt)))
                ∙ (ap (mark sb disk) back ∙ set)),
        ),
      ),
    ),
  ),
)

-- A round of the outer loop, by its test and what the inner loop finds.
block_round :
    (sb : Superblock) (disk : Disk) (b : ℕ) (inside : Bool) (o : Option ℕ) (r : Option (ℕ × ℕ))
    → b % bpb ≡ 0
    → ltb b sb.size ≡ inside
    → BitFound (disk (bblock b sb)) sb.size b bpb 0 o
    → BlockFound sb disk (b + bpb) r
    → BlockFound sb disk b
        (elim inside [ false ↦ none | true ↦ elim o [ some bi ↦ some (b, bi) | none ↦ r ] ])
block_round sb disk b false o r aligned past found h =
    λ n le lt. absurd (ground (arith, past, le, lt))
block_round sb disk b true none r aligned inside full h = block_later sb disk b r aligned full h
block_round sb disk b true (some i) r aligned inside found h = block_here sb disk b i aligned found

pub free_block-BlockFound :
    (sb : Superblock) (disk : Disk) (fuel b : ℕ)
    → b % bpb ≡ 0
    → sb.size ≤ b + fuel
    → BlockFound sb disk b (free_block sb disk fuel b)
unfolding free_block
free_block-BlockFound sb disk zero b aligned enough =
    λ n le lt. absurd (omega (arith, enough, le, lt))
free_block-BlockFound sb disk (suc fuel) b aligned enough =
    block_round sb disk b (ltb b sb.size) (free_bit (disk (bblock b sb)) sb.size b bpb 0)
      (free_block sb disk fuel (b + bpb)) aligned refl
      (free_bit-BitFound (disk (bblock b sb)) sb.size b bpb 0)
      (free_block-BlockFound sb disk fuel (b + bpb) (omega (arith, aligned))
        (omega (arith, enough)))
