-- ===== src/Blocks/Effects.antt =====
-- kernel/fs.c: `balloc` and `bfree` against the bitmap.
use xv6_riscv.Base.{
  ℕ, ◌+◌, ◌%◌, ◌<◌, ◌≡◌, ◌≢◌, refl, sym, ap, ◌∙◌, Bool, true, false, Option, none, some, update,
  update_self, update_ne, if◌then◌else◌, ◌==◌, arith, ◌⊎◌, inl, inr, ==→eq, ==→ne,
}
use native.Mathlib.Decide.{ℕ_discrete}
use xv6_riscv.Blocks.{
  bpb, Superblock, Disk, bblock, set_bit, clear_bit, bit_of, with_bit, free_block, bzero, balloc,
  bfree,
}
use xv6_riscv.Blocks.Bits.{bit-set_self, bit-set_ne, bit-clear_self, bit-clear_ne}
use xv6_riscv.Blocks.Bitmap.{mark, mark-change_ne, mark-change_self}
use xv6_riscv.Blocks.Alloc.{BlockFound, free_block-BlockFound}

-- The boot block and the blocks of the bitmap are in use.
pub record IsValid (sb : Superblock) (disk : Disk) : Type 0 where
  pub boot : mark sb disk 0 ≢ 0
  pub bitmap : (n : ℕ) → n < sb.size → mark sb disk (bblock n sb) ≢ 0
  pub within : (n : ℕ) → n < sb.size → bblock n sb < sb.size

-- The disk with the bit of `n` set.
abbrev pub marked : Superblock → ℕ → Disk → Disk
marked sb n disk = update disk (bblock n sb) (with_bit set_bit (disk (bblock n sb)) (n % bpb))

-- The two ends of `balloc`.
abbrev pub BallocEnd : Superblock → Disk → ℕ × Disk → Type 0
BallocEnd sb disk r =
    ((r ≡ (0, disk)) × ((n : ℕ) → n < sb.size → mark sb disk n ≢ 0))
    ⊎ ((n : ℕ) × ((r ≡ (n, bzero n (marked sb n disk)))
          × ((n < sb.size) × ((mark sb disk n ≡ 0) × ((m : ℕ) → m < n → mark sb disk m ≢ 0)))))

marked_at :
    (sb : Superblock) (disk : Disk) (c i : ℕ)
    → c % bpb ≡ 0
    → i < bpb
    → update disk (bblock c sb) (with_bit set_bit (disk (bblock c sb)) i) ≡ marked sb (c + i) disk
marked_at sb disk c i aligned lt =
    let block : bblock c sb ≡ bblock (c + i) sb = omega (arith, aligned, lt) in
    let index : i ≡ (c + i) % bpb = omega (arith, aligned, lt) in
    ap (λ k. update disk k (with_bit set_bit (disk k) i)) block
    ∙ ap (λ k. update disk (bblock (c + i) sb) (with_bit set_bit (disk (bblock (c + i) sb)) k))
        index

taken-BallocEnd :
    (sb : Superblock) (disk : Disk) (o : Option (ℕ × ℕ))
    → BlockFound sb disk 0 o
    → BallocEnd sb disk (elim o [
      | none ↦ (0, disk)
      | some (b, bi) ↦ (
        b + bi,
        bzero (b + bi) (update disk (bblock b sb) (with_bit set_bit (disk (bblock b sb)) bi)),
      )
    ])
taken-BallocEnd sb disk none h = inl (refl, λ n lt. h n (omega arith) lt)
taken-BallocEnd sb disk (some (c, i)) (aligned, (lt, (_, (inside, (z, lower))))) = inr (
  c + i,
  (
    ap (λ (d : Disk). (c + i, bzero (c + i) d)) (marked_at sb disk c i aligned lt),
    (inside, (z, λ m lt'. lower m (omega arith) lt')),
  ),
)

pub balloc-BallocEnd : (sb : Superblock) (disk : Disk) → BallocEnd sb disk (balloc sb disk)
unfolding balloc
balloc-BallocEnd sb disk =
    taken-BallocEnd sb disk (free_block sb disk sb.size 0)
      (free_block-BlockFound sb disk sb.size 0 (omega arith) (omega arith))

mark-bzero :
    (sb : Superblock) (disk : Disk) (n m : ℕ)
    → n ≢ bblock m sb
    → mark sb (bzero n disk) m ≡ mark sb disk m
unfolding bzero
mark-bzero sb disk n m ne =
    ap (λ (f : ℕ → ℕ). bit_of f (m % bpb)) (update_ne disk n (bblock m sb) _ ne)

-- What a successful `balloc` does.
pub record Balloced (sb : Superblock) (disk : Disk) (r : ℕ) (disk' : Disk) : Type 0 where
  pub positive : 0 < r
  pub inside : r < sb.size
  pub was_free : mark sb disk r ≡ 0
  pub first : (m : ℕ) → m < r → mark sb disk m ≢ 0
  pub in_use : mark sb disk' r ≡ 1
  pub others : (m : ℕ) → m < sb.size → m ≢ r → mark sb disk' m ≡ mark sb disk m
  pub zeroed : (o : ℕ) → disk' r o ≡ 0
  pub rest : (c : ℕ) → c ≢ r → c ≢ bblock r sb → disk' c ≡ disk c

module _ (sb : Superblock) (disk : Disk) (v : IsValid sb disk) where
  pub apart : (r m : ℕ) → mark sb disk r ≡ 0 → m < sb.size → r ≢ bblock m sb
  apart r m z lt e = v.bitmap m lt (ap (mark sb disk) (sym e) ∙ z)

  pub marked-Balloced :
      (r : ℕ)
      → r < sb.size
      → mark sb disk r ≡ 0
      → ((m : ℕ) → m < r → mark sb disk m ≢ 0)
      → Balloced sb disk r (bzero r (marked sb r disk))
  unfolding bzero
  marked-Balloced r inside z lower = record {
    positive = elim (ℕ_discrete r 0) [
      | yes e ↦ absurd (v.boot (ap (mark sb disk) (sym e) ∙ z))
      | no ne ↦ omega (arith, ne)
    ];
    inside = inside;
    was_free = z;
    first = lower;
    in_use =
        mark-bzero sb (marked sb r disk) r r (apart r r z inside)
        ∙ (mark-change_self set_bit sb disk r ∙ bit-set_self _ (r % bpb % 8));
    others = λ m lt ne.
        mark-bzero sb (marked sb r disk) r m (apart r m z lt)
        ∙ mark-change_ne set_bit sb disk r m (λ x a k. bit-set_ne x a k) (λ e. ne (sym e));
    zeroed = λ o. ap (λ (f : ℕ → ℕ). f o) (update_self (marked sb r disk) r (λ _. 0));
    rest = λ c ne ne'.
        update_ne (marked sb r disk) r c _ (λ e. ne (sym e))
        ∙ update_ne disk (bblock r sb) c _ (λ e. ne' (sym e));
  }

  -- If the boot block and the blocks of the bitmap are marked in use, balloc returns 0 and changes
  -- nothing where every block is in use; otherwise it returns the first free block, marks it and no
  -- other, fills it with zeros, and changes no block but this and its bitmap block.
  pub balloc-Balloced :
      ((balloc sb disk ≡ (0, disk)) × ((n : ℕ) → n < sb.size → mark sb disk n ≢ 0))
      ⊎ ((r : ℕ) × ((disk' : Disk) × ((balloc sb disk ≡ (r, disk')) × Balloced sb disk r disk')))
  balloc-Balloced = elim (balloc-BallocEnd sb disk) [
    | inl full ↦ inl full
    | inr (r, (e, (inside, (z, lower)))) ↦
        inr (r, (bzero r (marked sb r disk), (e, marked-Balloced r inside z lower)))
  ]

-- What `bfree` does: a panic on a free block, or the one bit cleared.
abbrev pub Freed : Superblock → ℕ → Disk → Option Disk → Type 0
Freed sb b disk none = mark sb disk b ≡ 0
Freed sb b disk (some disk') =
    (mark sb disk b ≢ 0)
    × ((mark sb disk' b ≡ 0)
        × (((m : ℕ) → m ≢ b → mark sb disk' m ≡ mark sb disk m)
            × ((c : ℕ) → c ≢ bblock b sb → disk' c ≡ disk c)))

-- Bfree panics just if the block is free, and otherwise clears its mark, leaves the mark of every
-- other block, and changes no block but its bitmap block.
pub bfree-Freed : (sb : Superblock) (b : ℕ) (disk : Disk) → Freed sb b disk (bfree sb b disk)
unfolding bfree
bfree-Freed sb b disk = cleared (mark sb disk b == 0) refl
  where
    cleared :
        (t : Bool)
        → (mark sb disk b == 0) ≡ t
        → Freed sb b disk (
            if t
            then none
            else some
                (update disk (bblock b sb) (with_bit clear_bit (disk (bblock b sb)) (b % bpb))))
    cleared true e = ==→eq (mark sb disk b) 0 e
    cleared false e = (
      ==→ne (mark sb disk b) 0 e,
      (
        mark-change_self clear_bit sb disk b ∙ bit-clear_self _ (b % bpb % 8),
        (
          λ m ne.
              mark-change_ne clear_bit sb disk b m (λ x a k. bit-clear_ne x a k) (λ q. ne (sym q)),
          λ c ne. update_ne disk (bblock b sb) c _ (λ q. ne (sym q)),
        ),
      ),
    )
