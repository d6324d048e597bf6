-- ===== src/Blocks/Undo.antt =====
-- kernel/fs.c: `bfree` undoes `balloc`.
use xv6_riscv.Base.{
  ℕ, ◌/◌, ◌%◌, ◌≡◌, ◌≢◌, sym, ap, ◌∙◌, subst, none, some, update, update_self, update_ne,
  if◌then◌else◌, arith, inl, inr, ne→==,
}
use native.Mathlib.Decide.{ℕ_discrete}
use xv6_riscv.Blocks.{
  bpb, Superblock, Disk, bblock, set_bit, clear_bit, bit_of, with_bit, bzero, balloc, bfree,
}
use xv6_riscv.Blocks.Bits.{clear-set}
use xv6_riscv.Blocks.Bitmap.{mark}
use xv6_riscv.Blocks.Effects.{IsValid, marked, balloc-BallocEnd, marked-Balloced, apart}

-- The byte at `o` of a bitmap block, with a clear bit set and cleared again.
byte_back :
    (bytes : ℕ → ℕ) (i o : ℕ)
    → bit_of bytes i ≡ 0
    → with_bit clear_bit (with_bit set_bit bytes i) i o ≡ bytes o
byte_back bytes i o z = elim (ℕ_discrete (i / 8) o) [
  | yes e ↦
      subst (λ k. with_bit clear_bit (with_bit set_bit bytes i) i k ≡ bytes k) e
        (update_self (with_bit set_bit bytes i) (i / 8) _
          ∙ (ap (λ x. clear_bit x (i % 8)) (update_self bytes (i / 8) _)
              ∙ clear-set (bytes (i / 8)) (i % 8) z))
  | no ne ↦ update_ne (with_bit set_bit bytes i) (i / 8) o _ ne ∙ update_ne bytes (i / 8) o _ ne
]

-- The disk that `balloc` and then `bfree` of its block leave.
abbrev undone : Superblock → ℕ → Disk → Disk
undone sb r disk = update disk (bblock r sb) (with_bit clear_bit (disk (bblock r sb)) (r % bpb))

block_back :
    (sb : Superblock) (disk : Disk) (r c o : ℕ)
    → mark sb disk r ≡ 0
    → r ≢ bblock r sb
    → c ≢ r
    → undone sb r (bzero r (marked sb r disk)) c o ≡ disk c o
unfolding bzero
block_back sb disk r c o z away ne = elim (ℕ_discrete (bblock r sb) c) [
  | yes e ↦
      let set : bzero r (marked sb r disk) (bblock r sb)
          ≡ with_bit set_bit (disk (bblock r sb)) (r % bpb) =
        update_ne (marked sb r disk) r (bblock r sb) _ away ∙ update_self disk (bblock r sb) _ in
      subst (λ k. undone sb r (bzero r (marked sb r disk)) k o ≡ disk k o) e
        (ap (λ (f : ℕ → ℕ). f o) (update_self (bzero r (marked sb r disk)) (bblock r sb) _)
          ∙ (ap (λ (f : ℕ → ℕ). with_bit clear_bit f (r % bpb) o) set
              ∙ byte_back (disk (bblock r sb)) (r % bpb) o z))
  | no other ↦
      ap (λ (f : ℕ → ℕ). f o)
        (update_ne (bzero r (marked sb r disk)) (bblock r sb) c _ other
          ∙ (update_ne (marked sb r disk) r c _ (λ q. ne (sym q))
              ∙ update_ne disk (bblock r sb) c _ other))
]

bfree-used :
    (sb : Superblock) (n : ℕ) (disk : Disk)
    → mark sb disk n ≡ 1
    → bfree sb n disk ≡ some (undone sb n disk)
unfolding bfree
bfree-used sb n disk used =
    ap (λ t. if t then none else some (undone sb n disk))
      (ne→== (mark sb disk n) 0 (λ z. absurd (omega (arith, z, used))))

-- If the boot block and the blocks of the bitmap are marked in use, bfree of a block that balloc
-- has just returned does not panic, and leaves every byte outside that block as it was before the
-- two calls.
pub bfree-balloc :
    (sb : Superblock) (disk disk' : Disk) (r : ℕ)
    → IsValid sb disk
    → balloc sb disk ≡ (r, disk')
    → r ≢ 0
    → (back : Disk) × ((bfree sb r disk' ≡ some back) × ((c o : ℕ) → c ≢ r → back c o ≡ disk c o))
bfree-balloc sb disk disk' r v e ne = elim (balloc-BallocEnd sb disk) [
  | inl (full, _) ↦ absurd (ne (ap (λ (p : ℕ × Disk). p.0) (sym e ∙ full)))
  | inr (n, (taken, (inside, (z, lower)))) ↦
      let same : (r, disk') ≡ (n, bzero n (marked sb n disk)) = sym e ∙ taken in
      subst
        (λ (p : ℕ × Disk).
          (back : Disk) × ((bfree sb p.0 p.1 ≡ some back)
            × ((c o : ℕ) → c ≢ p.0 → back c o ≡ disk c o)))
        (sym same)
        (
          undone sb n (bzero n (marked sb n disk)),
          (
            bfree-used sb n (bzero n (marked sb n disk))
                (marked-Balloced sb disk v n inside z lower).in_use,
            λ c o other. block_back sb disk n c o z (apart sb disk v n n z inside) other,
          ),
        )
]
