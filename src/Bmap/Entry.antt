-- ===== src/Bmap/Entry.antt =====
-- kernel/fs.c: one word of the indirect block of a file, looked up or allocated.
use xv6_riscv.Base.{
  ℕ, ◌+◌, ◌-◌, ◌%◌, ◌≤◌, ◌<◌, ◌≡◌, ◌≢◌, sym, ap, ◌∙◌, subst, update, update_self, update_ne, ◌==◌,
  arith, inl, inr, Bool-cases, ==→eq, ==→ne, ne→==,
}
use native.Mathlib.Decide.{dec_lt}
use xv6_riscv.Blocks.{Superblock, Disk, bblock, bit_of, bpb}
use xv6_riscv.Blocks.Bitmap.{mark}
use xv6_riscv.Blocks.Effects.{Balloced, balloc-Balloced}
use xv6_riscv.Bmap.{Content, word, put_word, entry_slot, nindirect}
use xv6_riscv.Bmap.Words.{word-put_self, word-put_ne}
use xv6_riscv.Bmap.Refs.{ref, nrefs, Owned, ref-low, ref-high}
use xv6_riscv.Bmap.Grow.{Mapped, old-Mapped, full-Mapped, new-Mapped, same_bytes}

-- The disk after word `bn` of the indirect block has become `a`.
abbrev with_word : ℕ → ℕ → ℕ → Disk → Content → Content
with_word block bn a disk' s = record s { disk = update disk' block (put_word (disk' block) bn a) }

module _ (sb : Superblock) (s : Content) (bn a : ℕ) (disk' : Disk) (o : Owned sb s)
    (b : Balloced sb s.disk a disk') (used : s.addrs 12 ≢ 0) where
  low12 : ref s 12 ≡ s.addrs 12
  low12 = ref-low s 12 (omega arith)

  block_used : ref s 12 ≢ 0
  block_used z = used (sym low12 ∙ z)

  block_bytes : disk' (s.addrs 12) ≡ s.disk (s.addrs 12)
  block_bytes =
      subst (λ x. disk' x ≡ s.disk x) low12
        (same_bytes sb s a 12 disk' o b (omega arith) block_used)

  at_block :
      (with_word (s.addrs 12) bn a disk' s).disk (s.addrs 12) ≡ put_word (disk' (s.addrs 12)) bn a
  at_block = update_self disk' (s.addrs 12) _

  word_marks :
      (m : ℕ) → m < sb.size → mark sb (with_word (s.addrs 12) bn a disk' s).disk m ≡ mark sb disk' m
  word_marks m lt =
      ap (λ (f : ℕ → ℕ). bit_of f (m % bpb))
        (update_ne disk' (s.addrs 12) (bblock m sb) _
          (λ e. o.apart 12 m (omega arith) lt block_used (low12 ∙ e)))

  word_here : a < 4294967296 → ref (with_word (s.addrs 12) bn a disk' s) (bn + 13) ≡ a
  word_here lt =
      let back : bn + 13 - 13 ≡ bn = omega arith in
      ref-high (with_word (s.addrs 12) bn a disk' s) (bn + 13) (omega arith) used
      ∙ (ap (word ((with_word (s.addrs 12) bn a disk' s).disk (s.addrs 12))) back
          ∙ (ap (λ (f : ℕ → ℕ). word f bn) at_block ∙ word-put_self (disk' (s.addrs 12)) bn a lt))

  word_others : (j : ℕ) → j ≢ bn + 13 → ref (with_word (s.addrs 12) bn a disk' s) j ≡ ref s j
  word_others j ne = elim (dec_lt j 13) [
    | yes small ↦ ref-low (with_word (s.addrs 12) bn a disk' s) j small ∙ sym (ref-low s j small)
    | no big ↦
        ref-high (with_word (s.addrs 12) bn a disk' s) j (omega (arith, big)) used
        ∙ (ap (λ (f : ℕ → ℕ). word f (j - 13)) at_block
            ∙ (word-put_ne (disk' (s.addrs 12)) bn (j - 13) a (λ e. ne (omega (arith, e, big)))
                ∙ (ap (λ (f : ℕ → ℕ). word f (j - 13)) block_bytes
                    ∙ sym (ref-high s j (omega (arith, big)) used))))
  ]

  word_bytes :
      (j : ℕ)
      → j < nrefs
      → j ≢ 12
      → ref s j ≢ 0
      → (with_word (s.addrs 12) bn a disk' s).disk (ref s j) ≡ s.disk (ref s j)
  word_bytes j lt ne h =
      update_ne disk' (s.addrs 12) (ref s j) _
        (λ e. o.distinct j 12 lt (omega arith) ne h (sym (low12 ∙ e)))
      ∙ same_bytes sb s a j disk' o b lt h

pub entry_slot-Mapped :
    (sb : Superblock) (s : Content) (bn : ℕ)
    → sb.size ≤ 4294967296
    → bn < nindirect
    → s.addrs 12 ≢ 0
    → Owned sb s
    → Mapped sb s (bn + 13) (entry_slot sb bn (s.addrs 12) s)
unfolding entry_slot
entry_slot-Mapped sb s bn size lt used o =
    let back : bn + 13 - 13 ≡ bn = omega arith in
    let here : ref s (bn + 13) ≡ word (s.disk (s.addrs 12)) bn =
      ref-high s (bn + 13) (omega arith) used ∙ ap (word (s.disk (s.addrs 12))) back in
    elim (Bool-cases (word (s.disk (s.addrs 12)) bn == 0)) [
      | inr old ↦ rw old (
          subst (λ a. Mapped sb s (bn + 13) (a, s)) here
            (old-Mapped sb s (bn + 13) o (λ z. ==→ne _ 0 old (sym here ∙ z))))
      | inl idle ↦
          let z : ref s (bn + 13) ≡ 0 = here ∙ ==→eq _ 0 idle in
          rw idle (elim (balloc-Balloced sb s.disk o.valid) [
            | inl (e, full) ↦ rw e (full-Mapped sb s (bn + 13) o z full)
            | inr (a, (disk', (e, b))) ↦
                rw (e, ne→== a 0 (λ q. absurd (omega (arith, q, b.positive))))
                  (new-Mapped sb s (with_word (s.addrs 12) bn a disk' s) (bn + 13) a disk' o b z
                    (word_marks sb s bn a disk' o b used)
                    (word_here sb s bn a disk' o b used (omega (arith, b.inside, size)))
                    (λ j _ ne. word_others sb s bn a disk' o b used j ne)
                    (word_bytes sb s bn a disk' o b used))
          ])
    ]
