-- ===== src/Bmap/Refs.antt =====
-- kernel/fs.c: the blocks that a file refers to: those of `addrs`, and those of the indirect block.
use xv6_riscv.Base.{
  ℕ, ◌-◌, ◌≤◌, ◌<◌, ◌≡◌, ◌≢◌, refl, sym, ap, ◌∙◌, subst, if◌then◌else◌, ltb, ◌==◌, arith, lt→ltb,
  ge→ltb, ne→==,
}
use native.Mathlib.Decide.{ℕ_discrete}
use xv6_riscv.Blocks.{Superblock, Disk, bblock}
use xv6_riscv.Blocks.Bitmap.{mark}
use xv6_riscv.Blocks.Effects.{IsValid, Balloced}
use xv6_riscv.Bmap.{Content, word}

-- Reference `k`: `addrs[k]` up to 12, and from 13 on word `k - 13` of the block in `addrs[12]`.
pub ref : Content → ℕ → ℕ
ref s k =
    if ltb k 13
    then s.addrs k
    else if s.addrs 12 == 0
    then 0
    else word (s.disk (s.addrs 12)) (k - 13)

pub ref-low : (s : Content) (k : ℕ) → k < 13 → ref s k ≡ s.addrs k
unfolding ref
ref-low s k lt = rw (lt→ltb k 13 lt) refl

pub ref-high_none : (s : Content) (j : ℕ) → 13 ≤ j → s.addrs 12 ≡ 0 → ref s j ≡ 0
unfolding ref
ref-high_none s j le z = ground (arith, le, z)

pub ref-high :
    (s : Content) (j : ℕ) → 13 ≤ j → s.addrs 12 ≢ 0 → ref s j ≡ word (s.disk (s.addrs 12)) (j - 13)
unfolding ref
ref-high s j le ne = rw (ge→ltb j 13 le, ne→== (s.addrs 12) 0 ne) refl

abbrev pub nrefs : ℕ
nrefs = 269

-- Every block that the file refers to is a block of the disk, in use, and not of the bitmap; no two
-- references are to one block.
pub record Owned (sb : Superblock) (s : Content) : Type 0 where
  pub valid : IsValid sb s.disk
  pub inside : (k : ℕ) → k < nrefs → ref s k ≢ 0 → ref s k < sb.size
  pub used : (k : ℕ) → k < nrefs → ref s k ≢ 0 → mark sb s.disk (ref s k) ≢ 0
  pub apart : (k n : ℕ) → k < nrefs → n < sb.size → ref s k ≢ 0 → ref s k ≢ bblock n sb
  pub distinct : (i j : ℕ) → i < nrefs → j < nrefs → i ≢ j → ref s i ≢ 0 → ref s i ≢ ref s j

-- The block that `balloc` takes is none that the file refers to.
pub fresh_block :
    (sb : Superblock) (s : Content) (a k : ℕ) (disk' : Disk)
    → Owned sb s
    → Balloced sb s.disk a disk'
    → k < nrefs
    → ref s k ≢ a
fresh_block sb s a k disk' o b lt e =
    o.used k lt (λ z. absurd (omega (arith, z, e, b.positive))) (ap (mark sb s.disk) e ∙ b.was_free)

-- A mark of a block of the disk is not lost.
pub mark_kept :
    (sb : Superblock) (disk : Disk) (a m : ℕ) (disk' : Disk)
    → Balloced sb disk a disk'
    → m < sb.size
    → mark sb disk m ≢ 0
    → mark sb disk' m ≢ 0
mark_kept sb disk a m disk' b lt set = elim (ℕ_discrete m a) [
  | yes e ↦ λ z. absurd (omega (arith, ap (mark sb disk') e, z, b.in_use))
  | no ne ↦ λ z. set (sym (b.others m lt ne) ∙ z)
]

-- A file takes the block of `balloc` for its reference `k`.
pub grow-Owned :
    (sb : Superblock) (s s' : Content) (k a : ℕ) (disk' : Disk)
    → Owned sb s
    → Balloced sb s.disk a disk'
    → ((m : ℕ) → m < sb.size → mark sb s'.disk m ≡ mark sb disk' m)
    → ref s' k ≡ a
    → ((j : ℕ) → j < nrefs → j ≢ k → ref s' j ≡ ref s j)
    → Owned sb s'
grow-Owned sb s s' k a disk' o b marks new old = record {
  valid = record {
    boot = kept 0 (omega (arith, b.positive, b.inside)) o.valid.boot;
    bitmap = λ n lt. kept (bblock n sb) (o.valid.within n lt) (o.valid.bitmap n lt);
    within = o.valid.within;
  };
  inside = λ j lt ne. elim (ℕ_discrete j k) [
    | yes e ↦ subst (λ x. x < sb.size) (sym (ap (ref s') e ∙ new)) b.inside
    | no other ↦
        subst (λ x. x < sb.size) (sym (old j lt other))
          (o.inside j lt (λ z. ne (old j lt other ∙ z)))
  ];
  used = λ j lt ne. elim (ℕ_discrete j k) [
    | yes e ↦ λ z.
        absurd
          (omega (arith, b.in_use, marks a b.inside, ap (mark sb s'.disk) (ap (ref s') e ∙ new), z))
    | no other ↦
        let was : ref s j ≢ 0 = λ z. ne (old j lt other ∙ z) in
        subst (λ x. mark sb s'.disk x ≢ 0) (sym (old j lt other))
          (kept (ref s j) (o.inside j lt was) (o.used j lt was))
  ];
  apart = λ j n lt in_size ne. elim (ℕ_discrete j k) [
    | yes e ↦ λ q.
        o.valid.bitmap n in_size (ap (mark sb s.disk) (sym q ∙ (ap (ref s') e ∙ new)) ∙ b.was_free)
    | no other ↦
        λ q. o.apart j n lt in_size (λ z. ne (old j lt other ∙ z)) (sym (old j lt other) ∙ q)
  ];
  distinct = λ i j lt lt' ne used. elim (ℕ_discrete i k) [
    | yes e ↦ λ q.
        let other : j ≢ k = λ e'. ne (e ∙ sym e') in
        fresh_block sb s a j disk' o b lt' (sym (old j lt' other) ∙ (sym q ∙ (ap (ref s') e ∙ new)))
    | no other ↦ elim (ℕ_discrete j k) [
      | yes e ↦ λ q.
          fresh_block sb s a i disk' o b lt (sym (old i lt other) ∙ (q ∙ (ap (ref s') e ∙ new)))
      | no other' ↦ λ q.
          o.distinct i j lt lt' ne (λ z. used (old i lt other ∙ z))
            (sym (old i lt other) ∙ (q ∙ old j lt' other'))
    ]
  ];
}
  where
    kept : (m : ℕ) → m < sb.size → mark sb s.disk m ≢ 0 → mark sb s'.disk m ≢ 0
    kept m lt set = λ z. mark_kept sb s.disk a m disk' b lt set (sym (marks m lt) ∙ z)
