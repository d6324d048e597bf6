-- ===== src/Itrunc/Tests.antt =====
-- kernel/fs.c: a file of one block.
use xv6_riscv.Base.{
  ℕ, ◌+◌, ◌/◌, ◌≡◌, ◌≢◌, refl, sym, ap, ◌∙◌, some, arith, update, ◌==◌, if◌then◌else◌,
}
use native.Mathlib.Decide.{ℕ_discrete, dec_lt}
use xv6_riscv.Blocks.{Disk, bit}
use xv6_riscv.Blocks.Bitmap.{mark}
use xv6_riscv.Blocks.Effects.{IsValid}
use xv6_riscv.Blocks.Tests.{small}
use xv6_riscv.Bmap.{Content}
use xv6_riscv.Bmap.Refs.{ref, Owned, ref-low, ref-high_none}
use xv6_riscv.Itrunc.{itrunc}
use xv6_riscv.Itrunc.Truncated.{Truncated, itrunc-Truncated}

-- the first four blocks in use
abbrev disk_4 : Disk
disk_4 = update (λ _ _. 9) 2 (update (λ _. 0) 0 15)

abbrev one_block : Content
one_block = record { disk = disk_4; addrs = λ k. if k == 0 then 3 else 0 }

disk_4-IsValid : IsValid small disk_4
unfolding bit
disk_4-IsValid = record {
  boot = λ z. absurd (omega (arith, z));
  bitmap = λ n lt z.
      let block : n / 8192 + 2 ≡ 2 = omega (arith, lt) in
      absurd (omega (arith, sym (ap (mark small disk_4) block) ∙ z));
  within = λ n lt. omega (arith, lt);
}

first_ref : ref one_block 0 ≡ 3
first_ref = ref-low one_block 0 (omega arith)

no_more : (k : ℕ) → k ≢ 0 → ref one_block k ≡ 0
no_more k ne = elim (dec_lt k 13) [
  | yes low ↦ ref-low one_block k low ∙ ground (arith, ne)
  | no high ↦ ref-high_none one_block k (omega (arith, high)) refl
]

only_first : (k : ℕ) → ref one_block k ≢ 0 → k ≡ 0
only_first k used = elim (ℕ_discrete k 0) [ yes e ↦ e | no ne ↦ absurd (used (no_more k ne)) ]

three : (k : ℕ) → ref one_block k ≢ 0 → ref one_block k ≡ 3
three k used = ap (ref one_block) (only_first k used) ∙ first_ref

mark_3 : mark small disk_4 3 ≡ 1
unfolding bit
mark_3 = refl

one_block-Owned : Owned small one_block
one_block-Owned = record {
  valid = disk_4-IsValid;
  inside = λ k lt used. omega (arith, three k used);
  used = λ k lt used z.
      absurd (omega (arith, mark_3, sym (ap (mark small disk_4) (three k used)) ∙ z));
  apart = λ k n lt lt' used e. absurd (omega (arith, lt', three k used, e));
  distinct =
      λ i j lt lt' ne used e. ne (only_first i used ∙ sym (only_first j (λ z. used (e ∙ z))));
}

itrunc-Truncated_example :
    (u : Content) × ((itrunc small one_block ≡ some u) × Truncated small one_block u)
itrunc-Truncated_example = itrunc-Truncated small one_block one_block-Owned
