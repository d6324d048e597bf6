-- ===== src/Bmap/Tests.antt =====
-- kernel/fs.c: the first block of an empty file, and its first block past the direct ones.
use xv6_riscv.Base.{ℕ, ◌≡◌, refl, arith}
use native.Mathlib.Decide.{dec_lt}
use xv6_riscv.Blocks.Tests.{small, disk_3, disk_3-IsValid}
use xv6_riscv.Bmap.{Content, bmap}
use xv6_riscv.Bmap.Refs.{ref, Owned, ref-low, ref-high_none}
use xv6_riscv.Bmap.Lookup.{BmapEnd, bmap-BmapEnd}

abbrev empty_file : Content
empty_file = record { disk = disk_3; addrs = λ _. 0 }

no_refs : (k : ℕ) → ref empty_file k ≡ 0
no_refs k = elim (dec_lt k 13) [
  | yes low ↦ ref-low empty_file k low
  | no high ↦ ref-high_none empty_file k (omega (arith, high)) refl
]

empty_file-Owned : Owned small empty_file
empty_file-Owned = record {
  valid = disk_3-IsValid;
  inside = λ k lt used. absurd (used (no_refs k));
  used = λ k lt used. absurd (used (no_refs k));
  apart = λ k n lt lt' used. absurd (used (no_refs k));
  distinct = λ i j lt lt' ne used. absurd (used (no_refs i));
}

bmap-BmapEnd_example : BmapEnd small empty_file 12 (bmap small 12 empty_file)
bmap-BmapEnd_example = bmap-BmapEnd small empty_file 12 (omega arith) empty_file-Owned
