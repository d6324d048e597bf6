-- ===== src/Bmap/Lookup.antt =====
-- kernel/fs.c: `bmap`, as a map from the blocks of a file.
use xv6_riscv.Base.{
  ℕ, ◌+◌, ◌-◌, ◌≤◌, ◌<◌, ◌≡◌, ◌≢◌, refl, sym, ap, ◌∙◌, subst, if◌then◌else◌, ltb, ◌==◌, arith, inl,
  inr, Option, none, some, Bool-cases, ==→eq, ==→ne, lt→ltb, ge→ltb,
}
use native.Mathlib.Decide.{ℕ_discrete, dec_lt}
use xv6_riscv.Blocks.{Superblock}
use xv6_riscv.Blocks.Bitmap.{mark}
use xv6_riscv.Inode.{ndirect}
use xv6_riscv.Bmap.{Content, slot, entry_slot, bmap, nindirect}
use xv6_riscv.Bmap.Refs.{ref, Owned, ref-low, ref-high_none}
use xv6_riscv.Bmap.Grow.{Mapped, slot-Mapped}
use xv6_riscv.Bmap.Entry.{entry_slot-Mapped}

-- The reference that block `bn` of the file is.
abbrev pub ref_of : ℕ → ℕ
ref_of bn = if ltb bn ndirect then bn else bn + 1

-- The answer of `bmap` for block `bn`: the file gains this block at most.
pub record BlockMapped (sb : Superblock) (s : Content) (bn : ℕ) (r : ℕ × Content) : Type 0 where
  pub owned : Owned sb r.1
  pub here : ref r.1 (ref_of bn) ≡ r.0
  pub others : (m : ℕ) → m < ndirect + nindirect → m ≢ bn → ref r.1 (ref_of m) ≡ ref s (ref_of m)
  pub kept : ref s (ref_of bn) ≢ 0 → r.1 ≡ s
  pub is_fresh : ref s (ref_of bn) ≡ 0 → r.0 ≢ 0 → mark sb s.disk r.0 ≡ 0
  pub full : r.0 ≡ 0 → (n : ℕ) → n < sb.size → mark sb r.1.disk n ≢ 0
  pub bytes :
      (m : ℕ)
      → m < ndirect + nindirect
      → ref s (ref_of m) ≢ 0
      → r.1.disk (ref s (ref_of m)) ≡ s.disk (ref s (ref_of m))

Mapped-BlockMapped :
    (sb : Superblock) (s : Content) (bn : ℕ) (r : ℕ × Content)
    → bn < ndirect
    → Mapped sb s bn r
    → BlockMapped sb s bn r
Mapped-BlockMapped sb s bn r lt m =
    let at : ref_of bn ≡ bn = ground (arith, lt) in
    record {
      owned = m.owned;
      here = ap (ref r.1) at ∙ m.here;
      others = λ i lt' ne. m.others (ref_of i) (ground (arith, lt')) (ground (arith, lt, ne));
      kept = λ h. m.kept (subst (λ k. ref s k ≢ 0) at h);
      is_fresh = λ z h. m.is_fresh (ap (ref s) (sym at) ∙ z) h;
      full = m.full;
      bytes = λ i lt' h. m.bytes (ref_of i) (ground (arith, lt')) (ground (arith)) h;
    }

-- No indirect block, and no block for one.
stuck-BlockMapped :
    (sb : Superblock) (s : Content) (bn : ℕ) (p : ℕ × Content)
    → ndirect ≤ bn
    → Mapped sb s 12 p
    → p.0 ≡ 0
    → BlockMapped sb s bn (0, p.1)
stuck-BlockMapped sb s bn p le m z =
    let at : ref_of bn ≡ bn + 1 = ground (arith, le) in
    let none_yet : (p.1).addrs 12 ≡ 0 = sym (ref-low p.1 12 (omega arith)) ∙ (m.here ∙ z) in
    record {
      owned = m.owned;
      here = ap (ref p.1) at ∙ ref-high_none p.1 (bn + 1) (omega (arith, le)) none_yet;
      others = λ i lt' ne. m.others (ref_of i) (ground (arith, lt')) (ground (arith));
      kept = λ h. m.kept (λ q. h (
          ap (ref s) at
          ∙ ref-high_none s (bn + 1) (omega (arith, le)) (sym (ref-low s 12 (omega arith)) ∙ q)));
      is_fresh = λ _ h. absurd (h refl);
      full = λ _. m.full z;
      bytes = λ i lt' h. m.bytes (ref_of i) (ground (arith, lt')) (ground (arith)) h;
    }

chain-BlockMapped :
    (sb : Superblock) (s : Content) (bn : ℕ) (p q : ℕ × Content)
    → ndirect ≤ bn
    → bn < ndirect + nindirect
    → Mapped sb s 12 p
    → p.0 ≢ 0
    → Mapped sb p.1 (bn + 1) q
    → BlockMapped sb s bn q
chain-BlockMapped sb s bn p q le lt m used n =
    let at : ref_of bn ≡ bn + 1 = ground (arith, le) in
    record {
      owned = n.owned;
      here = ap (ref q.1) at ∙ n.here;
      others = λ i lt' ne.
          n.others (ref_of i) (ground (arith, lt')) (ground (arith, le, ne))
          ∙ m.others (ref_of i) (ground (arith, lt')) (ground (arith));
      kept = λ h.
          let same : p.1 ≡ s = m.kept (has_block h) in
          n.kept (λ z. h (ap (ref s) at ∙ (ap (λ (t : Content). ref t (bn + 1)) (sym same) ∙ z)))
          ∙ same;
      is_fresh = λ z h. elim (ℕ_discrete (mark sb s.disk q.0) 0) [
        | yes e ↦ e
        | no set ↦ absurd (
            m.marks q.0
              (subst (λ x. x < sb.size) n.here
                (n.owned.inside (bn + 1) (omega (arith, lt)) (λ e. h (sym n.here ∙ e))))
              set
              (n.is_fresh
                (m.others (bn + 1) (omega (arith, lt)) (λ e. absurd (omega (arith, e, le)))
                  ∙ (ap (ref s) (sym at) ∙ z))
                h))
      ];
      full = n.full;
      bytes = λ i lt' h.
          let old : ref p.1 (ref_of i) ≡ ref s (ref_of i) =
            m.others (ref_of i) (ground (arith, lt')) (ground (arith)) in
          subst (λ x. q.1.disk x ≡ (p.1).disk x) old
            (n.bytes (ref_of i) (ground (arith, lt')) (ground (arith)) (λ z. h (sym old ∙ z)))
          ∙ m.bytes (ref_of i) (ground (arith, lt')) (ground (arith)) h;
    }
  where
    has_block : ref s (ref_of bn) ≢ 0 → ref s 12 ≢ 0
    has_block h z =
        let at : ref_of bn ≡ bn + 1 = ground (arith, le) in
        h (
          ap (ref s) at
          ∙ ref-high_none s (bn + 1) (omega (arith, le)) (sym (ref-low s 12 (omega arith)) ∙ z))

indirect-BlockMapped :
    (sb : Superblock) (s : Content) (bn : ℕ) (p : ℕ × Content)
    → sb.size ≤ 4294967296
    → ndirect ≤ bn
    → bn < ndirect + nindirect
    → Mapped sb s 12 p
    → BlockMapped sb s bn (if p.0 == 0 then (0, p.1) else entry_slot sb (bn - ndirect) p.0 p.1)
indirect-BlockMapped sb s bn p size le lt m = elim (Bool-cases (p.0 == 0)) [
  | inl z ↦ rw z (stuck-BlockMapped sb s bn p le m (==→eq p.0 0 z))
  | inr h ↦
      let block : (p.1).addrs 12 ≡ p.0 = sym (ref-low p.1 12 (omega arith)) ∙ m.here in
      let index : bn - ndirect + 13 ≡ bn + 1 = omega (arith, le) in
      rw h (
        chain-BlockMapped sb s bn p (entry_slot sb (bn - ndirect) p.0 p.1) le lt m (==→ne p.0 0 h) (
          subst (λ a. Mapped sb p.1 (bn + 1) (entry_slot sb (bn - ndirect) a p.1)) block
            (subst (λ k. Mapped sb p.1 k (entry_slot sb (bn - ndirect) ((p.1).addrs 12) p.1)) index
              (entry_slot-Mapped sb p.1 (bn - ndirect) size (omega (arith, lt, le))
                (λ z. ==→ne p.0 0 h (sym block ∙ z)) m.owned))))
]

-- A panic past the largest file, and otherwise the block.
abbrev pub BmapEnd : Superblock → Content → ℕ → Option (ℕ × Content) → Type 0
BmapEnd sb s bn none = ndirect + nindirect ≤ bn
BmapEnd sb s bn (some r) = (bn < ndirect + nindirect) × BlockMapped sb s bn r

-- On a disk of at most 2^32 blocks and a file whose blocks are in use, distinct and not of the
-- bitmap, bmap panics just past the largest file; otherwise it returns what the file now has for
-- the block, 0 only if every block of the disk is in use, keeps an address that was there and
-- every other block of the file with its bytes, takes a block that was free for a new one, and
-- leaves the file such a file.
pub bmap-BmapEnd :
    (sb : Superblock) (s : Content) (bn : ℕ)
    → sb.size ≤ 4294967296
    → Owned sb s
    → BmapEnd sb s bn (bmap sb bn s)
unfolding bmap
bmap-BmapEnd sb s bn size o = elim (dec_lt bn ndirect) [
  | yes small ↦ rw (lt→ltb bn ndirect small) (
    omega (arith, small),
    Mapped-BlockMapped sb s bn (slot sb bn s) small (slot-Mapped sb s bn (omega (arith, small)) o),
  )
  | no big ↦ elim (dec_lt (bn - ndirect) nindirect) [
    | yes mid ↦
        rw (ge→ltb bn ndirect (omega (arith, big)), lt→ltb (bn - ndirect) nindirect mid)
          (
            omega (arith, mid),
            indirect-BlockMapped sb s bn (slot sb ndirect s) size (omega (arith, big))
                (omega (arith, mid)) (slot-Mapped sb s ndirect (omega arith) o),
          )
    | no past ↦
        rw
          (
            ge→ltb bn ndirect (omega (arith, big)),
            ge→ltb (bn - ndirect) nindirect (omega (arith, past)),
          )
          (omega (arith, past, big))
  ]
]
