-- ===== src/Itrunc/Frees.antt =====
-- kernel/fs.c: the blocks of a file while `itrunc` frees them.
use xv6_riscv.Base.{
  ℕ, ◌<◌, ◌≡◌, ◌≢◌, sym, ap, ◌∙◌, subst, Bool, true, false, some, inl, inr, Option-cases,
}
use native.Mathlib.Decide.{ℕ_discrete}
use xv6_riscv.Blocks.{Superblock, Disk, bblock, bfree}
use xv6_riscv.Blocks.Bitmap.{mark}
use xv6_riscv.Blocks.Effects.{Freed, bfree-Freed}
use xv6_riscv.Bmap.{Content}
use xv6_riscv.Bmap.Refs.{ref, nrefs, Owned}

-- The references of `s` that are done are to free blocks, and nothing else has changed.
pub record Frees (sb : Superblock) (s : Content) (done : ℕ → Bool) (disk' : Disk) : Type 0 where
  pub freed : (k : ℕ) → k < nrefs → done k ≡ true → ref s k ≢ 0 → mark sb disk' (ref s k) ≡ 0
  pub kept :
      (k : ℕ)
      → k < nrefs
      → done k ≡ false
      → ref s k ≢ 0
      → mark sb disk' (ref s k) ≡ mark sb s.disk (ref s k)
  pub others :
      (m : ℕ)
      → ((k : ℕ) → k < nrefs → ref s k ≢ 0 → m ≢ ref s k)
      → mark sb disk' m ≡ mark sb s.disk m
  pub blocks : (c : ℕ) → ((n : ℕ) → n < sb.size → c ≢ bblock n sb) → disk' c ≡ s.disk c

module _ (sb : Superblock) (s : Content) (done done' : ℕ → Bool) (k : ℕ) (o : Owned sb s)
    (lt : k < nrefs) (new : done' k ≡ true) (same : (j : ℕ) → j ≢ k → done' j ≡ done j) where
  -- A reference to no block.
  pub skip-Frees : (disk' : Disk) → ref s k ≡ 0 → Frees sb s done disk' → Frees sb s done' disk'
  skip-Frees disk' z f = record {
    freed = λ j ltj d used. f.freed j ltj (sym (same j (λ e. used (ap (ref s) e ∙ z))) ∙ d) used;
    kept = λ j ltj d used. f.kept j ltj (sym (same j (λ e. used (ap (ref s) e ∙ z))) ∙ d) used;
    others = f.others;
    blocks = f.blocks;
  }

  after-Frees :
      (disk' d : Disk)
      → ref s k ≢ 0
      → Freed sb (ref s k) disk' (some d)
      → Frees sb s done disk'
      → Frees sb s done' d
  after-Frees disk' d used (_, (clear, (marks, rest))) f = record {
    freed = λ j ltj dj usedj. elim (ℕ_discrete j k) [
      | yes e ↦ ap (λ i. mark sb d (ref s i)) e ∙ clear
      | no ne ↦
          marks (ref s j) (λ q. o.distinct j k ltj lt ne usedj q)
          ∙ f.freed j ltj (sym (same j ne) ∙ dj) usedj
    ];
    kept = λ j ltj dj usedj. elim (ℕ_discrete j k) [
      | yes e ↦ absurd (true_not_false (sym new ∙ (ap done' (sym e) ∙ dj)))
      | no ne ↦
          marks (ref s j) (λ q. o.distinct j k ltj lt ne usedj q)
          ∙ f.kept j ltj (sym (same j ne) ∙ dj) usedj
    ];
    others = λ m apart. marks m (apart k lt used) ∙ f.others m apart;
    blocks = λ c apart. rest c (apart (ref s k) (o.inside k lt used)) ∙ f.blocks c apart;
  }
    where
      true_not_false : true ≡ false → ⊥
      true_not_false e = cc

  -- `bfree` of a reference that is not done does not panic.
  pub bfree-Frees :
      (disk' : Disk)
      → done k ≡ false
      → ref s k ≢ 0
      → Frees sb s done disk'
      → (d : Disk) × ((bfree sb (ref s k) disk' ≡ some d) × Frees sb s done' d)
  bfree-Frees disk' open_yet used f = elim (Option-cases (bfree sb (ref s k) disk')) [
    | inl panic ↦ absurd (
        o.used k lt used (
          sym (f.kept k lt open_yet used)
          ∙ subst (Freed sb (ref s k) disk') panic (bfree-Freed sb (ref s k) disk')))
    | inr (d, e) ↦ (
      d,
      (
        e,
        after-Frees disk' d used
            (subst (Freed sb (ref s k) disk') e (bfree-Freed sb (ref s k) disk')) f,
      ),
    )
  ]
