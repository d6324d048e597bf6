-- ===== src/Bmap/Grow.antt =====
-- kernel/fs.c: one reference of a file, looked up or allocated.
use xv6_riscv.Base.{
  ℕ, ◌-◌, ◌<◌, ◌≡◌, ◌≢◌, refl, sym, ap, ◌∙◌, subst, update, update_self, update_ne, ◌==◌, arith,
  inl, inr, Bool-cases, ==→eq, ==→ne, ne→==,
}
use native.Mathlib.Decide.{ℕ_discrete, dec_lt}
use xv6_riscv.Blocks.{Superblock, Disk}
use xv6_riscv.Blocks.Bitmap.{mark}
use xv6_riscv.Blocks.Effects.{Balloced, balloc-Balloced}
use xv6_riscv.Bmap.{Content, word, slot}
use xv6_riscv.Bmap.Words.{word-zeros}
use xv6_riscv.Bmap.Refs.{
  ref, nrefs, Owned, fresh_block, mark_kept, grow-Owned, ref-low, ref-high, ref-high_none,
}

-- The answer of a look-up of reference `k`: what it leaves, and what is new.
pub record Mapped (sb : Superblock) (s : Content) (k : ℕ) (r : ℕ × Content) : Type 0 where
  pub owned : Owned sb r.1
  pub here : ref r.1 k ≡ r.0
  pub others : (j : ℕ) → j < nrefs → j ≢ k → ref r.1 j ≡ ref s j
  pub kept : ref s k ≢ 0 → r.1 ≡ s
  pub is_fresh : ref s k ≡ 0 → r.0 ≢ 0 → mark sb s.disk r.0 ≡ 0
  pub full : r.0 ≡ 0 → (n : ℕ) → n < sb.size → mark sb r.1.disk n ≢ 0
  pub marks : (m : ℕ) → m < sb.size → mark sb s.disk m ≢ 0 → mark sb r.1.disk m ≢ 0
  pub bytes : (j : ℕ) → j < nrefs → j ≢ 12 → ref s j ≢ 0 → r.1.disk (ref s j) ≡ s.disk (ref s j)

pub old-Mapped :
    (sb : Superblock) (s : Content) (k : ℕ) → Owned sb s → ref s k ≢ 0 → Mapped sb s k (ref s k, s)
old-Mapped sb s k o used = record {
  owned = o;
  here = refl;
  others = λ j lt ne. refl;
  kept = λ h. refl;
  is_fresh = λ z h. absurd (used z);
  full = λ z. absurd (used z);
  marks = λ m lt h. h;
  bytes = λ j lt ne h. refl;
}

pub full-Mapped :
    (sb : Superblock) (s : Content) (k : ℕ)
    → Owned sb s
    → ref s k ≡ 0
    → ((n : ℕ) → n < sb.size → mark sb s.disk n ≢ 0)
    → Mapped sb s k (0, s)
full-Mapped sb s k o z full = record {
  owned = o;
  here = z;
  others = λ j lt ne. refl;
  kept = λ h. refl;
  is_fresh = λ h ne. absurd (ne refl);
  full = λ h. full;
  marks = λ m lt h. h;
  bytes = λ j lt ne h. refl;
}

pub new-Mapped :
    (sb : Superblock) (s s' : Content) (k a : ℕ) (disk' : Disk)
    → Owned sb s
    → Balloced sb s.disk a disk'
    → ref s k ≡ 0
    → ((m : ℕ) → m < sb.size → mark sb s'.disk m ≡ mark sb disk' m)
    → ref s' k ≡ a
    → ((j : ℕ) → j < nrefs → j ≢ k → ref s' j ≡ ref s j)
    → ((j : ℕ) → j < nrefs → j ≢ 12 → ref s j ≢ 0 → s'.disk (ref s j) ≡ s.disk (ref s j))
    → Mapped sb s k (a, s')
new-Mapped sb s s' k a disk' o b z marks here others bytes = record {
  owned = grow-Owned sb s s' k a disk' o b marks here others;
  here = here;
  others = others;
  kept = λ h. absurd (h z);
  is_fresh = λ h ne. b.was_free;
  full = λ h. absurd (omega (arith, b.positive, h));
  marks = λ m lt h q. mark_kept sb s.disk a m disk' b lt h (sym (marks m lt) ∙ q);
  bytes = bytes;
}

-- `balloc` writes no block that the file refers to.
pub same_bytes :
    (sb : Superblock) (s : Content) (a j : ℕ) (disk' : Disk)
    → Owned sb s
    → Balloced sb s.disk a disk'
    → j < nrefs
    → ref s j ≢ 0
    → disk' (ref s j) ≡ s.disk (ref s j)
same_bytes sb s a j disk' o b lt used =
    b.rest (ref s j) (fresh_block sb s a j disk' o b lt) (o.apart j a lt b.inside used)

-- The references after `addrs[k]` has become `a`.
grown_others :
    (sb : Superblock) (s : Content) (k a : ℕ) (disk' : Disk)
    → k < 13
    → Owned sb s
    → Balloced sb s.disk a disk'
    → s.addrs k ≡ 0
    → (j : ℕ) → j < nrefs
    → j ≢ k
    → ref (record { disk = disk'; addrs = update s.addrs k a }) j ≡ ref s j
grown_others sb s k a disk' low o b z j lt ne =
    let s' : Content = record { disk = disk'; addrs = update s.addrs k a } in
    elim (dec_lt j 13) [
      | yes small ↦
          ref-low s' j small ∙ (update_ne s.addrs k j a (λ e. ne (sym e)) ∙ sym (ref-low s j small))
      | no big ↦ elim (ℕ_discrete k 12) [
        | yes last ↦
            let at : s'.addrs 12 ≡ a =
              ap (update s.addrs k a) (sym last) ∙ update_self s.addrs k a in
            ref-high s' j (omega (arith, big)) (λ e. absurd (omega (arith, at, e, b.positive)))
            ∙ (ap (λ x. word (disk' x) (j - 13)) at
                ∙ (word-zeros (disk' a) (j - 13) b.zeroed
                    ∙ sym (ref-high_none s j (omega (arith, big)) (ap s.addrs (sym last) ∙ z))))
        | no other ↦
            let at : s'.addrs 12 ≡ s.addrs 12 = update_ne s.addrs k 12 a other in
            elim (ℕ_discrete (s.addrs 12) 0) [
              | yes none_yet ↦
                  ref-high_none s' j (omega (arith, big)) (at ∙ none_yet)
                  ∙ sym (ref-high_none s j (omega (arith, big)) none_yet)
              | no used ↦
                  let low12 : ref s 12 ≡ s.addrs 12 = ref-low s 12 (omega arith) in
                  let bytes : disk' (s.addrs 12) ≡ s.disk (s.addrs 12) =
                    subst (λ x. disk' x ≡ s.disk x) low12
                      (same_bytes sb s a 12 disk' o b (omega arith) (λ q. used (sym low12 ∙ q))) in
                  ref-high s' j (omega (arith, big)) (λ q. used (sym at ∙ q))
                  ∙ (ap (λ x. word (disk' x) (j - 13)) at
                      ∙ (ap (λ (f : ℕ → ℕ). word f (j - 13)) bytes
                          ∙ sym (ref-high s j (omega (arith, big)) used)))
            ]
      ]
    ]

pub slot-Mapped :
    (sb : Superblock) (s : Content) (k : ℕ) → k < 13 → Owned sb s → Mapped sb s k (slot sb k s)
unfolding slot
slot-Mapped sb s k low o = elim (Bool-cases (s.addrs k == 0)) [
  | inr used ↦ rw used (
      subst (λ a. Mapped sb s k (a, s)) (ref-low s k low)
        (old-Mapped sb s k o (λ z. ==→ne (s.addrs k) 0 used (sym (ref-low s k low) ∙ z))))
  | inl idle ↦
      let z : s.addrs k ≡ 0 = ==→eq (s.addrs k) 0 idle in
      rw idle (elim (balloc-Balloced sb s.disk o.valid) [
        | inl (e, full) ↦ rw e (full-Mapped sb s k o (ref-low s k low ∙ z) full)
        | inr (a, (disk', (e, b))) ↦
            let s' : Content = record { disk = disk'; addrs = update s.addrs k a } in
            rw (e, ne→== a 0 (λ q. absurd (omega (arith, q, b.positive))))
              (new-Mapped sb s s' k a disk' o b (ref-low s k low ∙ z) (λ m lt. refl)
                (ref-low s' k low ∙ update_self s.addrs k a) (grown_others sb s k a disk' low o b z)
                (λ j lt ne used. same_bytes sb s a j disk' o b lt used))
      ])
]
