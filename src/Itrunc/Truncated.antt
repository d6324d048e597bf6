-- ===== src/Itrunc/Truncated.antt =====
-- kernel/fs.c: `itrunc` frees the blocks of the file, and no other.
use xv6_riscv.Base.{
  ℕ, ◌<◌, ◌≡◌, ◌≢◌, refl, sym, ap, ◌∙◌, subst, Bool, true, not, some, arith, inl, inr, Bool-cases,
  update, update_self, update_ne, ◌==◌, ==→eq, ==→ne,
}
use native.Mathlib.Decide.{ℕ_discrete, dec_lt}
use xv6_riscv.Blocks.{Superblock, Disk, bblock, bfree}
use xv6_riscv.Blocks.Bitmap.{mark}
use xv6_riscv.Bmap.{Content}
use xv6_riscv.Bmap.Refs.{ref, nrefs, Owned, ref-low, ref-high_none}
use xv6_riscv.Itrunc.{free_words, free_indirect, itrunc}
use xv6_riscv.Itrunc.Frees.{Frees, bfree-Frees}
use xv6_riscv.Itrunc.Loops.{before, before_word, free_direct_lem, free_words_lem}

abbrev all_done : ℕ → Bool
all_done k = true

-- The file has no block left: those it had are free, and nothing else has changed.
pub record Truncated (sb : Superblock) (s u : Content) : Type 0 where
  pub empty : (k : ℕ) → k < nrefs → ref u k ≡ 0
  pub owned : Owned sb u
  pub freed : (k : ℕ) → k < nrefs → ref s k ≢ 0 → mark sb u.disk (ref s k) ≡ 0
  pub others :
      (m : ℕ)
      → ((k : ℕ) → k < nrefs → ref s k ≢ 0 → m ≢ ref s k)
      → mark sb u.disk m ≡ mark sb s.disk m
  pub blocks : (c : ℕ) → ((n : ℕ) → n < sb.size → c ≢ bblock n sb) → u.disk c ≡ s.disk c

module _ (sb : Superblock) (s : Content) (o : Owned sb s) where
  finish-Truncated :
      (u : Content)
      → Frees sb s all_done u.disk
      → ((j : ℕ) → j < 13 → u.addrs j ≡ 0)
      → Truncated sb s u
  finish-Truncated u f zeros = record {
    empty = empty;
    owned = record {
      valid = record {
        boot = λ z. o.valid.boot (sym (f.others 0 (λ k lt used e. used (sym e))) ∙ z);
        bitmap = λ n lt z.
            o.valid.bitmap n lt
              (sym (f.others (bblock n sb) (λ k ltk used e. o.apart k n ltk lt used (sym e))) ∙ z);
        within = o.valid.within;
      };
      inside = λ k lt used. absurd (used (empty k lt));
      used = λ k lt used. absurd (used (empty k lt));
      apart = λ k n lt lt' used. absurd (used (empty k lt));
      distinct = λ i j lt lt' ne used. absurd (used (empty i lt));
    };
    freed = λ k lt used. f.freed k lt refl used;
    others = f.others;
    blocks = f.blocks;
  }
    where
      empty : (k : ℕ) → k < nrefs → ref u k ≡ 0
      empty k lt = elim (dec_lt k 13) [
        | yes low ↦ ref-low u k low ∙ zeros k low
        | no high ↦ ref-high_none u k (omega (arith, high)) (zeros 12 (omega arith))
      ]

  low12 : ref s 12 ≡ s.addrs 12
  low12 = ref-low s 12 (omega arith)

  -- No indirect block.
  direct-only :
      (u : Content) → s.addrs 12 ≡ 0 → Frees sb s (before 12) u.disk → Frees sb s all_done u.disk
  direct-only u z f = record {
    freed = λ k lt d used. elim (dec_lt k 12) [
      | yes small ↦ f.freed k lt (ground (arith, small)) used
      | no big ↦ absurd (used (beyond k big))
    ];
    kept = λ k lt d. absurd (cc);
    others = f.others;
    blocks = f.blocks;
  }
    where
      beyond : (k : ℕ) → ¬ (k < 12) → ref s k ≡ 0
      beyond k big = elim (ℕ_discrete k 12) [
        | yes e ↦ ap (ref s) e ∙ (low12 ∙ z)
        | no ne ↦ ref-high_none s k (omega (arith, big, ne)) z
      ]

  words_next : (d : Disk) → Frees sb s (before 12) d → Frees sb s (before_word 0) d
  words_next d f = record {
    freed = λ k lt e used. f.freed k lt (ground (arith, e)) used;
    kept = λ k lt e used. f.kept k lt (ground (arith, e)) used;
    others = f.others;
    blocks = f.blocks;
  }

  -- The indirect block goes last.
  last-Frees :
      (d : Disk)
      → s.addrs 12 ≢ 0
      → Frees sb s (before_word 256) d
      → (d' : Disk) × ((bfree sb (s.addrs 12) d ≡ some d') × Frees sb s all_done d')
  last-Frees d used f =
      let all : Frees sb s (λ k. not_last k) d = record {
        freed = λ k lt e u. f.freed k lt (ground (arith, e, lt)) u;
        kept = λ k lt e u. f.kept k lt (ground (arith, e, lt)) u;
        others = f.others;
        blocks = f.blocks;
      } in
      let (d', (e, g)) =
        bfree-Frees sb s (λ k. not_last k) all_done 12 o (omega arith) refl
          (λ j ne. ground (arith, ne)) d (ground arith) (λ z. used (sym low12 ∙ z)) all in
      (d', (ap (λ b. bfree sb b d) (sym low12) ∙ e, g))
    where
      not_last : ℕ → Bool
      not_last k = not (k == 12)

  free_indirect-Truncated :
      (t : Content)
      → Frees sb s (before 12) t.disk
      → t.addrs 12 ≡ s.addrs 12
      → ((j : ℕ) → j < 12 → t.addrs j ≡ 0)
      → (u : Content) × ((free_indirect sb t ≡ some u) × Truncated sb s u)
  unfolding free_indirect
  free_indirect-Truncated t f same zeros = elim (Bool-cases (t.addrs 12 == 0)) [
    | inl z ↦
        let none_left : t.addrs 12 ≡ 0 = ==→eq (t.addrs 12) 0 z in
        rw (z, free_indirect)
          (
            t,
            (
              refl,
              finish-Truncated t (direct-only t (sym same ∙ none_left) f) (λ j lt.
                  elim (ℕ_discrete j 12) [
                    | yes e ↦ ap t.addrs e ∙ none_left
                    | no ne ↦ zeros j (omega (arith, lt, ne))
                  ]),
            ),
          )
    | inr has ↦
        let used : s.addrs 12 ≢ 0 = λ z. ==→ne (t.addrs 12) 0 has (same ∙ z) in
        let (d, (words, g)) =
          free_words_lem sb s o 256 0 t.disk (omega arith) used (words_next t.disk f) in
        let (d', (last, h)) = last-Frees d used g in
        let words' : free_words sb (t.addrs 12) 256 0 t.disk ≡ some d =
          ap (λ b. free_words sb b 256 0 t.disk) same ∙ words in
        let last' : bfree sb (t.addrs 12) d ≡ some d' = ap (λ b. bfree sb b d) same ∙ last in
        rw (has, words', last', free_indirect)
          (
            record { disk = d'; addrs = update t.addrs 12 0 },
            (
              refl,
              finish-Truncated (record { disk = d'; addrs = update t.addrs 12 0 }) h
                  (λ j lt. elim (ℕ_discrete 12 j) [
                    | yes e ↦ subst (λ n. update t.addrs 12 0 n ≡ 0) e (update_self t.addrs 12 0)
                    | no ne ↦ update_ne t.addrs 12 j 0 ne ∙ zeros j (omega (arith, lt, ne))
                  ]),
            ),
          )
  ]

-- On a file whose blocks are in use, distinct and not of the bitmap, itrunc does not panic; it
-- leaves the file without blocks, all of its blocks free, and every other mark and every block
-- outside the bitmap as it was.
pub itrunc-Truncated :
    (sb : Superblock) (s : Content)
    → Owned sb s
    → (u : Content) × ((itrunc sb s ≡ some u) × Truncated sb s u)
unfolding itrunc
itrunc-Truncated sb s o =
    let (t, (e, (f, (same, zeros)))) =
      free_direct_lem sb s o 12 0 s (omega arith) nothing_yet (λ j le lt. refl)
        (λ j lt. absurd (omega (arith, lt))) in
    rw (e, itrunc) (free_indirect-Truncated sb s o t f same zeros)
  where
    nothing_yet : Frees sb s (before 0) s.disk
    nothing_yet = record {
      freed = λ k lt d used. absurd (ground (arith, d));
      kept = λ k lt d used. refl;
      others = λ m apart. refl;
      blocks = λ c apart. refl;
    }
