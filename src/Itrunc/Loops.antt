-- ===== src/Itrunc/Loops.antt =====
-- kernel/fs.c: the two loops of `itrunc`.
use xv6_riscv.Base.{
  ℕ, zero, suc, ◌+◌, ◌-◌, ◌≤◌, ◌<◌, ◌≡◌, ◌≢◌, refl, sym, ap, ◌∙◌, subst, Bool, ◌&&◌, ◌||◌, Option,
  some, arith, inl, inr, Bool-cases, update, update_self, update_ne, ltb, ◌==◌, ==→eq, ==→ne,
}
use native.Mathlib.Decide.{ℕ_discrete}
use xv6_riscv.Blocks.{Superblock, Disk, bfree}
use xv6_riscv.Bmap.{Content, word}
use xv6_riscv.Bmap.Refs.{ref, nrefs, Owned, ref-low, ref-high}
use xv6_riscv.Itrunc.{free_direct, free_words}
use xv6_riscv.Itrunc.Frees.{Frees, skip-Frees, bfree-Frees}

-- The references before the direct block `i`, and those before word `j` of the indirect block.
abbrev pub before : ℕ → ℕ → Bool
before i k = ltb k i

abbrev pub before_word : ℕ → ℕ → Bool
before_word j k = ltb k 12 || (ltb 12 k && ltb k (13 + j))

-- What the first loop leaves.
abbrev pub Direct : Superblock → Content → Option Content → Type 0
Direct sb s o =
    (u : Content) × ((o ≡ some u)
      × (Frees sb s (before 12) u.disk
          × ((u.addrs 12 ≡ s.addrs 12) × ((j : ℕ) → j < 12 → u.addrs j ≡ 0))))

module _ (sb : Superblock) (s : Content) (o : Owned sb s) where
  pub free_direct_lem :
      (left i : ℕ) (t : Content)
      → left + i ≡ 12
      → Frees sb s (before i) t.disk
      → ((j : ℕ) → i ≤ j → j < 13 → t.addrs j ≡ s.addrs j)
      → ((j : ℕ) → j < i → t.addrs j ≡ 0)
      → Direct sb s (free_direct sb left i t)
  unfolding free_direct
  free_direct_lem zero i t sum f same cleared =
      let e : i ≡ 12 = omega (arith, sum) in
      (
        t,
        (
          refl,
          (
            subst (λ n. Frees sb s (before n) t.disk) e f,
            (same 12 (omega (arith, e)) (omega arith), λ j lt. cleared j (omega (arith, lt, e))),
          ),
        ),
      )
  free_direct_lem (suc left) i t sum f same cleared =
      let here : ref s i ≡ t.addrs i =
        ref-low s i (omega (arith, sum)) ∙ sym (same i (omega arith) (omega (arith, sum))) in
      let inside : i < nrefs = omega (arith, sum) in
      elim (Bool-cases (t.addrs i == 0)) [
        | inl z ↦
            rw (z, free_direct)
              (free_direct_lem left (suc i) t (omega (arith, sum))
                (skip-Frees sb s (before i) (before (suc i)) i o inside (ground arith)
                  (λ j ne. ground (arith, ne)) t.disk (here ∙ ==→eq (t.addrs i) 0 z) f)
                (λ j le lt. same j (omega (arith, le)) lt)
                (λ j lt. elim (ℕ_discrete j i) [
                  | yes e ↦ ap t.addrs e ∙ ==→eq (t.addrs i) 0 z
                  | no ne ↦ cleared j (omega (arith, lt, ne))
                ]))
        | inr used ↦
            let (d, (freed, g)) =
              bfree-Frees sb s (before i) (before (suc i)) i o inside (ground arith)
                (λ j ne. ground (arith, ne)) t.disk (ground arith)
                (λ z. ==→ne (t.addrs i) 0 used (sym here ∙ z)) f in
            let freed' : bfree sb (t.addrs i) t.disk ≡ some d =
              ap (λ b. bfree sb b t.disk) (sym here) ∙ freed in
            rw (used, freed', free_direct)
              (free_direct_lem left (suc i) (record { disk = d; addrs = update t.addrs i 0 })
                (omega (arith, sum)) g
                (λ j le lt.
                  update_ne t.addrs i j 0 (λ e. absurd (omega (arith, e, le)))
                  ∙ same j (omega (arith, le)) lt)
                (λ j lt. elim (ℕ_discrete i j) [
                  | yes e ↦ subst (λ n. update t.addrs i 0 n ≡ 0) e (update_self t.addrs i 0)
                  | no ne ↦ update_ne t.addrs i j 0 ne ∙ cleared j (omega (arith, lt, ne))
                ]))
      ]

  -- The indirect block is not changed by what is freed.
  same_word :
      (done : ℕ → Bool) (d : Disk) (j : ℕ)
      → s.addrs 12 ≢ 0
      → Frees sb s done d
      → word (d (s.addrs 12)) j ≡ ref s (13 + j)
  same_word done d j used f =
      let low12 : ref s 12 ≡ s.addrs 12 = ref-low s 12 (omega arith) in
      let back : 13 + j - 13 ≡ j = omega arith in
      ap (λ (b : ℕ → ℕ). word b j)
        (f.blocks (s.addrs 12)
          (λ n lt e. o.apart 12 n (omega arith) lt (λ z. used (sym low12 ∙ z)) (low12 ∙ e)))
      ∙ (ap (word (s.disk (s.addrs 12))) (sym back) ∙ sym (ref-high s (13 + j) (omega arith) used))

  pub free_words_lem :
      (left j : ℕ) (d : Disk)
      → left + j ≡ 256
      → s.addrs 12 ≢ 0
      → Frees sb s (before_word j) d
      → (d' : Disk) × ((free_words sb (s.addrs 12) left j d ≡ some d')
          × Frees sb s (before_word 256) d')
  unfolding free_words
  free_words_lem zero j d sum used f =
      let e : j ≡ 256 = omega (arith, sum) in
      (d, (refl, subst (λ n. Frees sb s (before_word n) d) e f))
  free_words_lem (suc left) j d sum used f =
      let here : word (d (s.addrs 12)) j ≡ ref s (13 + j) = same_word (before_word j) d j used f in
      let inside : 13 + j < nrefs = omega (arith, sum) in
      elim (Bool-cases (word (d (s.addrs 12)) j == 0)) [
        | inl z ↦
            rw (z, free_words)
              (free_words_lem left (suc j) d (omega (arith, sum)) used (
                skip-Frees sb s (before_word j) (before_word (suc j)) (13 + j) o inside
                  (ground arith) (λ k ne. ground (arith, ne)) d
                  (sym here ∙ ==→eq (word (d (s.addrs 12)) j) 0 z) f))
        | inr has ↦
            let (d', (freed, g)) =
              bfree-Frees sb s (before_word j) (before_word (suc j)) (13 + j) o inside
                (ground arith) (λ k ne. ground (arith, ne)) d (ground arith)
                (λ z. ==→ne (word (d (s.addrs 12)) j) 0 has (here ∙ z)) f in
            let freed' : bfree sb (word (d (s.addrs 12)) j) d ≡ some d' =
              ap (λ b. bfree sb b d) here ∙ freed in
            rw (has, freed', free_words)
              (free_words_lem left (suc j) d' (omega (arith, sum)) used g)
      ]
