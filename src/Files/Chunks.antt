-- ===== src/Files/Chunks.antt =====
-- kernel/file.c: the transactions that `filewrite` makes of one write.
use xv6_riscv.Base.{
  ℕ, zero, suc, ◌+◌, ◌-◌, ◌/◌, ◌≤◌, ◌<◌, ◌≡◌, ◌≢◌, refl, sym, ap, ◌∙◌, subst, Option, none, some,
  List, [], ◌∷◌, All, arith, ◌⊎◌, inl, inr, Bool-cases, ◌==◌, ==→eq, ==→ne, if◌then◌else◌, some_inj,
}
use xv6_riscv.Files.{Write, chunk, max_write, bsize, advance, write_loop}

-- One transaction after the other, each where the last one stopped.
abbrev pub Contiguous : ℕ → ℕ → List Write → Type 0
Contiguous i off [] = Unit
Contiguous i off (w ∷ ws) =
    (w.from ≡ i) × ((w.off ≡ off) × Contiguous (i + w.size) (off + w.size) ws)

-- A transaction writes some bytes, and touches at most four blocks of the file.
pub record Fits (w : Write) : Type 0 where
  pub some_bytes : 0 < w.size
  pub short : w.size ≤ max_write
  pub blocks : (w.off + w.size - 1) / bsize ≤ w.off / bsize + 3

pub total : List Write → ℕ
total [] = 0
total (w ∷ ws) = w.size + total ws

chunk-Fits : (i off left : ℕ) → 0 < left → Fits (record { from = i; off = off; size = chunk left })
chunk-Fits i off left pos = record {
  some_bytes = ground (arith, pos);
  short = ground arith;
  blocks = ground (arith, pos);
}

chunk-le : (left : ℕ) → (chunk left ≤ left) × (0 < left → 0 < chunk left)
chunk-le left = (ground arith, λ h. ground (arith, h))

pub record Looped (writei : Write → Option ℕ) (left i off : ℕ) (r : List Write × (ℕ × ℕ))
    : Type 0 where
  pub fits : All Fits r.0
  pub contiguous : Contiguous i off r.0
  pub whole :
      ((r.1.0 ≡ i + left) × ((r.1.1 ≡ off + left) × All (λ w. writei w ≡ some w.size) r.0))
      ⊎ ((r.1.0 < i + left) × ((w : Write) × (writei w ≢ some w.size)))

module _ (writei : Write → Option ℕ) where
  stopped-Looped :
      (left i off off' : ℕ)
      → 0 < left
      → writei (record { from = i; off = off; size = chunk left }) ≢ some (chunk left)
      → Looped writei left i off (record { from = i; off = off; size = chunk left } ∷ [], (i, off'))
  stopped-Looped left i off off' pos bad = record {
    fits = (chunk-Fits i off left pos, tt);
    contiguous = (refl, (refl, tt));
    whole = inr (omega (arith, pos), (_, bad));
  }

  more-Looped :
      (left i off : ℕ) (r : List Write × (ℕ × ℕ))
      → 0 < left
      → writei (record { from = i; off = off; size = chunk left }) ≡ some (chunk left)
      → Looped writei (left - chunk left) (i + chunk left) (off + chunk left) r
      → Looped writei left i off (record { from = i; off = off; size = chunk left } ∷ r.0, r.1)
  more-Looped left i off r pos good h = record {
    fits = (chunk-Fits i off left pos, h.fits);
    contiguous = (refl, (refl, h.contiguous));
    whole = elim h.whole [
      | inl (at, (end, all)) ↦ inl (
        omega (arith, at, (chunk-le left).0),
        (omega (arith, end, (chunk-le left).0), (good, all)),
      )
      | inr (short, why) ↦ inr (omega (arith, short, (chunk-le left).0), why)
    ];
  }

  written-Looped :
      (left i off off' : ℕ) (o : Option ℕ) (rest : List Write × (ℕ × ℕ))
      → 0 < left
      → writei (record { from = i; off = off; size = chunk left }) ≡ o
      → (o ≡ some (chunk left)
          → Looped writei (left - chunk left) (i + chunk left) (off + chunk left) rest)
      → Looped writei left i off (elim o [
        | none ↦ (record { from = i; off = off; size = chunk left } ∷ [], (i, off'))
        | some m ↦
            if m == chunk left
            then (record { from = i; off = off; size = chunk left } ∷ rest.0, rest.1)
            else (record { from = i; off = off; size = chunk left } ∷ [], (i, off'))
      ])
  written-Looped left i off off' none rest pos e h = stopped-Looped left i off off' pos (λ q. cc)
  written-Looped left i off off' (some m) rest pos e h = elim (Bool-cases (m == chunk left)) [
    | inl all ↦
        let good : ◌≡◌ {A = Option ℕ} (some m) (some (chunk left)) =
          ap some (==→eq m (chunk left) all) in
        rw all (more-Looped left i off rest pos (e ∙ good) (h good))
    | inr short ↦ rw short (
        stopped-Looped left i off off' pos (λ q. ==→ne m (chunk left) short (some_inj (sym e ∙ q))))
  ]

  -- With fuel for each byte, filewrite splits a write into transactions that follow one another,
  -- each of 1 to 3072 bytes and of at most four blocks of the file; either all of the bytes are
  -- written, each transaction in full, or the loop stops short and some transaction would not be
  -- written in full.
  pub write_loop-Looped :
      (fuel left i off : ℕ)
      → left ≤ fuel
      → Looped writei left i off (write_loop writei fuel left i off)
  unfolding write_loop advance
  write_loop-Looped zero left i off le = record {
    fits = tt;
    contiguous = tt;
    whole = inl (omega (arith, le), (omega (arith, le), tt));
  }
  write_loop-Looped (suc fuel) left i off le =
      let ih = write_loop-Looped fuel (left - chunk left) (i + chunk left) (off + chunk left) in
      elim (Bool-cases (left == 0)) [
        | inl done ↦ rw done (record {
          fits = tt;
          contiguous = tt;
          whole = inl (omega (arith, ==→eq left 0 done), (omega (arith, ==→eq left 0 done), tt));
        })
        | inr more ↦
            let pos : 0 < left = omega (arith, ==→ne left 0 more) in
            let w : Write = record { from = i; off = off; size = chunk left } in
            let off' : ℕ = advance (writei w) off in
            rw more (
              written-Looped left i off off' (writei w)
                (write_loop writei fuel (left - chunk left) (i + chunk left) off') pos refl
                (λ good.
                  subst
                    (λ o.
                      Looped writei (left - chunk left) (i + chunk left) (off + chunk left) (
                        write_loop writei fuel (left - chunk left) (i + chunk left)
                          (advance o off)))
                    (sym good) (ih (omega (arith, le, (chunk-le left).1 pos)))))
      ]
