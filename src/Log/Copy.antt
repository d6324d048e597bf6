-- ===== src/Log/Copy.antt =====
-- kernel/log.c: the first half of `commit`, which copies the buffers to the log and writes the header.
use xv6_riscv.Base.{
  ℕ, suc, ◌+◌, ◌<◌, ◌≡◌, ◌≢◌, refl, ◌∙◌, sym, ap, subst, All, All-map, update, update_self,
  update_ne, arith, ◌⊎◌, inl, inr, for_from_inv, lt→ltb,
}
use native.Mathlib.Decide.{ℕ_discrete}
use xv6_riscv.Store.{Block, Disk, Store}
use xv6_riscv.Log.{Log, head_words, write_head, write_block, write_log}
use xv6_riscv.Log.Area.{InArea, Committed, Recoverable, Installed, ne_of_outside}
use xv6_riscv.Log.Recover.{write_head_disk, write_head_cache, Pending}

-- An idle header recovers to the disk as it stands.
pub idle-Recoverable :
    (start size : ℕ) (d goal : Disk)
    → 0 < size
    → d start 0 ≡ 0
    → ((b : ℕ) → ¬ InArea start size b → d b ≡ goal b)
    → Recoverable start size goal d
idle-Recoverable start size d goal pos idle same = (
  record { n = 0; block = λ _. 0 },
  record {
    count = idle;
    names = λ i h. absurd (omega arith);
    fits = pos;
    away = λ i h. absurd (omega arith);
    logged = λ i h. absurd (omega arith);
    others = λ b out new. same b out;
  },
)

module _ (log : Log) (s0 : Store) (p : Pending log s0) where
  open log use {start, size, lh}

  -- what holds when the blocks below `i` are in the log
  pub record Copied (i : ℕ) (s : Store) : Type 0 where
    pub home : (b : ℕ) → ¬ InArea start size b → s.disk b ≡ s0.disk b
    pub kept : (b : ℕ) → ¬ InArea start size b → s.cache b ≡ s0.cache b
    pub idle : s.disk start 0 ≡ 0
    pub copied : (j : ℕ) → j < i → s.disk (start + j + 1) ≡ s0.cache (lh.block j)
    pub fresh : (j : ℕ) → j < i → s.cache (start + j + 1) ≡ s.disk (start + j + 1)
    pub before : All (Recoverable start size s0.disk) s.past

  write_block-Copied :
      (i : ℕ) (s : Store) → i < lh.n → Copied i s → Copied (suc i) (write_block log i s)
  unfolding write_block
  write_block-Copied i s lt v = record {
    home = λ b out.
        update_ne s.disk l b _ (λ e. ne_of_outside start size out at (sym e)) ∙ v.home b out;
    kept = λ b out.
        update_ne s.cache l b _ (λ e. ne_of_outside start size out at (sym e)) ∙ v.kept b out;
    idle = ap (λ (w : Block). w 0) (update_ne s.disk l start _ (omega arith)) ∙ v.idle;
    copied = λ j hj. elim (ℕ_discrete j i) [
      | yes e ↦
          subst (λ k. s'.disk (start + k + 1) ≡ s0.cache (lh.block k)) (sym e)
            (update_self s.disk l _ ∙ update_self s.cache l _ ∙ v.kept (lh.block i) (p.away i lt))
      | no ne ↦ update_ne s.disk l (start + j + 1) _ (omega arith) ∙ v.copied j (omega arith)
    ];
    fresh = λ j hj. elim (ℕ_discrete j i) [
      | yes e ↦
          subst (λ k. s'.cache (start + k + 1) ≡ s'.disk (start + k + 1)) (sym e)
            (sym (update_self s.disk l _))
      | no ne ↦
          update_ne s.cache l (start + j + 1) _ (omega arith)
          ∙ v.fresh j (omega arith)
          ∙ sym (update_ne s.disk l (start + j + 1) _ (omega arith))
    ];
    before = (
      idle-Recoverable start size s.disk s0.disk (omega (arith, p.fits)) v.idle v.home,
      v.before,
    );
  }
    where
      l : ℕ
      l = start + i + 1

      s' : Store
      s' = write_block log i s

      at : InArea start size l
      at = (omega arith, omega (arith, p.fits))

  pub write_log-Copied :
      All (Recoverable start size s0.disk) s0.past → Copied lh.n (write_log log s0)
  unfolding write_log
  write_log-Copied before =
      for_from_inv Copied (write_block log) lh.n write_block-Copied lh.n 0 s0 (omega arith)
        (record {
          home = λ b out. refl;
          kept = λ b out. refl;
          idle = p.idle;
          copied = λ j h. absurd (omega arith);
          fresh = λ j h. absurd (omega arith);
          before = before;
        })

  -- Before the header is written a crash undoes the transaction; from then on it completes it.
  abbrev pub Atomic : Disk → Type 0
  Atomic d = Recoverable start size s0.disk d ⊎ Recoverable start size s0.cache d

  -- Writing the header commits.
  pub write_head-Committed :
      (s : Store) → Copied lh.n s → Committed start size lh (write_head log s).disk s0.cache
  write_head-Committed s v = record {
    count = ap (λ (w : Block). w 0) head_at;
    names = λ i h. ap (λ (w : Block). w (suc i)) head_at ∙ rw (lt→ltb i lh.n h);
    fits = p.fits;
    away = p.away;
    logged = λ i h. miss (start + i + 1) (omega arith) ∙ v.copied i h;
    others = λ b out new.
        miss b
          (λ e. ne_of_outside start size out (omega (arith, p.fits), omega (arith, p.fits)) (sym e))
        ∙ v.home b out
        ∙ sym (p.clean b out new);
  }
    where
      disk_eq : (write_head log s).disk ≡ update s.disk start (head_words lh (s.cache start))
      disk_eq = (write_head_disk log s).0

      head_at : (write_head log s).disk start ≡ head_words lh (s.cache start)
      head_at = ap (λ (d : Disk). d start) disk_eq ∙ update_self s.disk start _

      miss : (b : ℕ) → start ≢ b → (write_head log s).disk b ≡ s.disk b
      miss b ne = ap (λ (d : Disk). d b) disk_eq ∙ update_ne s.disk start b _ ne

  pub outside_start : (b : ℕ) → ¬ InArea start size b → start ≢ b
  outside_start b out e =
      ne_of_outside start size out (omega (arith, p.fits), omega (arith, p.fits)) (sym e)

  pub write_head-Installed :
      (s : Store) → Copied lh.n s → Installed log s0.cache Atomic 0 (write_head log s)
  write_head-Installed s v = record {
    held = write_head-Committed s v;
    fresh = λ j h.
        write_head_cache log s (start + j + 1) (omega arith)
        ∙ v.fresh j h
        ∙ v.copied j h
        ∙ sym ((write_head-Committed s v).logged j h);
    done = λ j h. absurd (omega arith);
    synced = λ b out. inr (write_head_cache log s b (outside_start b out) ∙ v.kept b out);
    before = subst (All Atomic) (sym (write_head_disk log s).1) (
      inl (idle-Recoverable start size s.disk s0.disk (omega (arith, p.fits)) v.idle v.home),
      All-map (Recoverable start size s0.disk) Atomic s.past (λ d r. inl r) v.before,
    );
  }
