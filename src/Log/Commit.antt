-- ===== src/Log/Commit.antt =====
-- kernel/log.c: `commit` seen from the disk. A crash at any write leaves a disk from which the next
-- boot restores either the state before the transaction or the whole transaction.
use xv6_riscv.Base.{
  ℕ, ◌<◌, ◌≡◌, refl, ◌∙◌, sym, subst, false, All, All-map, arith, [], ◌∷◌, ltb, ◌⊎◌, inl, inr,
  Bool-cases,
}
use xv6_riscv.Store.{Disk, Store}
use xv6_riscv.Log.{Log, install_trans, write_head, write_log, clear, commit, recover}
use xv6_riscv.Log.Area.{
  InArea, Committed, Recoverable, Installed, install_trans-Installed, Installed-goal,
  Installed-cache,
}
use xv6_riscv.Log.Recover.{
  write_head_disk, write_head_cache, clear-Committed, recover-restores, Pending, clear-Pending,
  clear_lem, clear_start,
}
use xv6_riscv.Log.Copy.{
  idle-Recoverable, Atomic, write_log-Copied, write_head-Installed, outside_start,
}

module _ (log : Log) (s0 : Store) (p : Pending log s0) where
  open log use {start, size, lh}

  -- Every disk on the way recovers to the state before the transaction or to that after it.
  abbrev Both : Disk → Type 0
  Both = Atomic log s0 p

  -- What holds of the store when `commit` returns.
  pub record CommitDone (r : Log × Store) : Type 0 where
    pub installed :
        (b : ℕ) → ¬ InArea start size b → (r.1.disk b ≡ s0.cache b) × (r.1.cache b ≡ s0.cache b)
    pub pending : Pending r.0 r.1
    pub stopped : Recoverable start size s0.cache r.1.disk
    pub emptied : r.0.lh.n ≡ 0
    pub before : All Both r.1.past

  after_commit : Log × Store
  after_commit = (
    clear log,
    write_head (clear log) (install_trans false log (write_head log (write_log log s0))),
  )

  after_commit-CommitDone : All (Recoverable start size s0.disk) s0.past → CommitDone after_commit
  unfolding after_commit
  after_commit-CommitDone before = record {
    installed = λ b out. (
      wiped.others b out (λ i h. none_left i h),
      write_head_cache (clear log) s3 b
            (λ e. outside_start log s0 p b out (sym (clear_start log) ∙ e))
          ∙ Installed-cache log s0.cache Both s3 inst b out,
    );
    pending = clear-Pending log s0.cache Both s3 (omega (arith, p.fits)) inst;
    stopped = ((clear log).lh, wiped);
    emptied = clear_lem log;
    before =
        subst (All Both) (sym (write_head_disk (clear log) s3).1)
          (inr (lh, inst.held), inst.before);
  }
    where
      s2 : Store
      s2 = write_head log (write_log log s0)

      s3 : Store
      s3 = install_trans false log s2

      inst : Installed log s0.cache Both lh.n s3
      inst =
          install_trans-Installed false log s0.cache Both (λ d h. inr (lh, h)) s2
            (write_head-Installed log s0 p (write_log log s0) (write_log-Copied log s0 p before))

      wiped : Committed start size (clear log).lh (write_head (clear log) s3).disk s0.cache
      wiped =
          clear-Committed log s3 s0.cache (omega (arith, p.fits))
            (Installed-goal log s0.cache Both s3 inst)

      none_left : {A : Type 0} (i : ℕ) → i < (clear log).lh.n → A
      none_left i h = absurd (omega (arith, clear_lem log))

  pub commit-CommitDone : All (Recoverable start size s0.disk) s0.past → CommitDone (commit log s0)
  unfolding commit after_commit
  commit-CommitDone before = elim (Bool-cases (ltb 0 lh.n)) [
    | inl more ↦ rw more (after_commit-CommitDone before)
    | inr idle ↦ rw idle (record {
      installed = λ b out. (sym (clean idle b out), refl);
      pending = p;
      stopped =
          idle-Recoverable start size s0.disk s0.cache (omega (arith, p.fits)) p.idle
            (λ b out. sym (clean idle b out));
      emptied = ground arith;
      before = All-map (Recoverable start size s0.disk) Both s0.past (λ d r. inl r) before;
    })
  ]
    where
      clean : ltb 0 lh.n ≡ false → (b : ℕ) → ¬ InArea start size b → s0.cache b ≡ s0.disk b
      clean idle b out = p.clean b out (λ i h. absurd (ground arith))

-- What the next boot makes of the disk `d`: every block outside the log as before, or as after.
abbrev pub RestoresEither : ℕ → Log → Disk → Disk → Disk → Type 0
RestoresEither dev log old new d =
    ((b : ℕ) → ¬ InArea log.start log.size b → recover dev log.start log.size d b ≡ old b)
    ⊎ ((b : ℕ) → ¬ InArea log.start log.size b → recover dev log.start log.size d b ≡ new b)

-- If a transaction is pending and no write is remembered, then for every disk that a crash in
-- `commit` can leave, and for the final one, the next boot restores every block outside the log
-- either as it was on the disk before the transaction or as the transaction left it in the
-- buffers.
pub commit_atomic :
    (dev : ℕ) (log : Log) (s : Store)
    → Pending log s
    → s.past ≡ []
    → let (_, s') = commit log s in All (RestoresEither dev log s.disk s.cache) (s'.disk ∷ s'.past)
commit_atomic dev log s p e =
    let s' : Store = (commit log s).1 in
    All-map (Atomic log s p) (RestoresEither dev log s.disk s.cache) (s'.disk ∷ s'.past)
      (λ d r. elim r [
        | inl old ↦ inl (recover-restores dev log.start log.size d s.disk old)
        | inr new ↦ inr (recover-restores dev log.start log.size d s.cache new)
      ])
      (inr done.stopped, done.before)
  where
    done : CommitDone log s p (commit log s)
    done =
        commit-CommitDone log s p (subst (All (Recoverable log.start log.size s.disk)) (sym e) tt)

-- If a transaction is pending and no write is remembered, commit leaves every block outside the
-- log on the disk and in the buffers as the transaction had it in the buffers, empties the log,
-- and nothing is pending but the empty transaction.
pub commit_installs :
    (log : Log) (s : Store)
    → Pending log s
    → s.past ≡ []
    → let (log', s') = commit log s in
      ((b : ℕ) → ¬ InArea log.start log.size b → (s'.disk b ≡ s.cache b) × (s'.cache b ≡ s.cache b))
      × (log'.lh.n ≡ 0)
      × Pending log' s'
commit_installs log s p e = (done.installed, done.emptied, done.pending)
  where
    done : CommitDone log s p (commit log s)
    done =
        commit-CommitDone log s p (subst (All (Recoverable log.start log.size s.disk)) (sym e) tt)
