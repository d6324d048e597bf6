-- ===== src/Log/Recover.antt =====
-- kernel/log.c: `read_head`, `write_head` and `recover_from_log`, as `initlog` runs them at boot.
use xv6_riscv.Base.{
  ℕ, suc, ◌<◌, ◌≡◌, ◌≢◌, refl, ◌∙◌, sym, ap, subst, true, false, All, All-map, update, update_self,
  update_ne, arith, inl, ◌∷◌, ltb, if◌then◌else◌,
}
use xv6_riscv.Store.{Block, Disk, Store, boot}
use xv6_riscv.Log.{
  LogHeader, Log, head_words, install_trans, read_head, write_head, clear, recover_from_log,
  initlog, recover,
}
use xv6_riscv.Log.Area.{
  InArea, Committed, Recoverable, Installed, ne_of_outside, install_trans-Installed, Installed-goal,
  Installed-cache,
}

-- The header that `write_head` puts on the disk, and the one disk write that it makes.
pub write_head_disk :
    (log : Log) (s : Store)
    → let d = update s.disk log.start (head_words log.lh (s.cache log.start)) in
      ((write_head log s).disk ≡ d) × ((write_head log s).past ≡ s.disk ∷ s.past)
unfolding write_head
write_head_disk log s = (ap (update s.disk log.start) (update_self s.cache log.start _), refl)

pub write_head_cache :
    (log : Log) (s : Store) (b : ℕ) → log.start ≢ b → (write_head log s).cache b ≡ s.cache b
unfolding write_head
write_head_cache log s b ne = update_ne s.cache log.start b _ ne

pub clear_lem : (log : Log) → (clear log).lh.n ≡ 0
unfolding clear
clear_lem log = refl

pub clear_start : (log : Log) → (clear log).start ≡ log.start
unfolding clear
clear_start log = refl

-- Erasing the header keeps a disk that is `goal` outside the log.
pub clear-Committed :
    (log : Log) (s : Store) (goal : Disk)
    → 0 < log.size
    → ((b : ℕ) → ¬ InArea log.start log.size b → s.disk b ≡ goal b)
    → Committed log.start log.size (clear log).lh (write_head (clear log) s).disk goal
unfolding clear
clear-Committed log s goal pos same = record {
  count =
      ap (λ (d : Disk). d log.start 0) eq
      ∙ ap (λ (v : Block). v 0) (update_self s.disk log.start _);
  names = λ i h. absurd (omega arith);
  fits = pos;
  away = λ i h. absurd (omega arith);
  logged = λ i h. absurd (omega arith);
  others = λ b out new.
      ap (λ (d : Disk). d b) eq
      ∙ update_ne s.disk log.start b _
          (λ e. ne_of_outside log.start log.size out (omega arith, omega arith) (sym e))
      ∙ same b out;
}
  where
    eq :
        (write_head (clear log) s).disk
        ≡ update s.disk log.start (head_words (clear log).lh (s.cache log.start))
    eq = (write_head_disk (clear log) s).0

-- the header as `read_head` finds it on `d`
abbrev found : ℕ → Disk → LogHeader → LogHeader
found start d lh = record {
  n = d start 0;
  block = λ i. if ltb i (d start 0) then d start (suc i) else lh.block i;
}

found-Committed :
    (start size : ℕ) (lh old : LogHeader) (d goal : Disk)
    → Committed start size lh d goal
    → Committed start size (found start d old) d goal
found-Committed start size lh old d goal c = record {
  count = refl;
  names = λ i h. ground arith;
  fits = omega (arith, c.count, c.fits);
  away = λ i h.
      subst (λ b. ¬ InArea start size b) (sym (same i h)) (c.away i (omega (arith, c.count)));
  logged = λ i h. c.logged i (omega (arith, c.count)) ∙ ap goal (sym (same i h));
  others = λ b out new.
      c.others b out
        (λ i h e. new i (omega (arith, c.count)) (same i (omega (arith, c.count)) ∙ e));
}
  where
    same : (i : ℕ) → i < d start 0 → (found start d old).block i ≡ lh.block i
    same i h = ground (arith, c.names i (omega (arith, c.count)))

-- What the system calls keep until the last of them ends: no transaction is on the disk, the
-- logged blocks lie outside the log and fit in it, and every other block is clean.
pub record Pending (log : Log) (s : Store) : Type 0 where
  pub idle : s.disk log.start 0 ≡ 0
  pub fits : log.lh.n < log.size
  pub away : (i : ℕ) → i < log.lh.n → ¬ InArea log.start log.size (log.lh.block i)
  pub clean :
      (b : ℕ)
      → ¬ InArea log.start log.size b
      → ((i : ℕ) → i < log.lh.n → log.lh.block i ≢ b)
      → s.cache b ≡ s.disk b

-- After the install loop and the erased header nothing is pending.
pub clear-Pending :
    (log : Log) (goal : Disk) (Q : Disk → Type 0) (s : Store)
    → 0 < log.size
    → Installed log goal Q log.lh.n s
    → Pending (clear log) (write_head (clear log) s)
unfolding clear
clear-Pending log goal Q s pos v = record {
  idle = wiped.count;
  fits = pos;
  away = λ i h. absurd (omega arith);
  clean = λ b out new.
      write_head_cache (clear log) s b
        (λ e. ne_of_outside log.start log.size out (omega arith, omega arith) (sym e))
      ∙ Installed-cache log goal Q s v b out
      ∙ sym (wiped.others b out (λ i h. absurd (omega arith)));
}
  where
    wiped : Committed log.start log.size (clear log).lh (write_head (clear log) s).disk goal
    wiped = clear-Committed log s goal pos (Installed-goal log goal Q s v)

-- What holds after a recovery from a recoverable disk.
pub record Recovered (start size : ℕ) (goal : Disk) (log : Log) (s : Store) : Type 0 where
  pub restored : (b : ℕ) → ¬ InArea start size b → s.disk b ≡ goal b
  pub erased : Committed start size log.lh s.disk goal
  pub pending : Pending log s
  pub empty : log.lh.n ≡ 0
  pub before : All (Recoverable start size goal) s.past

pub initlog-Recovered :
    (dev start size : ℕ) (d goal : Disk)
    → Recoverable start size goal d
    → let (log, s) = initlog dev start size (boot d) in Recovered start size goal log s
unfolding initlog recover_from_log read_head clear
initlog-Recovered dev start size d goal (lh, c) = record {
  restored = λ b out. wiped.others b out (λ i h. absurd (omega arith));
  erased = wiped;
  pending = clear-Pending log1 goal Q s2 (omega (arith, c.fits)) inst;
  empty = refl;
  before =
      subst (All (Recoverable start size goal)) (sym (write_head_disk (clear log1) s2).1)
        ((log1.lh, inst.held), inst.before);
}
  where
    Q : Disk → Type 0
    Q = Recoverable start size goal

    zeroed : LogHeader
    zeroed = record { n = 0; block = λ _. 0 }

    log1 : Log
    log1 = record {
      start = start;
      size = size;
      outstanding = 0;
      committing = false;
      dev = dev;
      lh = found start d zeroed;
    }

    s1 : Store
    s1 = (read_head log1 (boot d)).1

    s2 : Store
    s2 = install_trans true log1 s1

    inst : Installed log1 goal Q log1.lh.n s2
    inst =
        install_trans-Installed true log1 goal Q (λ e h. (log1.lh, h)) s1
          (record {
            held = found-Committed start size lh zeroed d goal c;
            fresh = λ j h. refl;
            done = λ j h. absurd (omega arith);
            synced = λ b out. inl refl;
            before = tt;
          })

    wiped : Committed start size (clear log1).lh (write_head (clear log1) s2).disk goal
    wiped =
        clear-Committed log1 s2 goal (omega (arith, c.fits)) (Installed-goal log1 goal Q s2 inst)

-- A boot from a disk that holds a committed transaction, or none, restores every block outside
-- the log to what the transaction made it.
pub recover-restores :
    (dev start size : ℕ) (d goal : Disk)
    → Recoverable start size goal d
    → (b : ℕ) → ¬ InArea start size b
    → recover dev start size d b ≡ goal b
unfolding recover
recover-restores dev start size d goal r = (initlog-Recovered dev start size d goal r).restored

-- If a disk holds a committed transaction, or none, then whatever disk a crash in the recovery
-- leaves, and the final one, the next boot restores every block outside the log to what the
-- transaction made it.
pub recover_again :
    (dev start size : ℕ) (d goal : Disk)
    → Recoverable start size goal d
    → let (_, s) = initlog dev start size (boot d) in
      All
        (λ e. (b : ℕ) → ¬ InArea start size b → recover dev start size e b ≡ goal b)
        (s.disk ∷ s.past)
recover_again dev start size d goal r =
    let s : Store = (initlog dev start size (boot d)).1 in
    All-map (Recoverable start size goal)
      (λ (e : Disk). (b : ℕ) → ¬ InArea start size b → recover dev start size e b ≡ goal b)
      (s.disk ∷ s.past) (λ e re. recover-restores dev start size e goal re)
      ((log'.lh, done.erased), done.before)
  where
    log' : Log
    log' = (initlog dev start size (boot d)).0

    done : Recovered start size goal log' (initlog dev start size (boot d)).1
    done = initlog-Recovered dev start size d goal r
