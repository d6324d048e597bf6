-- ===== src/Log/Tests.antt =====
-- kernel/log.c: runs on a log of 31 blocks from block 2 on, with one transaction that writes block 40.
use xv6_riscv.Base.{
  ℕ, zero, suc, ◌+◌, ◌<◌, ◌≡◌, ◌≢◌, refl, sym, ◌∙◌, false, All, update, update_ne, arith, some, [],
  ◌∷◌,
}
use xv6_riscv.Store.{Block, Disk, Store, modify, boot}
use xv6_riscv.Log.{
  find_block, LogHeader, Log, head_words, commit, recover, initlog, log_write, add_block,
}
use xv6_riscv.Log.Area.{InArea, Recoverable}
use xv6_riscv.Log.Recover.{Pending, recover-restores, recover_again}
use xv6_riscv.Log.Commit.{RestoresEither, commit_atomic, commit_installs}
use xv6_riscv.Log.Write.{Pinned, log_write-room, log_write-Pending}
use xv6_riscv.Log.Admission.{Calls}

abbrev blank_disk : Disk
blank_disk b i = 0

abbrev payload : Block
payload i = 7

abbrev idle_log : Log
idle_log = record {
  start = 2;
  size = 31;
  outstanding = 0;
  committing = false;
  dev = 1;
  lh = record { n = 0; block = λ _. 0 };
}

abbrev open_log : Log
open_log = record idle_log { outstanding = 1 }

open-Pending : Pending open_log (boot blank_disk)
open-Pending = record {
  idle = refl;
  fits = omega arith;
  away = λ i h. absurd (omega arith);
  clean = λ b out new. refl;
}

data_block : ¬ InArea 2 31 40
data_block h = omega (arith, h.1)

abbrev dirty : Store
dirty = modify 40 payload (boot blank_disk)

abbrev logged : Log × Store
logged = add_block 40 open_log dirty

logs_block : log_write 40 open_log dirty ≡ some logged
logs_block =
    log_write-room 40 open_log dirty (omega arith) (omega arith) (omega arith) (omega arith)

logged-Pending : Pending logged.0 logged.1
logged-Pending =
    let (pending, _) =
      log_write-Pending 40 payload open_log (boot blank_disk) logged open-Pending data_block
        logs_block in
    pending

no_past : logged.1.past ≡ []
unfolding add_block find_block
no_past = refl

commit_atomic_example :
    All
      (RestoresEither 1 logged.0 logged.1.disk logged.1.cache)
      ((commit logged.0 logged.1).1.disk ∷ (commit logged.0 logged.1).1.past)
commit_atomic_example = commit_atomic 1 logged.0 logged.1 logged-Pending no_past

commit_installs_example :
    ((b : ℕ)
      → ¬ InArea logged.0.start logged.0.size b
      → ((commit logged.0 logged.1).1.disk b ≡ logged.1.cache b)
        × ((commit logged.0 logged.1).1.cache b ≡ logged.1.cache b))
    × ((commit logged.0 logged.1).0.lh.n ≡ 0)
    × Pending (commit logged.0 logged.1).0 (commit logged.0 logged.1).1
commit_installs_example = commit_installs logged.0 logged.1 logged-Pending no_past

log_write-Pending_example :
    Pending logged.0 logged.1 × Pinned 40 open_log (boot blank_disk) logged.1
log_write-Pending_example =
    log_write-Pending 40 payload open_log (boot blank_disk) logged open-Pending data_block
      logs_block

-- a disk with a committed transaction that is not installed
abbrev one_block : LogHeader
one_block = record { n = 1; block = λ _. 40 }

abbrev crashed : Disk
crashed = update (update blank_disk 2 (head_words one_block payload)) 3 payload

abbrev restored : Disk
restored = update blank_disk 40 payload

crashed-Recoverable : Recoverable 2 31 restored crashed
crashed-Recoverable = (
  one_block,
  record {
    count = refl;
    names = λ i h. first_name i h;
    fits = omega arith;
    away = λ i h. data_block;
    logged = λ i h. first_block i h;
    others = λ b out new. other b out (new 0 (omega arith));
  },
)
  where
    first_name : (i : ℕ) → i < 1 → crashed 2 (suc i) ≡ 40
    first_name zero h = refl
    first_name (suc i) h = absurd (omega (arith, h))

    first_block : (i : ℕ) → i < 1 → crashed (2 + i + 1) ≡ restored 40
    first_block zero h = refl
    first_block (suc i) h = absurd (omega (arith, h))

    other : (b : ℕ) → ¬ InArea 2 31 b → 40 ≢ b → crashed b ≡ restored b
    other b out ne =
        update_ne (update blank_disk 2 (head_words one_block payload)) 3 b payload
          (λ e. out (omega (arith, e), omega (arith, e)))
        ∙ update_ne blank_disk 2 b (head_words one_block payload)
            (λ e. out (omega (arith, e), omega (arith, e)))
        ∙ sym (update_ne blank_disk 40 b payload ne)

recover-restores_example : recover 1 2 31 crashed 40 ≡ restored 40
recover-restores_example =
    recover-restores 1 2 31 crashed restored crashed-Recoverable 40 data_block

recover_again_example :
    All
      (λ e. (b : ℕ) → ¬ InArea 2 31 b → recover 1 2 31 e b ≡ restored b)
      ((initlog 1 2 31 (boot crashed)).1.disk ∷ (initlog 1 2 31 (boot crashed)).1.past)
recover_again_example = recover_again 1 2 31 crashed restored crashed-Recoverable

-- the log that mkfs makes
abbrev made_log : Log
made_log = record idle_log { size = 30 }

abbrev no_calls : Calls
no_calls = record { log = made_log; store = boot blank_disk; calls = [] }

abbrev begun_log : Log
begun_log = record made_log { outstanding = 1 }

abbrev written : Log × Store
written = add_block 40 begun_log dirty

-- One call has logged block 40 once, and then again.
abbrev again_written : Log × Store
again_written = add_block 40 written.0 (modify 40 payload written.1)

abbrev one_call : Calls
one_call = record { log = again_written.0; store = again_written.1; calls = (40 ∷ []) ∷ [] }
