-- ===== src/Log/Admission.antt =====
-- kernel/log.c: how `begin_op` reserves the log for the system calls that it admits, on the log that
-- mkfs/mkfs.c makes: LOGSIZE blocks, of which the first is the header.
use xv6_riscv.Base.{ℕ, ◌+◌, ◌≤◌, ◌<◌, ◌≡◌, false, some, List, [], ◌∷◌, ◌++◌, length}
use xv6_riscv.Store.{Block, Store, modify}
use xv6_riscv.Log.{Log, log_size, begin_op, end_op, log_write}
use xv6_riscv.Log.Quota.{quota, note, Known, left, Within}

-- The file system calls between `begin_op` and `end_op`: for each, the blocks that it has logged.
pub record Calls : Type 0 where
  pub log : Log
  pub store : Store
  pub calls : List (List ℕ)

-- A call writes `v` to the buffer of block `b` and logs it, within its quota of different blocks.
pub data Step : Calls → Calls → Type 0 where
  begins :
      {c : Calls} {log' : Log}
      → begin_op c.log ≡ some log'
      → Step c (record { log = log'; store = c.store; calls = [] ∷ c.calls })
  writes :
      {c : Calls} {r : Log × Store} (b : ℕ) (v : Block) (own : List ℕ) (xs ys : List (List ℕ))
      → c.calls ≡ xs ++ own ∷ ys
      → length (note b own) ≤ quota
      → log_write b c.log (modify b v c.store) ≡ some r
      → Step c (record { log = r.0; store = r.1; calls = xs ++ note b own ∷ ys })
  ends :
      {c : Calls} {r : Log × Store} (own : List ℕ) (xs ys : List (List ℕ))
      → c.calls ≡ xs ++ own ∷ ys
      → end_op c.log c.store ≡ some r
      → Step c (record { log = r.0; store = r.1; calls = xs ++ ys })

pub data Reach (start : Calls) : Calls → Type 0 where
  here : Reach start start
  next : {c d : Calls} → Reach start c → Step c d → Reach start d

-- `outstanding` counts the calls, each is within its quota, what it has logged is in the header, and
-- what all may still add leaves one block free of the 29 after the header.
pub record Admitted (c : Calls) : Type 0 where
  pub counted : c.log.outstanding ≡ length c.calls
  pub within : Within c.calls
  pub known : Known c.log.lh c.calls
  pub roomy : c.log.lh.n + left c.calls + 2 ≤ log_size
  pub few : length c.calls < 4
  pub settled : c.calls ≡ [] → c.log.lh.n ≡ 0
  pub quiet : c.log.committing ≡ false
  pub sized : log_size ≤ c.log.size
