-- ===== src/Log.antt =====
-- kernel/log.c: the write-ahead log. The functions that hold `log.lock` throughout are one step
-- each; `none` of `begin_op` is a sleep on `&log`, `none` of the others is a panic.
pub mod Area
pub mod Recover
pub mod Copy
pub mod Commit
pub mod Write
pub mod Quota
pub mod Admission
pub mod Tests
use xv6_riscv.Base.{
  ℕ, zero, suc, ◌+◌, ◌-◌, ◌*◌, ◌%◌, ◌^◌, Bool, true, false, ◌||◌, not, Option, none, some, update,
  if◌then◌else◌, ltb, leb, ◌==◌, for_from,
}
use xv6_riscv.Store.{Block, Disk, Store, bread, brelse, bwrite, bpin, bunpin, modify, boot, dec32}

-- kernel/param.h
abbrev pub max_op_blocks : ℕ
max_op_blocks = 10

abbrev pub log_size : ℕ
log_size = 30

-- `struct logheader`
pub record LogHeader : Type 0 where
  pub n : ℕ
  pub block : ℕ → ℕ

-- `struct log`, without its lock
pub record Log : Type 0 where
  pub start : ℕ
  pub size : ℕ
  pub outstanding : ℕ
  pub committing : Bool
  pub dev : ℕ
  pub lh : LogHeader

-- the buffer holds a `struct logheader`: `n`, then `block[]`
abbrev pub head_words : LogHeader → Block → Block
head_words lh buf zero = lh.n
head_words lh buf (suc i) = if ltb i lh.n then lh.block i else buf (suc i)

-- One round of the loop of `install_trans`.
pub install_block : Bool → Log → ℕ → Store → Store
install_block recovering log tail s0 =
    let l = log.start + tail + 1 in
    let b = log.lh.block tail in
    let s1 = bread l s0 in
    let s2 = bread b s1 in
    let s3 = modify b (s2.cache l) s2 in
    let s4 = bwrite b s3 in
    let s5 = if recovering then s4 else bunpin b s4 in brelse b (brelse l s5)

pub install_trans : Bool → Log → Store → Store
install_trans recovering log s = for_from log.lh.n 0 (install_block recovering log) s

-- `read_head`; words past `n` are not copied.
pub read_head : Log → Store → Log × Store
read_head log s =
    let s1 = bread log.start s in
    let buf = s1.cache log.start in
    let lh : LogHeader = record {
      n = buf zero;
      block = λ i. if ltb i (buf zero) then buf (suc i) else log.lh.block i;
    } in
    (record log { lh = lh }, brelse log.start s1)

pub write_head : Log → Store → Store
write_head log s =
    let s1 = bread log.start s in
    let s2 = modify log.start (head_words log.lh (s1.cache log.start)) s1 in
    brelse log.start (bwrite log.start s2)

pub clear : Log → Log
clear log = let lh = log.lh in record log { lh = record lh { n = 0 } }

pub recover_from_log : Log → Store → Log × Store
recover_from_log log s =
    let (log1, s1) = read_head log s in
    let s2 = install_trans true log1 s1 in let log2 = clear log1 in (log2, write_head log2 s2)

-- What `initlog` runs on: `log` as C leaves it before, with the fields set from the superblock.
pub initlog : ℕ → ℕ → ℕ → Store → Log × Store
initlog dev logstart nlog s =
    recover_from_log
      (record {
        start = logstart;
        size = nlog;
        outstanding = 0;
        committing = false;
        dev = dev;
        lh = record { n = 0; block = λ _. 0 };
      })
      s

-- The disk after a boot from `d`.
pub recover : ℕ → ℕ → ℕ → Disk → Disk
recover dev logstart nlog d = let (_, s) = initlog dev logstart nlog (boot d) in s.disk

-- One round of the loop of `write_log`.
pub write_block : Log → ℕ → Store → Store
write_block log tail s0 =
    let l = log.start + tail + 1 in
    let b = log.lh.block tail in
    let s1 = bread l s0 in
    let s2 = bread b s1 in
    let s3 = modify l (s2.cache b) s2 in let s4 = bwrite l s3 in brelse l (brelse b s4)

pub write_log : Log → Store → Store
write_log log s = for_from log.lh.n 0 (write_block log) s

pub commit : Log → Store → Log × Store
commit log s =
    if ltb 0 log.lh.n
    then (let s1 = write_log log s in
        let s2 = write_head log s1 in
        let s3 = install_trans false log s2 in let log' = clear log in (log', write_head log' s3))
    else (log, s)

-- The test that makes `begin_op` wait, and one pass of its loop.
pub begin_op : Log → Option Log
begin_op log =
    if log.committing
    then none
    else if ltb log_size (log.lh.n + (log.outstanding + 1) * max_op_blocks)
    then none
    else some (record log { outstanding = log.outstanding + 1 })

pub end_op : Log → Store → Option (Log × Store)
end_op log s =
    let log1 = record log { outstanding = dec32 log.outstanding } in
    if log1.committing
    then none
    else if log1.outstanding == 0
    then (let (log2, s2) = commit (record log1 { committing = true }) s in
        some (record log2 { committing = false }, s2))
    else some (log1, s)

-- The first `i` below `n` with `block[i] == b`, or `n`: the absorption loop, `k` rounds left.
pub find_block : ℕ → ℕ → (ℕ → ℕ) → ℕ → ℕ
find_block zero i block b = i
find_block (suc k) i block b =
    let rest = find_block k (suc i) block b in if block i == b then i else rest

-- The rest of `log_write` after its panics: absorb the block, or add it and pin it.
pub add_block : ℕ → Log → Store → Log × Store
add_block b log s =
    let lh = log.lh in
    let i = find_block lh.n 0 lh.block b in
    let lh1 = record lh { block = update lh.block i b } in
    if i == lh.n
    then (record log { lh = record lh1 { n = lh.n + 1 } }, bpin b s)
    else (record log { lh = lh1 }, s)

-- A negative `outstanding` is a word from 2^31 on.
pub log_write : ℕ → Log → Store → Option (Log × Store)
log_write b log s =
    if leb log_size log.lh.n || leb (log.size - 1) log.lh.n
    then none
    else if ltb log.outstanding 1 || leb (2 ^ 31) log.outstanding
    then none
    else some (add_block b log s)
