-- ===== src/Lock.antt =====
-- kernel/spinlock.c and kernel/sleeplock.c. A lock is named by its address, a processor by its
-- number. `acquire` is cut where it spins: `begin_acquire` is what it does before its loop, and `take`
-- a round of the loop that finds the lock free, with the store to `lk->cpu` after it; until that store
-- `holding` is false of the lock for every other processor, as it is after it. `release` is one step:
-- what it does before its store to `locked` nobody else sees. `none` is a panic.
pub mod Nesting
pub mod World
pub mod Exclusion
pub mod Sleep
pub mod Tests
use xv6_riscv.Base.{
  ℕ, zero, suc, ◌+◌, ◌-◌, Bool, true, false, ◌&&◌, not, Option, none, some, update, if◌then◌else◌,
  ltb, ◌==◌,
}

-- The part of `struct cpu` that counts `push_off`, with the interrupt bit of `sstatus`.
pub record Cpu : Type 0 where
  pub noff : ℕ
  pub intena : Bool
  pub intr : Bool

-- `struct spinlock`
pub record Spinlock : Type 0 where
  pub locked : Bool
  pub cpu : Option ℕ

pub initlock : Spinlock
initlock = record { locked = false; cpu = none }

pub record Machine : Type 0 where
  pub cpus : ℕ → Cpu
  pub locks : ℕ → Spinlock

abbrev pub is_cpu : ℕ → Option ℕ → Bool
is_cpu c none = false
is_cpu c (some d) = d == c

abbrev pub holding : ℕ → Spinlock → Bool
holding c lk = lk.locked && is_cpu c lk.cpu

pub push_off : Cpu → Cpu
push_off c =
    let old = c.intr in
    let off = record c { intr = false } in
    let saved = if off.noff == 0 then record off { intena = old } else off in
    record saved { noff = saved.noff + 1 }

pub pop_off : Cpu → Option Cpu
pop_off c =
    if c.intr
    then none
    else if ltb c.noff 1
    then none
    else (let d = record c { noff = c.noff - 1 } in
        some (if d.noff == 0 && d.intena then record d { intr = true } else d))

-- `acquire` up to its loop
pub begin_acquire : ℕ → ℕ → Machine → Option Machine
begin_acquire c l m =
    let m1 = record m { cpus = update m.cpus c (push_off (m.cpus c)) } in
    if holding c (m1.locks l) then none else some m1

-- A round of the loop of `acquire`; `none` where it goes on spinning.
pub take : ℕ → ℕ → Machine → Option Machine
take c l m =
    if (m.locks l).locked
    then none
    else some (record m { locks = update m.locks l (record { locked = true; cpu = some c }) })

pub release : ℕ → ℕ → Machine → Option Machine
release c l m = if not (holding c (m.locks l)) then none else elim (pop_off (m.cpus c)) [
  | none ↦ none
  | some d ↦ some (record {
    cpus = update m.cpus c d;
    locks = update m.locks l (record { locked = false; cpu = none });
  })
]

-- `struct sleeplock`, without its spin lock, which each function holds throughout.
pub record Sleeplock : Type 0 where
  pub locked : Bool
  pub pid : ℕ

unfoldable pub initsleeplock : Sleeplock
initsleeplock = record { locked = false; pid = 0 }

-- A round of the loop of `acquiresleep` by process `pid`; `none` where it sleeps.
unfoldable pub acquiresleep : ℕ → Sleeplock → Option Sleeplock
acquiresleep pid lk = if lk.locked then none else some (record { locked = true; pid = pid })

pub releasesleep : Sleeplock → Sleeplock
releasesleep lk = record { locked = false; pid = 0 }

pub holdingsleep : ℕ → Sleeplock → Bool
holdingsleep pid lk = lk.locked && lk.pid == pid
