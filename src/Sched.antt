-- ===== src/Sched.antt =====
-- kernel/proc.c: the choices of the schedulers RR and FCFS, and the queues of MLFQ. A queue is its row
-- of `queue[NPR][NPROC]`: in each place a slot of the process table or a null pointer.
pub mod Earliest
pub mod Queues
pub mod Tests
use xv6_riscv.Base.{
  ℕ, zero, suc, ◌+◌, ◌-◌, Bool, true, false, Option, none, some, List, [], ◌∷◌, ◌++◌, update,
  if◌then◌else◌, ltb, leb, ◌==◌, get_elem?,
}
use xv6_riscv.Proc.{Proc, ProcState, is_runnable, find_slot}

-- RR: the loop that looks for a process starts at `proc[0]`. `none` is a pointer past the table.
pub rr_choose : List Proc → Option ℕ
rr_choose t = find_slot (λ p. is_runnable p.state) 0 t

-- FCFS: one round with the choice so far, and the loop from slot `i` on.
pub fcfs_round : Option (ℕ × Proc) → ℕ → Proc → Option (ℕ × Proc)
fcfs_round none i fp = if is_runnable fp.state then some (i, fp) else none
fcfs_round (some (j, p)) i fp =
    if is_runnable fp.state
    then (if ltb fp.ctime p.ctime then some (i, fp) else some (j, p))
    else some (j, p)

pub fcfs_from : Option (ℕ × Proc) → ℕ → List Proc → Option (ℕ × Proc)
fcfs_from best i [] = best
fcfs_from best i (fp ∷ ps) = fcfs_from (fcfs_round best i fp) (suc i) ps

pub fcfs_choose : List Proc → Option (ℕ × Proc)
fcfs_choose t = fcfs_from none 0 t

abbrev pub Row : Type 0
Row = List (Option ℕ)

-- The queues need `pid` and `pr` of a slot.
module _ (pid : ℕ → ℕ) where
  -- `queue_proc` on a row
  pub enqueue : ℕ → Row → Row
  enqueue p [] = []
  enqueue p (none ∷ q) = some p ∷ q
  enqueue p (some fp ∷ q) =
      let rest = enqueue p q in if pid fp == pid p then some fp ∷ q else some fp ∷ rest

-- The inner loop of `dequeue_proc`: what is after `x` moves down one place, and the last stays.
pub shift : Option ℕ → Row → Row
shift x [] = x ∷ []
shift x (y ∷ q) = y ∷ shift y q

module _ (pid : ℕ → ℕ) where
  -- `dequeue_proc` on a row
  pub dequeue : ℕ → Row → Row
  dequeue p [] = []
  dequeue p (none ∷ q) = none ∷ dequeue p q
  dequeue p (some fp ∷ q) =
      let rest = dequeue p q in if pid fp == pid p then shift (some fp) q else some fp ∷ rest

module _ (pid pr : ℕ → ℕ) where
  pub queue_proc : ℕ → (ℕ → Row) → ℕ → Row
  queue_proc p qs = update qs (pr p) (enqueue pid p (qs (pr p)))

  pub dequeue_proc : ℕ → (ℕ → Row) → ℕ → Row
  dequeue_proc p qs = update qs (pr p) (dequeue pid p (qs (pr p)))
