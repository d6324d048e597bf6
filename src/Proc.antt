-- ===== src/Proc.antt =====
-- kernel/proc.c and kernel/proc.h: the process table, and the life of a process in it. A pointer to
-- a process is its index in `proc[]`; an `int` is its 32-bit word. Every loop over the table takes
-- one lock after the other; each visit is atomic, and the table is that of one pass.
pub mod Doom
pub mod Reap
pub mod Pids
pub mod Family
pub mod Life
pub mod Tests
use xv6_riscv.Base.{
  ℕ, zero, suc, ◌+◌, ◌-◌, ◌*◌, ◌%◌, ◌^◌, Bool, true, false, ◌||◌, ◌&&◌, not, Option, none, some,
  List, [], ◌∷◌, if◌then◌else◌, ltb, leb, ◌==◌, get_elem?, map_from, length, for_from,
}

-- `enum procstate`
pub data ProcState : Type 0 where
  unused used sleeping runnable running zombie : ProcState

abbrev pub is_unused : ProcState → Bool
is_unused ProcState.unused = true
is_unused _ = false

abbrev pub is_sleeping : ProcState → Bool
is_sleeping ProcState.sleeping = true
is_sleeping _ = false

abbrev pub is_running : ProcState → Bool
is_running ProcState.running = true
is_running _ = false

abbrev pub is_runnable : ProcState → Bool
is_runnable ProcState.runnable = true
is_runnable _ = false

abbrev pub is_zombie : ProcState → Bool
is_zombie ProcState.zombie = true
is_zombie _ = false

-- `struct proc`, without the lock, the kernel context, the name and the plotting array. The user
-- memory and the trap frame are their addresses, 0 for a null pointer.
pub record Proc : Type 0 where
  pub state : ProcState
  pub chan : ℕ
  pub killed : ℕ
  pub xstate : ℕ
  pub pid : ℕ
  pub parent : Option ℕ
  pub sz : ℕ
  pub pagetable : ℕ
  pub trapframe : ℕ
  pub smask : ℕ
  pub interval : ℕ
  pub handler : ℕ
  pub nticks : ℕ
  pub alarm_on : ℕ
  pub ctime : ℕ
  pub tickets : ℕ
  pub pbs_rtime : ℕ
  pub rtime : ℕ
  pub stime : ℕ
  pub static_p : ℕ
  pub niceness : ℕ
  pub wtime : ℕ
  pub sch_no : ℕ
  pub etime : ℕ
  pub rticks : ℕ
  pub wticks : ℕ
  pub pr : ℕ

-- `proc[]`, `nextpid`, `ticks` and `initproc`
pub record Procs : Type 0 where
  pub table : List Proc
  pub nextpid : ℕ
  pub ticks : ℕ
  pub initproc : ℕ

-- What `allocproc` resets in the slot that it takes.
pub fresh : ℕ → ℕ → Proc → Proc
fresh pid ticks p = record p {
  pid = pid;
  state = ProcState.used;
  smask = 0;
  nticks = 0;
  alarm_on = 0;
  ctime = ticks;
  etime = 0;
  tickets = 1;
  pbs_rtime = 0;
  rtime = 0;
  stime = 0;
  static_p = 60;
  niceness = 5;
  wtime = 0;
  sch_no = 0;
  rticks = 0;
  wticks = 0;
  pr = 0;
}

abbrev pub is_child : ℕ → Proc → Bool
is_child me p = elim p.parent [ none ↦ false | some i ↦ i == me ]

-- `pp->pid` of the slot `i`
abbrev pub pid_at : ℕ → List Proc → ℕ
pid_at i t = elim (get_elem? t i) [ none ↦ 0 | some p ↦ p.pid ]

-- `pp->xstate` of the slot `i`
pub xstate_at : ℕ → List Proc → ℕ
xstate_at i t = elim (get_elem? t i) [ none ↦ 0 | some p ↦ p.xstate ]

-- `killed(p)` of the slot `me`
pub killed : ℕ → List Proc → Bool
killed me t = elim (get_elem? t me) [ none ↦ false | some p ↦ not (p.killed == 0) ]

-- `freeproc`, for the slot itself
pub freeproc : Proc → Proc
freeproc p = record p {
  trapframe = 0;
  pagetable = 0;
  sz = 0;
  pid = 0;
  parent = none;
  chan = 0;
  killed = 0;
  xstate = 0;
  state = ProcState.unused;
  smask = 0;
  interval = 0;
  nticks = 0;
  handler = 0;
  ctime = 0;
  rticks = 0;
  wticks = 0;
  pr = 0;
}

-- The first index from `i` on whose slot passes the test.
pub find_slot : (Proc → Bool) → ℕ → List Proc → Option ℕ
find_slot test i [] = none
find_slot test i (p ∷ ps) = let rest = find_slot test (suc i) ps in if test p then some i else rest

abbrev pub at_slot : ℕ → (Proc → Proc) → Procs → Procs
at_slot i f s = record s { table = map_from (λ j p. if i == j then f p else p) 0 s.table }

-- `allocproc` from its label `found` on, with the slot `i`: `kalloc` answers `tf` for the trap frame
-- and `proc_pagetable` then `pt`. A failure after the pid was given frees the slot again.
pub found : ℕ → ℕ → ℕ → Procs → Option ℕ × Procs
found tf pt i s =
    let s1 =
      at_slot i (fresh s.nextpid s.ticks) (record s { nextpid = (s.nextpid + 1) % 2 ^ 32 }) in
    if tf == 0
    then (none, at_slot i freeproc s1)
    else if pt == 0
    then (none, at_slot i (λ p. freeproc (record p { trapframe = tf })) s1)
    else (some i, at_slot i (λ p. record p { trapframe = tf; pagetable = pt }) s1)

pub allocproc : ℕ → ℕ → Procs → Option ℕ × Procs
allocproc tf pt s = elim (find_slot (λ p. is_unused p.state) 0 s.table) [
  | none ↦ (none, s)
  | some i ↦ found tf pt i s
]

-- What `fork` copies from the parent `p`, the slot `parent`, to the child.
pub inherit : ℕ → Proc → Proc → Proc
inherit parent p np = record np {
  sz = p.sz;
  static_p = p.static_p;
  parent = some parent;
  state = ProcState.runnable;
  smask = p.smask;
  tickets = p.tickets;
}

-- `fork` by the process `p` at `me` after `allocproc`, where `uvmcopy` answers `copied`.
pub fork_in : Bool → ℕ → Proc → ℕ → Option ℕ × Procs → Option ℕ × Procs
fork_in copied me p pid (none, s) = (none, s)
fork_in copied me p pid (some i, s) =
    if copied then (some pid, at_slot i (inherit me p) s) else (none, at_slot i freeproc s)

-- `none` is the result -1.
pub fork : ℕ → ℕ → Bool → ℕ → Proc → Procs → Option ℕ × Procs
fork tf pt copied me p s = fork_in copied me p s.nextpid (allocproc tf pt s)

-- `wakeup(chan)` called by the process at `me`
abbrev pub woken : Option ℕ → ℕ → ℕ → ℕ → Proc → Proc
woken me chan ticks j p =
    if is_me me j
    then p
    else if is_sleeping p.state && p.chan == chan
    then record p { state = ProcState.runnable; wtime = ticks }
    else p
  where
    is_me : Option ℕ → ℕ → Bool
    is_me none j = false
    is_me (some i) j = i == j

pub wakeup : Option ℕ → ℕ → Procs → Procs
wakeup me chan s = record s { table = map_from (woken me chan s.ticks) 0 s.table }

-- The part of `sleep` before it gives up the processor.
pub sleep : ℕ → ℕ → Procs → Procs
sleep me chan s =
    at_slot me (λ p. record p { chan = chan; state = ProcState.sleeping; stime = s.ticks }) s

-- `kill(pid)`: whether the process was found, and the table.
abbrev pub kill_proc : Proc → Proc
kill_proc p =
    if is_sleeping p.state
    then record p { killed = 1; state = ProcState.runnable }
    else record p { killed = 1 }

pub kill_from : ℕ → List Proc → Bool × List Proc
kill_from pid [] = (false, [])
kill_from pid (p ∷ ps) =
    let rest = kill_from pid ps in
    if p.pid == pid then (true, kill_proc p ∷ ps) else (rest.0, p ∷ rest.1)

pub kill : ℕ → Procs → Bool × Procs
kill pid s = let (found, t) = kill_from pid s.table in (found, record s { table = t })

-- `update_time`
pub update_time : Procs → Procs
update_time s = record s {
  table =
      map_from
        (λ _ p. if is_running p.state then record p { rtime = (p.rtime + 1) % 2 ^ 32 } else p) 0
        s.table;
}

-- `wait` and `exit` need the address of a slot, on which its process sleeps in `wait`.
module _ (addr : ℕ → ℕ) where
  -- One round of the loop of `reparent`.
  pub reparent_slot : ℕ → ℕ → Procs → Procs
  reparent_slot me i s = elim (get_elem? s.table i) [
    | none ↦ s
    | some pp ↦
        if is_child me pp
        then wakeup (some me) (addr s.initproc)
            (at_slot i (λ p. record p { parent = some s.initproc }) s)
        else s
  ]

  pub reparent : ℕ → Procs → Procs
  reparent me s = for_from (length s.table) 0 (reparent_slot me) s

  -- `wakeup(p->parent)` in `exit`
  pub wake_parent : ℕ → Option ℕ → Procs → Procs
  wake_parent me none s = wakeup (some me) 0 s
  wake_parent me (some i) s = wakeup (some me) (addr i) s

  -- `exit(status)` by the process at `me` up to its call of `sched`, its files closed; `none` is the
  -- panic of the first process.
  pub exit : ℕ → ℕ → Option ℕ → Procs → Option Procs
  exit status me parent s =
      if me == s.initproc
      then none
      else (let s1 = reparent me s in
          let s2 = wake_parent me parent s1 in
          some (
            at_slot me
              (λ p. record p { xstate = status; state = ProcState.zombie; etime = s2.ticks }) s2))

-- How one pass of the loop of `wait` ends: with the pid of a child whose slot it frees, with -1
-- because `copyout` failed or nobody is left to wait for, or asleep.
pub data WaitEnd : Type 0 where
  reaped : ℕ → Procs → WaitEnd
  faulted : WaitEnd
  childless : WaitEnd
  slept : WaitEnd

-- The scan of `wait`: the first zombie child from slot `i` on, and whether a child was met.
pub wait_scan : ℕ → ℕ → List Proc → Bool × Option ℕ
wait_scan me i [] = (false, none)
wait_scan me i (pp ∷ ps) =
    let rest = wait_scan me (suc i) ps in
    if is_child me pp then (if is_zombie pp.state then (true, some i) else (true, rest.1)) else rest

-- One pass of the loop of `wait(addr)` by the process at `me`; `copyout` answers whether it copied
-- the exit status, its second argument, to its first.
pub wait : (ℕ → ℕ → Bool) → ℕ → ℕ → Procs → WaitEnd
wait copyout addr me s =
    let (havekids, slot) = wait_scan me 0 s.table in
    elim slot [
      | none ↦ if not havekids || killed me s.table then childless else slept
      | some i ↦
          if not (addr == 0) && not (copyout addr (xstate_at i s.table))
          then faulted
          else reaped (pid_at i s.table) (at_slot i freeproc s)
    ]
