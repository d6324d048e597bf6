-- ===== src/Proc/Tests.antt =====
-- kernel/proc.c: runs on a table of three slots: the first process, its zombie child, a free slot.
use xv6_riscv.Base.{ℕ, Bool, ◌==◌, ◌*◌, ◌≡◌, refl, true, [], ◌∷◌, none, some, arith, get_elem?}
use xv6_riscv.Proc.{
  Proc, Procs, ProcState, fork, wait, kill, kill_from, allocproc, find_slot, found,
}
use xv6_riscv.Proc.Pids.{IsValid}
use xv6_riscv.Proc.Family.{forks, Step-IsValid}
use xv6_riscv.Proc.Reap.{WaitSpec, wait-WaitSpec}
use xv6_riscv.Proc.Doom.{kill_zero_dooms}

-- a zeroed slot, as `proc[]` has it at boot
abbrev pub blank : Proc
blank = record {
  state = ProcState.unused;
  chan = 0;
  killed = 0;
  xstate = 0;
  pid = 0;
  parent = none;
  sz = 0;
  pagetable = 0;
  trapframe = 0;
  smask = 0;
  interval = 0;
  handler = 0;
  nticks = 0;
  alarm_on = 0;
  ctime = 0;
  tickets = 0;
  pbs_rtime = 0;
  rtime = 0;
  stime = 0;
  static_p = 0;
  niceness = 0;
  wtime = 0;
  sch_no = 0;
  etime = 0;
  rticks = 0;
  wticks = 0;
  pr = 0;
}

abbrev first_proc : Proc
first_proc = record blank { state = ProcState.running; pid = 1; sz = 4096 }

abbrev three : Procs
three = record {
  table =
      first_proc
      ∷ record blank { state = ProcState.zombie; pid = 2; parent = some 0; xstate = 7 }
      ∷ blank
      ∷ [];
  nextpid = 3;
  ticks = 100;
  initproc = 0;
}

three-IsValid : IsValid three
three-IsValid = ground arith

Step-IsValid_example : IsValid (fork 4096 8192 true 0 first_proc three).1
Step-IsValid_example =
    Step-IsValid (λ i. i * 360) {s = three} (forks 4096 8192 true 0 first_proc (omega arith))
      three-IsValid

-- The copy of every status but 7 fails.
abbrev copies_seven : ℕ → ℕ → Bool
copies_seven addr status = status == 7

wait-WaitSpec_example : WaitSpec copies_seven 4096 0 three (wait copies_seven 4096 0 three)
wait-WaitSpec_example = wait-WaitSpec copies_seven 4096 0 three

gives_slot : (allocproc 4096 8192 (kill 0 three).1).0 ≡ some 2
unfolding allocproc kill kill_from find_slot found
gives_slot = refl

kill_zero_dooms_example :
    ((kill 0 three).0 ≡ true)
    × ((p : Proc) × ((get_elem? (allocproc 4096 8192 (kill 0 three).1).1.table 2 ≡ some p)
          × (p.killed ≡ 1)))
kill_zero_dooms_example = kill_zero_dooms 4096 8192 2 three three-IsValid gives_slot
