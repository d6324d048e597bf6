-- ===== src/Sched/Tests.antt =====
-- kernel/proc.c: runs of the choices and the queues.
use xv6_riscv.Base.{ℕ, ◌+◌, ◌≡◌, refl, List, [], ◌∷◌, ◌++◌, true}
use xv6_riscv.Proc.{Proc, ProcState}
use xv6_riscv.Proc.Tests.{blank}
use xv6_riscv.Sched.{fcfs_choose, dequeue}
use xv6_riscv.Sched.Earliest.{Earliest, fcfs_choose-Earliest}
use xv6_riscv.Sched.Queues.{row, is_in, without, dequeue_full}

abbrev waiting : ℕ → Proc
waiting ctime = record blank { state = ProcState.runnable; pid = ctime; ctime = ctime }

abbrev several : List Proc
several = waiting 30 ∷ blank ∷ waiting 10 ∷ waiting 20 ∷ []

abbrev pid_of : ℕ → ℕ
pid_of slot = slot + 1

fcfs_choose-Earliest_example : Earliest several (fcfs_choose several)
fcfs_choose-Earliest_example = fcfs_choose-Earliest several

has_four : is_in pid_of 4 (4 ∷ 5 ∷ []) ≡ true
unfolding is_in
has_four = refl

dequeue_full_example :
    dequeue pid_of 4 (row ((4 ∷ 5 ∷ []) ++ 6 ∷ []) 0)
    ≡ row (without pid_of 4 (4 ∷ 5 ∷ []) ++ 6 ∷ 6 ∷ []) 0
dequeue_full_example = dequeue_full pid_of 4 6 (4 ∷ 5 ∷ []) has_four
