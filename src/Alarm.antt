-- ===== src/Alarm.antt =====
-- kernel/trap.c, kernel/sysproc.c and kernel/syscall.c: the alarm of a process. The timer interrupt
-- saves the trapframe in a new page and lets the process go on in its handler; `sigreturn` brings the
-- trapframe back. A trapframe is a page of the allocator; `none` is a panic, or a fault in the kernel by a
-- null pointer. An `int` is its 32-bit word.
pub mod Deliver
pub mod Restore
pub mod Tests
use xv6_riscv.Base.{
  ℕ, ◌+◌, ◌%◌, ◌^◌, Bool, true, false, Option, none, some, update, if◌then◌else◌, ◌==◌,
}
use xv6_riscv.Kalloc.{Mem, ◌>>=◌, kalloc, kfree}
use xv6_riscv.Vm.User.{int_of}

-- The fields of `struct proc` for the alarm; a null pointer is 0.
pub record Alarm : Type 0 where
  pub trapframe : ℕ
  pub interval : ℕ
  pub handler : ℕ
  pub nticks : ℕ
  pub alarm_on : ℕ
  pub alarm_context : ℕ

-- the words of a trapframe
abbrev pub epc : ℕ
epc = 3

abbrev pub a0 : ℕ
a0 = 14

abbrev pub put_field : ℕ → ℕ → ℕ → Mem → Mem
put_field p i v m = record m { page = update m.page p (update (m.page p) i v) }

unfoldable pub sys_sigalarm : ℕ → ℕ → Alarm → ℕ × Alarm
sys_sigalarm interval handler p = (0, record p { interval = interval % 2 ^ 32; handler = handler })

-- `usertrap` starts the handler.
unfoldable pub deliver : Alarm → Mem → Option (Alarm × Mem)
deliver p m = kalloc m >>= λ r.
    if r.0 == 0
    then none
    else some (
      record p { alarm_context = r.0; alarm_on = 1 },
      put_field p.trapframe epc p.handler
          (record r.1 { page = update r.1.page r.0 (r.1.page p.trapframe) }),
    )

-- The alarm's part of `usertrap` on a timer interrupt.
unfoldable pub tick : Alarm → Mem → Option (Alarm × Mem)
tick p m =
    if p.alarm_on == 0
    then (let q = record p { nticks = (p.nticks + 1) % 2 ^ 32 } in
        if q.nticks == q.interval then deliver q m else some (q, m))
    else some (p, m)

-- The result is an `int` made a `uint64`.
unfoldable pub sys_sigreturn : ℕ → Alarm → Mem → Option (ℕ × (Alarm × Mem))
sys_sigreturn kend p m =
    if p.alarm_context == 0
    then none
    else (kfree kend p.alarm_context
          (record m { page = update m.page p.trapframe (m.page p.alarm_context) })
        >>= λ m1. some (
          int_of (m.page p.alarm_context a0),
          (record p { alarm_on = 0; nticks = 0; alarm_context = 0 }, m1),
        ))

-- `syscall` for `sigreturn`: the result goes to register `a0` of the trapframe.
unfoldable pub sigreturn : ℕ → Alarm → Mem → Option (Alarm × Mem)
sigreturn kend p m =
    sys_sigreturn kend p m >>= λ r. some (r.1.0, put_field p.trapframe a0 r.0 r.1.1)
