-- ===== src/Alarm/Tests.antt =====
-- kernel/trap.c and kernel/sysproc.c: an alarm in a small space, whose trapframe is a page of its own.
use xv6_riscv.Base.{◌≡◌, ◌≢◌, refl, arith, false, some, ◌∷◌, update}
use xv6_riscv.Kalloc.{Mem, kalloc, count_fresh, memref_lock, memref_unlock, memref_set, fill, frame}
use xv6_riscv.Kalloc.Ledger.{Heap}
use xv6_riscv.Vm.Space.{kernel_end, user_page, free_page, space, space-Good}
use xv6_riscv.Alarm.{Alarm, tick, deliver, sigreturn, put_field, epc}
use xv6_riscv.Alarm.Deliver.{Ticked, tick-Ticked}
use xv6_riscv.Alarm.Restore.{Restored, tick-Delivered, sigreturn-Restored}

abbrev waiting : Alarm
waiting = record {
  trapframe = user_page;
  interval = 2;
  handler = 0x40;
  nticks = 1;
  alarm_on = 0;
  alarm_context = 0;
}

abbrev handling : Alarm
handling = record waiting { nticks = 2; alarm_on = 1; alarm_context = free_page }

abbrev entered : Mem
entered = put_field user_page epc 0x40 (record (space.mem) {
  page =
      update (update space.mem.page free_page (fill 5)) free_page
        (update space.mem.page free_page (fill 5) user_page);
  freelist = space.mem.page free_page 0;
  refs = update space.mem.refs (frame free_page) 1;
  locked = false;
})

abbrev in_handler : Heap
in_handler = record { mem = entered; held = free_page ∷ space.held }

runs : tick waiting space.mem ≡ some (handling, entered)
unfolding tick deliver kalloc count_fresh memref_lock memref_unlock memref_set
runs = refl

tick-Ticked_example : Ticked kernel_end waiting space (tick waiting space.mem)
tick-Ticked_example =
    tick-Ticked kernel_end waiting space (omega arith) space-Good.balanced (omega arith)

is_on : handling.alarm_on ≢ 0
is_on e = absurd (omega (arith, e))

sigreturn-Restored_example :
    (r : Alarm) × ((m3 : Mem) × ((sigreturn kernel_end handling in_handler.mem ≡ some (r, m3))
        × Restored kernel_end waiting handling space in_handler r m3))
sigreturn-Restored_example =
    sigreturn-Restored kernel_end waiting handling space entered in_handler (omega arith)
      space-Good.balanced (omega arith) refl is_on runs
      (tick-Delivered kernel_end waiting handling space entered (omega arith) space-Good.balanced
        (omega arith) refl is_on runs).balanced
      (omega arith) (omega arith) (λ k. refl)
