-- ===== src/Lock/Tests.antt =====
-- kernel/spinlock.c and kernel/sleeplock.c: runs of two processors.
use xv6_riscv.Base.{◌<◌, ◌≡◌, refl, true, false, none, some, [], ◌∷◌, arith, count, update}
use xv6_riscv.Lock.{
  Cpu, Machine, initlock, push_off, begin_acquire, take, release, Sleeplock, initsleeplock,
  acquiresleep,
}
use xv6_riscv.Lock.World.{World, begins, takes, IsValid}
use xv6_riscv.Lock.Exclusion.{Reach, here, next, acquire_exclusive, locks_run}

abbrev awake : Cpu
awake = record { noff = 0; intena = false; intr = true }

abbrev start : World
start = record {
  machine = record { cpus = λ _. awake; locks = λ _. initlock };
  spins = λ _. none;
  held = λ _. [];
}

start-IsValid : IsValid start
unfolding initlock
start-IsValid = record {
  owned = λ c l. refl;
  counted = λ c. refl;
  dark = λ c pos. absurd (omega (arith, pos));
}

abbrev spun : World
spun = record {
  machine = record { cpus = update (λ _. awake) 0 (push_off awake); locks = λ _. initlock };
  spins = update (λ _. none) 0 (some 7);
  held = λ _. [];
}

abbrev taken : World
taken = record {
  machine = record {
    cpus = update (λ _. awake) 0 (push_off awake);
    locks = update (λ _. initlock) 7 (record { locked = true; cpu = some 0 });
  };
  spins = update (update (λ _. none) 0 (some 7)) 0 none;
  held = update (λ _. []) 0 (7 ∷ []);
}

to_spun : begin_acquire 0 7 start.machine ≡ some spun.machine
unfolding begin_acquire initlock
to_spun = refl

to_taken : take 0 7 spun.machine ≡ some taken.machine
unfolding take initlock
to_taken = refl

reached : Reach start taken
reached = next (next here (begins 0 7 refl to_spun)) (takes 0 7 refl to_taken)

acquire_exclusive_example :
    (count 7 (taken.held 1) ≡ 0)
    × ((take 1 7 taken.machine ≡ none) × ((taken.machine.cpus 0).intr ≡ false))
acquire_exclusive_example =
    acquire_exclusive {v = start} {w = taken} 0 1 7 start-IsValid reached (omega arith)
      (λ e. absurd (omega (arith, e)))

locks_run_example :
    (count 7 (taken.held 0) ≡ 0 → (m : Machine) × (begin_acquire 0 7 taken.machine ≡ some m))
    × (0 < count 7 (taken.held 0) → (m : Machine) × (release 0 7 taken.machine ≡ some m))
locks_run_example = locks_run {v = start} {w = taken} 0 7 start-IsValid reached

abbrev slept : Sleeplock
slept = record { locked = true; pid = 3 }

to_slept : acquiresleep 3 initsleeplock ≡ some slept
unfolding acquiresleep initsleeplock
to_slept = refl
