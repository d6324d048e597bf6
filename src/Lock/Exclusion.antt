-- ===== src/Lock/Exclusion.antt =====
-- kernel/spinlock.c: any interleaving of the processors' calls.
use xv6_riscv.Base.{count, length_pos, ℕ, ◌<◌, ◌≡◌, ◌≢◌, false, none, some, arith, update}
use xv6_riscv.Lock.World.{World, Step, IsValid, release_own, Step-IsValid}
use xv6_riscv.Lock.{Machine, holding, push_off, begin_acquire, take, release}

pub data Reach (start : World) : World → Type 0 where
  here : Reach start start
  next : {v w : World} → Reach start v → Step v w → Reach start w

Reach-IsValid : {v w : World} → IsValid v → Reach v w → IsValid w
Reach-IsValid v here = v
Reach-IsValid v (next r s) = Step-IsValid s (Reach-IsValid v r)

-- After any interleaving of the steps of acquire and release from a valid state, if a processor
-- has a lock then no other has it or takes it in its loop, and the processor that has it has its
-- interrupts off.
pub acquire_exclusive :
    {v w : World} (c d l : ℕ)
    → IsValid v
    → Reach v w
    → 0 < count l (w.held c)
    → c ≢ d
    → (count l (w.held d) ≡ 0) × ((take d l w.machine ≡ none) × ((w.machine.cpus c).intr ≡ false))
unfolding take
acquire_exclusive {v} {w} c d l valid r own ne =
    let i : IsValid w = Reach-IsValid valid r in
    (
      ground (arith, i.owned c l, i.owned d l, own, ne),
      (
        ground (arith, i.owned c l, own),
        i.dark c (omega (arith, i.counted c, length_pos l (w.held c) own)),
      ),
    )

-- After any interleaving of the steps of acquire and release from a valid state, acquire of a
-- lock that the processor has not, and release of one that it has, do not panic.
pub locks_run :
    {v w : World} (c l : ℕ)
    → IsValid v
    → Reach v w
    → (count l (w.held c) ≡ 0 → (m : Machine) × (begin_acquire c l w.machine ≡ some m))
      × (0 < count l (w.held c) → (m : Machine) × (release c l w.machine ≡ some m))
unfolding begin_acquire
locks_run {v} {w} c l valid r =
    let i : IsValid w = Reach-IsValid valid r in
    (
      λ none_held.
          let other : holding c (w.machine.locks l) ≡ false =
            ground (arith, i.owned c l, none_held) in
          (
            record (w.machine) { cpus = update w.machine.cpus c (push_off (w.machine.cpus c)) },
            rw other,
          ),
      λ own. let (d, (e, _)) = release_own w c l i own in (_, e),
    )
