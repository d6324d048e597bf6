-- ===== src/Lock/Sleep.antt =====
-- kernel/sleeplock.c: who holds a sleep lock.
use xv6_riscv.Base.{ℕ, ◌≡◌, ◌≢◌, refl, true, false, some, none, arith}
use xv6_riscv.Lock.{Sleeplock, acquiresleep, releasesleep, holdingsleep}

-- Who takes a free sleep lock holds it, and nobody else does or can, until it is released.
pub acquiresleep_lem :
    (pid other : ℕ) (lk lk' : Sleeplock)
    → acquiresleep pid lk ≡ some lk'
    → other ≢ pid
    → (holdingsleep pid lk' ≡ true)
      × ((holdingsleep other lk' ≡ false)
          × ((acquiresleep other lk' ≡ none)
              × ((next : Sleeplock) × (acquiresleep other (releasesleep lk') ≡ some next))))
unfolding acquiresleep holdingsleep releasesleep
acquiresleep_lem pid other lk lk' e ne = (
  ground (arith, e),
  (ground (arith, e, ne), (ground (arith, e), (record { locked = true; pid = other }, refl))),
)
