-- ===== src/Cow/Resolve.antt =====
-- kernel/trap.c: `handleCOW` on a page that is marked for it.
use xv6_riscv.Base.{ℕ, zero, suc, ◌<◌, ◌≡◌, false, ◌∷◌, count, remove, ◌⊎◌, Option, none, some}
use xv6_riscv.Kalloc.{Mem}
use xv6_riscv.Kalloc.Ledger.{Heap}
use xv6_riscv.Vm.{pte2pa}
use xv6_riscv.Vm.Tree.{lookup}
use xv6_riscv.Cow.Fault.{Owned}
use xv6_riscv.Cow.Run.{locked}

-- The only holder of the page keeps it; any other gets a page that nobody held; where there is none, the
-- result is 1, and the switch for the lock in `kalloc` is left off.
abbrev pub Resolved : ℕ → ℕ → ℕ → Heap → Option (ℕ × Mem) → Type 0
Resolved kend root a h none = ⊥
Resolved kend root a h (some (zero, m)) =
    ((count (pte2pa (lookup h.mem.page root a)) h.held ≡ 1)
      × Owned kend root a h (record { mem = m; held = h.held }))
    ⊎ ((r : ℕ) × ((count r h.held ≡ 0)
          × Owned kend root a h
              (record { mem = m; held = remove (pte2pa (lookup h.mem.page root a)) (r ∷ h.held) })))
Resolved kend root a h (some (suc k, m)) =
    (h.mem.freelist ≡ 0)
    × ((1 < count (pte2pa (lookup h.mem.page root a)) h.held)
        × (m ≡ record (h.mem) { locked = false; lock_kalloc = false }))
