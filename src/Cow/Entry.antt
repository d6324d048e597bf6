-- ===== src/Cow/Entry.antt =====
-- kernel/riscv.h: the bits of an entry that copy-on-write changes.
use xv6_riscv.Base.{ℕ, ◌<◌, ◌≡◌, true, arith}
use xv6_riscv.Vm.{is_valid, pte2pa, pte_flags, leaf}
use xv6_riscv.Cow.{own}

pub own-flags : (pte : ℕ) → pte_flags (own pte) ≡ own (pte_flags pte)
own-flags pte = ground arith

pub own-page : (pte : ℕ) → pte2pa (own pte) ≡ pte2pa pte
own-page pte = ground arith

pub own-is_valid : (pte : ℕ) → is_valid (own pte) ≡ is_valid pte
own-is_valid pte = ground arith

pub own_lt : (pte : ℕ) → own (pte_flags pte) < 1024
own_lt pte = ground arith

-- A fresh leaf has the flags it is given.
pub leaf-flags :
    (pa flags : ℕ) → flags < 1024 → is_valid flags ≡ true → pte_flags (leaf pa flags) ≡ flags
leaf-flags pa flags lt e = ground (arith, lt, e)

pub flags-is_valid : (pte : ℕ) → is_valid (pte_flags pte) ≡ is_valid pte
flags-is_valid pte = ground arith
