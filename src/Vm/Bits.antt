-- ===== src/Vm/Bits.antt =====
-- kernel/riscv.h: the fields of an entry and of an address.
use xv6_riscv.Base.{ℕ, ◌+◌, ◌/◌, ◌%◌, ◌^◌, ◌<◌, ◌≡◌, true, arith}
use xv6_riscv.Vm.{px, pa2pte, pte2pa, leaf, is_valid, maxva}

pub px_lt : (level va : ℕ) → px level va < 512
px_lt level va = omega arith

-- The page of an address is its three indices.
pub px_inj :
    (va va' : ℕ)
    → va < maxva
    → va' < maxva
    → px 2 va ≡ px 2 va'
    → px 1 va ≡ px 1 va'
    → px 0 va ≡ px 0 va'
    → va / 4096 ≡ va' / 4096
px_inj va va' lt lt' e2 e1 e0 = omega (arith, lt, lt', e2, e1, e0)

pub px-page : (va va' : ℕ) → va / 4096 ≡ va' / 4096 → px 2 va ≡ px 2 va'
px-page va va' e = omega (arith, e)

pub pte2pa-leaf :
    (pa flags : ℕ) → pa % 4096 ≡ 0 → pa < 2 ^ 56 → flags < 1024 → pte2pa (leaf pa flags) ≡ pa
pte2pa-leaf pa flags z lt f = omega (arith, z, lt, f)

pub pte2pa-table : (pa : ℕ) → pa % 4096 ≡ 0 → pa < 2 ^ 56 → pte2pa (pa2pte pa + 1) ≡ pa
pte2pa-table pa z lt = omega (arith, z, lt)

pub leaf-is_valid : (pa flags : ℕ) → is_valid (leaf pa flags) ≡ true
leaf-is_valid pa flags = ground arith
