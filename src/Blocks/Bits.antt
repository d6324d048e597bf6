-- ===== src/Blocks/Bits.antt =====
-- kernel/fs.c: the bits of a byte.
use xv6_riscv.Base.{ℕ, zero, suc, ◌+◌, ◌*◌, ◌/◌, ◌%◌, ◌≡◌, ◌≢◌, refl, ap, ◌∙◌, arith}
use xv6_riscv.Blocks.{bit, set_bit, clear_bit}

half : (y x : ℕ) → (y * 2 + x % 2) / 2 ≡ y
half y x = omega arith

low : (y x : ℕ) → (y * 2 + x % 2) % 2 ≡ x % 2
low y x = omega arith

pub bit-set_self : (x k : ℕ) → bit (set_bit x k) k ≡ 1
unfolding bit set_bit
bit-set_self x zero = omega arith
bit-set_self x (suc k) = ap (λ y. bit y k) (half (set_bit (x / 2) k) x) ∙ bit-set_self (x / 2) k

pub bit-set_ne : (x i k : ℕ) → i ≢ k → bit (set_bit x k) i ≡ bit x i
unfolding bit set_bit
bit-set_ne x zero zero ne = absurd (ne refl)
bit-set_ne x zero (suc k) ne = low (set_bit (x / 2) k) x
bit-set_ne x (suc i) zero ne = ap (λ y. bit y i) (omega arith)
bit-set_ne x (suc i) (suc k) ne =
    ap (λ y. bit y i) (half (set_bit (x / 2) k) x) ∙ bit-set_ne (x / 2) i k (λ e. ne (ap suc e))

pub bit-clear_self : (x k : ℕ) → bit (clear_bit x k) k ≡ 0
unfolding bit clear_bit
bit-clear_self x zero = omega arith
bit-clear_self x (suc k) =
    ap (λ y. bit y k) (half (clear_bit (x / 2) k) x) ∙ bit-clear_self (x / 2) k

pub bit-clear_ne : (x i k : ℕ) → i ≢ k → bit (clear_bit x k) i ≡ bit x i
unfolding bit clear_bit
bit-clear_ne x zero zero ne = absurd (ne refl)
bit-clear_ne x zero (suc k) ne = low (clear_bit (x / 2) k) x
bit-clear_ne x (suc i) zero ne = ap (λ y. bit y i) (omega arith)
bit-clear_ne x (suc i) (suc k) ne =
    ap (λ y. bit y i) (half (clear_bit (x / 2) k) x) ∙ bit-clear_ne (x / 2) i k (λ e. ne (ap suc e))

pub clear-set : (x k : ℕ) → bit x k ≡ 0 → clear_bit (set_bit x k) k ≡ x
unfolding bit set_bit clear_bit
clear-set x zero z = omega (arith, z)
clear-set x (suc k) z =
    ap (λ y. clear_bit y k * 2 + (set_bit (x / 2) k * 2 + x % 2) % 2) (half (set_bit (x / 2) k) x)
    ∙ (ap (λ y. y * 2 + (set_bit (x / 2) k * 2 + x % 2) % 2) (clear-set (x / 2) k z) ∙ omega arith)
