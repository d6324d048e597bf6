-- ===== src/Strings/Tests.antt =====
-- kernel/string.c: runs on small memories.
use xv6_riscv.Base.{ℕ, ◌+◌, ◌%◌, ◌≤◌, ◌<◌, ◌≡◌, ◌≢◌, refl, arith, update}
use xv6_riscv.Strings.{Memory, memmove, strlen}
use xv6_riscv.Strings.Move.{Copied, memmove-Copied}
use xv6_riscv.Strings.Compare.{strlen_first}

-- each address holds its low byte
abbrev counting : Memory
counting a = a % 256

-- three letters at 100, then a zero
abbrev letters : Memory
letters = update (λ _. 65) 103 0

memmove-Copied_example : Copied 102 100 0 5 counting (memmove 102 100 5 counting)
memmove-Copied_example = memmove-Copied 102 100 5 counting

strlen_first_example :
    (strlen 10 100 letters ≤ 3)
    × (letters (100 + strlen 10 100 letters) ≡ 0)
    × ((i : ℕ) → i < strlen 10 100 letters → letters (100 + i) ≢ 0)
strlen_first_example = strlen_first 10 100 3 letters (omega arith) refl
