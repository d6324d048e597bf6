-- ===== src/Console/Tests.antt =====
-- kernel/console.c: `ab`, a backspace, `c` and a return; and a read of two bytes.
use xv6_riscv.Base.{ℕ, ◌≡◌, refl, Bool, false, not, List, [], ◌∷◌, arith, if◌then◌else◌, ◌==◌}
use xv6_riscv.Console.{Cons, consoleintr, accept, consoleread}
use xv6_riscv.Console.Ring.{ready, line, IsValid}
use xv6_riscv.Console.Editing.{Shows, typed}
use xv6_riscv.Console.Typing.{consoleintr-Shows}
use xv6_riscv.Console.Reading.{Reads}
use xv6_riscv.Console.Delivery.{consoleread-Reads}

-- The indices are about to wrap.
abbrev start : Cons
start = record { buf = λ _. 0; r = 4294967295; w = 4294967295; e = 4294967295 }

start-IsValid : IsValid start
start-IsValid = record {
  r_fits = omega arith;
  w_fits = omega arith;
  e_fits = omega arith;
  bounded = omega arith;
  no_end = tt;
}

abbrev after_typing : List ℕ → Cons → Cons
after_typing [] c = c
after_typing (b ∷ bs) c = after_typing bs (consoleintr b c).cons

whole_line : ready (after_typing (97 ∷ 98 ∷ 8 ∷ 99 ∷ 13 ∷ []) start) ≡ 97 ∷ 99 ∷ 10 ∷ []
unfolding consoleintr accept
whole_line = refl

consoleintr-Shows_example : Shows (consoleintr 13 start) (typed 13 (ready start) (line start))
consoleintr-Shows_example = consoleintr-Shows 13 start start-IsValid

-- `ab` and the end of a line
abbrev a_line : Cons
a_line = record { buf = λ i. if i == 0 then 97 else if i == 1 then 98 else 10; r = 0; w = 3; e = 3 }

a_line-IsValid : IsValid a_line
a_line-IsValid = record {
  r_fits = omega arith;
  w_fits = omega arith;
  e_fits = omega arith;
  bounded = omega arith;
  no_end = tt;
}

-- The copy of the second of nine bytes fails.
abbrev second_fails : ℕ → Bool
second_fails n = not (n == 8)

consoleread-Reads_example :
    Reads false second_fails 9 9 a_line [] (consoleread false second_fails 9 9 a_line [])
consoleread-Reads_example = consoleread-Reads false second_fails 9 9 a_line [] a_line-IsValid
