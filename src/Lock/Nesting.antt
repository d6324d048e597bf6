-- ===== src/Lock/Nesting.antt =====
-- kernel/spinlock.c: `push_off` and `pop_off` match.
use xv6_riscv.Base.{◌<◌, ◌≡◌, refl, ap, ◌∙◌, false, Option, none, some, arith, if◌then◌else◌, ◌==◌}
use xv6_riscv.Lock.{Cpu, push_off, pop_off}

-- Any nesting of `push_off` and `pop_off`: a sequence of matched pairs.
pub data Nested : Type 0 where
  none_left : Nested
  pair : Nested → Nested → Nested

-- `push_off`, what stands inside, `pop_off`, and what comes after.
pub run : Nested → Cpu → Option Cpu
run none_left c = some c
run (pair inside after) c = elim (run inside (push_off c)) [
  | none ↦ none
  | some d ↦ elim (pop_off d) [ none ↦ none | some e ↦ run after e ]
]

-- Between the calls, interrupts are off exactly where some `push_off` is open.
abbrev pub IsOff : Cpu → Type 0
IsOff c = 0 < c.noff → c.intr ≡ false

-- What a matched sequence leaves: the count and the interrupt bit, and inside another pair all.
abbrev pub Restored : Cpu → Option Cpu → Type 0
Restored c none = ⊥
Restored c (some d) = (d.noff ≡ c.noff) × (d.intr ≡ c.intr) × (0 < c.noff → d ≡ c)

abbrev closed : Cpu → Cpu
closed c = record c { intena = (if c.noff == 0 then c.intr else c.intena) }

pop-push : (c : Cpu) → IsOff c → pop_off (push_off c) ≡ some (closed c)
unfolding push_off pop_off
pop-push c off = ground (arith, off)

closed-Restored : (c : Cpu) → Restored c (some (closed c))
closed-Restored c = (refl, refl, λ h. ground arith)

push-IsOff : (c : Cpu) → IsOff (push_off c) × (0 < (push_off c).noff)
unfolding push_off
push-IsOff c = (λ h. ground arith, ground arith)

Restored-trans : (c d : Cpu) (o : Option Cpu) → Restored c (some d) → Restored d o → Restored c o
Restored-trans c d none h k = k
Restored-trans c d (some e) (a, b, f) (a', b', f') =
    (a' ∙ a, b' ∙ b, λ pos. f' (omega arith) ∙ f pos)

after-Restored :
    (c : Cpu) (after : Nested) (o : Option Cpu)
    → IsOff c
    → Restored (push_off c) o
    → Restored (closed c) (run after (closed c))
    → Restored c
        (elim o [ none ↦ none | some d ↦ elim (pop_off d) [ none ↦ none | some e ↦ run after e ] ])
after-Restored c after none off h k = h
after-Restored c after (some d) off (_, _, same) k =
    let e : pop_off d ≡ some (closed c) = ap pop_off (same (push-IsOff c).1) ∙ pop-push c off in
    rw e (Restored-trans c (closed c) (run after (closed c)) (closed-Restored c) k)

-- From a processor whose interrupts are off while it counts a push_off, any properly nested
-- sequence of push_off and pop_off does not panic, and leaves the count and the interrupt bit as
-- they were; inside another pair it leaves all of it as it was.
pub run-Restored : (k : Nested) (c : Cpu) → IsOff c → Restored c (run k c)
unfolding run
run-Restored none_left c off = (refl, refl, λ h. refl)
run-Restored (pair inside after) c off =
    after-Restored c after (run inside (push_off c)) off
      (run-Restored inside (push_off c) (push-IsOff c).0) (run-Restored after (closed c) off)
