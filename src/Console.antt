-- ===== src/Console.antt =====
-- kernel/console.c: the line editor of the console. `cons.lock` is held from the start of a call to its
-- sleep or return, so what runs between two sleeps is one step. The serial port is what is sent to
-- it; the list of processes that ^P prints is left out. What `killed` and `copyout` answer is an
-- argument.
pub mod Ring
pub mod Editing
pub mod Typing
pub mod Reading
pub mod Delivery
pub mod Tests
use xv6_riscv.Base.{
  ℕ, zero, suc, ◌+◌, ◌-◌, ◌%◌, ◌^◌, Bool, true, false, ◌&&◌, ◌||◌, not, List, [], ◌∷◌, ◌++◌, update,
  if◌then◌else◌, ltb, ◌==◌,
}

abbrev pub input_buf_size : ℕ
input_buf_size = 128

abbrev pub backspace : ℕ
backspace = 256

-- `C('P')`, `C('U')`, `C('H')` and `C('D')`
abbrev pub ctrl_p : ℕ
ctrl_p = 16

abbrev pub ctrl_u : ℕ
ctrl_u = 21

abbrev pub ctrl_h : ℕ
ctrl_h = 8

abbrev pub ctrl_d : ℕ
ctrl_d = 4

abbrev pub delete : ℕ
delete = 127

abbrev pub newline : ℕ
newline = 10

-- `cons`, without its lock; the indices are `uint` and wrap.
pub record Cons : Type 0 where
  pub buf : ℕ → ℕ
  pub r : ℕ
  pub w : ℕ
  pub e : ℕ

-- The bytes that `consputc` sends.
pub consputc : ℕ → List ℕ
consputc c = if c == backspace then 8 ∷ 32 ∷ 8 ∷ [] else c ∷ []

-- What an interrupt leaves: the buffer, the echo, and whether it wakes the readers.
pub record Interrupt : Type 0 where
  pub cons : Cons
  pub echo : List ℕ
  pub wakes : Bool

-- `cons.e--`
abbrev pub erase : Cons → Cons
erase c = record c { e = (c.e + 2 ^ 32 - 1) % 2 ^ 32 }

-- The loop of ^U, with fuel for the bytes of the buffer.
pub kill_line : ℕ → Cons → List ℕ → Interrupt
kill_line zero c sent = record { cons = c; echo = sent; wakes = false }
kill_line (suc fuel) c sent =
    let rest = kill_line fuel (erase c) (sent ++ consputc backspace) in
    if not (c.e == c.w) && not (c.buf ((c.e + 2 ^ 32 - 1) % 2 ^ 32 % input_buf_size) == newline)
    then rest
    else record { cons = c; echo = sent; wakes = false }

-- `cons.buf[cons.e++ % INPUT_BUF_SIZE] = c`
abbrev pub store : ℕ → Cons → Cons
store ch c = record c { buf = update c.buf (c.e % input_buf_size) ch; e = (c.e + 1) % 2 ^ 32 }

-- `cons.e-cons.r`
abbrev pub filled : Cons → ℕ
filled c = (c.e + 2 ^ 32 - c.r) % 2 ^ 32

-- The default case, after its test.
pub accept : ℕ → Cons → Interrupt
accept ch c =
    let ch' = if ch == 13 then newline else ch in
    let c1 = store ch' c in
    if ch' == newline || (ch' == ctrl_d || filled c1 == input_buf_size)
    then record { cons = record c1 { w = c1.e }; echo = consputc ch'; wakes = true }
    else record { cons = c1; echo = consputc ch'; wakes = false }

pub consoleintr : ℕ → Cons → Interrupt
consoleintr ch c =
    if ch == ctrl_p
    then record { cons = c; echo = []; wakes = false }
    else if ch == ctrl_u
    then kill_line input_buf_size c []
    else if ch == ctrl_h || ch == delete
    then (if c.e == c.w
        then record { cons = c; echo = []; wakes = false }
        else record { cons = erase c; echo = consputc backspace; wakes = false })
    else if not (ch == 0) && ltb (filled c) input_buf_size
    then accept ch c
    else record { cons = c; echo = []; wakes = false }

-- How a step of `consoleread` ends: it returns -1, sleeps with `n` bytes to go, or returns with `n`
-- bytes not read; and the bytes copied out.
pub data ReadEnd : Type 0 where
  failed : Cons → List ℕ → ReadEnd
  slept : ℕ → Cons → List ℕ → ReadEnd
  returned : ℕ → Cons → List ℕ → ReadEnd

-- The loop of `consoleread` with `n` bytes to go, after the bytes `out`; `copyout` answers whether it
-- copied the byte with so many to go.
pub consoleread : Bool → (ℕ → Bool) → ℕ → ℕ → Cons → List ℕ → ReadEnd
consoleread killed copyout target zero c out = returned 0 c out
consoleread killed copyout target (suc n) c out =
    let ch = c.buf (c.r % input_buf_size) in
    let c1 = record c { r = (c.r + 1) % 2 ^ 32 } in
    let rest = consoleread killed copyout target n c1 (out ++ ch ∷ []) in
    if c.r == c.w
    then (if killed then failed c out else slept (suc n) c out)
    else if ch == ctrl_d
    then returned (suc n)
        (if ltb (suc n) target then record c1 { r = (c1.r + 2 ^ 32 - 1) % 2 ^ 32 } else c1) out
    else if not (copyout (suc n))
    then returned (suc n) c1 out
    else if ch == newline
    then returned n c1 (out ++ ch ∷ [])
    else rest
