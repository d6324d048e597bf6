-- ===== src/Pipe.antt =====
-- kernel/pipe.c: the ring of a pipe. `pi->lock` is held from the start of a call to its sleep or
-- return, so what runs between two sleeps is one step: it ends by a return or by a sleep, after
-- which the call goes on from the same `i`. What `copyin`, `copyout` and `killed` answer in round
-- `i` is an argument.
pub mod Ring
pub mod Transfer
pub mod Traffic
pub mod Tests
use xv6_riscv.Base.{
  ℕ, zero, suc, ◌+◌, ◌-◌, ◌%◌, ◌^◌, Bool, true, false, ◌||◌, ◌&&◌, not, List, [], ◌∷◌, ◌++◌, Option,
  none, some, update, if◌then◌else◌, ◌==◌,
}
use xv6_riscv.Store.{inc32}

abbrev pub pipe_size : ℕ
pipe_size = 512

-- `struct pipe`, without its lock; the counters are `uint` and wrap.
pub record Pipe : Type 0 where
  pub buf : ℕ → ℕ
  pub nread : ℕ
  pub nwrite : ℕ
  pub readopen : Bool
  pub writeopen : Bool

-- the pipe that `pipealloc` sets up in a fresh page
pub init : (ℕ → ℕ) → Pipe
init page = record { buf = page; nread = 0; nwrite = 0; readopen = true; writeopen = true }

-- `pi->data[pi->nwrite++ % PIPESIZE] = ch`
pub put : ℕ → Pipe → Pipe
put ch p = record p { buf = update p.buf (p.nwrite % pipe_size) ch; nwrite = inc32 p.nwrite }

-- `ch = pi->data[pi->nread++ % PIPESIZE]`
pub next_byte : Pipe → ℕ
next_byte p = p.buf (p.nread % pipe_size)

pub skip : Pipe → Pipe
skip p = record p { nread = inc32 p.nread }

abbrev pub is_full : Pipe → Bool
is_full p = p.nwrite == (p.nread + pipe_size) % 2 ^ 32

abbrev pub is_empty : Pipe → Bool
is_empty p = p.nread == p.nwrite

-- How a step of `pipewrite` ends: it returns -1, sleeps on `nwrite` before byte `i`, or returns `i`.
pub data WriteEnd : Type 0 where
  failed : Pipe → WriteEnd
  slept : ℕ → Pipe → WriteEnd
  wrote : ℕ → Pipe → WriteEnd

-- The loop of `pipewrite` from `i`, with `k = n - i` rounds left.
pub write_loop : (ℕ → Bool) → (ℕ → Option ℕ) → ℕ → ℕ → Pipe → WriteEnd
write_loop killed src zero i p = wrote i p
write_loop killed src (suc k) i p =
    let next : WriteEnd = elim (src i) [
      | none ↦ wrote i p
      | some ch ↦ write_loop killed src k (suc i) (put ch p)
    ] in
    if not p.readopen || killed i then failed p else if is_full p then slept i p else next

pub pipewrite : (ℕ → Bool) → (ℕ → Option ℕ) → ℕ → Pipe → WriteEnd
pipewrite killed src n p = write_loop killed src n 0 p

-- How a step of `piperead` ends; `got` is what was copied out, and the return value its length.
pub data ReadEnd : Type 0 where
  failed : Pipe → ReadEnd
  slept : Pipe → ReadEnd
  read : List ℕ → Pipe → ReadEnd

-- The copy loop of `piperead`; `dst i` says whether `copyout` of byte `i` succeeds.
pub read_loop : (ℕ → Bool) → ℕ → ℕ → Pipe → List ℕ × Pipe
read_loop dst zero i p = ([], p)
read_loop dst (suc k) i p =
    let rest = read_loop dst k (suc i) (skip p) in
    if is_empty p then ([], p) else if dst i then (next_byte p ∷ rest.0, rest.1) else ([], skip p)

pub piperead : Bool → (ℕ → Bool) → ℕ → Pipe → ReadEnd
piperead killed dst n p =
    if is_empty p && p.writeopen
    then (if killed then ReadEnd.failed p else ReadEnd.slept p)
    else (let (got, p') = read_loop dst n 0 p in read got p')

-- The pipe after `pipeclose`, or `none` where it frees the page.
pub pipeclose : Bool → Pipe → Option Pipe
pipeclose writable p =
    let p' : Pipe =
      if writable then record p { writeopen = false } else record p { readopen = false } in
    if not p'.readopen && not p'.writeopen then none else some p'
