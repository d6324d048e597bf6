-- ===== src/Pipe/Tests.antt =====
-- kernel/pipe.c: runs on a fresh pipe.
use xv6_riscv.Base.{ℕ, ◌+◌, sym, Bool, true, false, [], ◌∷◌, Option, some, arith}
use xv6_riscv.Pipe.{Pipe, init, read_loop}
use xv6_riscv.Pipe.Ring.{IsValid, init-IsValid}
use xv6_riscv.Pipe.Transfer.{Taken, read_loop-Taken}
use xv6_riscv.Pipe.Traffic.{writes, reads, closes, Traffic, run, Flows, run-Flows}

abbrev blank_page : ℕ → ℕ
blank_page i = 0

abbrev alive : ℕ → Bool
alive i = false

-- the bytes 65, 66, 67, …
abbrev letters : ℕ → Option ℕ
letters i = some (65 + i)

abbrev fresh_pipe : Traffic
fresh_pipe = record { pipe = init blank_page; ins = []; outs = [] }

fresh_pipe-Flows : Flows fresh_pipe
fresh_pipe-Flows =
    let (valid, empty) = init-IsValid blank_page in record { valid = valid; flows = sym empty }

run-Flows_example :
    Flows
      (run (writes alive letters 3 0 ∷ reads false 2 ∷ closes true ∷ reads false 9 ∷ []) fresh_pipe)
run-Flows_example =
    run-Flows (writes alive letters 3 0 ∷ reads false 2 ∷ closes true ∷ reads false 9 ∷ [])
      fresh_pipe fresh_pipe-Flows

-- a pipe with one byte in it, whose counters are about to wrap
abbrev wrapping : Pipe
wrapping = record {
  buf = λ i. i;
  nread = 4294967295;
  nwrite = 0;
  readopen = true;
  writeopen = true;
}

wrapping-IsValid : IsValid wrapping
wrapping-IsValid = record {
  nread_fits = omega arith;
  nwrite_fits = omega arith;
  bounded = omega arith;
}

read_loop-Taken_example : Taken (λ _. true) 2 0 wrapping (read_loop (λ _. true) 2 0 wrapping)
read_loop-Taken_example = read_loop-Taken (λ _. true) 2 0 wrapping wrapping-IsValid
