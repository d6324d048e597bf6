-- ===== src/Bio/Tests.antt =====
-- kernel/bio.c: runs on a cache of three buffers.
use xv6_riscv.Base.{List, [], ◌∷◌}
use xv6_riscv.Bio.{binit}
use xv6_riscv.Bio.Unique.{Unique}
use xv6_riscv.Bio.Steps.{Call, reads, releases, run, run-Unique}

abbrev some_calls : List Call
some_calls = reads (λ b i. b) 1 33 ∷ reads (λ b i. b) 1 34 ∷ releases 2 ∷ reads (λ b i. b) 1 33 ∷ []

run-Unique_example : Unique (run some_calls (binit 3))
run-Unique_example = run-Unique some_calls 3
