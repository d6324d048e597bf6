-- ===== src/Files/Tests.antt =====
-- kernel/file.c: runs on a table of two files.
use xv6_riscv.Base.{
  ℕ, ◌≡◌, refl, true, false, Option, some, List, [], ◌∷◌, arith, zero, suc, get_elem?, count,
}
use xv6_riscv.Files.{
  File, FileType, filealloc, filedup, fileclose, Released, nothing, Write, write_loop,
}
use xv6_riscv.Files.Refs.{Ledger, allocs, dups, closes, sets, Balanced}
use xv6_riscv.Files.History.{Closed, Reach, here, next, fileclose_held}
use xv6_riscv.Files.Chunks.{Looped, write_loop-Looped}

abbrev free_file : File
free_file = record {
  type = FileType.fd_none;
  ref = 0;
  readable = true;
  writable = true;
  pipe = 0;
  ip = 4;
  off = 0;
  major = 0;
}

abbrev start : Ledger
start = record { table = free_file ∷ free_file ∷ []; held = [] }

start-Balanced : Balanced start
start-Balanced zero = refl
start-Balanced (suc zero) = refl
start-Balanced (suc (suc i)) = refl

abbrev one : Ledger
one = record { table = record free_file { ref = 1 } ∷ free_file ∷ []; held = 0 ∷ [] }

abbrev shared : Ledger
shared = record { table = record free_file { ref = 2 } ∷ free_file ∷ []; held = 0 ∷ 0 ∷ [] }

first_alloc : filealloc 0 start.table ≡ (some 0, one.table)
unfolding filealloc
first_alloc = refl

first_dup : filedup 0 one.table ≡ some shared.table
unfolding filedup
first_dup = refl

to_shared : Reach start shared
to_shared = next (next here (allocs 0 first_alloc)) (dups 0 (omega arith) first_dup)

-- The file is made the writing end of the pipe 7, and its second reference is closed.
abbrev pipe_end : ℕ → File
pipe_end n = record free_file { type = FileType.fd_pipe; ref = n; pipe = 7; readable = false }

abbrev last_held : Ledger
last_held = record { table = pipe_end 1 ∷ free_file ∷ []; held = 0 ∷ [] }

first_close : fileclose 0 (pipe_end 2 ∷ free_file ∷ []) ≡ some (nothing, last_held.table)
unfolding fileclose
first_close = refl

to_last : Reach start last_held
to_last =
    next (next to_shared (sets 0 (pipe_end 2) (omega arith) refl refl))
      (closes 0 (omega arith) first_close)

fileclose_held_example :
    (f : File) × (r : Released) × (l : List File) × (get_elem? last_held.table 0 ≡ some f)
    × (fileclose 0 last_held.table ≡ some (r, l))
    × Closed 0 (count 0 last_held.held) f last_held.table r l
fileclose_held_example =
    fileclose_held {s = start} {t = last_held} 0 start-Balanced to_last (omega arith)

second_alloc :
    filealloc 0 shared.table
    ≡ (some 1, record free_file { ref = 2 } ∷ record free_file { ref = 1 } ∷ [])
unfolding filealloc
second_alloc = refl

-- a disk that takes every byte
abbrev takes_all : Write → Option ℕ
takes_all w = some w.size

write_loop-Looped_example : Looped takes_all 5000 0 100 (write_loop takes_all 5000 5000 0 100)
write_loop-Looped_example = write_loop-Looped takes_all 5000 5000 0 100 (omega arith)
