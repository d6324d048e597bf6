-- ===== src/Files.antt =====
-- kernel/file.c: the table of open files, and reads and writes through it. `ftable.lock` is held
-- throughout each change of the table, and is left out. What pipes, devices and inodes answer is an
-- argument; there `none` is a negative result.
pub mod Refs
pub mod History
pub mod Chunks
pub mod Tests
use xv6_riscv.Base.{
  ℕ, zero, suc, ◌+◌, ◌-◌, ◌*◌, ◌/◌, Bool, true, false, ◌||◌, not, Option, none, some, List, [], ◌∷◌,
  if◌then◌else◌, ltb, leb, ◌==◌, get_elem?, set,
}
use xv6_riscv.Log.{max_op_blocks}

pub data FileType : Type 0 where
  fd_none fd_pipe fd_inode fd_device : FileType

-- `struct file`; a `short` major that is negative is a word from 2^15 on.
pub record File : Type 0 where
  pub type : FileType
  pub ref : ℕ
  pub readable : Bool
  pub writable : Bool
  pub pipe : ℕ
  pub ip : ℕ
  pub off : ℕ
  pub major : ℕ

abbrev pub ndev : ℕ
ndev = 10

abbrev pub bsize : ℕ
bsize = 1024

-- The index of the file that `filealloc` returns, and the table from index `i` on.
pub filealloc : ℕ → List File → Option ℕ × List File
filealloc i [] = (none, [])
filealloc i (f ∷ fs) =
    let rest = filealloc (suc i) fs in
    if f.ref == 0 then (some i, record f { ref = 1 } ∷ fs) else (rest.0, f ∷ rest.1)

-- `none` is a panic, here and in `fileclose`.
pub filedup : ℕ → List File → Option (List File)
filedup i t = elim (get_elem? t i) [
  | none ↦ none
  | some f ↦ if ltb f.ref 1 then none else some (set t i (record f { ref = f.ref + 1 }))
]

-- What `fileclose` lets go with the last reference.
pub data Released : Type 0 where
  nothing : Released
  closes_pipe : ℕ → Bool → Released
  puts_inode : ℕ → Released

pub release_of : File → Released
release_of f = elim f.type [
  | FileType.fd_none ↦ nothing
  | FileType.fd_pipe ↦ closes_pipe f.pipe f.writable
  | FileType.fd_inode ↦ puts_inode f.ip
  | FileType.fd_device ↦ puts_inode f.ip
]

pub fileclose : ℕ → List File → Option (Released × List File)
fileclose i t = elim (get_elem? t i) [
  | none ↦ none
  | some f ↦
      if ltb f.ref 1
      then none
      else if ltb 0 (f.ref - 1)
      then some (nothing, set t i (record f { ref = f.ref - 1 }))
      else some (release_of f, set t i (record f { ref = 0; type = FileType.fd_none }))
]

-- How a read or a write ends: a panic, or a result, where `none` is -1, with the offset after it.
pub data IoEnd : Type 0 where
  panics : IoEnd
  returns : Option ℕ → ℕ → IoEnd

-- `devsw[major].read` or `.write` of a device, or none for a null pointer
abbrev pub Devices : Type 0
Devices = ℕ → Option (ℕ → Option ℕ)

pub device_io : Devices → File → ℕ → IoEnd
device_io devsw f n =
    if leb ndev f.major
    then returns none f.off
    else elim (devsw f.major) [ none ↦ returns none f.off | some io ↦ returns (io n) f.off ]

-- the `readi` branch, on what `readi` answers
pub advance : Option ℕ → ℕ → ℕ
advance none off = off
advance (some r) off = off + r

pub fileread : (ℕ → Option ℕ) → Devices → (ℕ → ℕ → Option ℕ) → File → ℕ → IoEnd
fileread piperead devsw readi f n = if not f.readable then returns none f.off else elim f.type [
  | FileType.fd_pipe ↦ returns (piperead n) f.off
  | FileType.fd_device ↦ device_io devsw f n
  | FileType.fd_inode ↦ returns (readi f.off n) (advance (readi f.off n) f.off)
  | FileType.fd_none ↦ panics
]

-- The most bytes of one transaction of `filewrite`.
abbrev pub max_write : ℕ
max_write = (max_op_blocks - 1 - 1 - 2) / 2 * bsize

abbrev pub chunk : ℕ → ℕ
chunk left = if ltb max_write left then max_write else left

-- One transaction: `writei` of `size` bytes from byte `from` of the buffer at the offset `off`.
pub record Write : Type 0 where
  pub from : ℕ
  pub off : ℕ
  pub size : ℕ

-- The loop of `filewrite` from byte `i` on with `left = n - i`, and fuel: the transactions that it
-- makes, the byte where it stops, and the offset there. `writei` is told its transaction.
pub write_loop : (Write → Option ℕ) → ℕ → ℕ → ℕ → ℕ → List Write × (ℕ × ℕ)
write_loop writei zero left i off = ([], (i, off))
write_loop writei (suc fuel) left i off =
    let w : Write = record { from = i; off = off; size = chunk left } in
    let r = writei w in
    let off' = advance r off in
    let rest = write_loop writei fuel (left - chunk left) (i + chunk left) off' in
    if left == 0 then ([], (i, off)) else elim r [
      | none ↦ (w ∷ [], (i, off'))
      | some m ↦ if m == chunk left then (w ∷ rest.0, rest.1) else (w ∷ [], (i, off'))
    ]

pub filewrite : (ℕ → Option ℕ) → Devices → (Write → Option ℕ) → File → ℕ → IoEnd
filewrite pipewrite devsw writei f n = if not f.writable then returns none f.off else elim f.type [
  | FileType.fd_pipe ↦ returns (pipewrite n) f.off
  | FileType.fd_device ↦ device_io devsw f n
  | FileType.fd_inode ↦
      let (_, stop) = write_loop writei n n 0 f.off in
      returns (if stop.0 == n then some n else none) stop.1
  | FileType.fd_none ↦ panics
]
