-- ===== src/Store.antt =====
-- What the buffer cache of kernel/bio.c promises the layers above it, as a store of blocks.
-- `cache b` is the data of the buffer that `bread` returns for block `b`, and `refcnt b` the count
-- of its holders. A block is its 256 words of four bytes (BSIZE is 1024).
-- `past` has the disk as it was before each write, latest first: what a crash can leave.
use xv6_riscv.Base.{ℕ, ◌+◌, ◌-◌, ◌%◌, ◌^◌, List, [], ◌∷◌, update}

abbrev pub Block : Type 0
Block = ℕ → ℕ

abbrev pub Disk : Type 0
Disk = ℕ → Block

pub record Store : Type 0 where
  pub disk : Disk
  pub cache : Disk
  pub refcnt : ℕ → ℕ
  pub past : List Disk

-- `uint` increment and decrement
abbrev pub inc32 : ℕ → ℕ
inc32 x = (x + 1) % 2 ^ 32

abbrev pub dec32 : ℕ → ℕ
dec32 x = (x + 2 ^ 32 - 1) % 2 ^ 32

abbrev pub bpin : ℕ → Store → Store
bpin b s = record s { refcnt = update s.refcnt b (inc32 (s.refcnt b)) }

abbrev pub bunpin : ℕ → Store → Store
bunpin b s = record s { refcnt = update s.refcnt b (dec32 (s.refcnt b)) }

-- `bread` hands out the buffer, whose data is then `cache b`.
abbrev pub bread : ℕ → Store → Store
bread b s = bpin b s

abbrev pub brelse : ℕ → Store → Store
brelse b s = bunpin b s

-- a store to `b->data`
abbrev pub modify : ℕ → Block → Store → Store
modify b v s = record s { cache = update s.cache b v }

abbrev pub bwrite : ℕ → Store → Store
bwrite b s = record s { disk = update s.disk b (s.cache b); past = s.disk ∷ s.past }

-- the store at boot: nothing is cached
abbrev pub boot : Disk → Store
boot d = record { disk = d; cache = d; refcnt = λ _. 0; past = [] }
