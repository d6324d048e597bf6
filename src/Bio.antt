-- ===== src/Bio.antt =====
-- kernel/bio.c: the buffers of the cache, as the list from `bcache.head.next` on, so that the least
-- recently used one is last. A pointer to a buffer is its index `at` in `bcache.buf`. `bcache.lock` is
-- held throughout each scan, and is left out; `none` is a panic. The sleep lock of a buffer is taken
-- after the scan.
pub mod Scan
pub mod Unique
pub mod Steps
pub mod Tests
use xv6_riscv.Base.{
  ℕ, zero, suc, ◌+◌, ◌-◌, ◌%◌, ◌^◌, Bool, true, false, ◌&&◌, not, Option, none, some, List, [], ◌∷◌,
  map, if◌then◌else◌, ◌==◌,
}
use xv6_riscv.Store.{inc32, dec32}

-- `struct buf`, without its lock and links; `bytes` is `data`.
pub record Buf : Type 0 where
  pub at : ℕ
  pub valid : Bool
  pub dev : ℕ
  pub blockno : ℕ
  pub refcnt : ℕ
  pub bytes : ℕ → ℕ

abbrev pub holds : ℕ → ℕ → Buf → Bool
holds dev blockno b = b.dev == dev && b.blockno == blockno

-- the list after `binit`: each of `n` zeroed buffers in turn goes to the head
pub binit : ℕ → List Buf
binit zero = []
binit (suc n) =
    record { at = n; valid = false; dev = 0; blockno = 0; refcnt = 0; bytes = λ _. 0 } ∷ binit n

abbrev pub later : Buf → Option (ℕ × List Buf) → Option (ℕ × List Buf)
later b none = none
later b (some (p, bs)) = some (p, b ∷ bs)

-- the first loop of `bget`
pub find_cached : ℕ → ℕ → List Buf → Option (ℕ × List Buf)
find_cached dev blockno [] = none
find_cached dev blockno (b ∷ bs) =
    let rest = later b (find_cached dev blockno bs) in
    if holds dev blockno b then some (b.at, record b { refcnt = inc32 b.refcnt } ∷ bs) else rest

abbrev pub reuse : ℕ → ℕ → Buf → Buf
reuse dev blockno b = record b { dev = dev; blockno = blockno; valid = false; refcnt = 1 }

-- The second loop of `bget`, which runs from the end of the list.
pub recycle : ℕ → ℕ → List Buf → Option (ℕ × List Buf)
recycle dev blockno [] = none
recycle dev blockno (b ∷ bs) = elim (recycle dev blockno bs) [
  | some (p, r) ↦ some (p, b ∷ r)
  | none ↦ if b.refcnt == 0 then some (b.at, reuse dev blockno b ∷ bs) else none
]

pub bget : ℕ → ℕ → List Buf → Option (ℕ × List Buf)
bget dev blockno bs = elim (find_cached dev blockno bs) [
  | some r ↦ some r
  | none ↦ recycle dev blockno bs
]

-- What `bread` does to the buffer that `bget` returned; `disk` is what `virtio_disk_rw` reads.
pub load : (ℕ → ℕ → ℕ) → ℕ → Buf → Buf
load disk p b =
    if b.at == p && not b.valid then record b { bytes = disk b.blockno; valid = true } else b

pub bread : (ℕ → ℕ → ℕ) → ℕ → ℕ → List Buf → Option (ℕ × List Buf)
bread disk dev blockno bs = elim (bget dev blockno bs) [
  | none ↦ none
  | some (p, r) ↦ some (p, map (load disk p) r)
]

abbrev pub after_it : Buf → Option (Buf × List Buf) → Option (Buf × List Buf)
after_it b none = none
after_it b (some (c, r)) = some (c, b ∷ r)

-- The buffer `p` taken out of the list, its count one less.
pub unlink : ℕ → List Buf → Option (Buf × List Buf)
unlink p [] = none
unlink p (b ∷ bs) =
    let rest = after_it b (unlink p bs) in
    if b.at == p then some (record b { refcnt = dec32 b.refcnt }, bs) else rest

pub drop_ref : ℕ → List Buf → List Buf
drop_ref p bs = map (λ b. if b.at == p then record b { refcnt = dec32 b.refcnt } else b) bs

-- The part of `brelse` under `bcache.lock`.
pub brelse : ℕ → List Buf → List Buf
brelse p bs = elim (unlink p bs) [
  | none ↦ bs
  | some (b, r) ↦ if b.refcnt == 0 then b ∷ r else drop_ref p bs
]

pub bpin : ℕ → List Buf → List Buf
bpin p bs = map (λ b. if b.at == p then record b { refcnt = inc32 b.refcnt } else b) bs

pub bunpin : ℕ → List Buf → List Buf
bunpin p bs = drop_ref p bs
