-- ===== src/Inode.antt =====
-- kernel/fs.c: the table of inodes in use. A pointer to an entry is its index in `itable.inode`; a
-- `short` and an `int` are plain numbers. `itable.lock` is held throughout each change, and is left
-- out; where `iput` frees an inode, nobody else has a pointer to the entry while it is released.
-- `none` is a panic.
pub mod Search
pub mod Unique
pub mod Steps
pub mod Get
pub mod History
pub mod Pointers
pub mod Tests
use xv6_riscv.Base.{
  ℕ, zero, suc, ◌+◌, ◌-◌, Bool, true, false, ◌&&◌, ◌||◌, not, Option, none, some, List, [], ◌∷◌,
  ◌++◌, update, if◌then◌else◌, ltb, leb, ◌==◌, get_elem?, set,
}
use xv6_riscv.Lock.{Sleeplock, acquiresleep, releasesleep, holdingsleep}

abbrev pub ndirect : ℕ
ndirect = 12

-- `struct dinode`
pub record Dinode : Type 0 where
  pub type : ℕ
  pub major : ℕ
  pub minor : ℕ
  pub nlink : ℕ
  pub size : ℕ
  pub addrs : ℕ → ℕ

-- `struct inode`; what it copies from the disk is `copy`.
pub record Inode : Type 0 where
  pub dev : ℕ
  pub inum : ℕ
  pub ref : ℕ
  pub lock : Sleeplock
  pub valid : Bool
  pub copy : Dinode

-- The table, and the inodes on each device.
pub record Itable : Type 0 where
  pub inodes : List Inode
  pub disk : ℕ → ℕ → Dinode

abbrev pub is_inode : ℕ → ℕ → Inode → Bool
is_inode dev inum ip = ltb 0 ip.ref && ip.dev == dev && ip.inum == inum

-- The loop of `iget` from entry `i` on: the entry of the inode, or the first free one, where `empty`
-- is the one met so far.
pub data Found : Type 0 where
  entry : ℕ → Found
  free : Option ℕ → Found

abbrev pub remember : Option ℕ → ℕ → Inode → Option ℕ
remember (some e) i ip = some e
remember none i ip = if ip.ref == 0 then some i else none

pub search_table : ℕ → ℕ → Option ℕ → ℕ → List Inode → Found
search_table dev inum empty i [] = free empty
search_table dev inum empty i (ip ∷ ips) =
    let rest = search_table dev inum (remember empty i ip) (suc i) ips in
    if is_inode dev inum ip then entry i else rest

-- a change of the entry `i`
pub at_entry : ℕ → (Inode → Inode) → List Inode → List Inode
at_entry i f [] = []
at_entry zero f (ip ∷ ips) = f ip ∷ ips
at_entry (suc i) f (ip ∷ ips) = ip ∷ at_entry i f ips

pub iget : ℕ → ℕ → Itable → Option (ℕ × Itable)
iget dev inum s = elim (search_table dev inum none 0 s.inodes) [
  | entry i ↦
      some (i, record s { inodes = at_entry i (λ ip. record ip { ref = ip.ref + 1 }) s.inodes })
  | free none ↦ none
  | free (some i) ↦ some (
    i,
    record s {
      inodes =
          at_entry i (λ ip. record ip { dev = dev; inum = inum; ref = 1; valid = false }) s.inodes;
    },
  )
]

pub idup : ℕ → Itable → Itable
idup i s = record s { inodes = at_entry i (λ ip. record ip { ref = ip.ref + 1 }) s.inodes }

-- How `ilock` ends: a panic, a sleep on the lock, or the table.
pub data LockEnd : Type 0 where
  panics : LockEnd
  sleeps : LockEnd
  locks : Itable → LockEnd

-- `ilock` by the process `pid`
pub ilock : ℕ → ℕ → Itable → LockEnd
ilock pid i s = elim (get_elem? s.inodes i) [
  | none ↦ panics
  | some ip ↦ if ltb ip.ref 1 then panics else elim (acquiresleep pid ip.lock) [
    | none ↦ sleeps
    | some lk ↦
        if ip.valid
        then locks (record s { inodes = at_entry i (λ p. record p { lock = lk }) s.inodes })
        else if (s.disk ip.dev ip.inum).type == 0
        then panics
        else locks (record s {
          inodes =
              at_entry i (λ p. record p { lock = lk; valid = true; copy = s.disk p.dev p.inum })
                s.inodes;
        })
  ]
]

pub iunlock : ℕ → ℕ → Itable → Option Itable
iunlock pid i s = elim (get_elem? s.inodes i) [
  | none ↦ none
  | some ip ↦
      if not (holdingsleep pid ip.lock) || ltb ip.ref 1
      then none
      else some
          (record s { inodes = at_entry i (λ p. record p { lock = releasesleep p.lock }) s.inodes })
]

-- The inode that `itrunc` and the two lines after it in `iput` leave, on the disk too.
abbrev pub wiped : Dinode → Dinode
wiped d = record d { type = 0; size = 0; addrs = λ _. 0 }

-- `iupdate`
pub iupdate : ℕ → ℕ → Dinode → Itable → Itable
iupdate dev inum d s = record s { disk = update s.disk dev (update (s.disk dev) inum d) }

-- `iput`; where it frees the inode, its blocks are those of `itrunc`.
pub iput : ℕ → Itable → Itable
iput i s = elim (get_elem? s.inodes i) [
  | none ↦ s
  | some ip ↦
      let gone : Itable = iupdate ip.dev ip.inum (wiped ip.copy) (record s {
        inodes = at_entry i (λ p. record p { copy = wiped p.copy; valid = false }) s.inodes;
      }) in
      let s1 : Itable = if ip.ref == 1 && ip.valid && ip.copy.nlink == 0 then gone else s in
      record s1 { inodes = at_entry i (λ p. record p { ref = p.ref - 1 }) s1.inodes }
]

pub iunlockput : ℕ → ℕ → Itable → Option Itable
iunlockput pid i s = elim (iunlock pid i s) [ none ↦ none | some t ↦ some (iput i t) ]
