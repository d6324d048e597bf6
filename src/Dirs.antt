-- ===== src/Dirs.antt =====
-- kernel/fs.c: the elements of a path, and the entries of a directory. A string is its bytes before the
-- zero, and so is the name in an entry, of at most DIRSIZ bytes. A directory is its entries of 16 bytes,
-- which `readi` and `writei` move whole; `room` says whether `writei` can make the directory longer. `none` is
-- a panic. That `dirlookup` returns the inode of an entry is left to its caller: here it is the number.
pub mod Elements
pub mod Scan
pub mod Link
pub mod Tests
use xv6_riscv.Base.{
  ℕ, zero, suc, ◌+◌, ◌*◌, ◌%◌, ◌^◌, Bool, true, false, Option, none, some, List, [], ◌∷◌, ◌++◌,
  take, length, if◌then◌else◌, ◌==◌, not,
}

abbrev pub dirsiz : ℕ
dirsiz = 14

abbrev pub slash : ℕ
slash = 47

abbrev pub t_dir : ℕ
t_dir = 1

pub record Dirent : Type 0 where
  pub inum : ℕ
  pub name : List ℕ

pub record Directory : Type 0 where
  pub type : ℕ
  pub entries : List Dirent

-- `while(*path == '/') path++`
pub skip_slashes : List ℕ → List ℕ
skip_slashes [] = []
skip_slashes (c ∷ path) = let rest = skip_slashes path in if c == slash then rest else c ∷ path

-- `while(*path != '/' && *path != 0) path++`: what is passed, and what is left
pub pass_element : List ℕ → List ℕ × List ℕ
pass_element [] = ([], [])
pass_element (c ∷ path) =
    let rest = pass_element path in if c == slash then ([], c ∷ path) else (c ∷ rest.0, rest.1)

-- `skipelem` after the leading slashes
pub element_of : List ℕ → Option (List ℕ × List ℕ)
element_of [] = none
element_of (c ∷ path) =
    some (take dirsiz (pass_element (c ∷ path)).0, skip_slashes (pass_element (c ∷ path)).1)

-- The next element and the path after it, or a null pointer.
pub skipelem : List ℕ → Option (List ℕ × List ℕ)
skipelem path = element_of (skip_slashes path)

-- `strncmp` of two strings for equality
pub equal_bytes : ℕ → List ℕ → List ℕ → Bool
equal_bytes zero s t = true
equal_bytes (suc n) [] [] = true
equal_bytes (suc n) [] (d ∷ t) = false
equal_bytes (suc n) (c ∷ s) [] = false
equal_bytes (suc n) (c ∷ s) (d ∷ t) = let rest = equal_bytes n s t in if c == d then rest else false

-- `namecmp(s, t) == 0`
pub same_name : List ℕ → List ℕ → Bool
same_name = equal_bytes dirsiz

-- The loop of `dirlookup` from an offset on: the offset and the inode number of the entry.
pub lookup_from : List ℕ → ℕ → List Dirent → Option (ℕ × ℕ)
lookup_from name off [] = none
lookup_from name off (de ∷ des) =
    let rest = lookup_from name (off + 16) des in
    if de.inum == 0 then rest else if same_name name de.name then some (off, de.inum) else rest

pub dirlookup : Directory → List ℕ → Option (Option (ℕ × ℕ))
dirlookup dp name = if not (dp.type == t_dir) then none else some (lookup_from name 0 dp.entries)

-- `dirlink` writes an entry over the first empty one, or past the last; true is the result 0.
pub put_entry : Bool → Dirent → List Dirent → Bool × List Dirent
put_entry room de [] = if room then (true, de ∷ []) else (false, [])
put_entry room de (d ∷ des) =
    let rest = put_entry room de des in
    if d.inum == 0 then (true, de ∷ des) else (rest.0, d ∷ rest.1)

-- An inode number is 16 bits in an entry.
pub dirlink : Bool → Directory → List ℕ → ℕ → Option (Bool × Directory)
dirlink room dp name inum = elim (dirlookup dp name) [
  | none ↦ none
  | some (some found) ↦ some (false, dp)
  | some none ↦
      let put =
        put_entry room (record { inum = inum % 2 ^ 16; name = take dirsiz name }) dp.entries in
      some (put.0, record dp { entries = put.1 })
]
