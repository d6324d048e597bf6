-- ===== src/Dirs/Link.antt =====
-- kernel/fs.c: what `dirlink` does to the names of a directory.
use xv6_riscv.Base.{
  ℕ, ◌%◌, ◌^◌, ◌≡◌, ◌≢◌, refl, sym, ap, subst, ◌∙◌, Bool, ◌⊎◌, inl, inr, true, false, Option, none,
  some, List, take, eq→==,
}
use xv6_riscv.Dirs.{
  dirsiz, t_dir, Dirent, Directory, same_name, lookup_from, dirlookup, put_entry, dirlink,
}
use xv6_riscv.Dirs.Scan.{
  same_name-take, same_name_refl, put_entry-found, put_entry-others, put_entry-full,
}

-- The name was not there and is now, with its number, and every other name is as before; or nothing
-- changes, as the name was there, or no entry was free and the directory could not grow.
abbrev pub Linked : Bool → Directory → List ℕ → ℕ → Option (Bool × Directory) → Type 0
Linked room dp name inum none = ⊥
Linked room dp name inum (some (true, dp')) =
    (dirlookup dp name ≡ some none)
    × (((at : ℕ) × (dirlookup dp' name ≡ some (some (at, inum))))
        × ((other : List ℕ)
            → same_name other name ≡ false
            → dirlookup dp' other ≡ dirlookup dp other))
Linked room dp name inum (some (false, dp')) =
    (dp' ≡ dp)
    × (((found : ℕ × ℕ) × (dirlookup dp name ≡ some (some found)))
        ⊎ ((dirlookup dp name ≡ some none) × (room ≡ false)))

dirlookup_in :
    (dp : Directory) (name : List ℕ)
    → dp.type ≡ t_dir
    → dirlookup dp name ≡ some (lookup_from name 0 dp.entries)
unfolding dirlookup
dirlookup_in dp name dir = rw (eq→== dp.type t_dir dir) refl

dirlink_found :
    (room : Bool) (dp : Directory) (name : List ℕ) (inum : ℕ) (found : ℕ × ℕ)
    → dirlookup dp name ≡ some (some found)
    → dirlink room dp name inum ≡ some (false, dp)
unfolding dirlink
dirlink_found room dp name inum found e = rw (e, dirlink) refl

dirlink_new :
    (room : Bool) (dp : Directory) (name : List ℕ) (inum : ℕ)
    → dirlookup dp name ≡ some none
    → dirlink room dp name inum ≡ (
        let put =
          put_entry room (record { inum = inum % 2 ^ 16; name = take dirsiz name }) dp.entries in
        some (put.0, record dp { entries = put.1 }))
unfolding dirlink
dirlink_new room dp name inum e = rw (e, dirlink) refl

module _ (room : Bool) (dp : Directory) (name : List ℕ) (inum : ℕ) (dir : dp.type ≡ t_dir)
    (used : inum ≢ 0) (small : inum % 2 ^ 16 ≡ inum) where
  abbrev entry : Dirent
  entry = record { inum = inum; name = take dirsiz name }

  put-Linked :
      (r : Bool × List Dirent)
      → r ≡ put_entry room entry dp.entries
      → lookup_from name 0 dp.entries ≡ none
      → Linked room dp name inum (some (r.0, record dp { entries = r.1 }))
  put-Linked (true, des) e gone =
      let put = ap (λ (r : Bool × List Dirent). r.0) (sym e) in
      let same = ap (λ (r : Bool × List Dirent). r.1) e in
      let (at, found) =
        put_entry-found room entry used name 0 dp.entries
          (same_name-take name name ∙ same_name_refl name) gone put in
      (
        dirlookup_in dp name dir ∙ ap some gone,
        (
          (at, dirlookup_in _ name dir ∙ ap some (ap (lookup_from name 0) same ∙ found)),
          λ other ne.
              dirlookup_in _ other dir
              ∙ (ap some (
                    ap (lookup_from other 0) same
                    ∙ put_entry-others room entry used other 0 dp.entries
                        (same_name-take other name ∙ ne))
                  ∙ sym (dirlookup_in dp other dir)),
        ),
      )
  put-Linked (false, des) e gone =
      let (full, same) =
        put_entry-full room entry used dp.entries (ap (λ (r : Bool × List Dirent). r.0) (sym e)) in
      (
        ap (λ x. record dp { entries = x }) (ap (λ (r : Bool × List Dirent). r.1) e ∙ same),
        inr (dirlookup_in dp name dir ∙ ap some gone, full),
      )

  scan-Linked :
      (o : Option (ℕ × ℕ))
      → lookup_from name 0 dp.entries ≡ o
      → Linked room dp name inum (dirlink room dp name inum)
  scan-Linked (some found) e =
      let there : dirlookup dp name ≡ some (some found) = dirlookup_in dp name dir ∙ ap some e in
      subst (Linked room dp name inum) (sym (dirlink_found room dp name inum found there))
        (refl, inl (found, there))
  scan-Linked none e =
      subst (Linked room dp name inum)
        (sym (dirlink_new room dp name inum (dirlookup_in dp name dir ∙ ap some e)))
        (subst
          (λ n. Linked room dp name inum (
            let put = put_entry room (record { inum = n; name = take dirsiz name }) dp.entries in
            some (put.0, record dp { entries = put.1 })))
          (sym small) (put-Linked (put_entry room entry dp.entries) refl e))

-- In a directory, dirlink of a name with a number that is not 0 and fits in 16 bits does not
-- panic. If the result is 0, the name was not found before and is found with that number now, and
-- every other name is looked up as before; if it is -1, the directory is as it was, and the name
-- was found, or was not and the directory could not grow.
pub dirlink-Linked :
    (room : Bool) (dp : Directory) (name : List ℕ) (inum : ℕ)
    → dp.type ≡ t_dir
    → inum ≢ 0
    → inum % 2 ^ 16 ≡ inum
    → Linked room dp name inum (dirlink room dp name inum)
dirlink-Linked room dp name inum dir used small =
    scan-Linked room dp name inum dir used small (lookup_from name 0 dp.entries) refl
