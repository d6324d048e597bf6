-- ===== src/Dirs/Scan.antt =====
-- kernel/fs.c: names cut off at DIRSIZ bytes, and an entry that `dirlink` puts in.
use xv6_riscv.Base.{
  ℕ, zero, suc, ◌+◌, ◌≡◌, ◌≢◌, refl, sym, ap, subst, ◌∙◌, arith, Bool, Bool-cases, inl, inr, true,
  false, Option, none, some, List, [], ◌∷◌, take, ◌==◌, ne→==,
}
use xv6_riscv.Dirs.{dirsiz, Dirent, equal_bytes, same_name, lookup_from, put_entry}

equal_bytes-take : (n : ℕ) (s t : List ℕ) → equal_bytes n s (take n t) ≡ equal_bytes n s t
unfolding equal_bytes
equal_bytes-take zero s t = refl
equal_bytes-take (suc n) [] [] = refl
equal_bytes-take (suc n) [] (d ∷ t) = refl
equal_bytes-take (suc n) (c ∷ s) [] = refl
equal_bytes-take (suc n) (c ∷ s) (d ∷ t) = rw (equal_bytes-take n s t) refl

equal_bytes_refl : (n : ℕ) (s : List ℕ) → equal_bytes n s s ≡ true
unfolding equal_bytes
equal_bytes_refl zero s = refl
equal_bytes_refl (suc n) [] = refl
equal_bytes_refl (suc n) (c ∷ s) =
    let same : (c == c) ≡ true = ground arith in rw (same, equal_bytes_refl n s) refl

pub same_name-take : (s t : List ℕ) → same_name s (take dirsiz t) ≡ same_name s t
unfolding same_name
same_name-take s t = equal_bytes-take dirsiz s t

pub same_name_refl : (s : List ℕ) → same_name s s ≡ true
unfolding same_name
same_name_refl s = equal_bytes_refl dirsiz s

-- How the scan of `dirlookup` goes on from an entry.
lookup_empty :
    (name : List ℕ) (off : ℕ) (d : Dirent) (des : List Dirent)
    → (d.inum == 0) ≡ true
    → lookup_from name off (d ∷ des) ≡ lookup_from name (off + 16) des
unfolding lookup_from
lookup_empty name off d des e = rw e refl

lookup_other :
    (name : List ℕ) (off : ℕ) (d : Dirent) (des : List Dirent)
    → same_name name d.name ≡ false
    → lookup_from name off (d ∷ des) ≡ lookup_from name (off + 16) des
unfolding lookup_from
lookup_other name off d des ne = elim (Bool-cases (d.inum == 0)) [
  | inl e ↦ rw e refl
  | inr e ↦ rw (e, ne) refl
]

lookup_here :
    (name : List ℕ) (off : ℕ) (d : Dirent) (des : List Dirent)
    → (d.inum == 0) ≡ false
    → same_name name d.name ≡ true
    → lookup_from name off (d ∷ des) ≡ some (off, d.inum)
unfolding lookup_from
lookup_here name off d des e same = rw (e, same) refl

put_over :
    (room : Bool) (de d : Dirent) (des : List Dirent)
    → (d.inum == 0) ≡ true
    → put_entry room de (d ∷ des) ≡ (true, de ∷ des)
unfolding put_entry
put_over room de d des e = rw e refl

put_later :
    (room : Bool) (de d : Dirent) (des : List Dirent)
    → (d.inum == 0) ≡ false
    → put_entry room de (d ∷ des) ≡ ((put_entry room de des).0, d ∷ (put_entry room de des).1)
unfolding put_entry
put_later room de d des e = rw e refl

lookup_end : (name : List ℕ) (off : ℕ) → lookup_from name off [] ≡ none
unfolding lookup_from
lookup_end name off = refl

put_room : (room : Bool) (de : Dirent) → room ≡ true → put_entry room de [] ≡ (true, de ∷ [])
unfolding put_entry
put_room room de e = rw e refl

put_no_room : (room : Bool) (de : Dirent) → room ≡ false → put_entry room de [] ≡ (false, [])
unfolding put_entry
put_no_room room de e = rw e refl

true-ne_false : true ≢ false
true-ne_false e = subst (λ b. elim b as (λ _. Type 0) [ true ↦ Unit | false ↦ ⊥ ]) e tt

some-ne_none : {A : Type 0} (a : A) → some a ≢ none
some-ne_none {A} a e =
    subst (λ (o : Option A). elim o as (λ _. Type 0) [ some _ ↦ Unit | none ↦ ⊥ ]) e tt

module _ (room : Bool) (de : Dirent) (used : de.inum ≢ 0) where
  unused : (de.inum == 0) ≡ false
  unused = ne→== de.inum 0 used

  -- The name that was put in is found,
  pub put_entry-found :
      (name : List ℕ) (off : ℕ) (des : List Dirent)
      → same_name name de.name ≡ true
      → lookup_from name off des ≡ none
      → (put_entry room de des).0 ≡ true
      → (at : ℕ) × (lookup_from name off (put_entry room de des).1 ≡ some (at, de.inum))
  put_entry-found name off [] same gone put = elim (Bool-cases room) [
    | inl e ↦ (
      off,
      ap (λ (r : Bool × List Dirent). lookup_from name off r.1) (put_room room de e)
          ∙ lookup_here name off de [] unused same,
    )
    | inr e ↦
        absurd
          (true-ne_false (sym put ∙ ap (λ (r : Bool × List Dirent). r.0) (put_no_room room de e)))
  ]
  put_entry-found name off (d ∷ des) same gone put = elim (Bool-cases (d.inum == 0)) [
    | inl e ↦ (
      off,
      ap (λ (r : Bool × List Dirent). lookup_from name off r.1) (put_over room de d des e)
          ∙ lookup_here name off de des unused same,
    )
    | inr e ↦ elim (Bool-cases (same_name name d.name)) [
      | inl found ↦
          absurd (some-ne_none (off, d.inum) (sym (lookup_here name off d des e found) ∙ gone))
      | inr other ↦
          let (at, there) =
            put_entry-found name (off + 16) des same
              (sym (lookup_other name off d des other) ∙ gone)
              (ap (λ (r : Bool × List Dirent). r.0) (sym (put_later room de d des e)) ∙ put) in
          (
            at,
            ap (λ (r : Bool × List Dirent). lookup_from name off r.1) (put_later room de d des e)
                ∙ (lookup_other name off d _ other ∙ there),
          )
    ]
  ]

  -- every other name as before;
  pub put_entry-others :
      (name : List ℕ) (off : ℕ) (des : List Dirent)
      → same_name name de.name ≡ false
      → lookup_from name off (put_entry room de des).1 ≡ lookup_from name off des
  put_entry-others name off [] ne = elim (Bool-cases room) [
    | inl e ↦
        ap (λ (r : Bool × List Dirent). lookup_from name off r.1) (put_room room de e)
        ∙ (lookup_other name off de [] ne
            ∙ (lookup_end name (off + 16) ∙ sym (lookup_end name off)))
    | inr e ↦ ap (λ (r : Bool × List Dirent). lookup_from name off r.1) (put_no_room room de e)
  ]
  put_entry-others name off (d ∷ des) ne = elim (Bool-cases (d.inum == 0)) [
    | inl e ↦
        ap (λ (r : Bool × List Dirent). lookup_from name off r.1) (put_over room de d des e)
        ∙ (lookup_other name off de des ne ∙ sym (lookup_empty name off d des e))
    | inr e ↦
        ap (λ (r : Bool × List Dirent). lookup_from name off r.1) (put_later room de d des e)
        ∙ (elim (Bool-cases (same_name name d.name)) [
          | inl found ↦ lookup_here name off d _ e found ∙ sym (lookup_here name off d des e found)
          | inr other ↦
              lookup_other name off d _ other
              ∙ (put_entry-others name (off + 16) des ne ∙ sym (lookup_other name off d des other))
        ])
  ]

  -- where there is no place, nothing changes.
  pub put_entry-full :
      (des : List Dirent)
      → (put_entry room de des).0 ≡ false
      → (room ≡ false) × ((put_entry room de des).1 ≡ des)
  put_entry-full [] put = elim (Bool-cases room) [
    | inl e ↦
        absurd
          (true-ne_false (ap (λ (r : Bool × List Dirent). r.0) (sym (put_room room de e)) ∙ put))
    | inr e ↦ (e, ap (λ (r : Bool × List Dirent). r.1) (put_no_room room de e))
  ]
  put_entry-full (d ∷ des) put = elim (Bool-cases (d.inum == 0)) [
    | inl e ↦ absurd (
        true-ne_false (ap (λ (r : Bool × List Dirent). r.0) (sym (put_over room de d des e)) ∙ put))
    | inr e ↦
        let later = put_later room de d des e in
        let (full, same) =
          put_entry-full des (ap (λ (r : Bool × List Dirent). r.0) (sym later) ∙ put) in
        (full, ap (λ (r : Bool × List Dirent). r.1) later ∙ ap (λ rest. d ∷ rest) same)
  ]
