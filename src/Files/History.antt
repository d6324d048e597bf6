-- ===== src/Files/History.antt =====
-- kernel/file.c: histories of allocations, duplications and closes of files.
use xv6_riscv.Base.{
  ℕ, ◌+◌, ◌-◌, ◌<◌, ◌≡◌, ◌≢◌, refl, sym, ap, ◌∙◌, subst, some, List, ◌∷◌, arith, ◌⊎◌, inl, inr,
  some_inj, get_elem?, set, count, remove, count_self, count_ne, count-remove_self, count-remove_ne,
}
use native.Mathlib.Decide.{dec_lt}
use xv6_riscv.Files.{
  File, FileType, filealloc, fileclose, Released, nothing, closes_pipe, puts_inode, release_of,
}
use xv6_riscv.Files.Refs.{
  Ledger, Step, allocs, dups, closes, sets, Balanced, ref_at, get_elem?-set_self, get_elem?-set_ne,
  set-Balanced, Allocated, AllocEnd, filealloc_lem, held_file, dup_lem, close_more, close_last,
}

-- The file that `filealloc` took, by its index.
alloc_at :
    (t l : List File) (i : ℕ) (a : Allocated 0 t i l)
    → (get_elem? t i ≡ some a.file) × (l ≡ set t i (record (a.file) { ref = 1 }))
alloc_at t l i a =
    let back : i - 0 ≡ i = omega arith in
    (
      subst (λ n. get_elem? t n ≡ some a.file) back a.at,
      subst (λ n. l ≡ set t n (record (a.file) { ref = 1 })) back a.result,
    )

alloc-Balanced :
    (s : Ledger) (i : ℕ) (t : List File)
    → Balanced s
    → Allocated 0 s.table i t
    → Balanced (record { table = t; held = i ∷ s.held })
alloc-Balanced s i t b a =
    let (at, result) = alloc_at s.table t i a in
    subst (λ l. Balanced (record { table = l; held = i ∷ s.held })) (sym result)
      (set-Balanced s.table s.held (i ∷ s.held) i (record (a.file) { ref = 1 }) a.file b at
        (omega (arith, count_self i s.held, b i, ap ref_at at, a.free))
        (λ j ne. count_ne i j s.held ne))

Step-Balanced : {s s' : Ledger} → Step s s' → Balanced s → Balanced s'
Step-Balanced {s} (allocs {t = t} i e) b =
    alloc-Balanced s i t b (subst (AllocEnd 0 s.table) e (filealloc_lem 0 s.table))
Step-Balanced {s} (dups {t = t} i pos e) b =
    let (f, (at, same)) = held_file s i b pos in
    subst (λ l. Balanced (record { table = l; held = i ∷ s.held }))
      (some_inj (sym (dup_lem s.table i f at (omega (arith, same, pos))) ∙ e))
      (set-Balanced s.table s.held (i ∷ s.held) i (record f { ref = f.ref + 1 }) f b at
        (omega (arith, count_self i s.held, same)) (λ j ne. count_ne i j s.held ne))
Step-Balanced {s} (closes {t = t} i pos e) b =
    let (f, (at, same)) = held_file s i b pos in
    elim (dec_lt 1 f.ref) [
      | yes more ↦
          subst (λ l. Balanced (record { table = l; held = remove i s.held }))
            (ap (λ (r : Released × List File). r.1)
              (some_inj (sym (close_more s.table i f at more) ∙ e)))
            (set-Balanced s.table s.held (remove i s.held) i (record f { ref = f.ref - 1 }) f b at
              (omega (arith, count-remove_self i s.held, same))
              (λ j ne. count-remove_ne i j s.held ne))
      | no last ↦
          let one : f.ref ≡ 1 = omega (arith, same, pos, last) in
          subst (λ l. Balanced (record { table = l; held = remove i s.held }))
            (ap (λ (r : Released × List File). r.1)
              (some_inj (sym (close_last s.table i f at one) ∙ e)))
            (set-Balanced s.table s.held (remove i s.held) i
              (record f { ref = 0; type = FileType.fd_none }) f b at
              (omega (arith, count-remove_self i s.held, same, one))
              (λ j ne. count-remove_ne i j s.held ne))
    ]
Step-Balanced {s} (sets {f = f} i g pos at same) b =
    set-Balanced s.table s.held s.held i g f b at (omega (arith, b i, ap ref_at at, same))
      (λ j ne. refl)

pub data Reach (start : Ledger) : Ledger → Type 0 where
  here : Reach start start
  next : {s t : Ledger} → Reach start s → Step s t → Reach start t

Reach-Balanced : {s t : Ledger} → Balanced s → Reach s t → Balanced t
Reach-Balanced b here = b
Reach-Balanced b (next r st) = Step-Balanced st (Reach-Balanced b r)

-- The last reference to a pipe closes the end that the file had, one to an inode or a device puts
-- the inode.
abbrev pub LetsGo : File → Released → Type 0
LetsGo f r =
    (f.type ≡ FileType.fd_none → r ≡ nothing)
    × (f.type ≡ FileType.fd_pipe → r ≡ closes_pipe f.pipe f.writable)
    × (f.type ≡ FileType.fd_inode → r ≡ puts_inode f.ip)
    × (f.type ≡ FileType.fd_device → r ≡ puts_inode f.ip)

release_of-LetsGo : (f : File) → LetsGo f (release_of f)
unfolding release_of
release_of-LetsGo f = (
  λ e. rw (e, release_of) refl,
  λ e. rw (e, release_of) refl,
  λ e. rw (e, release_of) refl,
  λ e. rw (e, release_of) refl,
)

-- The slot `i` is free, for the next `filealloc`.
abbrev pub IsFree : ℕ → List File → Type 0
IsFree i t = (g : File) × (get_elem? t i ≡ some g) × (g.ref ≡ 0) × (g.type ≡ FileType.fd_none)

-- What `fileclose` of the file `f` at `i`, with `n` references, answers and leaves of the table `t`.
abbrev pub Closed : ℕ → ℕ → File → List File → Released → List File → Type 0
Closed i n f t r t' =
    (((n ≡ 1) × LetsGo f r × IsFree i t')
      ⊎ ((1 < n) × (r ≡ nothing) × (get_elem? t' i ≡ some (record f { ref = n - 1 }))))
    × ((j : ℕ) → i ≢ j → get_elem? t' j ≡ get_elem? t j)

close_more-Closed :
    (i n : ℕ) (f : File) (t : List File)
    → get_elem? t i ≡ some f
    → f.ref ≡ n
    → 1 < n
    → Closed i n f t nothing (set t i (record f { ref = f.ref - 1 }))
close_more-Closed i n f t at same more = (
  inr (
    more,
    refl,
    get_elem?-set_self t i (record f { ref = f.ref - 1 }) f at
        ∙ ap (λ (k : ℕ). some (record f { ref = k - 1 })) same,
  ),
  λ j ne. get_elem?-set_ne t i j (record f { ref = f.ref - 1 }) ne,
)

close_last-Closed :
    (i n : ℕ) (f : File) (t : List File)
    → get_elem? t i ≡ some f
    → n ≡ 1
    → Closed i n f t (release_of f) (set t i (record f { ref = 0; type = FileType.fd_none }))
close_last-Closed i n f t at one =
    let g : File = record f { ref = 0; type = FileType.fd_none } in
    (
      inl (one, release_of-LetsGo f, (g, get_elem?-set_self t i g f at, refl, refl)),
      λ j ne. get_elem?-set_ne t i j g ne,
    )

-- After any history of filealloc, filedup, fileclose and changes of the files that leave their
-- counts, from a table whose counts are the references held, fileclose of a held file does not
-- panic. If the reference is the last one it closes the end of the pipe or puts the inode that the
-- file has, as its type says, and frees the slot; otherwise it lets nothing go and leaves the
-- file with one reference less. No other file changes.
pub fileclose_held :
    {s t : Ledger} (i : ℕ)
    → Balanced s
    → Reach s t
    → 0 < count i t.held
    → (f : File) × (r : Released) × (l : List File) × (get_elem? t.table i ≡ some f)
      × (fileclose i t.table ≡ some (r, l))
      × Closed i (count i t.held) f t.table r l
fileclose_held {s} {t} i b reach pos =
    let (f, (at, same)) = held_file t i (Reach-Balanced b reach) pos in
    elim (dec_lt 1 f.ref) [
      | yes more ↦ (
        f,
        nothing,
        set t.table i (record f { ref = f.ref - 1 }),
        at,
        close_more t.table i f at more,
        close_more-Closed i (count i t.held) f t.table at same (omega (arith, same, more)),
      )
      | no last ↦
          let one : f.ref ≡ 1 = omega (arith, same, pos, last) in
          (
            f,
            release_of f,
            set t.table i (record f { ref = 0; type = FileType.fd_none }),
            at,
            close_last t.table i f at one,
            close_last-Closed i (count i t.held) f t.table at (omega (arith, same, one)),
          )
    ]

-- After any history of filealloc, filedup, fileclose and changes of the files that leave their
-- counts, from a table whose counts are the references held, a file that filealloc answers is held by nobody, and no other file changes.
pub filealloc_fresh :
    {s t : Ledger} (i : ℕ) (l : List File)
    → Balanced s
    → Reach s t
    → filealloc 0 t.table ≡ (some i, l)
    → (count i t.held ≡ 0) × ((j : ℕ) → i ≢ j → get_elem? l j ≡ get_elem? t.table j)
filealloc_fresh {s} {t} i l b reach e =
    let a : Allocated 0 t.table i l = subst (AllocEnd 0 t.table) e (filealloc_lem 0 t.table) in
    let (at, result) = alloc_at t.table l i a in
    (
      omega (arith, Reach-Balanced b reach i, ap ref_at at, a.free),
      λ j ne.
          ap (λ m. get_elem? m j) result
          ∙ get_elem?-set_ne t.table i j (record (a.file) { ref = 1 }) ne,
    )
