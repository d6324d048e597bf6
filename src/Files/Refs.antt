-- ===== src/Files/Refs.antt =====
-- kernel/file.c: the counts of the table against a ledger of the references that are held: file
-- descriptors and the pointers of the code that makes one.
use xv6_riscv.Base.{
  ℕ, zero, suc, ◌+◌, ◌-◌, ◌≤◌, ◌<◌, ◌≡◌, ◌≢◌, refl, sym, ap, ◌∙◌, subst, Option, none, some, List,
  [], ◌∷◌, arith, inl, inr, Bool-cases, Option-cases, ◌==◌, ==→eq, get_elem?, set, count, remove,
}
use native.Mathlib.Decide.{ℕ_discrete}
use xv6_riscv.Files.{File, FileType, filealloc, filedup, fileclose, Released, nothing, release_of}

pub record Ledger : Type 0 where
  pub table : List File
  pub held : List ℕ

-- `fileinit` changes no count. `sets` is what a holder does to a file but for its count: `pipealloc`
-- and `sys_open` give it its type and what it refers to, and `fileread` moves its offset.
pub data Step (s : Ledger) : Ledger → Type 0 where
  allocs :
      {t : List File} (i : ℕ)
      → filealloc 0 s.table ≡ (some i, t)
      → Step s (record { table = t; held = i ∷ s.held })
  dups :
      {t : List File} (i : ℕ)
      → 0 < count i s.held
      → filedup i s.table ≡ some t
      → Step s (record { table = t; held = i ∷ s.held })
  closes :
      {t : List File} {r : Released} (i : ℕ)
      → 0 < count i s.held
      → fileclose i s.table ≡ some (r, t)
      → Step s (record { table = t; held = remove i s.held })
  sets :
      {f : File} (i : ℕ) (g : File)
      → 0 < count i s.held
      → get_elem? s.table i ≡ some f
      → g.ref ≡ f.ref
      → Step s (record { table = set s.table i g; held = s.held })

abbrev pub ref_at : Option File → ℕ
ref_at none = 0
ref_at (some f) = f.ref

-- The count of each file is the number of references held, and no other file is held.
abbrev pub Balanced : Ledger → Type 0
Balanced s = (i : ℕ) → ref_at (get_elem? s.table i) ≡ count i s.held

pub get_elem?-set_self :
    (t : List File) (i : ℕ) (f g : File) → get_elem? t i ≡ some g → get_elem? (set t i f) i ≡ some f
get_elem?-set_self [] i f g e = absurd (cc)
get_elem?-set_self (x ∷ t) zero f g e = refl
get_elem?-set_self (x ∷ t) (suc i) f g e = get_elem?-set_self t i f g e

pub get_elem?-set_ne :
    (t : List File) (i j : ℕ) (f : File) → i ≢ j → get_elem? (set t i f) j ≡ get_elem? t j
get_elem?-set_ne [] i j f ne = refl
get_elem?-set_ne (x ∷ t) zero zero f ne = absurd (ne refl)
get_elem?-set_ne (x ∷ t) zero (suc j) f ne = refl
get_elem?-set_ne (x ∷ t) (suc i) zero f ne = refl
get_elem?-set_ne (x ∷ t) (suc i) (suc j) f ne =
    get_elem?-set_ne t i j f (λ e. ne (omega (arith, e)))

-- A file is changed to one with another count, and the ledger follows.
pub set-Balanced :
    (t : List File) (held held' : List ℕ) (i : ℕ) (f g : File)
    → Balanced (record { table = t; held = held })
    → get_elem? t i ≡ some g
    → f.ref ≡ count i held'
    → ((j : ℕ) → i ≢ j → count j held' ≡ count j held)
    → Balanced (record { table = set t i f; held = held' })
set-Balanced t held held' i f g b at new same j = elim (ℕ_discrete i j) [
  | yes e ↦
      subst (λ k. ref_at (get_elem? (set t i f) k) ≡ count k held') e
        (ap ref_at (get_elem?-set_self t i f g at) ∙ new)
  | no ne ↦ ap ref_at (get_elem?-set_ne t i j f ne) ∙ b j ∙ sym (same j ne)
]

-- `filealloc` answers a file of count 0, and sets its count.
pub record Allocated (k : ℕ) (t : List File) (i : ℕ) (t' : List File) : Type 0 where
  pub from : k ≤ i
  pub file : File
  pub at : get_elem? t (i - k) ≡ some file
  pub free : file.ref ≡ 0
  pub result : t' ≡ set t (i - k) (record file { ref = 1 })

abbrev pub AllocEnd : ℕ → List File → Option ℕ × List File → Type 0
AllocEnd k t (none, t') = t' ≡ t
AllocEnd k t (some i, t') = Allocated k t i t'

alloc_later :
    (k : ℕ) (f : File) (fs : List File) (r : Option ℕ × List File)
    → AllocEnd (suc k) fs r
    → AllocEnd k (f ∷ fs) (r.0, f ∷ r.1)
alloc_later k f fs (none, t) h = ap (λ l. f ∷ l) h
alloc_later k f fs (some i, t) h =
    let next : i - k ≡ suc (i - suc k) = omega (arith, h.from) in
    record {
      from = omega (arith, h.from);
      file = h.file;
      at = rw next h.at;
      free = h.free;
      result = rw next (ap (λ l. f ∷ l) h.result);
    }

pub filealloc_lem : (k : ℕ) (t : List File) → AllocEnd k t (filealloc k t)
unfolding filealloc
filealloc_lem k [] = refl
filealloc_lem k (f ∷ fs) =
    let ih = filealloc_lem (suc k) fs in
    elim (Bool-cases (f.ref == 0)) [
      | inl free ↦
          let z : k - k ≡ 0 = omega arith in
          rw free (record {
            from = omega arith;
            file = f;
            at = rw z;
            free = ==→eq f.ref 0 free;
            result = rw z;
          })
      | inr busy ↦ rw busy (alloc_later k f fs (filealloc (suc k) fs) ih)
    ]

-- What `filedup` and `fileclose` do to a held file.
pub held_file :
    (s : Ledger) (i : ℕ)
    → Balanced s
    → 0 < count i s.held
    → (f : File) × ((get_elem? s.table i ≡ some f) × (f.ref ≡ count i s.held))
held_file s i b pos = elim (Option-cases (get_elem? s.table i)) [
  | inl past ↦ absurd (omega (arith, b i, ap ref_at past, pos))
  | inr (f, at) ↦ (f, (at, sym (ap ref_at at) ∙ b i))
]

pub dup_lem :
    (t : List File) (i : ℕ) (f : File)
    → get_elem? t i ≡ some f
    → 0 < f.ref
    → filedup i t ≡ some (set t i (record f { ref = f.ref + 1 }))
unfolding filedup
dup_lem t i f at pos = rw (at, filedup) (ground (arith, pos))

pub close_more :
    (t : List File) (i : ℕ) (f : File)
    → get_elem? t i ≡ some f
    → 1 < f.ref
    → fileclose i t ≡ some (nothing, set t i (record f { ref = f.ref - 1 }))
unfolding fileclose
close_more t i f at pos = rw (at, fileclose) (ground (arith, pos))

pub close_last :
    (t : List File) (i : ℕ) (f : File)
    → get_elem? t i ≡ some f
    → f.ref ≡ 1
    → fileclose i t ≡ some (release_of f, set t i (record f { ref = 0; type = FileType.fd_none }))
unfolding fileclose
close_last t i f at one = rw (at, fileclose) (ground (arith, one))
