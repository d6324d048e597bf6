-- ===== src/Inode/Steps.antt =====
-- kernel/fs.c: the counts of the table of inodes against a ledger of the pointers that are held.
use mathlib.Core.Option
use xv6_riscv.Base.{
  ℕ, ◌<◌, ◌≡◌, ◌≢◌, sym, ap, ◌∙◌, subst, false, Option, none, some, List, ◌∷◌, All, arith, inl, inr,
  Option-cases, get_elem?, some_inj, count, remove, count_self, count_ne,
}
use native.Mathlib.Decide.{ℕ_discrete}
use xv6_riscv.Inode.{Inode, Itable, is_inode, at_entry, iget, idup, ilock, iunlock, iput, locks}
use xv6_riscv.Inode.Unique.{
  get_elem?-at_entry_self, get_elem?-at_entry_ne, Unique, change-Unique, keep-Unique, not_used,
}

pub record Ledger : Type 0 where
  pub table : Itable
  pub held : List ℕ

pub data Step (s : Ledger) : Ledger → Type 0 where
  gets :
      {t : Itable} (dev inum i : ℕ)
      → iget dev inum s.table ≡ some (i, t)
      → Step s (record { table = t; held = i ∷ s.held })
  dups :
      (i : ℕ) → 0 < count i s.held → Step s (record { table = idup i s.table; held = i ∷ s.held })
  locks_one :
      {t : Itable} (pid i : ℕ)
      → 0 < count i s.held
      → ilock pid i s.table ≡ locks t
      → Step s (record { table = t; held = s.held })
  unlocks :
      {t : Itable} (pid i : ℕ)
      → 0 < count i s.held
      → iunlock pid i s.table ≡ some t
      → Step s (record { table = t; held = s.held })
  puts :
      (i : ℕ)
      → 0 < count i s.held
      → Step s (record { table = iput i s.table; held = remove i s.held })

abbrev pub ref_at : Option Inode → ℕ
ref_at none = 0
ref_at (some ip) = ip.ref

-- Each inode in use has one entry, and its count is the number of pointers to it that are held.
pub record IsValid (t : List Inode) (held : List ℕ) : Type 0 where
  pub unique : Unique t
  pub counted : (i : ℕ) → ref_at (get_elem? t i) ≡ count i held

pub held_entry :
    (t : List Inode) (held : List ℕ) (i : ℕ)
    → IsValid t held
    → 0 < count i held
    → (p : Inode) × ((get_elem? t i ≡ some p) × (p.ref ≡ count i held))
held_entry t held i v pos = elim (Option-cases (get_elem? t i)) [
  | inl past ↦ absurd (omega (arith, v.counted i, ap ref_at past, pos))
  | inr (p, at) ↦ (p, (at, sym (ap ref_at at) ∙ v.counted i))
]

-- An entry is changed, and the ledger follows its count.
change-counted :
    (t : List Inode) (held held' : List ℕ) (k : ℕ) (f : Inode → Inode) (p : Inode)
    → IsValid t held
    → get_elem? t k ≡ some p
    → (f p).ref ≡ count k held'
    → ((j : ℕ) → k ≢ j → count j held' ≡ count j held)
    → (j : ℕ) → ref_at (get_elem? (at_entry k f t) j) ≡ count j held'
change-counted t held held' k f p v at new same j = elim (ℕ_discrete k j) [
  | yes e ↦
      subst (λ i. ref_at (get_elem? (at_entry k f t) i) ≡ count i held') e
        (ap ref_at (get_elem?-at_entry_self k f t ∙ ap (Option.map f) at) ∙ new)
  | no ne ↦ ap ref_at (get_elem?-at_entry_ne k j f t ne) ∙ v.counted j ∙ sym (same j ne)
]

-- A change of an entry in use that keeps its inode.
pub keep-IsValid :
    (t : List Inode) (held held' : List ℕ) (k : ℕ) (f : Inode → Inode) (p : Inode)
    → IsValid t held
    → get_elem? t k ≡ some p
    → 0 < p.ref
    → ((q : Inode) → ((f q).dev ≡ q.dev) × ((f q).inum ≡ q.inum))
    → (f p).ref ≡ count k held'
    → ((j : ℕ) → k ≢ j → count j held' ≡ count j held)
    → IsValid (at_entry k f t) held'
keep-IsValid t held held' k f p v at used keep new same = record {
  unique =
      keep-Unique t k f
        (λ q at' pos. (subst (λ (x : Inode). 0 < x.ref) (some_inj (sym at ∙ at')) used, keep q))
        v.unique;
  counted = change-counted t held held' k f p v at new same;
}

-- A free entry is taken for an inode that no entry is in use for.
pub take-IsValid :
    (t : List Inode) (held : List ℕ) (k dev inum : ℕ) (p : Inode)
    → IsValid t held
    → get_elem? t k ≡ some p
    → p.ref ≡ 0
    → All (λ ip. is_inode dev inum ip ≡ false) t
    → IsValid
        (at_entry k (λ ip. record ip { dev = dev; inum = inum; ref = 1; valid = false }) t)
        (k ∷ held)
take-IsValid t held k dev inum p v at idle none_used =
    let f : Inode → Inode = λ ip. record ip { dev = dev; inum = inum; ref = 1; valid = false } in
    record {
      unique =
          change-Unique t k f v.unique
            (λ q j at' pos used. absurd (not_used dev inum t j none_used used));
      counted =
          change-counted t held (k ∷ held) k f p v at
            (omega (arith, count_self k held, v.counted k, ap ref_at at, idle))
            (λ j ne. count_ne k j held ne);
    }
