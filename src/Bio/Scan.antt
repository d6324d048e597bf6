-- ===== src/Bio/Scan.antt =====
-- kernel/bio.c: which buffer `bget` takes.
use xv6_riscv.Base.{
  ℕ, ◌≡◌, ◌≢◌, refl, sym, ap, ◌∙◌, subst, true, false, Option, none, some, List, [], ◌∷◌, ◌++◌, All,
  if◌then◌else◌, inl, inr, Bool-cases, ==→eq, ==→ne, ◌==◌,
}
use xv6_riscv.Store.{inc32}
use xv6_riscv.Bio.{Buf, holds, later, find_cached, reuse, recycle, bget}

-- One buffer of the list changed.
pub record Changed (f : Buf → Buf) (bs : List Buf) (r : ℕ × List Buf) : Type 0 where
  pub before : List Buf
  pub buf : Buf
  pub after : List Buf
  pub split : bs ≡ before ++ buf ∷ after
  pub result : r ≡ (buf.at, before ++ f buf ∷ after)

abbrev pub count_up : Buf → Buf
count_up b = record b { refcnt = inc32 b.refcnt }

-- Where a block is cached, and where it is not.
pub data Looked (dev blockno : ℕ) (bs : List Buf) : Option (ℕ × List Buf) → Type 0 where
  cached :
      (r : ℕ × List Buf) (c : Changed count_up bs r)
      → holds dev blockno c.buf ≡ true
      → Looked dev blockno bs (some r)
  absent : All (λ b. holds dev blockno b ≡ false) bs → Looked dev blockno bs none

Changed-cons :
    (f : Buf → Buf) (b : Buf) (bs : List Buf) (p : ℕ) (r : List Buf)
    → (c : Changed f bs (p, r))
    → (d : Changed f (b ∷ bs) (p, b ∷ r)) × (d.buf ≡ c.buf) × (d.after ≡ c.after)
Changed-cons f b bs p r c = (
  record {
    before = b ∷ c.before;
    buf = c.buf;
    after = c.after;
    split = ap (λ l. b ∷ l) c.split;
    result = ap (λ (v : ℕ × List Buf). (v.0, b ∷ v.1)) c.result;
  },
  refl,
  refl,
)

Looked-cons :
    (dev blockno : ℕ) (b : Buf) (bs : List Buf) (o : Option (ℕ × List Buf))
    → holds dev blockno b ≡ false
    → Looked dev blockno bs o
    → Looked dev blockno (b ∷ bs) (later b o)
Looked-cons dev blockno b bs none other (absent all) = absent (other, all)
Looked-cons dev blockno b bs (some (p, r)) other (cached _ c here) =
    let (d, same, _) = Changed-cons count_up b bs p r c in
    cached (p, b ∷ r) d (subst (λ x. holds dev blockno x ≡ true) (sym same) here)

find_cached-Looked :
    (dev blockno : ℕ) (bs : List Buf) → Looked dev blockno bs (find_cached dev blockno bs)
unfolding find_cached
find_cached-Looked dev blockno [] = absent tt
find_cached-Looked dev blockno (b ∷ bs) =
    let rest = find_cached-Looked dev blockno bs in
    elim (Bool-cases (holds dev blockno b)) [
      | inl here ↦ rw here (
          cached (b.at, count_up b ∷ bs)
            (record { before = []; buf = b; after = bs; split = refl; result = refl }) here)
      | inr other ↦ rw other (Looked-cons dev blockno b bs (find_cached dev blockno bs) other rest)
    ]

-- The last unused buffer, or none where all are used.
pub data Taken (dev blockno : ℕ) (bs : List Buf) : Option (ℕ × List Buf) → Type 0 where
  took :
      (r : ℕ × List Buf) (c : Changed (reuse dev blockno) bs r)
      → c.buf.refcnt ≡ 0
      → All (λ b. b.refcnt ≢ 0) c.after
      → Taken dev blockno bs (some r)
  busy : All (λ b. b.refcnt ≢ 0) bs → Taken dev blockno bs none

Taken-cons :
    (dev blockno : ℕ) (b : Buf) (bs : List Buf) (o : Option (ℕ × List Buf))
    → Taken dev blockno bs o
    → Taken dev blockno (b ∷ bs) (elim o [
      | some (p, r) ↦ some (p, b ∷ r)
      | none ↦ if b.refcnt == 0 then some (b.at, reuse dev blockno b ∷ bs) else none
    ])
Taken-cons dev blockno b bs none (busy all) = elim (Bool-cases (b.refcnt == 0)) [
  | inl free ↦ rw free (
      took (b.at, reuse dev blockno b ∷ bs)
        (record { before = []; buf = b; after = bs; split = refl; result = refl })
        (==→eq b.refcnt 0 free) all)
  | inr held ↦ rw held (busy (==→ne b.refcnt 0 held, all))
]
Taken-cons dev blockno b bs (some (p, r)) (took _ c free all) =
    let (d, same, rest) = Changed-cons (reuse dev blockno) b bs p r c in
    took (p, b ∷ r) d (ap (λ (x : Buf). x.refcnt) same ∙ free)
      (subst (All (λ x. x.refcnt ≢ 0)) (sym rest) all)

recycle-Taken : (dev blockno : ℕ) (bs : List Buf) → Taken dev blockno bs (recycle dev blockno bs)
unfolding recycle
recycle-Taken dev blockno [] = busy tt
recycle-Taken dev blockno (b ∷ bs) =
    Taken-cons dev blockno b bs (recycle dev blockno bs) (recycle-Taken dev blockno bs)

-- How a `bget` ends.
pub data Got (dev blockno : ℕ) (bs : List Buf) : Option (ℕ × List Buf) → Type 0 where
  hit :
      (r : ℕ × List Buf) (c : Changed count_up bs r)
      → holds dev blockno c.buf ≡ true
      → Got dev blockno bs (some r)
  reused :
      (r : ℕ × List Buf) (c : Changed (reuse dev blockno) bs r)
      → All (λ b. holds dev blockno b ≡ false) bs
      → c.buf.refcnt ≡ 0
      → All (λ b. b.refcnt ≢ 0) c.after
      → Got dev blockno bs (some r)
  no_buffers :
      All (λ b. holds dev blockno b ≡ false) bs
      → All (λ b. b.refcnt ≢ 0) bs
      → Got dev blockno bs none

Got-from :
    (dev blockno : ℕ) (bs : List Buf) (o q : Option (ℕ × List Buf))
    → Looked dev blockno bs o
    → Taken dev blockno bs q
    → Got dev blockno bs (elim o [ some r ↦ some r | none ↦ q ])
Got-from dev blockno bs (some r) q (cached _ c here) t = hit r c here
Got-from dev blockno bs none (some r) (absent all) (took _ c free rest) = reused r c all free rest
Got-from dev blockno bs none none (absent all) (busy held) = no_buffers all held

-- Bget returns a buffer that holds the block, with its count one higher; or, if no buffer holds
-- the block, the last buffer of the list with count 0, set up for the block; and it panics only
-- if no buffer holds the block and no count is 0.
pub bget-Got : (dev blockno : ℕ) (bs : List Buf) → Got dev blockno bs (bget dev blockno bs)
unfolding bget
bget-Got dev blockno bs =
    Got-from dev blockno bs (find_cached dev blockno bs) (recycle dev blockno bs)
      (find_cached-Looked dev blockno bs) (recycle-Taken dev blockno bs)
