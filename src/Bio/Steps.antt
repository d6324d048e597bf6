-- ===== src/Bio/Steps.antt =====
-- kernel/bio.c: any history of the calls on the cache.
use xv6_riscv.Base.{
  ℕ, zero, suc, ◌≡◌, refl, ap, subst, Bool, true, false, Option, none, some, List, [], ◌∷◌, ◌++◌,
  All, All-append, map, if◌then◌else◌, inl, inr, Bool-cases, ◌==◌, ◌&&◌, not,
}
use xv6_riscv.Store.{inc32, dec32}
use xv6_riscv.Bio.{Buf, binit, bget, bread, load, brelse, unlink, after_it, drop_ref, bpin, bunpin}
use xv6_riscv.Bio.Scan.{bget-Got}
use xv6_riscv.Bio.Unique.{Differ, Unique, Unique-split, list_of, Got-Unique, map-Unique}

abbrev count_down : Buf → Buf
count_down b = record b { refcnt = dec32 b.refcnt }

data Unlinked (bs : List Buf) : Option (Buf × List Buf) → Type 0 where
  missing : Unlinked bs none
  taken :
      (xs : List Buf) (b : Buf) (ys : List Buf)
      → bs ≡ xs ++ b ∷ ys
      → Unlinked bs (some (count_down b, xs ++ ys))

Unlinked-cons :
    (b : Buf) (bs : List Buf) (o : Option (Buf × List Buf))
    → Unlinked bs o
    → Unlinked (b ∷ bs) (after_it b o)
Unlinked-cons b bs none missing = missing
Unlinked-cons b bs (some _) (taken xs c ys e) = taken (b ∷ xs) c ys (ap (λ l. b ∷ l) e)

unlink-Unlinked : (p : ℕ) (bs : List Buf) → Unlinked bs (unlink p bs)
unfolding unlink
unlink-Unlinked p [] = missing
unlink-Unlinked p (b ∷ bs) =
    let rest = Unlinked-cons b bs (unlink p bs) (unlink-Unlinked p bs) in
    elim (Bool-cases (b.at == p)) [
      | inl here ↦ rw here (taken [] b bs refl)
      | inr other ↦ rw other rest
    ]

keep_dev :
    (c : Bool) (f : Buf → Buf) (b : Buf) → (f b).dev ≡ b.dev → (if c then f b else b).dev ≡ b.dev
keep_dev true f b e = e
keep_dev false f b e = refl

keep_blockno :
    (c : Bool) (f : Buf → Buf) (b : Buf)
    → (f b).blockno ≡ b.blockno
    → (if c then f b else b).blockno ≡ b.blockno
keep_blockno true f b e = e
keep_blockno false f b e = refl

-- A change of the buffers that pass a test.
some-Unique :
    (test : Buf → Bool) (f : Buf → Buf)
    → ((b : Buf) → (f b).dev ≡ b.dev)
    → ((b : Buf) → (f b).blockno ≡ b.blockno)
    → (bs : List Buf) → Unique bs
    → Unique (map (λ b. if test b then f b else b) bs)
some-Unique test f d n bs u =
    map-Unique (λ b. if test b then f b else b) (λ b. keep_dev (test b) f b (d b))
      (λ b. keep_blockno (test b) f b (n b)) bs u

drop_ref-Unique : (p : ℕ) (bs : List Buf) → Unique bs → Unique (drop_ref p bs)
unfolding drop_ref
drop_ref-Unique p bs u = some-Unique (λ b. b.at == p) count_down (λ b. refl) (λ b. refl) bs u

released-Unique :
    (p : ℕ) (bs : List Buf) (o : Option (Buf × List Buf))
    → Unlinked bs o
    → Unique bs
    → Unique (elim o [ none ↦ bs | some (b, r) ↦ if b.refcnt == 0 then b ∷ r else drop_ref p bs ])
released-Unique p bs none missing u = u
released-Unique p bs (some _) (taken xs b ys e) u =
    let (left, (right, rest)) = Unique-split xs b ys (subst Unique e u) in
    elim (Bool-cases (dec32 b.refcnt == 0)) [
      | inl last ↦ rw last (All-append (Differ (count_down b)) xs ys left right, rest)
      | inr more ↦ rw more (drop_ref-Unique p bs u)
    ]

brelse-Unique : (p : ℕ) (bs : List Buf) → Unique bs → Unique (brelse p bs)
unfolding brelse
brelse-Unique p bs u = released-Unique p bs (unlink p bs) (unlink-Unlinked p bs) u

loaded-Unique :
    (disk : ℕ → ℕ → ℕ) (bs : List Buf) (o : Option (ℕ × List Buf))
    → Unique (list_of o bs)
    → Unique (list_of (elim o [ none ↦ none | some (p, r) ↦ some (p, map (load disk p) r) ]) bs)
unfolding load
loaded-Unique disk bs none u = u
loaded-Unique disk bs (some (p, r)) u =
    some-Unique (λ b. b.at == p && not b.valid)
      (λ b. record b { bytes = disk b.blockno; valid = true }) (λ b. refl) (λ b. refl) r u

bread-Unique :
    (disk : ℕ → ℕ → ℕ) (dev blockno : ℕ) (bs : List Buf)
    → Unique bs
    → Unique (list_of (bread disk dev blockno bs) bs)
unfolding bread
bread-Unique disk dev blockno bs u =
    loaded-Unique disk bs (bget dev blockno bs)
      (Got-Unique dev blockno bs (bget dev blockno bs) (bget-Got dev blockno bs) u)

-- A call: a `bread` from a disk that has this content, or one with the index of a buffer.
pub data Call : Type 0 where
  reads : (ℕ → ℕ → ℕ) → ℕ → ℕ → Call
  releases : ℕ → Call
  pins : ℕ → Call
  unpins : ℕ → Call

pub step : Call → List Buf → List Buf
step (reads disk dev blockno) bs = list_of (bread disk dev blockno bs) bs
step (releases p) bs = brelse p bs
step (pins p) bs = bpin p bs
step (unpins p) bs = bunpin p bs

pub run : List Call → List Buf → List Buf
run [] bs = bs
run (c ∷ cs) bs = run cs (step c bs)

step-Unique : (c : Call) (bs : List Buf) → Unique bs → Unique (step c bs)
unfolding step bpin bunpin
step-Unique (reads disk dev blockno) bs u = bread-Unique disk dev blockno bs u
step-Unique (releases p) bs u = brelse-Unique p bs u
step-Unique (pins p) bs u =
    some-Unique (λ b. b.at == p) (λ b. record b { refcnt = inc32 b.refcnt }) (λ b. refl) (λ b. refl)
      bs u
step-Unique (unpins p) bs u = drop_ref-Unique p bs u

run_lem : (cs : List Call) (bs : List Buf) → Unique bs → Unique (run cs bs)
unfolding run
run_lem [] bs u = u
run_lem (c ∷ cs) bs u = run_lem cs (step c bs) (step-Unique c bs u)

binit-Unique : (n : ℕ) → Unique (binit n)
unfolding binit
binit-Unique zero = tt
binit-Unique (suc n) = (all_zero (binit n), binit-Unique n)
  where
    all_zero :
        (bs : List Buf)
        → All
            (Differ
              (record { at = n; valid = false; dev = 0; blockno = 0; refcnt = 0; bytes = λ _. 0 }))
            bs
    all_zero [] = tt
    all_zero (b ∷ bs) = (λ d e. refl, all_zero bs)

-- In any history of bread, brelse, bpin and bunpin calls on a cache after binit, no two buffers
-- hold the same block of the same device, but for those of device 0.
pub run-Unique : (cs : List Call) (n : ℕ) → Unique (run cs (binit n))
run-Unique cs n = run_lem cs (binit n) (binit-Unique n)
