-- ===== src/Bio/Unique.antt =====
-- kernel/bio.c: a block has at most one buffer. The buffers that were never used have device 0.
use xv6_riscv.Base.{
  ℕ, ◌≡◌, sym, ap, ◌∙◌, subst, false, Option, none, some, List, [], ◌∷◌, ◌++◌, All, All-append,
  All-map, map, arith,
}
use xv6_riscv.Bio.{Buf, holds, reuse}
use xv6_riscv.Bio.Scan.{Changed, count_up, Got, hit, reused}

abbrev pub Differ : Buf → Buf → Type 0
Differ b c = (b.dev ≡ c.dev) → (b.blockno ≡ c.blockno) → b.dev ≡ 0

abbrev pub Unique : List Buf → Type 0
Unique [] = Unit
Unique (b ∷ bs) = All (Differ b) bs × Unique bs

All-split :
    (P : Buf → Type 0) (xs : List Buf) (b : Buf) (ys : List Buf)
    → All P (xs ++ b ∷ ys)
    → All P xs × (P b × All P ys)
All-split P [] b ys h = (tt, (h.0, h.1))
All-split P (x ∷ xs) b ys h = let (before, rest) = All-split P xs b ys h.1 in ((h.0, before), rest)

turn : (b c : Buf) → Differ b c → Differ c b
turn b c h = λ d e. d ∙ h (sym d) (sym e)

-- One buffer of a unique list differs from the others, which are unique.
pub Unique-split :
    (xs : List Buf) (b : Buf) (ys : List Buf)
    → Unique (xs ++ b ∷ ys)
    → All (Differ b) xs × (All (Differ b) ys × Unique (xs ++ ys))
Unique-split [] b ys u = (tt, (u.0, u.1))
Unique-split (x ∷ xs) b ys u =
    let (left, (right, rest)) = Unique-split xs b ys u.1 in
    let (before, (here, after)) = All-split (Differ x) xs b ys u.0 in
    ((turn x b here, left), (right, (All-append (Differ x) xs ys before after, rest)))

Unique-join :
    (xs : List Buf) (b : Buf) (ys : List Buf)
    → All (Differ b) xs
    → All (Differ b) ys
    → Unique (xs ++ ys)
    → Unique (xs ++ b ∷ ys)
Unique-join [] b ys left right u = (right, u)
Unique-join (x ∷ xs) b ys left right u = (insert xs u.0, Unique-join xs b ys left.1 right u.1)
  where
    insert : (zs : List Buf) → All (Differ x) (zs ++ ys) → All (Differ x) (zs ++ b ∷ ys)
    insert [] h = (turn b x left.0, h)
    insert (z ∷ zs) h = (h.0, insert zs h.1)

-- The list that `bget` leaves, whether it hits or recycles.
abbrev pub list_of : Option (ℕ × List Buf) → List Buf → List Buf
list_of none bs = bs
list_of (some (p, r)) bs = r

Changed-Unique :
    (f : Buf → Buf) (bs : List Buf) (r : ℕ × List Buf) (c : Changed f bs r)
    → (All (Differ c.buf) c.before → All (Differ (f c.buf)) c.before)
    → (All (Differ c.buf) c.after → All (Differ (f c.buf)) c.after)
    → Unique bs
    → Unique r.1
Changed-Unique f bs r c left right u =
    let (a, (b, rest)) = Unique-split c.before c.buf c.after (subst Unique c.split u) in
    subst Unique (sym (ap (λ (v : ℕ × List Buf). v.1) c.result))
      (Unique-join c.before (f c.buf) c.after (left a) (right b) rest)

new_differs :
    (dev blockno : ℕ) (b : Buf) (cs : List Buf)
    → All (λ c. holds dev blockno c ≡ false) cs
    → All (Differ (reuse dev blockno b)) cs
new_differs dev blockno b cs h =
    All-map (λ (c : Buf). holds dev blockno c ≡ false) (Differ (reuse dev blockno b)) cs
      (λ c other d e. absurd (ground (arith, other, d, e))) h

pub Got-Unique :
    (dev blockno : ℕ) (bs : List Buf) (o : Option (ℕ × List Buf))
    → Got dev blockno bs o
    → Unique bs
    → Unique (list_of o bs)
Got-Unique dev blockno bs none g u = u
Got-Unique dev blockno bs (some r) (hit _ c here) u =
    Changed-Unique count_up bs r c (λ h. h) (λ h. h) u
Got-Unique dev blockno bs (some r) (reused _ c all free rest) u =
    let (a, (_, b)) =
      All-split (λ x. holds dev blockno x ≡ false) c.before c.buf c.after
        (subst (All (λ x. holds dev blockno x ≡ false)) c.split all) in
    Changed-Unique (reuse dev blockno) bs r c (λ _. new_differs dev blockno c.buf c.before a)
      (λ _. new_differs dev blockno c.buf c.after b) u

-- A change of every buffer that keeps its block.
module _ (f : Buf → Buf) (d : (b : Buf) → (f b).dev ≡ b.dev)
    (n : (b : Buf) → (f b).blockno ≡ b.blockno) where
  Differ-map : (b : Buf) (cs : List Buf) → All (Differ b) cs → All (Differ (f b)) (map f cs)
  Differ-map b [] h = tt
  Differ-map b (c ∷ cs) h =
      (λ e g. d b ∙ h.0 (sym (d b) ∙ e ∙ d c) (sym (n b) ∙ g ∙ n c), Differ-map b cs h.1)

  pub map-Unique : (bs : List Buf) → Unique bs → Unique (map f bs)
  map-Unique [] u = tt
  map-Unique (b ∷ bs) u = (Differ-map b bs u.0, map-Unique bs u.1)
