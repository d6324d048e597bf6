-- ===== src/Console/Reading.antt =====
-- kernel/console.c: `consoleread` takes the bytes that are ready, at most to the end of a line.
use xv6_riscv.Base.{
  ℕ, suc, ◌+◌, ◌-◌, ◌%◌, ◌^◌, ◌≤◌, ◌<◌, ◌≡◌, ◌≢◌, refl, sym, ap, ◌∙◌, subst, true, false, Bool,
  List, [], ◌∷◌, ◌++◌, All, length, arith, append_assoc,
}
use native.Mathlib.Decide.{ℕ_discrete}
use xv6_riscv.Console.{Cons, input_buf_size, newline, ctrl_d, ReadEnd, failed, slept, returned}
use xv6_riscv.Console.Ring.{ahead, window, ready, line, IsValid, window_same}

-- Neither the end of a line nor that of the input.
abbrev pub Plain : List ℕ → Type 0
Plain = All (λ b. (b ≢ newline) × (b ≢ ctrl_d))

-- Of a request with `n` bytes to go, the copies of the bytes `d` all succeeded.
abbrev pub Copies : (ℕ → Bool) → ℕ → List ℕ → Type 0
Copies copyout n d = (k : ℕ) → k ≤ n → n < k + length d → copyout k ≡ true

-- Why `consoleread` returns after the bytes `d` of `queue`, with `n` to go of `target`: it has read all, a
-- line has ended, the input has, and its end stays for the next call if bytes were read, or the copy
-- of a byte other than ^D failed, and the byte is lost.
pub data Stop (copyout : ℕ → Bool) (target n : ℕ) (queue d rest : List ℕ) : Type 0 where
  all_read : n ≡ 0 → Plain d → queue ≡ d ++ rest → Stop copyout target n queue d rest
  line_read :
      (p : List ℕ)
      → Plain p
      → d ≡ p ++ newline ∷ []
      → queue ≡ d ++ rest
      → Stop copyout target n queue d rest
  end_kept :
      (l : List ℕ)
      → Plain d
      → 0 < n
      → n < target
      → rest ≡ ctrl_d ∷ l
      → queue ≡ d ++ rest
      → Stop copyout target n queue d rest
  end_taken :
      Plain d → 0 < n → target ≤ n → queue ≡ d ++ ctrl_d ∷ rest → Stop copyout target n queue d rest
  byte_lost :
      (b : ℕ)
      → Plain d
      → 0 < n
      → copyout n ≡ false
      → b ≢ ctrl_d
      → queue ≡ d ++ b ∷ rest
      → Stop copyout target n queue d rest

pub record Kept (c c' : Cons) : Type 0 where
  pub valid : IsValid c'
  pub line : line c' ≡ line c

-- The end of a step with `n` bytes to go: the bytes `d` copied out after `out`, in order and at most to
-- the end of a line, each by a copy that succeeded, and what is left.
abbrev pub Reads : Bool → (ℕ → Bool) → ℕ → ℕ → Cons → List ℕ → ReadEnd → Type 0
Reads killed copyout target n c out (failed c' o) =
    (killed ≡ true)
    × (length (ready c) < n)
    × Kept c c'
    × (ready c' ≡ [])
    × Plain (ready c)
    × (o ≡ out ++ ready c)
    × Copies copyout n (ready c)
Reads killed copyout target n c out (slept m c' o) =
    (killed ≡ false)
    × Kept c c'
    × (ready c' ≡ [])
    × Plain (ready c)
    × (o ≡ out ++ ready c)
    × (0 < m)
    × (m + length (ready c) ≡ n)
    × Copies copyout n (ready c)
Reads killed copyout target n c out (returned m c' o) =
    Kept c c'
    × ((d : List ℕ) × (o ≡ out ++ d)
        × (m + length d ≡ n)
        × Copies copyout n d
        × Stop copyout target m (ready c) d (ready c'))

pub Copies-cons :
    (copyout : ℕ → Bool) (n x : ℕ) (d : List ℕ)
    → copyout (suc n) ≡ true
    → Copies copyout n d
    → Copies copyout (suc n) (x ∷ d)
Copies-cons copyout n x d first later k le lt = elim (ℕ_discrete k (suc n)) [
  | yes same ↦ subst (λ j. copyout j ≡ true) (sym same) first
  | no ne ↦ later k (omega (arith, ne, le)) (omega (arith, lt))
]

Stop-cons :
    (copyout : ℕ → Bool) (target n x : ℕ) (queue d rest : List ℕ)
    → x ≢ newline
    → x ≢ ctrl_d
    → Stop copyout target n queue d rest
    → Stop copyout target n (x ∷ queue) (x ∷ d) rest
Stop-cons copyout target n x queue d rest nl nd (all_read z p e) =
    all_read z ((nl, nd), p) (ap (λ l. x ∷ l) e)
Stop-cons copyout target n x queue d rest nl nd (line_read q p e f) =
    line_read (x ∷ q) ((nl, nd), p) (ap (λ l. x ∷ l) e) (ap (λ l. x ∷ l) f)
Stop-cons copyout target n x queue d rest nl nd (end_kept l p pos lt e f) =
    end_kept l ((nl, nd), p) pos lt e (ap (λ l. x ∷ l) f)
Stop-cons copyout target n x queue d rest nl nd (end_taken p pos le e) =
    end_taken ((nl, nd), p) pos le (ap (λ l. x ∷ l) e)
Stop-cons copyout target n x queue d rest nl nd (byte_lost b p pos fails other e) =
    byte_lost b ((nl, nd), p) pos fails other (ap (λ l. x ∷ l) e)

-- `cons.r++`, with the byte there
abbrev pub skip : Cons → Cons
skip c = record c { r = (c.r + 1) % 2 ^ 32 }

abbrev pub head_byte : Cons → ℕ
head_byte c = c.buf (c.r % input_buf_size)

ahead-skip : (c : Cons) → IsValid c → c.r ≢ c.w → ahead c.w c.r ≡ suc (ahead c.w (skip c).r)
ahead-skip c v more = omega (arith, v.r_fits, v.w_fits, more)

pub ready-skip : (c : Cons) → IsValid c → c.r ≢ c.w → ready c ≡ head_byte c ∷ ready (skip c)
ready-skip c v more =
    ap (window c.buf c.r) (ahead-skip c v more)
    ∙ ap (λ l. head_byte c ∷ l)
        (window_same c.buf (suc c.r) (skip c).r (ahead c.w (skip c).r) (omega (arith, v.r_fits)))

pub skip-Kept : (c : Cons) → IsValid c → c.r ≢ c.w → Kept c (skip c)
skip-Kept c v more = record {
  valid = record {
    r_fits = omega arith;
    w_fits = v.w_fits;
    e_fits = v.e_fits;
    bounded = omega (arith, v.bounded, ahead-skip c v more);
    no_end = v.no_end;
  };
  line = refl;
}

-- A plain byte before the rest of a step.
module _ (killed : Bool) (copyout : ℕ → Bool) (target n : ℕ) (c : Cons) (out : List ℕ)
    (first : ready c ≡ head_byte c ∷ ready (skip c)) (nl : head_byte c ≢ newline)
    (nd : head_byte c ≢ ctrl_d) (copied : copyout (suc n) ≡ true) where
  Plain-head_byte : Plain (ready (skip c)) → Plain (ready c)
  Plain-head_byte p = subst Plain (sym first) ((nl, nd), p)

  out-head_byte :
      (o : List ℕ) → o ≡ (out ++ head_byte c ∷ []) ++ ready (skip c) → o ≡ out ++ ready c
  out-head_byte o q =
      q ∙ (append_assoc out (head_byte c ∷ []) (ready (skip c)) ∙ ap (λ l. out ++ l) (sym first))

  Copies-head_byte : Copies copyout n (ready (skip c)) → Copies copyout (suc n) (ready c)
  Copies-head_byte h =
      subst (Copies copyout (suc n)) (sym first)
        (Copies-cons copyout n (head_byte c) (ready (skip c)) copied h)

  pub Reads-skip :
      (end : ReadEnd)
      → Reads killed copyout target n (skip c) (out ++ head_byte c ∷ []) end
      → Reads killed copyout target (suc n) c out end
  Reads-skip (failed c' o) (k, short, kept, z, p, q, h) = (
    k,
    omega (arith, short, ap length first),
    record { valid = kept.valid; line = kept.line },
    z,
    Plain-head_byte p,
    out-head_byte o q,
    Copies-head_byte h,
  )
  Reads-skip (slept m c' o) (k, kept, z, p, q, pos, len, h) = (
    k,
    record { valid = kept.valid; line = kept.line },
    z,
    Plain-head_byte p,
    out-head_byte o q,
    pos,
    omega (arith, len, ap length first),
    Copies-head_byte h,
  )
  Reads-skip (returned m c' o) (kept, (d, q, len, h, stop)) = (
    record { valid = kept.valid; line = kept.line },
    (
      head_byte c ∷ d,
      q ∙ append_assoc out (head_byte c ∷ []) d,
      omega (arith, len),
      Copies-cons copyout n (head_byte c) d copied h,
      subst (λ l. Stop copyout target m l (head_byte c ∷ d) (ready c')) (sym first)
          (Stop-cons copyout target m (head_byte c) (ready (skip c)) d (ready c') nl nd stop),
    ),
  )

pub back_again : (c : Cons) → IsValid c → ((c.r + 1) % 2 ^ 32 + 2 ^ 32 - 1) % 2 ^ 32 ≡ c.r
back_again c v = omega (arith, v.r_fits)

pub same-Kept : (c : Cons) → IsValid c → Kept c c
same-Kept c v = record { valid = v; line = refl }

pub none-ready : (c : Cons) → IsValid c → c.r ≡ c.w → ready c ≡ []
none-ready c v e =
    let none_left : ahead c.w c.r ≡ 0 = omega (arith, e, v.w_fits) in
    ap (window c.buf c.r) none_left
