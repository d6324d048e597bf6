-- ===== src/Console/Delivery.antt =====
-- kernel/console.c: each way that `consoleread` ends.
use xv6_riscv.Base.{
  ℕ, zero, suc, ◌+◌, ◌-◌, ◌%◌, ◌^◌, ◌≡◌, ◌≢◌, refl, sym, ap, ◌∙◌, subst, Bool, true, false, List,
  [], ◌∷◌, ◌++◌, length, arith, ◌==◌, ==→ne, ==→eq, Bool-cases, append-nil, if◌then◌else◌, ltb, inl,
  inr,
}
use xv6_riscv.Console.{Cons, newline, ctrl_d, failed, slept, returned, consoleread}
use xv6_riscv.Console.Ring.{ready, IsValid}
use xv6_riscv.Console.Reading.{
  Plain, Copies, Copies-cons, all_read, line_read, end_kept, end_taken, byte_lost, Reads, skip,
  head_byte, ready-skip, skip-Kept, Reads-skip, back_again, same-Kept, none-ready,
}

module _ (killed : Bool) (copyout : ℕ → Bool) (target n : ℕ) (c : Cons) (out : List ℕ)
    (v : IsValid c) where
  nothing_copied : Copies copyout (suc n) []
  nothing_copied k le lt = absurd (omega (arith, le, lt))

  -- Nothing is ready.
  empty-Reads :
      c.r ≡ c.w
      → Reads killed copyout target
          (suc n)
          c
          out
          (if killed then failed c out else slept (suc n) c out)
  empty-Reads e =
      let z : ready c ≡ [] = none-ready c v e in
      let nothing_more : out ≡ out ++ ready c = sym (ap (λ l. out ++ l) z ∙ append-nil out) in
      let plain : Plain (ready c) = subst Plain (sym z) tt in
      let copies : Copies copyout (suc n) (ready c) =
        subst (Copies copyout (suc n)) (sym z) nothing_copied in
      elim (Bool-cases killed) [
        | inl yes_killed ↦
            rw yes_killed
              (refl, omega (arith, ap length z), same-Kept c v, z, plain, nothing_more, copies)
        | inr alive ↦ rw alive (
          refl,
          same-Kept c v,
          z,
          plain,
          nothing_more,
          omega arith,
          ap (λ l. suc n + length l) z ∙ omega arith,
          copies,
        )
      ]

  -- The end of the input.
  end-Reads :
      c.r ≢ c.w
      → head_byte c ≡ ctrl_d
      → Reads killed copyout target (suc n) c out (
          returned
            (suc n)
            (if ltb (suc n) target
              then record (skip c) { r = ((skip c).r + 2 ^ 32 - 1) % 2 ^ 32 }
              else skip c)
            out)
  end-Reads more e =
      let first : ready c ≡ ctrl_d ∷ ready (skip c) =
        ready-skip c v more ∙ ap (λ b. b ∷ ready (skip c)) e in
      elim (Bool-cases (ltb (suc n) target)) [
        | inl kept ↦
            rw (kept, back_again c v)
              (
                same-Kept c v,
                (
                  [],
                  sym (append-nil out),
                  omega arith,
                  nothing_copied,
                  end_kept (ready (skip c)) tt (omega arith) (ground (arith, kept)) first refl,
                ),
              )
        | inr taken ↦ rw taken (
          skip-Kept c v more,
          (
            [],
            sym (append-nil out),
            omega arith,
            nothing_copied,
            end_taken tt (omega arith) (ground (arith, taken)) first,
          ),
        )
      ]

  -- The copy fails.
  lost-Reads :
      c.r ≢ c.w
      → head_byte c ≢ ctrl_d
      → copyout (suc n) ≡ false
      → Reads killed copyout target (suc n) c out (returned (suc n) (skip c) out)
  lost-Reads more other fails = (
    skip-Kept c v more,
    (
      [],
      sym (append-nil out),
      omega arith,
      nothing_copied,
      byte_lost (head_byte c) tt (omega arith) fails other (ready-skip c v more),
    ),
  )

  line-Reads :
      c.r ≢ c.w
      → head_byte c ≡ newline
      → copyout (suc n) ≡ true
      → Reads killed copyout target (suc n) c out (returned n (skip c) (out ++ head_byte c ∷ []))
  line-Reads more e copied = (
    skip-Kept c v more,
    (
      head_byte c ∷ [],
      refl,
      omega arith,
      Copies-cons copyout n (head_byte c) [] copied (λ k le lt. absurd (omega (arith, le, lt))),
      line_read [] tt (ap (λ b. b ∷ []) e) (ready-skip c v more),
    ),
  )

-- On a valid buffer a step of consoleread copies out the first ready bytes in order, each by a
-- copyout that succeeds, up to the end of a line at most, and leaves the others and the line being
-- edited. It sleeps or answers -1 only when nothing is ready and bytes are still to be read, as the
-- caller is killed or not. It returns when all is read, after the end of a line, at ^D, which stays
-- for the next call if bytes were read and is taken otherwise, or where the copyout of a byte fails,
-- and only then a byte is lost.
pub consoleread-Reads :
    (killed : Bool) (copyout : ℕ → Bool) (target n : ℕ) (c : Cons) (out : List ℕ)
    → IsValid c
    → Reads killed copyout target n c out (consoleread killed copyout target n c out)
unfolding consoleread
consoleread-Reads killed copyout target zero c out v = (
  same-Kept c v,
  (
    [],
    sym (append-nil out),
    omega arith,
    λ k le lt. absurd (omega (arith, le, lt)),
    all_read refl tt refl,
  ),
)
consoleread-Reads killed copyout target (suc n) c out v = elim (Bool-cases (c.r == c.w)) [
  | inl e ↦ rw e (empty-Reads killed copyout target n c out v (==→eq c.r c.w e))
  | inr some_more ↦
      let more : c.r ≢ c.w = ==→ne c.r c.w some_more in
      elim (Bool-cases (head_byte c == ctrl_d)) [
        | inl ends ↦
            rw (some_more, ends)
              (end-Reads killed copyout target n c out v more (==→eq (head_byte c) ctrl_d ends))
        | inr goes_on ↦
            let other : head_byte c ≢ ctrl_d = ==→ne (head_byte c) ctrl_d goes_on in
            elim (Bool-cases (copyout (suc n))) [
              | inr fails ↦
                  rw (some_more, goes_on, fails)
                    (lost-Reads killed copyout target n c out v more other fails)
              | inl copies ↦ elim (Bool-cases (head_byte c == newline)) [
                | inl last ↦
                    rw (some_more, goes_on, copies, last)
                      (line-Reads killed copyout target n c out v more
                        (==→eq (head_byte c) newline last) copies)
                | inr inner ↦
                    rw (some_more, goes_on, copies, inner)
                      (Reads-skip killed copyout target n c out (ready-skip c v more)
                        (==→ne (head_byte c) newline inner) other copies
                        (consoleread killed copyout target n (skip c) (out ++ head_byte c ∷ []))
                        (consoleread-Reads killed copyout target n (skip c)
                          (out ++ head_byte c ∷ []) (skip-Kept c v more).valid))
              ]
            ]
      ]
]
