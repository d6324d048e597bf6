-- ===== src/Console/Typing.antt =====
-- kernel/console.c: `consoleintr` for each byte.
use xv6_riscv.Base.{
  ℕ, suc, ◌+◌, ◌≤◌, ◌<◌, ◌≡◌, ◌≢◌, refl, sym, ap, ◌∙◌, subst, true, false, Bool, ◌&&◌, ◌||◌, not,
  List, [], ◌∷◌, ◌++◌, length, arith, ◌==◌, ==→ne, ==→eq, Bool-cases, if◌then◌else◌, ltb, inl, inr,
}
use xv6_riscv.Console.{
  Cons, input_buf_size, newline, store, filled, accept, consoleintr, consputc, ctrl_p, ctrl_u,
  ctrl_h, ctrl_d, delete,
}
use xv6_riscv.Console.Ring.{ahead, ready, line, IsValid, length-window, Unended}
use xv6_riscv.Console.Editing.{
  but_last, Edited, typed, Shows, same-Shows, erase-Shows, kill_line-Shows, filled_lem, ready-store,
  line-store, commit-Shows, ahead-store, empty-line, Unended-snoc,
}

counted : (c : Cons) → IsValid c → filled c ≡ length (ready c) + length (line c)
counted c v =
    filled_lem c v
    ∙ (ap (λ n. n + ahead c.e c.w) (sym (length-window c.buf c.r (ahead c.w c.r)))
        ∙ ap (λ n. length (ready c) + n) (sym (length-window c.buf c.w (ahead c.e c.w))))

-- An ordinary byte `b`, after the test of `accept`.
stored-Shows :
    (b : ℕ) (c : Cons) (sent : List ℕ) (ends : Bool)
    → IsValid c
    → filled c < input_buf_size
    → (ends ≡ false → b ≢ newline)
    → Shows
        (if ends
          then record { cons = record (store b c) { w = (store b c).e }; echo = sent; wakes = true }
          else record { cons = store b c; echo = sent; wakes = false })
        (if ends
          then record { queue = ready c ++ (line c ++ b ∷ []); edit = []; wakes = true }
          else record { queue = ready c; edit = line c ++ b ∷ []; wakes = false })
stored-Shows b c sent true v room h =
    let bounded : ahead c.w c.r + ahead (store b c).e c.w ≤ input_buf_size =
      omega (arith, ahead-store b c v room, filled_lem c v, room) in
    subst
      (λ q.
        Shows
          (record { cons = record (store b c) { w = (store b c).e }; echo = sent; wakes = true })
          (record { queue = q; edit = []; wakes = true }))
      (ap (λ l. l ++ line (store b c)) (ready-store b c v room)
        ∙ ap (λ l. ready c ++ l) (line-store b c v room))
      (commit-Shows (store b c) sent v.r_fits v.w_fits (omega arith) bounded)
stored-Shows b c sent false v room h = record {
  valid = record {
    r_fits = v.r_fits;
    w_fits = v.w_fits;
    e_fits = omega arith;
    bounded = omega (arith, ahead-store b c v room, filled_lem c v, room);
    no_end =
        subst Unended (sym (line-store b c v room)) (Unended-snoc (line c) b v.no_end (h refl));
  };
  queue = ready-store b c v room;
  edit = line-store b c v room;
  wakes = refl;
}

-- What `typed` does with an ordinary byte.
abbrev appended : ℕ → List ℕ → List ℕ → Edited
appended b queue edit =
    if b == newline || (b == ctrl_d || suc (length queue + length edit) == input_buf_size)
    then record { queue = queue ++ (edit ++ b ∷ []); edit = []; wakes = true }
    else record { queue = queue; edit = edit ++ b ∷ []; wakes = false }

accept-Shows :
    (ch : ℕ) (c : Cons)
    → IsValid c
    → filled c < input_buf_size
    → Shows (accept ch c) (appended (if ch == 13 then newline else ch) (ready c) (line c))
unfolding accept
accept-Shows ch c v room =
    let b : ℕ = if ch == 13 then newline else ch in
    let full : filled (store b c) ≡ suc (length (ready c) + length (line c)) =
      omega (arith, counted c v, v.e_fits, v.r_fits, room) in
    subst
      (λ n. Shows (accept ch c) (
        if b == newline || (b == ctrl_d || n == input_buf_size)
        then record { queue = ready c ++ (line c ++ b ∷ []); edit = []; wakes = true }
        else record { queue = ready c; edit = line c ++ b ∷ []; wakes = false }))
      full
      (stored-Shows b c (consputc b)
        (b == newline || (b == ctrl_d || filled (store b c) == input_buf_size)) v room
        (λ e. ground (arith, e)))

-- The last branch.
plain-Shows :
    (ch : ℕ) (c : Cons)
    → IsValid c
    → Shows
        (if not (ch == 0) && ltb (filled c) input_buf_size
          then accept ch c
          else record { cons = c; echo = []; wakes = false })
        (if not (ch == 0) && ltb (length (ready c) + length (line c)) input_buf_size
          then appended (if ch == 13 then newline else ch) (ready c) (line c)
          else record { queue = ready c; edit = line c; wakes = false })
plain-Shows ch c v =
    subst
      (λ n.
        Shows
          (if not (ch == 0) && ltb (filled c) input_buf_size
            then accept ch c
            else record { cons = c; echo = []; wakes = false })
          (if not (ch == 0) && ltb n input_buf_size
            then appended (if ch == 13 then newline else ch) (ready c) (line c)
            else record { queue = ready c; edit = line c; wakes = false }))
      (counted c v) (branch (not (ch == 0) && ltb (filled c) input_buf_size) refl)
  where
    branch :
        (b : Bool)
        → (not (ch == 0) && ltb (filled c) input_buf_size) ≡ b
        → Shows (if b then accept ch c else record { cons = c; echo = []; wakes = false }) (
            if b
            then appended (if ch == 13 then newline else ch) (ready c) (line c)
            else record { queue = ready c; edit = line c; wakes = false })
    branch true e = accept-Shows ch c v (ground (arith, e))
    branch false e = same-Shows c [] v

-- On a valid buffer consoleintr does to the bytes that are ready and to the line being edited
-- what `typed` does to two lists: ^U empties the line, a backspace drops its last byte, another
-- byte that fits goes to its end, and a return, ^D or a full buffer hands the line over and wakes
-- the readers; the buffer stays valid, also where its indices wrap.
pub consoleintr-Shows :
    (ch : ℕ) (c : Cons) → IsValid c → Shows (consoleintr ch c) (typed ch (ready c) (line c))
unfolding consoleintr typed but_last
consoleintr-Shows ch c v = elim (Bool-cases (ch == ctrl_p)) [
  | inl p ↦ rw p (same-Shows c [] v)
  | inr not_p ↦ elim (Bool-cases (ch == ctrl_u)) [
    | inl u ↦
        rw (not_p, u)
          (kill_line-Shows input_buf_size c [] (ready c) v (omega (arith, v.bounded)) refl)
    | inr not_u ↦ elim (Bool-cases (ch == ctrl_h || ch == delete)) [
      | inl back ↦ elim (Bool-cases (c.e == c.w)) [
        | inl e ↦
            rw (not_p, not_u, back, e)
              (subst
                (λ l.
                  Shows (record { cons = c; echo = []; wakes = false })
                    (record { queue = ready c; edit = l; wakes = false }))
                (empty-line c v (==→eq c.e c.w e)
                  ∙ sym (ap but_last (empty-line c v (==→eq c.e c.w e))))
                (same-Shows c [] v))
        | inr more ↦ rw (not_p, not_u, back, more) (erase-Shows c v (==→ne c.e c.w more))
      ]
      | inr plain ↦ rw (not_p, not_u, plain) (plain-Shows ch c v)
    ]
  ]
]
