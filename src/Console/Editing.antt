-- ===== src/Console/Editing.antt =====
-- kernel/console.c: `consoleintr` edits a line, and hands it over when it ends.
use mathlib.Core.Path.{ap₂}
use xv6_riscv.Base.{
  ℕ, zero, suc, ◌+◌, ◌-◌, ◌%◌, ◌^◌, ◌≤◌, ◌<◌, ◌≡◌, ◌≢◌, refl, sym, ap, ◌∙◌, subst, true, false,
  Bool, ◌&&◌, ◌||◌, not, List, [], ◌∷◌, ◌++◌, length, update, update_self, arith, ◌==◌, ==→ne,
  ==→eq, Bool-cases, if◌then◌else◌, ltb, ne→==, inl, inr,
}
use xv6_riscv.Console.{
  Cons, input_buf_size, newline, erase, store, filled, Interrupt, kill_line, consputc, ctrl_p,
  ctrl_u, ctrl_h, ctrl_d, delete, backspace,
}
use xv6_riscv.Console.Ring.{
  ahead, window, ready, line, IsValid, window_append, window-update, window_snoc, window_same,
  Unended,
}

-- A line without its last byte.
unfoldable pub but_last : List ℕ → List ℕ
but_last [] = []
but_last (b ∷ []) = []
but_last (b ∷ c ∷ bs) = b ∷ but_last (c ∷ bs)

-- The bytes that are ready, the line, and whether the readers are woken.
pub record Edited : Type 0 where
  pub queue : List ℕ
  pub edit : List ℕ
  pub wakes : Bool

-- What the byte `ch` does to the bytes that are ready and to the line.
unfoldable pub typed : ℕ → List ℕ → List ℕ → Edited
typed ch queue edit =
    let ch' = if ch == 13 then newline else ch in
    if ch == ctrl_p
    then record { queue = queue; edit = edit; wakes = false }
    else if ch == ctrl_u
    then record { queue = queue; edit = []; wakes = false }
    else if ch == ctrl_h || ch == delete
    then record { queue = queue; edit = but_last edit; wakes = false }
    else if not (ch == 0) && ltb (length queue + length edit) input_buf_size
    then (if ch' == newline || (ch' == ctrl_d || suc (length queue + length edit) == input_buf_size)
        then record { queue = queue ++ (edit ++ ch' ∷ []); edit = []; wakes = true }
        else record { queue = queue; edit = edit ++ ch' ∷ []; wakes = false })
    else record { queue = queue; edit = edit; wakes = false }

-- The interrupt leaves a valid buffer that holds this.
pub record Shows (i : Interrupt) (d : Edited) : Type 0 where
  pub valid : IsValid i.cons
  pub queue : ready i.cons ≡ d.queue
  pub edit : line i.cons ≡ d.edit
  pub wakes : i.wakes ≡ d.wakes

pub same-Shows :
    (c : Cons) (sent : List ℕ)
    → IsValid c
    → Shows
        (record { cons = c; echo = sent; wakes = false })
        (record { queue = ready c; edit = line c; wakes = false })
same-Shows c sent v = record { valid = v; queue = refl; edit = refl; wakes = refl }

but_last-snoc : (l : List ℕ) (b : ℕ) → but_last (l ++ b ∷ []) ≡ l
unfolding but_last
but_last-snoc [] b = refl
but_last-snoc (x ∷ []) b = refl
but_last-snoc (x ∷ y ∷ l) b = ap (λ k. x ∷ k) (but_last-snoc (y ∷ l) b)

Unended-left : (l m : List ℕ) → Unended (l ++ m) → Unended l
Unended-left [] m h = tt
Unended-left (x ∷ l) m (p, h) = (p, Unended-left l m h)

Unended-last : (l : List ℕ) (b : ℕ) → Unended (l ++ b ∷ []) → b ≢ newline
Unended-last [] b (p, h) = p
Unended-last (x ∷ l) b (p, h) = Unended-last l b h

pub Unended-snoc : (l : List ℕ) (b : ℕ) → Unended l → b ≢ newline → Unended (l ++ b ∷ [])
Unended-snoc [] b h p = (p, tt)
Unended-snoc (x ∷ l) b (q, h) p = (q, Unended-snoc l b h p)

-- A byte of the line is taken back.
ahead-erase : (c : Cons) → IsValid c → c.e ≢ c.w → ahead c.e c.w ≡ suc (ahead (erase c).e c.w)
ahead-erase c v more = omega (arith, v.e_fits, v.w_fits, more)

line-erase :
    (c : Cons)
    → IsValid c
    → c.e ≢ c.w
    → line c ≡ line (erase c) ++ c.buf ((c.e + 2 ^ 32 - 1) % 2 ^ 32 % input_buf_size) ∷ []
line-erase c v more =
    let at : (c.w + ahead (erase c).e c.w) % input_buf_size
        ≡ (c.e + 2 ^ 32 - 1) % 2 ^ 32 % input_buf_size =
      omega (arith, v.e_fits, v.w_fits, more) in
    ap (window c.buf c.w) (ahead-erase c v more)
    ∙ (window_snoc c.buf c.w (ahead (erase c).e c.w) ∙ ap (λ k. line (erase c) ++ c.buf k ∷ []) at)

erase-IsValid : (c : Cons) → IsValid c → c.e ≢ c.w → IsValid (erase c)
erase-IsValid c v more = record {
  r_fits = v.r_fits;
  w_fits = v.w_fits;
  e_fits = omega arith;
  bounded = omega (arith, v.bounded, ahead-erase c v more);
  no_end = Unended-left (line (erase c)) _ (subst Unended (line-erase c v more) v.no_end);
}

-- ^H
pub erase-Shows :
    (c : Cons)
    → IsValid c
    → c.e ≢ c.w
    → Shows
        (record { cons = erase c; echo = consputc backspace; wakes = false })
        (record { queue = ready c; edit = but_last (line c); wakes = false })
erase-Shows c v more = record {
  valid = erase-IsValid c v more;
  queue = refl;
  edit = sym (ap but_last (line-erase c v more) ∙ but_last-snoc (line (erase c)) _);
  wakes = refl;
}

pub empty-line : (c : Cons) → IsValid c → c.e ≡ c.w → line c ≡ []
empty-line c v e =
    let none_left : ahead c.e c.w ≡ 0 = omega (arith, e, v.w_fits) in
    ap (window c.buf c.w) none_left

-- ^U, with fuel for the line.
pub kill_line-Shows :
    (fuel : ℕ) (c : Cons) (sent queue : List ℕ)
    → IsValid c
    → ahead c.e c.w ≤ fuel
    → ready c ≡ queue
    → Shows (kill_line fuel c sent) (record { queue = queue; edit = []; wakes = false })
unfolding kill_line
kill_line-Shows zero c sent queue v le same =
    let e : c.e ≡ c.w = omega (arith, le, v.e_fits, v.w_fits) in
    record { valid = v; queue = same; edit = empty-line c v e; wakes = refl }
kill_line-Shows (suc fuel) c sent queue v le same = elim (Bool-cases (c.e == c.w)) [
  | inl e ↦
      rw e
        (record { valid = v; queue = same; edit = empty-line c v (==→eq c.e c.w e); wakes = refl })
  | inr more ↦
      let ne : c.e ≢ c.w = ==→ne c.e c.w more in
      let last : (c.buf ((c.e + 2 ^ 32 - 1) % 2 ^ 32 % input_buf_size) == newline) ≡ false =
        ne→== _ newline
          (Unended-last (line (erase c)) _ (subst Unended (line-erase c v ne) v.no_end)) in
      rw (more, last)
        (kill_line-Shows fuel (erase c) (sent ++ consputc backspace) queue (erase-IsValid c v ne)
          (omega (arith, le, ahead-erase c v ne)) same)
]

-- A byte is put at the end of the line.
pub ahead-store :
    (b : ℕ) (c : Cons)
    → IsValid c
    → filled c < input_buf_size
    → ahead (store b c).e c.w ≡ suc (ahead c.e c.w)
ahead-store b c v room = omega (arith, v.e_fits, v.w_fits, v.r_fits, v.bounded, room)

pub filled_lem : (c : Cons) → IsValid c → filled c ≡ ahead c.w c.r + ahead c.e c.w
filled_lem c v = omega (arith, v.e_fits, v.w_fits, v.r_fits, v.bounded)

pub ready-store :
    (b : ℕ) (c : Cons) → IsValid c → filled c < input_buf_size → ready (store b c) ≡ ready c
ready-store b c v room =
    window-update c.buf c.r (ahead c.w c.r) (c.e % input_buf_size) b
      (λ j lt e. omega (arith, v.e_fits, v.w_fits, v.r_fits, v.bounded, room, lt, e))

pub line-store :
    (b : ℕ) (c : Cons) → IsValid c → filled c < input_buf_size → line (store b c) ≡ line c ++ b ∷ []
line-store b c v room =
    let at : (c.w + ahead c.e c.w) % input_buf_size ≡ c.e % input_buf_size =
      omega (arith, v.e_fits, v.w_fits) in
    ap (window (store b c).buf c.w) (ahead-store b c v room)
    ∙ (window_snoc (store b c).buf c.w (ahead c.e c.w)
        ∙ ap₂ ◌++◌
            (window-update c.buf c.w (ahead c.e c.w) (c.e % input_buf_size) b
              (λ j lt e. omega (arith, v.e_fits, v.w_fits, v.r_fits, v.bounded, room, lt, e)))
            (ap (λ k. update c.buf (c.e % input_buf_size) b k ∷ []) at
              ∙ ap (λ x. x ∷ []) (update_self c.buf (c.e % input_buf_size) b)))

-- The line is handed over.
pub commit-Shows :
    (c : Cons) (sent : List ℕ)
    → c.r < 2 ^ 32
    → c.w < 2 ^ 32
    → c.e < 2 ^ 32
    → ahead c.w c.r + ahead c.e c.w ≤ input_buf_size
    → Shows
        (record { cons = record c { w = c.e }; echo = sent; wakes = true })
        (record { queue = ready c ++ line c; edit = []; wakes = true })
commit-Shows c sent lr lw le bounded =
    let none_left : ahead c.e c.e ≡ 0 = omega (arith, le) in
    let all_ready : ahead c.e c.r ≡ ahead c.w c.r + ahead c.e c.w =
      omega (arith, lr, lw, le, bounded) in
    let empty : line (record c { w = c.e }) ≡ [] = ap (window c.buf c.e) none_left in
    record {
      valid = record {
        r_fits = lr;
        w_fits = le;
        e_fits = le;
        bounded = omega (arith, none_left, all_ready, bounded);
        no_end = subst Unended (sym empty) tt;
      };
      queue =
          ap (window c.buf c.r) all_ready
          ∙ (window_append c.buf c.r (ahead c.w c.r) (ahead c.e c.w)
              ∙ ap (λ l. ready c ++ l)
                  (window_same c.buf (c.r + ahead c.w c.r) c.w (ahead c.e c.w)
                    (omega (arith, lr, lw))));
      edit = empty;
      wakes = refl;
    }
