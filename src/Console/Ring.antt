-- ===== src/Console/Ring.antt =====
-- kernel/console.c: the ring as the bytes that are ready to be read and those of the line being edited.
use mathlib.Core.Path.{ap₂}
use xv6_riscv.Base.{
  ℕ, zero, suc, ◌+◌, ◌-◌, ◌%◌, ◌^◌, ◌≤◌, ◌<◌, ◌≡◌, ◌≢◌, refl, ap, ◌∙◌, List, [], ◌∷◌, ◌++◌, All,
  length, update, update_ne, arith,
}
use xv6_riscv.Console.{Cons, input_buf_size, newline}

-- how far index `b` is ahead of `a`
abbrev pub ahead : ℕ → ℕ → ℕ
ahead b a = (b + 2 ^ 32 - a) % 2 ^ 32

-- the `n` bytes from index `i` on
abbrev pub window : (ℕ → ℕ) → ℕ → ℕ → List ℕ
window buf i zero = []
window buf i (suc n) = buf (i % input_buf_size) ∷ window buf (suc i) n

abbrev pub ready : Cons → List ℕ
ready c = window c.buf c.r (ahead c.w c.r)

abbrev pub line : Cons → List ℕ
line c = window c.buf c.w (ahead c.e c.w)

abbrev pub Unended : List ℕ → Type 0
Unended = All (λ b. b ≢ newline)

-- The line being edited is behind the bytes that are ready, and has no end.
pub record IsValid (c : Cons) : Type 0 where
  pub r_fits : c.r < 2 ^ 32
  pub w_fits : c.w < 2 ^ 32
  pub e_fits : c.e < 2 ^ 32
  pub bounded : ahead c.w c.r + ahead c.e c.w ≤ input_buf_size
  pub no_end : Unended (line c)

pub window_same :
    (buf : ℕ → ℕ) (i j n : ℕ)
    → i % input_buf_size ≡ j % input_buf_size
    → window buf i n ≡ window buf j n
window_same buf i j zero e = refl
window_same buf i j (suc n) e =
    ground (arith, ap buf e, window_same buf (suc i) (suc j) n (omega (arith, e)))

pub window_append :
    (buf : ℕ → ℕ) (i m n : ℕ) → window buf i (m + n) ≡ window buf i m ++ window buf (i + m) n
window_append buf i zero n =
    let none_first : 0 + n ≡ n = omega arith in
    let same : i ≡ i + 0 = omega arith in
    ap (window buf i) none_first ∙ ap (λ k. window buf k n) same
window_append buf i (suc m) n =
    let later : suc m + n ≡ suc (m + n) = omega arith in
    let same : suc i + m ≡ i + suc m = omega arith in
    ap (window buf i) later
    ∙ ap (λ l. buf (i % input_buf_size) ∷ l)
        (window_append buf (suc i) m n ∙ ap (λ k. window buf (suc i) m ++ window buf k n) same)

pub window-update :
    (buf : ℕ → ℕ) (i n k v : ℕ)
    → ((j : ℕ) → j < n → k ≢ (i + j) % input_buf_size)
    → window (update buf k v) i n ≡ window buf i n
window-update buf i zero k v h = refl
window-update buf i (suc n) k v h =
    ap₂ ◌∷◌
      (update_ne buf k (i % input_buf_size) v
        (λ e. h 0 (omega arith) (e ∙ ap (λ x. x % input_buf_size) (omega arith))))
      (window-update buf (suc i) n k v
        (λ j lt e. h (suc j) (omega (arith, lt)) (e ∙ ap (λ x. x % input_buf_size) (omega arith))))

pub length-window : (buf : ℕ → ℕ) (i n : ℕ) → length (window buf i n) ≡ n
length-window buf i zero = refl
length-window buf i (suc n) = ap suc (length-window buf (suc i) n)

-- The line with a byte at its end.
pub window_snoc :
    (buf : ℕ → ℕ) (i n : ℕ)
    → window buf i (suc n) ≡ window buf i n ++ buf ((i + n) % input_buf_size) ∷ []
window_snoc buf i n =
    let one_more : suc n ≡ n + 1 = omega arith in
    ap (window buf i) one_more ∙ window_append buf i n 1
