-- ===== src/Pipe/Ring.antt =====
-- kernel/pipe.c: the ring holds a queue of at most PIPESIZE bytes, also where the counters wrap.
use mathlib.Core.Path.{ap₂}
use xv6_riscv.Base.{
  ==→ne, ==→eq, ℕ, zero, suc, ◌+◌, ◌-◌, ◌%◌, ◌^◌, ◌≤◌, ◌<◌, ◌≡◌, ◌≢◌, refl, ap, ◌∙◌, true, false,
  List, [], ◌∷◌, ◌++◌, length, update, update_self, update_ne, arith,
}
use xv6_riscv.Pipe.{Pipe, pipe_size, init, put, next_byte, skip, is_full, is_empty}

-- how many bytes are in the pipe
abbrev pub count : Pipe → ℕ
count p = (p.nwrite + 2 ^ 32 - p.nread) % 2 ^ 32

pub record IsValid (p : Pipe) : Type 0 where
  pub nread_fits : p.nread < 2 ^ 32
  pub nwrite_fits : p.nwrite < 2 ^ 32
  pub bounded : count p ≤ pipe_size

-- the `n` bytes from counter `r` on
abbrev pub window : (ℕ → ℕ) → ℕ → ℕ → List ℕ
window buf r zero = []
window buf r (suc n) = buf (r % pipe_size) ∷ window buf (suc r) n

abbrev pub contents : Pipe → List ℕ
contents p = window p.buf p.nread (count p)

window_same :
    (buf : ℕ → ℕ) (r s n : ℕ) → r % pipe_size ≡ s % pipe_size → window buf r n ≡ window buf s n
window_same buf r s zero e = refl
window_same buf r s (suc n) e =
    ground (arith, ap buf e, window_same buf (suc r) (suc s) n (omega arith))

window_snoc :
    (buf : ℕ → ℕ) (r n : ℕ)
    → window buf r (suc n) ≡ window buf r n ++ buf ((r + n) % pipe_size) ∷ []
window_snoc buf r zero = ap (λ k. buf (k % pipe_size) ∷ []) (omega arith)
window_snoc buf r (suc n) = ap (◌∷◌ (buf (r % pipe_size))) (
    window_snoc buf (suc r) n
    ∙ ap (λ k. window buf (suc r) n ++ buf (k % pipe_size) ∷ []) (omega arith))

window-update :
    (buf : ℕ → ℕ) (r n i v : ℕ)
    → ((j : ℕ) → j < n → i ≢ (r + j) % pipe_size)
    → window (update buf i v) r n ≡ window buf r n
window-update buf r zero i v h = refl
window-update buf r (suc n) i v h = ground (
  arith,
  update_ne buf i (r % pipe_size) v (λ e. h 0 (omega arith) (omega arith)),
  window-update buf (suc r) n i v (λ j lt e. h (suc j) (omega arith) (omega arith)),
)

length-window : (buf : ℕ → ℕ) (r n : ℕ) → length (window buf r n) ≡ n
length-window buf r zero = refl
length-window buf r (suc n) = ap suc (length-window buf (suc r) n)

pub length-contents : (p : Pipe) → length (contents p) ≡ count p
length-contents p = length-window p.buf p.nread (count p)

pub init-IsValid : (page : ℕ → ℕ) → IsValid (init page) × (contents (init page) ≡ [])
unfolding init
init-IsValid page = (omega arith, refl)

count-put : (ch : ℕ) (p : Pipe) → IsValid p → is_full p ≡ false → count (put ch p) ≡ suc (count p)
unfolding put
count-put ch p v room = omega (arith, ==→ne p.nwrite ((p.nread + pipe_size) % 2 ^ 32) room)

count-skip : (p : Pipe) → IsValid p → is_empty p ≡ false → count p ≡ suc (count (skip p))
unfolding skip
count-skip p v more = omega (arith, ==→ne p.nread p.nwrite more)

-- A byte put into a pipe that is not full goes to the end of the queue.
pub put_lem :
    (ch : ℕ) (p : Pipe)
    → IsValid p
    → is_full p ≡ false
    → IsValid (put ch p) × (contents (put ch p) ≡ contents p ++ ch ∷ [])
unfolding put
put_lem ch p v room = (
  record {
    nread_fits = v.nread_fits;
    nwrite_fits = omega arith;
    bounded = omega (arith, grows, ==→ne p.nwrite ((p.nread + pipe_size) % 2 ^ 32) room);
  },
  ap (window (put ch p).buf p.nread) grows
      ∙ window_snoc (put ch p).buf p.nread (count p)
      ∙ ap₂ ◌++◌ (window-update p.buf p.nread (count p) (p.nwrite % pipe_size) ch apart) (
          ap (λ b. b ∷ [])
            (ap (update p.buf (p.nwrite % pipe_size) ch) (omega arith)
              ∙ update_self p.buf (p.nwrite % pipe_size) ch)),
)
  where
    grows : count (put ch p) ≡ suc (count p)
    grows = count-put ch p v room

    apart : (j : ℕ) → j < count p → p.nwrite % pipe_size ≢ (p.nread + j) % pipe_size
    apart j lt e = omega (arith, ==→ne p.nwrite ((p.nread + pipe_size) % 2 ^ 32) room)

-- The next byte is the head of the queue, and skipping it leaves the tail.
pub skip_lem :
    (p : Pipe)
    → IsValid p
    → is_empty p ≡ false
    → IsValid (skip p) × (contents p ≡ next_byte p ∷ contents (skip p))
unfolding skip next_byte
skip_lem p v more = (
  record {
    nread_fits = omega arith;
    nwrite_fits = v.nwrite_fits;
    bounded = omega (arith, count-skip p v more);
  },
  ap (window p.buf p.nread) (count-skip p v more)
      ∙ ap (◌∷◌ (p.buf (p.nread % pipe_size)))
          (window_same p.buf (suc p.nread) (skip p).nread (count (skip p)) (omega arith)),
)

pub is_empty-contents : (p : Pipe) → IsValid p → is_empty p ≡ true → contents p ≡ []
is_empty-contents p v e =
    let none_left : count p ≡ 0 = omega (arith, ==→eq p.nread p.nwrite e) in
    ap (window p.buf p.nread) none_left

pub full-count : (p : Pipe) → IsValid p → is_full p ≡ true → count p ≡ pipe_size
full-count p v e = omega (arith, ==→eq p.nwrite ((p.nread + pipe_size) % 2 ^ 32) e)
