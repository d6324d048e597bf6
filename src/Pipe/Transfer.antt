-- ===== src/Pipe/Transfer.antt =====
-- kernel/pipe.c: what one step of `pipewrite` puts into the queue, and of `piperead` takes from it.
use xv6_riscv.Base.{
  subst, ℕ, zero, suc, ◌+◌, ◌<◌, ◌≡◌, refl, sym, ap, ◌∙◌, Bool, true, false, not, ◌||◌, List, [],
  ◌∷◌, ◌++◌, Option, none, some, length, arith, ◌⊎◌, inl, inr, Bool-cases, Option-cases,
  append_assoc, append-nil,
}
use xv6_riscv.Pipe.{
  Pipe, pipe_size, put, skip, next_byte, is_full, is_empty, WriteEnd, write_loop, read_loop, wrote,
}
use xv6_riscv.Pipe.Ring.{IsValid, count, contents, put_lem, skip_lem, is_empty-contents, full-count}

-- `ws` are the bytes that `copyin` delivers from round `i` on.
abbrev pub Sent : (ℕ → Option ℕ) → ℕ → List ℕ → Type 0
Sent src i [] = Unit
Sent src i (w ∷ ws) = (src i ≡ some w) × Sent src (suc i) ws

abbrev pub pipe_after_write : WriteEnd → Pipe
pipe_after_write (WriteEnd.failed p) = p
pipe_after_write (WriteEnd.slept i p) = p
pipe_after_write (wrote i p) = p

-- Why the step that started with `k` bytes left at `i` stopped after `m` of them.
abbrev pub WriteStop : (ℕ → Bool) → (ℕ → Option ℕ) → ℕ → ℕ → ℕ → WriteEnd → Type 0
WriteStop killed src i k m (WriteEnd.failed p) =
    (m < k) × ((p.readopen ≡ false) ⊎ (killed (i + m) ≡ true))
WriteStop killed src i k m (WriteEnd.slept j p) = (j ≡ i + m) × (m < k) × (count p ≡ pipe_size)
WriteStop killed src i k m (wrote j p) = (j ≡ i + m) × ((m ≡ k) ⊎ ((m < k) × (src j ≡ none)))

stop-suc :
    (killed : ℕ → Bool) (src : ℕ → Option ℕ) (i k m : ℕ) (e : WriteEnd)
    → WriteStop killed src (suc i) k m e
    → WriteStop killed src i (suc k) (suc m) e
stop-suc killed src i k m (WriteEnd.failed p) (lt, why) = (
  omega arith,
  elim why [
    | inl shut ↦ inl shut
    | inr dead ↦ inr (subst (λ j. killed j ≡ true) (omega arith) dead)
  ],
)
stop-suc killed src i k m (WriteEnd.slept j p) h = (omega arith, omega arith, h.2)
stop-suc killed src i k m (wrote j p) (at, why) = (
  omega arith,
  elim why [ inl all ↦ inl (omega arith) | inr (lt, fault) ↦ inr (omega arith, fault) ],
)

dead_cases : (r k : Bool) → (not r || k) ≡ true → (r ≡ false) ⊎ (k ≡ true)
dead_cases r k h = ground arith

pub record Written (killed : ℕ → Bool) (src : ℕ → Option ℕ) (k i : ℕ) (p : Pipe) (e : WriteEnd)
    : Type 0 where
  pub ws : List ℕ
  pub sent : Sent src i ws
  pub valid : IsValid (pipe_after_write e)
  pub queued : contents (pipe_after_write e) ≡ contents p ++ ws
  pub stop : WriteStop killed src i k (length ws) e

stopped :
    (killed : ℕ → Bool) (src : ℕ → Option ℕ) (k i : ℕ) (p : Pipe) (e : WriteEnd)
    → IsValid p
    → pipe_after_write e ≡ p
    → WriteStop killed src i k 0 e
    → Written killed src k i p e
stopped killed src k i p e v same stop = record {
  ws = [];
  sent = tt;
  valid = subst IsValid (sym same) v;
  queued = ap contents same ∙ sym (append-nil (contents p));
  stop = stop;
}

one_more :
    (killed : ℕ → Bool) (src : ℕ → Option ℕ) (k i ch : ℕ) (p : Pipe) (e : WriteEnd)
    → src i ≡ some ch
    → contents (put ch p) ≡ contents p ++ ch ∷ []
    → Written killed src k (suc i) (put ch p) e
    → Written killed src (suc k) i p e
one_more killed src k i ch p e here grown w = record {
  ws = ch ∷ w.ws;
  sent = (here, w.sent);
  valid = w.valid;
  queued = w.queued ∙ ap (λ q. q ++ w.ws) grown ∙ append_assoc (contents p) (ch ∷ []) w.ws;
  stop = stop-suc killed src i k (length w.ws) e w.stop;
}

-- The loop of pipewrite on a valid pipe leaves a valid pipe whose queue has the bytes sent at its
-- end in order, and stops because the reader is gone, the writer is killed, the pipe is full,
-- copyin faults, or all is written.
pub write_loop-Written :
    (killed : ℕ → Bool) (src : ℕ → Option ℕ) (k i : ℕ) (p : Pipe)
    → IsValid p
    → Written killed src k i p (write_loop killed src k i p)
unfolding write_loop
write_loop-Written killed src zero i p v =
    stopped killed src zero i p (wrote i p) v refl (omega arith, inl refl)
write_loop-Written killed src (suc k) i p v = elim (Bool-cases (not p.readopen || killed i)) [
  | inl dead ↦ rw dead (
      stopped killed src (suc k) i p (WriteEnd.failed p) v refl (
        omega arith,
        subst (λ j. (p.readopen ≡ false) ⊎ (killed j ≡ true)) (omega arith)
            (dead_cases p.readopen (killed i) dead),
      ))
  | inr live ↦ elim (Bool-cases (is_full p)) [
    | inl full ↦
        rw (live, full)
          (stopped killed src (suc k) i p (WriteEnd.slept i p) v refl
            (omega arith, omega arith, full-count p v full))
    | inr room ↦ elim (Option-cases (src i)) [
      | inl fault ↦
          rw (live, room, fault)
            (stopped killed src (suc k) i p (wrote i p) v refl
              (omega arith, inr (omega arith, fault)))
      | inr (ch, e) ↦
          let (valid, grown) = put_lem ch p v room in
          rw (live, room, e)
            (one_more killed src k i ch p (write_loop killed src k (suc i) (put ch p)) e grown
              (write_loop-Written killed src k (suc i) (put ch p) valid))
    ]
  ]
]

-- What the copy loop of `piperead` took: `got` went out, and `lost` is the byte, if any, whose
-- `copyout` failed: it has left the pipe.
pub record Taken (dst : ℕ → Bool) (k i : ℕ) (p : Pipe) (r : List ℕ × Pipe) : Type 0 where
  pub lost : List ℕ
  pub valid : IsValid r.1
  pub taken : contents p ≡ r.0 ++ (lost ++ contents r.1)
  pub stop :
      ((lost ≡ []) × ((length r.0 ≡ k) ⊎ (contents r.1 ≡ [])))
      ⊎ ((dst (i + length r.0) ≡ false) × (length lost ≡ 1) × (length r.0 < k))

-- The copy loop of piperead on a valid pipe takes bytes from the head of the queue in order until
-- all are read, the queue is empty, or a copyout fails, which loses the byte it was for.
pub read_loop-Taken :
    (dst : ℕ → Bool) (k i : ℕ) (p : Pipe) → IsValid p → Taken dst k i p (read_loop dst k i p)
unfolding read_loop
read_loop-Taken dst zero i p v = record {
  lost = [];
  valid = v;
  taken = refl;
  stop = inl (refl, inl refl);
}
read_loop-Taken dst (suc k) i p v = elim (Bool-cases (is_empty p)) [
  | inl none_left ↦ rw none_left (record {
    lost = [];
    valid = v;
    taken = refl;
    stop = inl (refl, inr (is_empty-contents p v none_left));
  })
  | inr more ↦
      let (valid, split) = skip_lem p v more in
      elim (Bool-cases (dst i)) [
        | inl out ↦
            rw (more, out)
              (let t = read_loop-Taken dst k (suc i) (skip p) valid in
                record {
                  lost = t.lost;
                  valid = t.valid;
                  taken = split ∙ ap (◌∷◌ (next_byte p)) t.taken;
                  stop = elim t.stop [
                    | inl (e, why) ↦
                        inl
                          (e, elim why [ inl all ↦ inl (omega arith) | inr drained ↦ inr drained ])
                    | inr (fault, one, lt) ↦
                        inr (subst (λ j. dst j ≡ false) (omega arith) fault, one, omega arith)
                  ];
                })
        | inr fault ↦
            rw (more, fault)
              (record {
                lost = next_byte p ∷ [];
                valid = valid;
                taken = split;
                stop = inr (subst (λ j. dst j ≡ false) (omega arith) fault, refl, omega arith);
              })
      ]
]
