-- ===== src/Pipe/Traffic.antt =====
-- kernel/pipe.c: any history of calls by writers and readers of one pipe.
use mathlib.Core.Path.{ap₂}
use xv6_riscv.Base.{
  ℕ, zero, suc, ◌-◌, ◌≡◌, refl, sym, ap, ◌∙◌, Bool, true, false, List, [], ◌∷◌, ◌++◌, Option, none,
  some, length, length-append, arith, inl, inr, append_assoc, Bool-cases, if◌then◌else◌, ◌&&◌, not,
}
use xv6_riscv.Pipe.{
  Pipe, WriteEnd, ReadEnd, write_loop, read_loop, piperead, pipeclose, read, is_empty,
}
use xv6_riscv.Pipe.Ring.{IsValid, count, contents, length-contents}
use xv6_riscv.Pipe.Transfer.{
  Sent, pipe_after_write, Written, write_loop-Written, Taken, read_loop-Taken,
}

-- A step of a call: one of `pipewrite` that goes on from `i`, one of `piperead` into a mapped
-- buffer, or a `pipeclose`.
pub data Call : Type 0 where
  writes : (ℕ → Bool) → (ℕ → Option ℕ) → ℕ → ℕ → Call
  reads : Bool → ℕ → Call
  closes : Bool → Call

-- All bytes put into the pipe so far, and all that readers got.
pub record Traffic : Type 0 where
  pub pipe : Pipe
  pub ins : List ℕ
  pub outs : List ℕ

abbrev byte_or_zero : Option ℕ → ℕ
byte_or_zero none = 0
byte_or_zero (some b) = b

-- `m` bytes of the source from `i` on
abbrev sent_bytes : (ℕ → Option ℕ) → ℕ → ℕ → List ℕ
sent_bytes src i zero = []
sent_bytes src i (suc m) = byte_or_zero (src i) ∷ sent_bytes src (suc i) m

pub after_write : Traffic → (ℕ → Option ℕ) → ℕ → Pipe → Traffic
after_write t src i p' = record t {
  pipe = p';
  ins = t.ins ++ sent_bytes src i (count p' - count t.pipe);
}

pub after_read : Traffic → ReadEnd → Traffic
after_read t (ReadEnd.failed p) = t
after_read t (ReadEnd.slept p) = t
after_read t (read got p) = record t { pipe = p; outs = t.outs ++ got }

pub after_close : Traffic → Option Pipe → Traffic
after_close t none = t
after_close t (some p) = record t { pipe = p }

pub step : Call → Traffic → Traffic
step (writes killed src k i) t =
    after_write t src i (pipe_after_write (write_loop killed src k i t.pipe))
step (reads killed n) t = after_read t (piperead killed (λ _. true) n t.pipe)
step (closes writable) t = after_close t (pipeclose writable t.pipe)

pub run : List Call → Traffic → Traffic
run [] t = t
run (c ∷ cs) t = run cs (step c t)

-- What went in is what came out and what is still there.
pub record Flows (t : Traffic) : Type 0 where
  pub valid : IsValid t.pipe
  pub flows : t.ins ≡ t.outs ++ contents t.pipe

sent_bytes-Sent :
    (src : ℕ → Option ℕ) (i : ℕ) (ws : List ℕ) → Sent src i ws → sent_bytes src i (length ws) ≡ ws
sent_bytes-Sent src i [] h = refl
sent_bytes-Sent src i (w ∷ ws) h =
    ground (arith, ap byte_or_zero h.0, sent_bytes-Sent src (suc i) ws h.1)

write-Flows :
    (t : Traffic) (killed : ℕ → Bool) (src : ℕ → Option ℕ) (k i : ℕ)
    → Flows t
    → Flows (step (writes killed src k i) t)
unfolding step after_write
write-Flows t killed src k i f = record {
  valid = w.valid;
  flows =
      ap₂ ◌++◌ f.flows (ap (sent_bytes src i) many ∙ sent_bytes-Sent src i w.ws w.sent)
      ∙ append_assoc t.outs (contents t.pipe) w.ws
      ∙ ap (◌++◌ t.outs) (sym w.queued);
}
  where
    e : WriteEnd
    e = write_loop killed src k i t.pipe

    w : Written killed src k i t.pipe e
    w = write_loop-Written killed src k i t.pipe f.valid

    many : count (pipe_after_write e) - count t.pipe ≡ length w.ws
    many = omega (
      arith,
      length-contents (pipe_after_write e),
      length-contents t.pipe,
      ap length w.queued,
      length-append (contents t.pipe) w.ws,
    )

read-Flows : (t : Traffic) (killed : Bool) (n : ℕ) → Flows t → Flows (step (reads killed n) t)
unfolding step after_read piperead
read-Flows t killed n f = elim (Bool-cases (is_empty t.pipe && t.pipe.writeopen)) [
  | inl waits ↦ elim (Bool-cases killed) [
    | inl dead ↦ rw (waits, dead) f
    | inr live ↦ rw (waits, live) f
  ]
  | inr goes ↦ rw goes (record {
    valid = taken.valid;
    flows =
        f.flows
        ∙ ap (◌++◌ t.outs) (taken.taken ∙ ap (λ l. r.0 ++ (l ++ contents r.1)) whole)
        ∙ sym (append_assoc t.outs r.0 (contents r.1));
  })
]
  where
    r : List ℕ × Pipe
    r = read_loop (λ _. true) n 0 t.pipe

    taken : Taken (λ _. true) n 0 t.pipe r
    taken = read_loop-Taken (λ _. true) n 0 t.pipe f.valid

    whole : taken.lost ≡ []
    whole = elim taken.stop [ inl (e, _) ↦ e | inr (fault, _, _) ↦ cc ]

close_cases :
    (t : Traffic) (p : Pipe) (freed : Bool)
    → Flows t
    → Flows (record t { pipe = p })
    → Flows (after_close t (if freed then none else some p))
unfolding after_close
close_cases t p true f g = f
close_cases t p false f g = g

close-Flows : (t : Traffic) (writable : Bool) → Flows t → Flows (step (closes writable) t)
unfolding step pipeclose
close-Flows t true f =
    close_cases t (record t.pipe { writeopen = false }) (not t.pipe.readopen && true) f
      (record { valid = omega arith; flows = f.flows })
close-Flows t false f =
    close_cases t (record t.pipe { readopen = false }) (true && not t.pipe.writeopen) f
      (record { valid = omega arith; flows = f.flows })

step-Flows : (c : Call) (t : Traffic) → Flows t → Flows (step c t)
step-Flows (writes killed src k i) t f = write-Flows t killed src k i f
step-Flows (reads killed n) t f = read-Flows t killed n f
step-Flows (closes writable) t f = close-Flows t writable f

-- In any history of calls on a pipe, where copyout does not fail, from a valid pipe whose bytes
-- put in are those that readers got and those in it, the bytes put in are still the bytes that
-- readers got followed by those in the pipe.
pub run-Flows : (cs : List Call) (t : Traffic) → Flows t → Flows (run cs t)
unfolding run
run-Flows [] t f = f
run-Flows (c ∷ cs) t f = run-Flows cs (step c t) (step-Flows c t f)
