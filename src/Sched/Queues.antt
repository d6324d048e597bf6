-- ===== src/Sched/Queues.antt =====
-- kernel/proc.c: a row of the MLFQ queues as a queue: the processes in it, then null pointers.
use xv6_riscv.Base.{
  ℕ, zero, suc, ◌≡◌, refl, ap, ◌∙◌, Bool, true, false, none, some, List, [], ◌∷◌, ◌++◌, inl, inr,
  Bool-cases, ◌==◌, if◌then◌else◌,
}
use xv6_riscv.Sched.{Row, enqueue, dequeue, shift}

-- A row of these processes and `n` null pointers.
abbrev pub nulls : ℕ → Row
nulls zero = []
nulls (suc n) = none ∷ nulls n

pub row : List ℕ → ℕ → Row
row [] n = nulls n
row (p ∷ ps) n = some p ∷ row ps n

module _ (pid : ℕ → ℕ) where
  -- the queue without the first process of that pid, and whether there is one
  pub without : ℕ → List ℕ → List ℕ
  without p [] = []
  without p (q ∷ qs) = let rest = without p qs in if pid q == pid p then qs else q ∷ rest

  unfoldable pub is_in : ℕ → List ℕ → Bool
  is_in p [] = false
  is_in p (q ∷ qs) = let rest = is_in p qs in if pid q == pid p then true else rest

  -- On a row with a null pointer at its end, queue_proc puts the process at the end of the queue,
  -- unless one of the same pid is in it: then it changes nothing.
  pub enqueue-row :
      (p : ℕ) (qs : List ℕ) (n : ℕ)
      → enqueue pid p (row qs (suc n))
        ≡ (if is_in p qs then row qs (suc n) else row (qs ++ p ∷ []) n)
  unfolding enqueue row is_in
  enqueue-row p [] n = refl
  enqueue-row p (q ∷ qs) n = elim (Bool-cases (pid q == pid p)) [
    | inl same ↦ rw same
    | inr other ↦ elim (Bool-cases (is_in p qs)) [
      | inl met ↦ rw (other, met) (ap (λ r. some q ∷ r) (enqueue-row p qs n ∙ rw met))
      | inr new ↦ rw (other, new) (ap (λ r. some q ∷ r) (enqueue-row p qs n ∙ rw new))
    ]
  ]

  -- On a full row nothing changes.
  pub enqueue_full : (p : ℕ) (qs : List ℕ) → enqueue pid p (row qs 0) ≡ row qs 0
  unfolding enqueue row
  enqueue_full p [] = refl
  enqueue_full p (q ∷ qs) = elim (Bool-cases (pid q == pid p)) [
    | inl same ↦ rw same
    | inr other ↦ rw other (ap (λ r. some q ∷ r) (enqueue_full p qs))
  ]

shift-nulls : (n : ℕ) → shift none (nulls n) ≡ nulls (suc n)
unfolding shift
shift-nulls zero = refl
shift-nulls (suc n) = ap (λ r. none ∷ r) (shift-nulls n)

shift-row : (q : ℕ) (qs : List ℕ) (n : ℕ) → shift (some q) (row qs (suc n)) ≡ row qs (suc (suc n))
unfolding shift row
shift-row q [] n = ap (λ r. none ∷ r) (shift-nulls n)
shift-row q (p ∷ ps) n = ap (λ r. some p ∷ r) (shift-row p ps n)

module _ (pid : ℕ → ℕ) where
  dequeue-nulls : (p n : ℕ) → dequeue pid p (nulls n) ≡ nulls n
  unfolding dequeue
  dequeue-nulls p zero = refl
  dequeue-nulls p (suc n) = ap (λ r. none ∷ r) (dequeue-nulls p n)

  -- On a row with a null pointer at its end, dequeue_proc takes the first process of that pid out
  -- of the queue, if there is one, and keeps the order of the others.
  pub dequeue-row :
      (p : ℕ) (qs : List ℕ) (n : ℕ)
      → dequeue pid p (row qs (suc n))
        ≡ (if is_in pid p qs then row (without pid p qs) (suc (suc n)) else row qs (suc n))
  unfolding dequeue row is_in without
  dequeue-row p [] n = dequeue-nulls p (suc n)
  dequeue-row p (q ∷ qs) n = elim (Bool-cases (pid q == pid p)) [
    | inl same ↦ rw same (shift-row q qs n)
    | inr other ↦ elim (Bool-cases (is_in pid p qs)) [
      | inl met ↦ rw (other, met) (ap (λ r. some q ∷ r) (dequeue-row p qs n ∙ rw met))
      | inr new ↦ rw (other, new) (ap (λ r. some q ∷ r) (dequeue-row p qs n ∙ rw new))
    ]
  ]

  shift_full :
      (q last : ℕ) (qs : List ℕ)
      → shift (some q) (row (qs ++ last ∷ []) 0) ≡ row (qs ++ last ∷ last ∷ []) 0
  unfolding shift row
  shift_full q last [] = refl
  shift_full q last (p ∷ ps) = ap (λ r. some p ∷ r) (shift_full p last ps)

  -- On a full row that has a process of that pid before its last place, dequeue_proc takes it out
  -- of the queue, and leaves the last process in the row twice.
  pub dequeue_full :
      (p last : ℕ) (qs : List ℕ)
      → is_in pid p qs ≡ true
      → dequeue pid p (row (qs ++ last ∷ []) 0) ≡ row (without pid p qs ++ last ∷ last ∷ []) 0
  unfolding dequeue row is_in without
  dequeue_full p last [] met = absurd (cc)
  dequeue_full p last (q ∷ qs) met = elim (Bool-cases (pid q == pid p)) [
    | inl same ↦ rw same (shift_full q last qs)
    | inr other ↦ rw other (ap (λ r. some q ∷ r) (dequeue_full p last qs (rw other at met)))
  ]
