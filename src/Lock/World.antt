-- ===== src/Lock/World.antt =====
-- kernel/spinlock.c: the state that interleaved calls of the processors share.
use xv6_riscv.Base.{
  count, remove, count-remove_self, count-remove_ne, length_pos, length-remove, ℕ, ◌+◌, ◌-◌, ◌<◌,
  ◌≡◌, refl, sym, ap, ◌∙◌, subst, true, false, ◌&&◌, Option, none, some, arith, inl, inr,
  Bool-cases, update, if◌then◌else◌, ◌==◌, some_inj, List, ◌∷◌, length,
}
use native.Mathlib.Decide.{ℕ_discrete}
use xv6_riscv.Lock.{Cpu, Machine, holding, push_off, pop_off, begin_acquire, take, release}

-- The machine, with the lock that each processor spins for and those that it has.
pub record World : Type 0 where
  pub machine : Machine
  pub spins : ℕ → Option ℕ
  pub held : ℕ → List ℕ

pub data Step (w : World) : World → Type 0 where
  begins :
      {m : Machine} (c l : ℕ)
      → w.spins c ≡ none
      → begin_acquire c l w.machine ≡ some m
      → Step w (record { machine = m; spins = update w.spins c (some l); held = w.held })
  takes :
      {m : Machine} (c l : ℕ)
      → w.spins c ≡ some l
      → take c l w.machine ≡ some m
      → Step w (record {
        machine = m;
        spins = update w.spins c none;
        held = update w.held c (l ∷ w.held c);
      })
  releases :
      {m : Machine} (c l : ℕ)
      → w.spins c ≡ none
      → release c l w.machine ≡ some m
      → Step w
          (record { machine = m; spins = w.spins; held = update w.held c (remove l (w.held c)) })

abbrev pub spinning : Option ℕ → ℕ
spinning none = 0
spinning (some l) = 1

-- A lock says which processor has it, and no other has it; a processor counts the locks that it has or
-- spins for, and has its interrupts off while it counts any.
pub record IsValid (w : World) : Type 0 where
  pub owned : (c l : ℕ) → count l (w.held c) ≡ (if holding c (w.machine.locks l) then 1 else 0)
  pub counted : (c : ℕ) → (w.machine.cpus c).noff ≡ length (w.held c) + spinning (w.spins c)
  pub dark : (c : ℕ) → 0 < (w.machine.cpus c).noff → (w.machine.cpus c).intr ≡ false

push_lem : (c : Cpu) → ((push_off c).noff ≡ c.noff + 1) × ((push_off c).intr ≡ false)
unfolding push_off
push_lem c = (ground arith, ground arith)

pop_lem :
    (c : Cpu)
    → 0 < c.noff
    → c.intr ≡ false
    → (d : Cpu) × ((pop_off c ≡ some d) × ((d.noff ≡ c.noff - 1) × (0 < d.noff → d.intr ≡ false)))
unfolding pop_off
pop_lem c pos off = (
  record c { noff = c.noff - 1; intr = (if c.noff - 1 == 0 && c.intena then true else false) },
  (ground arith, (refl, λ h. ground arith)),
)

begin_lem :
    (c l : ℕ) (m m' : Machine)
    → begin_acquire c l m ≡ some m'
    → m' ≡ record m { cpus = update m.cpus c (push_off (m.cpus c)) }
unfolding begin_acquire
begin_lem c l m m' e = ground (arith, e)

begins-IsValid :
    (w : World) (m : Machine) (c l : ℕ)
    → IsValid w
    → w.spins c ≡ none
    → begin_acquire c l w.machine ≡ some m
    → IsValid (record { machine = m; spins = update w.spins c (some l); held = w.held })
begins-IsValid w m c l v idle e =
    subst
      (λ (n : Machine).
        IsValid (record { machine = n; spins = update w.spins c (some l); held = w.held }))
      (sym (begin_lem c l w.machine m e))
      (record {
        owned = v.owned;
        counted = λ d. ground (arith, push_lem (w.machine.cpus c), v.counted d, v.counted c, idle);
        dark = λ d pos. ground (arith, push_lem (w.machine.cpus c), v.dark d, pos);
      })

takes-IsValid :
    (w : World) (m : Machine) (c l : ℕ)
    → IsValid w
    → w.spins c ≡ some l
    → take c l w.machine ≡ some m
    → IsValid (record {
      machine = m;
      spins = update w.spins c none;
      held = update w.held c (l ∷ w.held c);
    })
unfolding take
takes-IsValid w m c l v waits e = elim (Bool-cases (w.machine.locks l).locked) [
  | inl shut ↦ absurd (ground (arith, shut, e))
  | inr free ↦
      let same : record (w.machine) {
        locks = update w.machine.locks l (record { locked = true; cpu = some c });
      }
          ≡ m =
        ground (arith, free, e) in
      subst
        (λ (n : Machine). IsValid (record {
          machine = n;
          spins = update w.spins c none;
          held = update w.held c (l ∷ w.held c);
        }))
        same
        (record {
          owned = λ d k. ground (arith, free, v.owned d k, v.owned d l, v.owned c k, v.owned c l);
          counted = λ d. ground (arith, v.counted d, v.counted c, waits);
          dark = v.dark;
        })
]

-- What `release` does where the lock is the processor's own.
pub release_own :
    (w : World) (c l : ℕ)
    → IsValid w
    → 0 < count l (w.held c)
    → (d : Cpu) × ((release c l w.machine
          ≡ some (record {
            cpus = update w.machine.cpus c d;
            locks = update w.machine.locks l (record { locked = false; cpu = none });
          }))
        × ((d.noff ≡ (w.machine.cpus c).noff - 1) × (0 < d.noff → d.intr ≡ false)))
unfolding release
release_own w c l v own =
    let mine : holding c (w.machine.locks l) ≡ true = ground (arith, v.owned c l, own) in
    let pos : 0 < (w.machine.cpus c).noff =
      omega (arith, v.counted c, length_pos l (w.held c) own) in
    let (d, (e, rest)) = pop_lem (w.machine.cpus c) pos (v.dark c pos) in (d, (rw (mine, e), rest))

release_mine :
    (w : World) (c l : ℕ) (m : Machine)
    → IsValid w
    → release c l w.machine ≡ some m
    → 0 < count l (w.held c)
unfolding release
release_mine w c l m v e = elim (Bool-cases (holding c (w.machine.locks l))) [
  | inl mine ↦ omega (arith, v.owned c l ∙ ap (λ b. if b then 1 else 0) mine)
  | inr other ↦ absurd (ground (arith, other, e))
]

released-owned :
    (w : World) (c l b k : ℕ)
    → IsValid w
    → 0 < count l (w.held c)
    → count k (update w.held c (remove l (w.held c)) b) ≡ (
        if holding b (update w.machine.locks l (record { locked = false; cpu = none }) k)
        then 1
        else 0)
released-owned w c l b k v own = elim (ℕ_discrete l k) [
  | yes same ↦ ground (arith, same, own, v.owned b l, v.owned c l, count-remove_self l (w.held c))
  | no ne ↦ ground (arith, ne, v.owned b k, v.owned c k, count-remove_ne l k (w.held c) ne)
]

releases-IsValid :
    (w : World) (m : Machine) (c l : ℕ)
    → IsValid w
    → w.spins c ≡ none
    → release c l w.machine ≡ some m
    → IsValid
        (record { machine = m; spins = w.spins; held = update w.held c (remove l (w.held c)) })
releases-IsValid w m c l v idle e =
    let own : 0 < count l (w.held c) = release_mine w c l m v e in
    let (d, (eq, (less, off))) = release_own w c l v own in
    subst
      (λ (n : Machine).
        IsValid
          (record { machine = n; spins = w.spins; held = update w.held c (remove l (w.held c)) }))
      (some_inj (sym eq ∙ e))
      (record {
        owned = λ b k. released-owned w c l b k v own;
        counted = λ b.
            ground (arith, v.counted b, v.counted c, less, length-remove l (w.held c) own, own);
        dark = λ b pos. ground (arith, v.dark b, off, pos);
      })

pub Step-IsValid : {w w' : World} → Step w w' → IsValid w → IsValid w'
Step-IsValid {w} (begins {m = m} c l idle e) v = begins-IsValid w m c l v idle e
Step-IsValid {w} (takes {m = m} c l waits e) v = takes-IsValid w m c l v waits e
Step-IsValid {w} (releases {m = m} c l idle e) v = releases-IsValid w m c l v idle e
