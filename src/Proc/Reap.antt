-- ===== src/Proc/Reap.antt =====
-- kernel/proc.c: which child `wait` returns, and when it returns none.
use mathlib.Core.Option
use xv6_riscv.Base.{
  ℕ, suc, ◌-◌, ◌≤◌, ◌≡◌, refl, ap, ◌∙◌, subst, Bool, true, false, Option, none, some, List, [], ◌∷◌,
  All, arith, ◌⊎◌, inl, inr, Bool-cases, Option-cases, get_elem?, some_inj, not, ◌==◌, ◌||◌,
  if◌then◌else◌, get_elem?-map_from, ne→==, ◌≢◌, ==→eq, ==→ne,
}
use xv6_riscv.Proc.{
  Proc, Procs, is_zombie, freeproc, wait, wait_scan, WaitEnd, reaped, faulted, childless, slept,
  is_child, pid_at, xstate_at, killed, ProcState, at_slot,
}
use xv6_riscv.Proc.Pids.{get_elem?-at_slot}

abbrev pub HasChild : ℕ → List Proc → Type 0
HasChild me t = (j : ℕ) × (p : Proc) × (get_elem? t j ≡ some p) × (is_child me p ≡ true)

abbrev pub NoZombie : ℕ → List Proc → Type 0
NoZombie me = All (λ p. is_child me p ≡ true → is_zombie p.state ≡ false)

-- The scan finds a zombie child, none exactly if there is none, and says whether there is a child.
pub record Scanned (me i : ℕ) (t : List Proc) (r : Bool × Option ℕ) : Type 0 where
  pub hit :
      (j : ℕ)
      → r.1 ≡ some j
      → (i ≤ j)
        × ((p : Proc) × (get_elem? t (j - i) ≡ some p)
            × (is_child me p ≡ true)
            × (is_zombie p.state ≡ true))
  pub miss : r.1 ≡ none → NoZombie me t
  pub alone : r.0 ≡ false → All (λ p. is_child me p ≡ false) t
  pub met : r.0 ≡ true → HasChild me t

Scanned-cons :
    (me i : ℕ) (p : Proc) (ps : List Proc)
    → Scanned me (suc i) ps (wait_scan me (suc i) ps)
    → Scanned me i (p ∷ ps) (wait_scan me i (p ∷ ps))
unfolding wait_scan
Scanned-cons me i p ps rest = elim (Bool-cases (is_child me p)) [
  | inl child ↦ elim (Bool-cases (is_zombie p.state)) [
    | inl dead ↦
        rw (child, dead)
          (record {
            hit = λ j e. (omega (arith, some_inj e), (p, first j (some_inj e), child, dead));
            miss = λ e. absurd (cc);
            alone = λ e. absurd (cc);
            met = λ e. (0, p, refl, child);
          })
    | inr live ↦
        rw (child, live)
          (record {
            hit = later;
            miss = λ e. (λ _. live, rest.miss e);
            alone = λ e. absurd (cc);
            met = λ e. (0, p, refl, child);
          })
  ]
  | inr other ↦ rw other (record {
    hit = later;
    miss = λ e. (λ child. absurd (cc), rest.miss e);
    alone = λ e. (other, rest.alone e);
    met = λ e. let (j, q, at, child) = rest.met e in (suc j, q, at, child);
  })
]
  where
    first : (j : ℕ) → i ≡ j → get_elem? (p ∷ ps) (j - i) ≡ some p
    first j e = let z : j - i ≡ 0 = omega (arith, e) in rw z

    later :
        (j : ℕ)
        → (wait_scan me (suc i) ps).1 ≡ some j
        → (i ≤ j)
          × ((q : Proc) × (get_elem? (p ∷ ps) (j - i) ≡ some q)
              × (is_child me q ≡ true)
              × (is_zombie q.state ≡ true))
    later j e =
        let (le, rest') = rest.hit j e in
        let (q, at, child, dead) = rest' in
        let next : j - i ≡ suc (j - suc i) = omega (arith, le) in
        (omega (arith, le), (q, rw next at, child, dead))

wait_scan-Scanned : (me i : ℕ) (t : List Proc) → Scanned me i t (wait_scan me i t)
unfolding wait_scan
wait_scan-Scanned me i [] = record {
  hit = λ j e. absurd (cc);
  miss = λ e. tt;
  alone = λ e. tt;
  met = λ e. absurd (cc);
}
wait_scan-Scanned me i (p ∷ ps) = Scanned-cons me i p ps (wait_scan-Scanned me (suc i) ps)

-- the slot `i` holds the zombie child `p`
abbrev pub ZombieAt : ℕ → ℕ → Proc → Procs → Type 0
ZombieAt me i p s =
    (get_elem? s.table i ≡ some p) × (is_child me p ≡ true) × (is_zombie p.state ≡ true)

abbrev pub IsKilled : ℕ → List Proc → Type 0
IsKilled me t = (p : Proc) × (get_elem? t me ≡ some p) × (p.killed ≢ 0)

-- The slot `i` of `s` is unused in `s'`, and no other slot differs.
abbrev pub Emptied : ℕ → Procs → Procs → Type 0
Emptied i s s' =
    ((q : Proc) × (get_elem? s'.table i ≡ some q)
      × (q.state ≡ ProcState.unused)
      × (q.pid ≡ 0)
      × (q.parent ≡ none))
    × ((j : ℕ) → i ≢ j → get_elem? s'.table j ≡ get_elem? s.table j)

-- What each end of a pass of `wait(addr)` tells of the table.
abbrev pub WaitSpec : (ℕ → ℕ → Bool) → ℕ → ℕ → Procs → WaitEnd → Type 0
WaitSpec copyout addr me s (reaped pid s') =
    (i : ℕ) × (p : Proc) × ZombieAt me i p s
    × ((addr ≡ 0) ⊎ (copyout addr p.xstate ≡ true))
    × (pid ≡ p.pid)
    × Emptied i s s'
WaitSpec copyout addr me s faulted =
    (i : ℕ) × (p : Proc) × ZombieAt me i p s × (addr ≢ 0) × (copyout addr p.xstate ≡ false)
WaitSpec copyout addr me s childless =
    NoZombie me s.table × (IsKilled me s.table ⊎ All (λ p. is_child me p ≡ false) s.table)
WaitSpec copyout addr me s slept = NoZombie me s.table × HasChild me s.table × ¬ IsKilled me s.table

get_elem?-at_slot_ne :
    (i j : ℕ) (f : Proc → Proc) (s : Procs)
    → i ≢ j
    → get_elem? (at_slot i f s).table j ≡ get_elem? s.table j
get_elem?-at_slot_ne i j f s ne =
    get_elem?-map_from (λ k p. if i == k then f p else p) 0 j j s.table (omega arith)
    ∙ rw (ne→== i j ne) (map_same (get_elem? s.table j))
  where
    map_same : (o : Option Proc) → Option.map (λ p. p) o ≡ o
    map_same none = refl
    map_same (some p) = refl

killed_lem : (me : ℕ) (t : List Proc) → killed me t ≡ true → IsKilled me t
unfolding killed
killed_lem me t e = elim (Option-cases (get_elem? t me)) [
  | inl past ↦ absurd (let h : false ≡ true = rw (past, killed) at e in cc)
  | inr (p, at) ↦ (p, at, λ z. absurd (ground (arith, at, z, e)))
]

not_killed : (me : ℕ) (t : List Proc) → killed me t ≡ false → ¬ IsKilled me t
unfolding killed
not_killed me t e (p, at, ne) = ne (ground (arith, at, e))

module _ (copyout : ℕ → ℕ → Bool) (addr me : ℕ) (s : Procs) (i : ℕ) (p : Proc)
    (z : ZombieAt me i p s) where
  reaps :
      ((addr ≡ 0) ⊎ (copyout addr p.xstate ≡ true))
      → WaitSpec copyout addr me s (reaped (pid_at i s.table) (at_slot i freeproc s))
  unfolding freeproc
  reaps out = (
    i,
    p,
    z,
    out,
    rw (z.0, pid_at) refl,
    (
      (freeproc p, get_elem?-at_slot i freeproc s ∙ ap (Option.map freeproc) z.0, refl, refl, refl),
      λ j ne. get_elem?-at_slot_ne i j freeproc s ne,
    ),
  )

  status_lem : xstate_at i s.table ≡ p.xstate
  unfolding xstate_at
  status_lem = rw (z.0, xstate_at) refl

  -- The scan has found a zombie child.
  found_zombie :
      (wait_scan me 0 s.table).1 ≡ some i → WaitSpec copyout addr me s (wait copyout addr me s)
  unfolding wait
  found_zombie e = elim (Bool-cases (addr == 0)) [
    | inl null ↦ rw (e, wait, null) (reaps (inl (==→eq addr 0 null)))
    | inr given ↦ elim (Bool-cases (copyout addr p.xstate)) [
      | inl copied ↦ rw (e, wait, given, status_lem, copied) (reaps (inr copied))
      | inr fails ↦ rw (e, wait, given, status_lem, fails) (i, p, z, ==→ne addr 0 given, fails)
    ]
  ]

-- wait frees a slot only of a zombie child, whose pid it returns, and only if addr is 0 or copyout
-- of its exit status succeeds; no other slot changes. It answers -1 for a zombie child only if addr
-- is not 0 and that copyout fails, and otherwise only if no child is a zombie and the caller is
-- killed or there is no child. It sleeps only if there is a child, no child is a zombie, and the
-- caller is not killed.
pub wait-WaitSpec :
    (copyout : ℕ → ℕ → Bool) (addr me : ℕ) (s : Procs)
    → WaitSpec copyout addr me s (wait copyout addr me s)
unfolding wait
wait-WaitSpec copyout addr me s = elim (Option-cases (wait_scan me 0 s.table).1) [
  | inl nobody ↦ elim (Bool-cases (killed me s.table)) [
    | inl dead ↦
        rw (nobody, wait, dead, or_true (not (wait_scan me 0 s.table).0))
          (scanned.miss nobody, inl (killed_lem me s.table dead))
    | inr live ↦ elim (Bool-cases (wait_scan me 0 s.table).0) [
      | inl met ↦
          rw (nobody, wait, met, live)
            (scanned.miss nobody, scanned.met met, not_killed me s.table live)
      | inr alone ↦ rw (nobody, wait, alone) (scanned.miss nobody, inr (scanned.alone alone))
    ]
  ]
  | inr (i, e) ↦
      let (le, hit) = scanned.hit i e in
      let (p, at, child, dead) = hit in
      found_zombie copyout addr me s i p
        (subst (λ n. get_elem? s.table n ≡ some p) (from_zero i) at, child, dead) e
]
  where
    scanned : Scanned me 0 s.table (wait_scan me 0 s.table)
    scanned = wait_scan-Scanned me 0 s.table

    from_zero : (n : ℕ) → n - 0 ≡ n
    from_zero n = omega arith

    or_true : (b : Bool) → (b || true) ≡ true
    or_true true = refl
    or_true false = refl
