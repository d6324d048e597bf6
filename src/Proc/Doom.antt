-- ===== src/Proc/Doom.antt =====
-- kernel/proc.c: `kill(0)`. An unused slot has pid 0, so the call finds one and marks it killed, and
-- `allocproc` does not take the mark away.
use mathlib.Core.Option
use xv6_riscv.Base.{
  ℕ, suc, ◌-◌, ◌≤◌, ◌≡◌, refl, sym, ap, ◌∙◌, subst, Bool, true, false, Option, none, some, List, [],
  ◌∷◌, arith, inl, inr, Bool-cases, Option-cases, get_elem?, some_inj, ◌==◌, ne→==, eq→==,
}
use xv6_riscv.Proc.{
  Proc, Procs, is_unused, find_slot, allocproc, found, kill, kill_from, kill_proc, fresh,
}
use xv6_riscv.Proc.Pids.{keys, PidsOk, IsValid}
use xv6_riscv.Proc.Life.{born, found-born, kill_from-keys}

-- Which slot is free can be told from the keys.
find_slot-keys :
    (k : ℕ) (t t' : List Proc)
    → keys t' ≡ keys t
    → find_slot (λ p. is_unused p.state) k t' ≡ find_slot (λ p. is_unused p.state) k t
unfolding find_slot
find_slot-keys k [] [] e = refl
find_slot-keys k [] (q ∷ qs) e = absurd (cc)
find_slot-keys k (p ∷ ps) [] e = absurd (cc)
find_slot-keys k (p ∷ ps) (q ∷ qs) e =
    let same : is_unused q.state ≡ is_unused p.state = ap (λ ks. free_of ks) e in
    let rest = find_slot-keys (suc k) ps qs (ap (λ ks. tail_of ks) e) in rw (same, rest)
  where
    free_of : List (ℕ × Bool) → Bool
    free_of [] = false
    free_of (v ∷ vs) = v.1

    tail_of : List (ℕ × Bool) → List (ℕ × Bool)
    tail_of [] = []
    tail_of (v ∷ vs) = vs

-- The first unused slot is the first with pid 0.
kill_zero_from :
    (next k i : ℕ) (t : List Proc)
    → PidsOk next (keys t)
    → find_slot (λ p. is_unused p.state) k t ≡ some i
    → ((kill_from 0 t).0 ≡ true)
      × ((k ≤ i) × ((q : Proc) × ((get_elem? (kill_from 0 t).1 (i - k) ≡ some q) × (q.killed ≡ 1))))
unfolding find_slot kill_from
kill_zero_from next k i [] h e = absurd (cc)
kill_zero_from next k i (p ∷ ps) h e = elim (Bool-cases (is_unused p.state)) [
  | inl free ↦
      let zero_pid : p.pid ≡ 0 = ground (arith, h.0, free) in
      let hit : (p.pid == 0) ≡ true = eq→== p.pid 0 zero_pid in
      let same : k ≡ i = some_inj (rw free at e) in
      let z : i - k ≡ 0 = omega (arith, same) in
      rw (hit, z) (refl, (omega (arith, same), (kill_proc p, (refl, ground arith))))
  | inr live ↦
      let other : (p.pid == 0) ≡ false = ne→== p.pid 0 (ground (arith, h.0, live)) in
      let e' : find_slot (λ q. is_unused q.state) (suc k) ps ≡ some i = (rw live at e) in
      let (found, (le, (q, (at, dead)))) = kill_zero_from next (suc k) i ps h.2 e' in
      let later : i - k ≡ suc (i - suc k) = omega (arith, le) in
      rw (other, later) (found, (omega (arith, le), (q, (at, dead))))
]

-- In a valid table, if allocproc after kill(0) gives the slot i, then kill(0) answered that it
-- found a process, and the process in slot i has killed set.
pub kill_zero_dooms :
    (tf pt i : ℕ) (s : Procs)
    → IsValid s
    → (allocproc tf pt (kill 0 s).1).0 ≡ some i
    → ((kill 0 s).0 ≡ true)
      × ((p : Proc) × ((get_elem? (allocproc tf pt (kill 0 s).1).1.table i ≡ some p)
            × (p.killed ≡ 1)))
unfolding kill allocproc fresh
kill_zero_dooms tf pt i s v e =
    elim (Option-cases (find_slot (λ p. is_unused p.state) 0 (kill_from 0 s.table).1)) [
      | inl full ↦ absurd (cc (subst (λ o. (taken o).0 ≡ some i) full e))
      | inr (k, at_k) ↦
          let e' : (found tf pt k s').0 ≡ some i = subst (λ o. (taken o).0 ≡ some i) at_k e in
          let free : find_slot (λ p. is_unused p.state) 0 s.table ≡ some k =
            sym (find_slot-keys 0 s.table s'.table (kill_from-keys 0 s.table)) ∙ at_k in
          let (hit, (le, (q, (at, dead)))) = kill_zero_from s.nextpid 0 k s.table v.1 free in
          let (same, slot) = found-born tf pt k i s' e' in
          let back : k - 0 ≡ i = omega (arith, same) in
          let at_i : get_elem? s'.table k ≡ some q =
            subst (λ n. get_elem? s'.table n ≡ some q) (from_zero k) at in
          (
            hit,
            (
              born tf pt s' q,
              (
                subst (λ o. get_elem? (taken o).1.table i ≡ some (born tf pt s' q)) (sym at_k)
                    (subst (λ n. get_elem? (found tf pt k s').1.table n ≡ some (born tf pt s' q))
                      (sym same) (slot ∙ ap (Option.map {A = Proc} (born tf pt s')) at_i)),
                dead,
              ),
            ),
          )
    ]
  where
    s' : Procs
    s' = (kill 0 s).1

    taken : Option ℕ → Option ℕ × Procs
    taken o = elim o [ none ↦ (none, s') | some n ↦ found tf pt n s' ]

    from_zero : (n : ℕ) → n - 0 ≡ n
    from_zero n = omega arith
