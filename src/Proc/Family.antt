-- ===== src/Proc/Family.antt =====
-- kernel/proc.c: histories of fork, exit, wait, sleep, wakeup, kill and clock ticks.
use mathlib.Core.Option
use xv6_riscv.Base.{
  ◌&&◌, ℕ, zero, suc, ◌+◌, ◌^◌, ◌<◌, ◌≡◌, refl, sym, ap, ◌∙◌, subst, Bool, false, Option, none,
  some, List, [], ◌∷◌, arith, inl, inr, ◌==◌, Option-cases, Bool-cases, for_from_inv, length,
  get_elem?, some_inj, not, ◌||◌,
}
use xv6_riscv.Proc.{
  Proc, Procs, ProcState, is_unused, at_slot, fork, wakeup, woken, sleep, kill, update_time, killed,
  xstate_at, reparent, reparent_slot, exit, wake_parent, wait, wait_scan, WaitEnd, reaped, is_child,
}
use xv6_riscv.Proc.Pids.{key, keys, IsValid, map_from-keys, at_slot-keep_at}
use xv6_riscv.Proc.Life.{
  same-IsValid, free-IsValid, fork-IsValid, wakeup-IsValid, kill-IsValid, woken-key,
  reparent_slot-keys,
}

-- The slot `i`, if there is one, holds a process.
abbrev pub InUse : ℕ → List Proc → Type 0
InUse i t = (p : Proc) → get_elem? t i ≡ some p → is_unused p.state ≡ false

get_elem?-keys : (t : List Proc) (i : ℕ) → get_elem? (keys t) i ≡ Option.map key (get_elem? t i)
get_elem?-keys [] i = refl
get_elem?-keys (p ∷ ps) zero = refl
get_elem?-keys (p ∷ ps) (suc i) = get_elem?-keys ps i

key_of :
    (o : Option Proc) (p : Proc)
    → Option.map key o ≡ some (key p)
    → (q : Proc) × (o ≡ some q) × (is_unused q.state ≡ is_unused p.state)
key_of none p e = absurd (cc)
key_of (some q) p e = (q, refl, ap (λ (k : ℕ × Bool). k.1) (some_inj e))

InUse-keys : (i : ℕ) (t t' : List Proc) → keys t' ≡ keys t → InUse i t → InUse i t'
InUse-keys i t t' e h p at =
    let (q, at', same) = key_of (get_elem? t i) p (
      sym (get_elem?-keys t i)
      ∙ ap (λ ks. get_elem? ks i) (sym e)
      ∙ get_elem?-keys t' i
      ∙ ap (Option.map key) at) in
    sym same ∙ h q at'

reparent-keys : (addr : ℕ → ℕ) (me : ℕ) (s : Procs) → keys (reparent addr me s).table ≡ keys s.table
unfolding reparent
reparent-keys addr me s =
    for_from_inv (λ i (s' : Procs). keys s'.table ≡ keys s.table) (reparent_slot addr me)
      (length s.table) (λ i s' lt e. reparent_slot-keys addr me i s' ∙ e) (length s.table) 0 s
      (omega arith) refl

reparent_slot-nextpid :
    (addr : ℕ → ℕ) (me i : ℕ) (s : Procs) → (reparent_slot addr me i s).nextpid ≡ s.nextpid
unfolding reparent_slot wakeup
reparent_slot-nextpid addr me i s = elim (Option-cases (get_elem? s.table i)) [
  | inl past ↦ rw (past, reparent_slot)
  | inr (pp, at) ↦ elim (Bool-cases (is_child me pp)) [
    | inl child ↦ rw (at, child, reparent_slot)
    | inr other ↦ rw (at, other, reparent_slot)
  ]
]

reparent-nextpid : (addr : ℕ → ℕ) (me : ℕ) (s : Procs) → (reparent addr me s).nextpid ≡ s.nextpid
unfolding reparent
reparent-nextpid addr me s =
    for_from_inv (λ i (s' : Procs). s'.nextpid ≡ s.nextpid) (reparent_slot addr me) (length s.table)
      (λ i s' lt e. one i s' ∙ e) (length s.table) 0 s (omega arith) refl
  where
    one : (i : ℕ) (s' : Procs) → (reparent_slot addr me i s').nextpid ≡ s'.nextpid
    one i s' = reparent_slot-nextpid addr me i s'

wake_parent-keys :
    (addr : ℕ → ℕ) (me : ℕ) (parent : Option ℕ) (s : Procs)
    → keys (wake_parent addr me parent s).table ≡ keys s.table
unfolding wake_parent wakeup
wake_parent-keys addr me none s =
    map_from-keys (woken (some me) 0 s.ticks) 0 s.table (woken-key (some me) 0 s.ticks)
wake_parent-keys addr me (some i) s =
    map_from-keys (woken (some me) (addr i) s.ticks) 0 s.table
      (woken-key (some me) (addr i) s.ticks)

wake_parent-IsValid :
    (addr : ℕ → ℕ) (me : ℕ) (parent : Option ℕ) (s : Procs)
    → IsValid s
    → IsValid (wake_parent addr me parent s)
unfolding wake_parent
wake_parent-IsValid addr me none s v = wakeup-IsValid (some me) 0 s v
wake_parent-IsValid addr me (some i) s v = wakeup-IsValid (some me) (addr i) s v

exit-IsValid :
    (addr : ℕ → ℕ) (status me : ℕ) (parent : Option ℕ) (s s' : Procs)
    → exit addr status me parent s ≡ some s'
    → InUse me s.table
    → IsValid s
    → IsValid s'
unfolding exit
exit-IsValid addr status me parent s s' e live v = elim (Bool-cases (me == s.initproc)) [
  | inl first ↦ absurd (ground (arith, first, e))
  | inr other ↦
      let same_procs : at_slot me last s2 ≡ s' = ground (arith, other, e) in
      subst IsValid same_procs (
        same-IsValid s2 (at_slot me last s2)
          (at_slot-keep_at me last s2
            (λ p at. ap (λ b. (p.pid, b)) (sym (InUse-keys me s.table s2.table same live p at))))
          refl
          (wake_parent-IsValid addr me parent s1
            (same-IsValid s s1 (reparent-keys addr me s) (reparent-nextpid addr me s) v)))
]
  where
    s1 : Procs
    s1 = reparent addr me s

    s2 : Procs
    s2 = wake_parent addr me parent s1

    last : Proc → Proc
    last p = record p { xstate = status; state = ProcState.zombie; etime = s2.ticks }

    same : keys s2.table ≡ keys s.table
    same = wake_parent-keys addr me parent s1 ∙ reparent-keys addr me s

-- The table after a pass of `wait`.
abbrev pub after_wait : Procs → WaitEnd → Procs
after_wait s (reaped pid s') = s'
after_wait s _ = s

-- What the kernel does to the table, by a process that is there. A fork while the `int` of the
-- next pid does not overflow.
pub data Step (addr : ℕ → ℕ) (s : Procs) : Procs → Type 0 where
  forks :
      (tf pt : ℕ) (copied : Bool) (me : ℕ) (p : Proc)
      → s.nextpid + 1 < 2 ^ 31
      → Step addr s (fork tf pt copied me p s).1
  exits :
      {s' : Procs} (status me : ℕ) (parent : Option ℕ)
      → InUse me s.table
      → exit addr status me parent s ≡ some s'
      → Step addr s s'
  waits :
      (copyout : ℕ → ℕ → Bool) (status me : ℕ)
      → Step addr s (after_wait s (wait copyout status me s))
  sleeps : (me chan : ℕ) → InUse me s.table → Step addr s (sleep me chan s)
  wakes : (me : Option ℕ) (chan : ℕ) → Step addr s (wakeup me chan s)
  kills : (pid : ℕ) → Step addr s (kill pid s).1
  ticks : Step addr s (update_time (record s { ticks = s.ticks + 1 }))

wait-IsValid :
    (copyout : ℕ → ℕ → Bool) (status me : ℕ) (s : Procs)
    → IsValid s
    → IsValid (after_wait s (wait copyout status me s))
unfolding wait
wait-IsValid copyout status me s v = elim (Option-cases (wait_scan me 0 s.table).1) [
  | inl nobody ↦ elim (Bool-cases (not (wait_scan me 0 s.table).0 || killed me s.table)) [
    | inl stop ↦ rw (nobody, wait, stop) v
    | inr stay ↦ rw (nobody, wait, stay) v
  ]
  | inr (i, e) ↦
      elim (Bool-cases (not (status == 0) && not (copyout status (xstate_at i s.table)))) [
        | inl fault ↦ rw (e, wait, fault) v
        | inr out ↦ rw (e, wait, out) (free-IsValid i (λ p. p) s v)
      ]
]

sleep-IsValid : (me chan : ℕ) (s : Procs) → InUse me s.table → IsValid s → IsValid (sleep me chan s)
unfolding sleep
sleep-IsValid me chan s live v =
    same-IsValid s (sleep me chan s)
      (at_slot-keep_at me
        (λ p. record p { chan = chan; state = ProcState.sleeping; stime = s.ticks }) s
        (λ p at. ap (λ b. (p.pid, b)) (sym (live p at))))
      refl v

tick-IsValid : (s : Procs) → IsValid s → IsValid (update_time s)
unfolding update_time
tick-IsValid s v =
    same-IsValid s (update_time s) (map_from-keys _ 0 s.table (λ j p. ground arith)) refl v

-- Every fork before the pid overflows, exit, wait, sleep, wakeup, kill and tick keeps the table
-- valid: an unused slot has pid 0, and the pids in use are distinct, not 0 and below nextpid.
pub Step-IsValid : (addr : ℕ → ℕ) {s s' : Procs} → Step addr s s' → IsValid s → IsValid s'
Step-IsValid addr {s} (forks tf pt copied me p room) v = fork-IsValid tf pt copied me p s room v
Step-IsValid addr {s} (exits {s' = s'} status me parent live e) v =
    exit-IsValid addr status me parent s s' e live v
Step-IsValid addr {s} (waits copyout status me) v = wait-IsValid copyout status me s v
Step-IsValid addr {s} (sleeps me chan live) v = sleep-IsValid me chan s live v
Step-IsValid addr {s} (wakes me chan) v = wakeup-IsValid me chan s v
Step-IsValid addr {s} (kills pid) v = kill-IsValid pid s v
Step-IsValid addr {s} ticks v = tick-IsValid (record s { ticks = s.ticks + 1 }) v
