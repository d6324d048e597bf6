-- ===== src/Proc/Life.antt =====
-- kernel/proc.c: every operation on the process table keeps the pids in order.
use mathlib.Core.Option
use xv6_riscv.Base.{
  ℕ, ◌+◌, ◌%◌, ◌^◌, ◌<◌, ◌≡◌, refl, sym, ap, ◌∙◌, subst, Bool, true, false, Option, none, some,
  List, [], ◌∷◌, arith, inl, inr, ◌==◌, Option-cases, Bool-cases, get_elem?, some_inj,
}
use xv6_riscv.Proc.{
  Proc, Procs, is_unused, at_slot, fresh, freeproc, found, fork_in, allocproc, inherit, fork,
  wakeup, woken, kill, kill_from, kill_proc, find_slot, reparent_slot, is_child,
}
use xv6_riscv.Proc.Pids.{
  key, keys, PidsOk, IsValid, set-PidsOk, clear-PidsOk, map_from-keys, at_slot-keys, at_slot-keep,
  at_slot-keep_at, get_elem?-at_slot,
}

pub same-IsValid :
    (s s' : Procs) → keys s'.table ≡ keys s.table → s'.nextpid ≡ s.nextpid → IsValid s → IsValid s'
same-IsValid s s' e n v = (
  subst (λ k. 0 < k) (sym n) v.0,
  subst (λ k. PidsOk k (keys s'.table)) (sym n) (subst (PidsOk s.nextpid) (sym e) v.1),
)

pub free-IsValid :
    (i : ℕ) (f : Proc → Proc) (s : Procs) → IsValid s → IsValid (at_slot i (λ p. freeproc (f p)) s)
unfolding freeproc
free-IsValid i f s v = (
  v.0,
  subst (PidsOk s.nextpid) (sym (at_slot-keys i (λ p. freeproc (f p)) (0, true) s (λ p. refl)))
      (clear-PidsOk s.nextpid (keys s.table) i v.1),
)

pub found-IsValid :
    (tf pt i : ℕ) (s : Procs) → s.nextpid + 1 < 2 ^ 31 → IsValid s → IsValid (found tf pt i s).1
unfolding found fresh
found-IsValid tf pt i s room v = elim (Bool-cases (tf == 0)) [
  | inl no_frame ↦ rw no_frame (free-IsValid i (λ p. p) s1 v1)
  | inr frame ↦ elim (Bool-cases (pt == 0)) [
    | inl no_table ↦ rw (frame, no_table) (free-IsValid i (λ p. record p { trapframe = tf }) s1 v1)
    | inr table ↦
        rw (frame, table)
          (same-IsValid s1 (at_slot i (λ p. record p { trapframe = tf; pagetable = pt }) s1)
            (at_slot-keep i (λ p. record p { trapframe = tf; pagetable = pt }) s1 (λ p. refl)) refl
            v1)
  ]
]
  where
    s0 : Procs
    s0 = record s { nextpid = (s.nextpid + 1) % 2 ^ 32 }

    s1 : Procs
    s1 = at_slot i (fresh s.nextpid s.ticks) s0

    no_wrap : (s.nextpid + 1) % 2 ^ 32 ≡ s.nextpid + 1
    no_wrap = omega (arith, room)

    v1 : IsValid s1
    v1 = (
      omega (arith, v.0, room),
      subst (λ n. PidsOk n (keys s1.table)) (sym no_wrap)
          (subst (PidsOk (s.nextpid + 1))
            (sym (at_slot-keys i (fresh s.nextpid s.ticks) (s.nextpid, false) s0 (λ p. refl)))
            (set-PidsOk s.nextpid (keys s.table) i v.0 v.1)),
    )

-- The process that a successful `found` leaves in its slot, from the one that was there.
abbrev pub born : ℕ → ℕ → Procs → Proc → Proc
born tf pt s q = record (fresh s.nextpid s.ticks q) { trapframe = tf; pagetable = pt }

pub found-born :
    (tf pt i j : ℕ) (s : Procs)
    → (found tf pt i s).0 ≡ some j
    → (j ≡ i)
      × (get_elem? (found tf pt i s).1.table i ≡ Option.map (born tf pt s) (get_elem? s.table i))
unfolding found
found-born tf pt i j s e = elim (Bool-cases (tf == 0)) [
  | inl no_frame ↦ absurd (ground (arith, e, no_frame))
  | inr frame ↦ elim (Bool-cases (pt == 0)) [
    | inl no_table ↦ absurd (ground (arith, e, frame, no_table))
    | inr table ↦ (
      ground arith,
      rw (frame, table)
          (get_elem?-at_slot i given s1
            ∙ ap (Option.map {A = Proc} given) (get_elem?-at_slot i (fresh s.nextpid s.ticks) s0)
            ∙ map_twice (get_elem? s.table i)),
    )
  ]
]
  where
    given : Proc → Proc
    given p = record p { trapframe = tf; pagetable = pt }

    s0 : Procs
    s0 = record s { nextpid = (s.nextpid + 1) % 2 ^ 32 }

    s1 : Procs
    s1 = at_slot i (fresh s.nextpid s.ticks) s0

    map_twice :
        (o : Option Proc)
        → Option.map given (Option.map (fresh s.nextpid s.ticks) o) ≡ Option.map (born tf pt s) o
    map_twice none = refl
    map_twice (some p) = refl

born-used :
    (tf pt : ℕ) (s : Procs) (o : Option Proc) (p : Proc)
    → Option.map (born tf pt s) o ≡ some p
    → is_unused p.state ≡ false
unfolding fresh
born-used tf pt s none p e = absurd (cc)
born-used tf pt s (some q) p e = ap (λ (r : Proc). is_unused r.state) (sym (some_inj e))

-- A slot that `allocproc` returns holds a process in use.
pub allocproc-used :
    (tf pt i : ℕ) (s : Procs) (q : Proc)
    → (allocproc tf pt s).0 ≡ some i
    → get_elem? (allocproc tf pt s).1.table i ≡ some q
    → is_unused q.state ≡ false
unfolding allocproc
allocproc-used tf pt i s q e at =
    elim (Option-cases (find_slot (λ p. is_unused p.state) 0 s.table)) [
      | inl full ↦ absurd (cc (subst (λ o. (taken o).0 ≡ some i) full e))
      | inr (k, at_k) ↦
          let e' : (found tf pt k s).0 ≡ some i = subst (λ o. (taken o).0 ≡ some i) at_k e in
          let at' : get_elem? (found tf pt k s).1.table i ≡ some q =
            subst (λ o. get_elem? (taken o).1.table i ≡ some q) at_k at in
          let (same, slot) = found-born tf pt k i s e' in
          born-used tf pt s (get_elem? s.table k) q
            (sym slot ∙ subst (λ n. get_elem? (found tf pt k s).1.table n ≡ some q) same at')
    ]
  where
    taken : Option ℕ → Option ℕ × Procs
    taken o = elim o [ none ↦ (none, s) | some n ↦ found tf pt n s ]

pub kill_proc-key : (p : Proc) → key (kill_proc p) ≡ key p
kill_proc-key p = ground arith

pub kill_from-keys : (pid : ℕ) (t : List Proc) → keys (kill_from pid t).1 ≡ keys t
unfolding kill_from
kill_from-keys pid [] = refl
kill_from-keys pid (p ∷ ps) = ground (arith, kill_proc-key p, kill_from-keys pid ps)

-- `allocproc` keeps the table valid on every path, the failing ones included.
pub allocproc-IsValid :
    (tf pt : ℕ) (s : Procs) → s.nextpid + 1 < 2 ^ 31 → IsValid s → IsValid (allocproc tf pt s).1
unfolding allocproc
allocproc-IsValid tf pt s room v =
    elim (Option-cases (find_slot (λ p. is_unused p.state) 0 s.table)) [
      | inl full ↦ rw (full, allocproc) v
      | inr (i, e) ↦ rw (e, allocproc) (found-IsValid tf pt i s room v)
    ]

fork_in-IsValid :
    (copied : Bool) (me pid : ℕ) (p : Proc) (slot : Option ℕ) (s : Procs)
    → IsValid s
    → ((i : ℕ) (q : Proc)
        → slot ≡ some i
        → get_elem? s.table i ≡ some q
        → is_unused q.state ≡ false)
    → IsValid (fork_in copied me p pid (slot, s)).1
unfolding fork_in inherit
fork_in-IsValid copied me pid p none s v h = v
fork_in-IsValid true me pid p (some i) s v h =
    same-IsValid s (at_slot i (inherit me p) s)
      (at_slot-keep_at i (inherit me p) s (λ q at. ap (λ b. (q.pid, b)) (sym (h i q refl at)))) refl
      v
fork_in-IsValid false me pid p (some i) s v h = free-IsValid i (λ q. q) s v

-- So does `fork`.
pub fork-IsValid :
    (tf pt : ℕ) (copied : Bool) (me : ℕ) (p : Proc) (s : Procs)
    → s.nextpid + 1 < 2 ^ 31
    → IsValid s
    → IsValid (fork tf pt copied me p s).1
unfolding fork
fork-IsValid tf pt copied me p s room v =
    fork_in-IsValid copied me s.nextpid p (allocproc tf pt s).0 (allocproc tf pt s).1
      (allocproc-IsValid tf pt s room v) used_slot
  where
    used_slot :
        (i : ℕ) (q : Proc)
        → (allocproc tf pt s).0 ≡ some i
        → get_elem? (allocproc tf pt s).1.table i ≡ some q
        → is_unused q.state ≡ false
    used_slot i q e at = allocproc-used tf pt i s q e at

pub woken-key :
    (me : Option ℕ) (chan ticks j : ℕ) (p : Proc) → key (woken me chan ticks j p) ≡ key p
woken-key none chan ticks j p = ground arith
woken-key (some i) chan ticks j p = ground arith

pub wakeup-IsValid : (me : Option ℕ) (chan : ℕ) (s : Procs) → IsValid s → IsValid (wakeup me chan s)
unfolding wakeup
wakeup-IsValid me chan s v =
    same-IsValid s (wakeup me chan s)
      (map_from-keys (woken me chan s.ticks) 0 s.table (woken-key me chan s.ticks)) refl v

pub kill-IsValid : (pid : ℕ) (s : Procs) → IsValid s → IsValid (kill pid s).1
unfolding kill
kill-IsValid pid s v = same-IsValid s (kill pid s).1 (kill_from-keys pid s.table) refl v

pub reparent_slot-keys :
    (addr : ℕ → ℕ) (me i : ℕ) (s : Procs) → keys (reparent_slot addr me i s).table ≡ keys s.table
unfolding reparent_slot wakeup
reparent_slot-keys addr me i s = elim (Option-cases (get_elem? s.table i)) [
  | inl past ↦ rw (past, reparent_slot)
  | inr (pp, at) ↦ elim (Bool-cases (is_child me pp)) [
    | inl child ↦
        rw (at, child, reparent_slot)
          (map_from-keys (woken (some me) (addr s.initproc) s.ticks) 0
              (at_slot i (λ p. record p { parent = some s.initproc }) s).table
              (woken-key (some me) (addr s.initproc) s.ticks)
            ∙ at_slot-keep i (λ p. record p { parent = some s.initproc }) s (λ p. refl))
    | inr other ↦ rw (at, other, reparent_slot)
  ]
]
