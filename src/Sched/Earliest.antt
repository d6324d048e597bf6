-- ===== src/Sched/Earliest.antt =====
-- kernel/proc.c: FCFS chooses the runnable process that was created first.
use xv6_riscv.Base.{
  ℕ, suc, ◌-◌, ◌≤◌, ◌≡◌, refl, sym, ap, ◌∙◌, subst, true, false, Option, none, some, List, [], ◌∷◌,
  All, arith, ◌⊎◌, inl, inr, Bool-cases, get_elem?, some_inj, ltb,
}
use xv6_riscv.Proc.{Proc, is_runnable}
use xv6_riscv.Sched.{fcfs_round, fcfs_from, fcfs_choose}

-- A choice among processes: none of them is runnable, or the choice is, and no runnable one is older.
abbrev pub NoEarlier : Option (ℕ × Proc) → Proc → Type 0
NoEarlier none p = is_runnable p.state ≡ false
NoEarlier (some (j, best)) p = is_runnable p.state ≡ true → best.ctime ≤ p.ctime

-- The choice `r` improves on the choice `best`.
abbrev pub Improves : Option (ℕ × Proc) → Option (ℕ × Proc) → Type 0
Improves none r = Unit
Improves (some (j, p)) none = ⊥
Improves (some (j, p)) (some (k, q)) = q.ctime ≤ p.ctime

-- Where a choice comes from.
abbrev pub From : ℕ → List Proc → Option (ℕ × Proc) → Option (ℕ × Proc) → Type 0
From i t best none = best ≡ none
From i t best (some (k, q)) =
    (best ≡ some (k, q))
    ⊎ ((i ≤ k) × ((get_elem? t (k - i) ≡ some q) × (is_runnable q.state ≡ true)))

pub record Chosen (i : ℕ) (t : List Proc) (best r : Option (ℕ × Proc)) : Type 0 where
  pub least : All (NoEarlier r) t
  pub better : Improves best r
  pub source : From i t best r

Improves-trans : (a b c : Option (ℕ × Proc)) → Improves a b → Improves b c → Improves a c
Improves-trans none b c h h' = tt
Improves-trans (some (j, p)) none c h h' = absurd h
Improves-trans (some (j, p)) (some (k, q)) none h h' = absurd h'
Improves-trans (some (j, p)) (some (k, q)) (some (l, u)) h h' = omega (arith, h, h')

Improves-NoEarlier :
    (a b : Option (ℕ × Proc)) (p : Proc)
    → Improves a b
    → NoEarlier a p
    → (a ≡ none → NoEarlier b p)
    → NoEarlier b p
Improves-NoEarlier none b p h n k = k refl
Improves-NoEarlier (some (j, q)) none p h n k = absurd h
Improves-NoEarlier (some (j, q)) (some (l, u)) p h n k = λ e. omega (arith, h, n e)

round_lem :
    (best : Option (ℕ × Proc)) (i : ℕ) (fp : Proc)
    → Improves best (fcfs_round best i fp)
      × (NoEarlier (fcfs_round best i fp) fp
          × ((fcfs_round best i fp ≡ best)
              ⊎ ((fcfs_round best i fp ≡ some (i, fp)) × (is_runnable fp.state ≡ true))))
unfolding fcfs_round
round_lem none i fp = elim (Bool-cases (is_runnable fp.state)) [
  | inl ready ↦ rw ready (tt, (λ e. omega arith, inr (refl, refl)))
  | inr idle ↦ rw idle (tt, (idle, inl refl))
]
round_lem (some (j, p)) i fp = elim (Bool-cases (is_runnable fp.state)) [
  | inl ready ↦ elim (Bool-cases (ltb fp.ctime p.ctime)) [
    | inl older ↦ rw (ready, older) (ground (arith, older), (λ e. omega arith, inr (refl, refl)))
    | inr later ↦ rw (ready, later) (omega arith, (λ e. ground (arith, later), inl refl))
  ]
  | inr idle ↦ rw idle (omega arith, (λ e. absurd (cc), inl refl))
]

Improves-refl : (a : Option (ℕ × Proc)) → Improves a a
Improves-refl none = tt
Improves-refl (some (j, p)) = omega arith

From-self : (i : ℕ) (best : Option (ℕ × Proc)) → From i [] best best
From-self i none = refl
From-self i (some (k, q)) = inl refl

idle_least : (b r : Option (ℕ × Proc)) (p : Proc) → NoEarlier b p → b ≡ none → NoEarlier r p
idle_least b none p h e = subst (λ c. NoEarlier c p) e h
idle_least b (some (k, q)) p h e = λ ready. absurd (no_both (subst (λ c. NoEarlier c p) e h) ready)
  where
    no_both : is_runnable p.state ≡ false → is_runnable p.state ≡ true → ⊥
    no_both f t = cc

From-cons :
    (i : ℕ) (fp : Proc) (ps : List Proc) (best next r : Option (ℕ × Proc))
    → (next ≡ best) ⊎ ((next ≡ some (i, fp)) × (is_runnable fp.state ≡ true))
    → From (suc i) ps next r
    → From i (fp ∷ ps) best r
From-cons i fp ps best next none (inl same) h = sym same ∙ h
From-cons i fp ps best next none (inr (new, ready)) h = absurd (no_some (sym new ∙ h))
  where
    no_some : ◌≡◌ {A = Option (ℕ × Proc)} (some (i, fp)) none → ⊥
    no_some e = cc
From-cons i fp ps best next (some (k, q)) why (inr (le, (at, ready))) =
    let later : k - i ≡ suc (k - suc i) = omega (arith, le) in
    inr (omega (arith, le), (rw later at, ready))
From-cons i fp ps best next (some (k, q)) (inl same) (inl h) = inl (sym same ∙ h)
From-cons i fp ps best next (some (k, q)) (inr (new, ready)) (inl h) =
    let here : ◌≡◌ {A = ℕ × Proc} (i, fp) (k, q) = some_inj (sym new ∙ h) in
    let none_before : k - i ≡ 0 = omega (arith, ap (λ (v : ℕ × Proc). v.0) here) in
    inr (
      omega (arith, ap (λ (v : ℕ × Proc). v.0) here),
      (
        rw none_before (ap (λ (v : ℕ × Proc). some v.1) here),
        subst (λ (v : ℕ × Proc). is_runnable v.1.state ≡ true) here ready,
      ),
    )

fcfs_from-Chosen :
    (best : Option (ℕ × Proc)) (i : ℕ) (t : List Proc) → Chosen i t best (fcfs_from best i t)
unfolding fcfs_from
fcfs_from-Chosen best i [] = record {
  least = tt;
  better = Improves-refl best;
  source = From-self i best;
}
fcfs_from-Chosen best i (fp ∷ ps) =
    let next : Option (ℕ × Proc) = fcfs_round best i fp in
    let r : Option (ℕ × Proc) = fcfs_from next (suc i) ps in
    let rest : Chosen (suc i) ps next r = fcfs_from-Chosen next (suc i) ps in
    let (better, (least, why)) = round_lem best i fp in
    record {
      least =
          (Improves-NoEarlier next r fp rest.better least (idle_least next r fp least), rest.least);
      better = Improves-trans best next r better rest.better;
      source = From-cons i fp ps best next r why rest.source;
    }

-- What FCFS should choose.
abbrev pub Earliest : List Proc → Option (ℕ × Proc) → Type 0
Earliest t none = All (λ p. is_runnable p.state ≡ false) t
Earliest t (some (k, q)) =
    (get_elem? t k ≡ some q)
    × ((is_runnable q.state ≡ true) × All (λ p. is_runnable p.state ≡ true → q.ctime ≤ p.ctime) t)

earliest_lem : (t : List Proc) (r : Option (ℕ × Proc)) → Chosen 0 t none r → Earliest t r
earliest_lem t none c = c.least
earliest_lem t (some (k, q)) c = elim c.source [
  | inl e ↦ absurd (no_some e)
  | inr (le, (at, ready)) ↦ (subst (λ n. get_elem? t n ≡ some q) (from_zero k) at, (ready, c.least))
]
  where
    no_some : ◌≡◌ {A = Option (ℕ × Proc)} none (some (k, q)) → ⊥
    no_some e = cc

    from_zero : (n : ℕ) → n - 0 ≡ n
    from_zero n = omega arith

-- FCFS chooses no process only if none is runnable; otherwise it chooses a slot with a runnable
-- process, and no runnable process has an earlier ctime.
pub fcfs_choose-Earliest : (t : List Proc) → Earliest t (fcfs_choose t)
unfolding fcfs_choose
fcfs_choose-Earliest t = earliest_lem t (fcfs_from none 0 t) (fcfs_from-Chosen none 0 t)
