-- ===== src/Alarm/Deliver.antt =====
-- kernel/trap.c: what a timer interrupt does to the alarm of a process.
use xv6_riscv.Base.{
  ℕ, ◌+◌, ◌%◌, ◌^◌, ◌≤◌, ◌<◌, ◌≡◌, ◌≢◌, refl, sym, ap, ◌∙◌, false, arith, ◌==◌, ◌∷◌, count, update,
  update_self, update_ne, Option, none, some, ◌⊎◌, inl, inr, count_self, count_ne, ne→==,
  Bool-cases, ==→eq, ==→ne, eq→==,
}
use native.Mathlib.Decide.{ℕ_discrete}
use xv6_riscv.Kalloc.{Mem, Page, kernbase, frame, fill}
use xv6_riscv.Kalloc.Chain.{IsPage, kalloc-none, kalloc-some}
use xv6_riscv.Kalloc.Ledger.{Heap, Balanced, alloc-Balanced}
use xv6_riscv.Vm.Descend.{page-Balanced}
use xv6_riscv.Alarm.{Alarm, epc, deliver, tick}

-- The handler is about to run, with the trapframe in a page that nobody held; no other page that somebody
-- held has changed.
pub record Delivered (kend : ℕ) (p q : Alarm) (h : Heap) (m : Mem) : Type 0 where
  pub due : (p.nticks + 1) % 2 ^ 32 ≡ p.interval
  pub proc :
      q
      ≡ record p { nticks = (p.nticks + 1) % 2 ^ 32; alarm_on = 1; alarm_context = q.alarm_context }
  pub some_page : q.alarm_context ≢ 0
  pub fresh : count q.alarm_context h.held ≡ 0
  pub balanced : Balanced kend (record { mem = m; held = q.alarm_context ∷ h.held })
  pub saved : (k : ℕ) → m.page q.alarm_context k ≡ h.mem.page p.trapframe k
  pub enters : m.page p.trapframe epc ≡ p.handler
  pub keeps : (k : ℕ) → k ≢ epc → m.page p.trapframe k ≡ h.mem.page p.trapframe k
  pub rest : (r k : ℕ) → 0 < count r h.held → r ≢ p.trapframe → m.page r k ≡ h.mem.page r k

-- Nothing but the count of ticks changes while the handler runs or the time has not come; a fault if no
-- page is free.
abbrev pub Ticked : ℕ → Alarm → Heap → Option (Alarm × Mem) → Type 0
Ticked kend p h none = (h.mem.freelist ≡ 0) × ((p.nticks + 1) % 2 ^ 32 ≡ p.interval)
Ticked kend p h (some (q, m)) =
    ((m ≡ h.mem)
      × (((p.alarm_on ≢ 0) × (q ≡ p))
          ⊎ ((p.alarm_on ≡ 0)
              × (((p.nticks + 1) % 2 ^ 32 ≢ p.interval)
                  × (q ≡ record p { nticks = (p.nticks + 1) % 2 ^ 32 })))))
    ⊎ ((p.alarm_on ≡ 0) × Delivered kend p q h m)

module _ (kend : ℕ) (low : kernbase ≤ kend) (p : Alarm) (h : Heap) (v : Balanced kend h)
    (pos : 0 < count p.trapframe h.held) (ne : h.mem.freelist ≢ 0) where
  abbrev context : ℕ
  context = h.mem.freelist

  abbrev taken : ℕ → Page
  taken = update h.mem.page context (fill 5)

  abbrev saved_pages : ℕ → Page
  saved_pages = update taken context (taken p.trapframe)

  abbrev after : Mem
  after = record (h.mem) {
    page = update saved_pages p.trapframe (update (saved_pages p.trapframe) epc p.handler);
    freelist = h.mem.page context 0;
    refs = update h.mem.refs (frame context) 1;
    locked = false;
  }

  alloc :
      IsPage kend context
      × (count context h.held ≡ 0)
      × Balanced kend (record {
        mem = record (h.mem) {
          page = taken;
          freelist = h.mem.page context 0;
          refs = update h.mem.refs (frame context) 1;
          locked = false;
        };
        held = context ∷ h.held;
      })
  alloc = alloc-Balanced kend low h v v.pages ne v.chain v.distinct v.free

  apart : (r : ℕ) → 0 < count r h.held → context ≢ r
  apart r got e = omega (arith, alloc.1, got, ap (λ k. count k h.held) e)

  old_page : (r : ℕ) → 0 < count r h.held → saved_pages r ≡ h.mem.page r
  old_page r got =
      update_ne taken context r _ (apart r got) ∙ update_ne h.mem.page context r _ (apart r got)

  after-Delivered :
      (p.nticks + 1) % 2 ^ 32 ≡ p.interval
      → Delivered kend p
          (record p { nticks = (p.nticks + 1) % 2 ^ 32; alarm_on = 1; alarm_context = context })
          h
          after
  after-Delivered due = record {
    due = due;
    proc = refl;
    some_page = ne;
    fresh = alloc.1;
    balanced =
        page-Balanced kend low _ p.trapframe _
          (page-Balanced kend low _ context _ alloc.2 (omega (arith, count_self context h.held)))
          (omega (arith, count_ne context p.trapframe h.held (apart p.trapframe pos), pos));
    saved = λ k.
        ap (λ (f : Page). f k)
          (update_ne saved_pages p.trapframe context _ (λ e. apart p.trapframe pos (sym e))
            ∙ (update_self taken context _
                ∙ update_ne h.mem.page context p.trapframe _ (apart p.trapframe pos)));
    enters =
        ap (λ (f : Page). f epc) (update_self saved_pages p.trapframe _)
        ∙ update_self (saved_pages p.trapframe) epc p.handler;
    keeps = λ k other.
        ap (λ (f : Page). f k) (update_self saved_pages p.trapframe _)
        ∙ (update_ne (saved_pages p.trapframe) epc k _ (λ e. other (sym e))
            ∙ ap (λ (f : Page). f k) (old_page p.trapframe pos));
    rest = λ r k got other.
        ap (λ (f : Page). f k)
          (update_ne saved_pages p.trapframe r _ (λ e. other (sym e)) ∙ old_page r got);
  }

-- Over right counters and a held trapframe, a timer interrupt changes nothing while the alarm
-- runs, only counts a tick before the interval is over, and otherwise saves the trapframe in a
-- page that nobody held, sets epc to the handler, keeps every other word of the trapframe and
-- every other page that is held, and turns the alarm on; it faults only then, if no page is free.
pub tick-Ticked :
    (kend : ℕ) (p : Alarm) (h : Heap)
    → kernbase ≤ kend
    → Balanced kend h
    → 0 < count p.trapframe h.held
    → Ticked kend p h (tick p h.mem)
unfolding tick deliver
tick-Ticked kend p h low v pos = elim (ℕ_discrete p.alarm_on 0) [
  | no running ↦ rw (ne→== p.alarm_on 0 running) (inl (refl, inl (running, refl)))
  | yes off ↦ elim (Bool-cases ((p.nticks + 1) % 2 ^ 32 == p.interval)) [
    | inr early ↦
        rw (eq→== p.alarm_on 0 off, early) (inl (refl, inr (off, (==→ne _ p.interval early, refl))))
    | inl due ↦ elim (ℕ_discrete h.mem.freelist 0) [
      | yes full ↦
          rw (eq→== p.alarm_on 0 off, due, kalloc-none h.mem full) (full, ==→eq _ p.interval due)
      | no ne ↦
          rw
            (
              eq→== p.alarm_on 0 off,
              due,
              kalloc-some h.mem ne v.unlocked,
              ne→== h.mem.freelist 0 ne,
            )
            (inr (off, after-Delivered kend low p h v pos ne (==→eq _ p.interval due)))
    ]
  ]
]
