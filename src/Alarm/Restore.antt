-- ===== src/Alarm/Restore.antt =====
-- kernel/sysproc.c: `sigreturn` brings back the trapframe that the alarm saved.
use xv6_riscv.Base.{
  ℕ, ◌-◌, ◌≤◌, ◌<◌, ◌≡◌, ◌≢◌, refl, sym, ap, ◌∙◌, subst, false, arith, inl, inr, count, remove,
  update, update_self, update_ne, some, ne→==, count-remove_ne,
}
use native.Mathlib.Decide.{dec_lt}
use xv6_riscv.Kalloc.{Mem, Page, kernbase, kfree, frame, push_free}
use xv6_riscv.Kalloc.Chain.{kfree_more, kfree_last}
use xv6_riscv.Kalloc.Ledger.{Heap, Balanced, more-Balanced, last-Balanced}
use xv6_riscv.Vm.User.{int_of}
use xv6_riscv.Vm.Descend.{page-Balanced}
use xv6_riscv.Alarm.{Alarm, a0, put_field, tick, sys_sigreturn, sigreturn}
use xv6_riscv.Alarm.Deliver.{Delivered, Ticked, tick-Ticked}

-- `kfree` of a held page: the counters stay right, and no other page is written.
kfree-Balanced :
    (kend q : ℕ) (h : Heap)
    → kernbase ≤ kend
    → Balanced kend h
    → 0 < count q h.held
    → (m : Mem) × ((kfree kend q h.mem ≡ some m)
        × (Balanced kend (record { mem = m; held = remove q h.held })
            × ((r k : ℕ) → q ≢ r → m.page r k ≡ h.mem.page r k)))
unfolding push_free
kfree-Balanced kend q h low v pos = elim (dec_lt 1 (h.mem.refs (frame q))) [
  | yes more ↦ (
    record (h.mem) {
      refs = update h.mem.refs (frame q) (h.mem.refs (frame q) - 1);
      locked = false;
    },
    (
      kfree_more kend q h.mem (v.owned q pos) v.unlocked more,
      (more-Balanced kend low h v q pos, λ r k ne. refl),
    ),
  )
  | no last ↦ (
    push_free q (record (h.mem) { refs = update h.mem.refs (frame q) 0; locked = false }),
    (
      kfree_last kend q h.mem (v.owned q pos) v.unlocked (omega arith),
      (
        last-Balanced kend low h v q pos (omega arith),
        λ r k ne. ap (λ (f : Page). f k) (update_ne h.mem.page q r _ ne),
      ),
    ),
  )
]

sigreturn_lem :
    (kend : ℕ) (q : Alarm) (m m1 : Mem)
    → q.alarm_context ≢ 0
    → kfree kend q.alarm_context
        (record m { page = update m.page q.trapframe (m.page q.alarm_context) })
      ≡ some m1
    → sigreturn kend q m
      ≡ some (
        record q { alarm_on = 0; nticks = 0; alarm_context = 0 },
        put_field q.trapframe a0 (int_of (m.page q.alarm_context a0)) m1,
      )
unfolding sigreturn sys_sigreturn
sigreturn_lem kend q m m1 ne freed = rw (ne→== q.alarm_context 0 ne, freed) refl

-- The alarm is off again, the saved page let go, and the trapframe is as it was but for `a0`, of which
-- 32 bits are left.
pub record Restored (kend : ℕ) (p q : Alarm) (h h2 : Heap) (r : Alarm) (m : Mem) : Type 0 where
  pub proc : r ≡ record q { alarm_on = 0; nticks = 0; alarm_context = 0 }
  pub balanced : Balanced kend (record { mem = m; held = remove q.alarm_context h2.held })
  pub same : (k : ℕ) → k ≢ a0 → m.page q.trapframe k ≡ h.mem.page p.trapframe k
  pub result : m.page q.trapframe a0 ≡ int_of (h.mem.page p.trapframe a0)

module _ (kend : ℕ) (low : kernbase ≤ kend) (p q : Alarm) (h : Heap) (m : Mem)
    (d : Delivered kend p q h m) (pos : 0 < count p.trapframe h.held) (h2 : Heap)
    (v2 : Balanced kend h2) (pos2 : 0 < count q.trapframe h2.held)
    (held2 : 0 < count q.alarm_context h2.held)
    (kept : (k : ℕ) → h2.mem.page q.alarm_context k ≡ m.page q.alarm_context k) where
  same_frame : q.trapframe ≡ p.trapframe
  same_frame = ap (λ (x : Alarm). x.trapframe) d.proc

  apart : q.alarm_context ≢ q.trapframe
  apart e = omega (arith, d.fresh, pos, ap (λ k. count k h.held) (e ∙ same_frame))

  abbrev restored : Heap
  restored = record {
    mem = record (h2.mem) { page = update h2.mem.page q.trapframe (h2.mem.page q.alarm_context) };
    held = h2.held;
  }

  restore :
      (r : Alarm) × ((m3 : Mem) × ((sigreturn kend q h2.mem ≡ some (r, m3))
          × Restored kend p q h h2 r m3))
  restore =
      let (m1, (freed, (v1, others))) =
        kfree-Balanced kend q.alarm_context restored low
          (page-Balanced kend low h2 q.trapframe _ v2 pos2) held2 in
      let value = int_of (h2.mem.page q.alarm_context a0) in
      (
        record q { alarm_on = 0; nticks = 0; alarm_context = 0 },
        (
          put_field q.trapframe a0 value m1,
          (
            sigreturn_lem kend q h2.mem m1 d.some_page freed,
            record {
              proc = refl;
              balanced =
                  page-Balanced kend low _ q.trapframe _ v1 (
                    omega (arith, count-remove_ne q.alarm_context q.trapframe h2.held apart, pos2));
              same = λ k other.
                  ap (λ (f : Page). f k) (update_self m1.page q.trapframe _)
                  ∙ (update_ne (m1.page q.trapframe) a0 k _ (λ e. other (sym e))
                      ∙ (others q.trapframe k apart
                          ∙ (ap (λ (f : Page). f k) (update_self h2.mem.page q.trapframe _)
                              ∙ (kept k ∙ d.saved k))));
              result =
                  ap (λ (f : Page). f a0) (update_self m1.page q.trapframe _)
                  ∙ (update_self (m1.page q.trapframe) a0 _ ∙ ap int_of (kept a0 ∙ d.saved a0));
            },
          ),
        ),
      )

-- A tick after which the alarm is on where it was off has started the handler.
pub tick-Delivered :
    (kend : ℕ) (p q : Alarm) (h : Heap) (m : Mem)
    → kernbase ≤ kend
    → Balanced kend h
    → 0 < count p.trapframe h.held
    → p.alarm_on ≡ 0
    → q.alarm_on ≢ 0
    → tick p h.mem ≡ some (q, m)
    → Delivered kend p q h m
tick-Delivered kend p q h m low v pos off on e =
    elim (subst (Ticked kend p h) e (tick-Ticked kend p h low v pos)) [
      | inr (_, d) ↦ d
      | inl (_, inl (running, _)) ↦ absurd (running off)
      | inl (_, inr (_, (_, same))) ↦ absurd (on (ap (λ (x : Alarm). x.alarm_on) same ∙ off))
    ]

-- If a timer interrupt on a process without a running alarm starts its handler, over right
-- counters, then from any later heap with right counters where the trapframe and the saved page
-- are held and the saved page is as the interrupt left it, sigreturn does not panic; every word
-- of the trapframe is as it was before the interrupt, but a0, which has the lower 32 bits of what
-- it was, extended with their sign; the alarm is off, the count of ticks 0, and one holder less
-- has the saved page.
pub sigreturn-Restored :
    (kend : ℕ) (p q : Alarm) (h : Heap) (m : Mem) (h2 : Heap)
    → kernbase ≤ kend
    → Balanced kend h
    → 0 < count p.trapframe h.held
    → p.alarm_on ≡ 0
    → q.alarm_on ≢ 0
    → tick p h.mem ≡ some (q, m)
    → Balanced kend h2
    → 0 < count q.trapframe h2.held
    → 0 < count q.alarm_context h2.held
    → ((k : ℕ) → h2.mem.page q.alarm_context k ≡ m.page q.alarm_context k)
    → (r : Alarm) × ((m3 : Mem) × ((sigreturn kend q h2.mem ≡ some (r, m3))
          × Restored kend p q h h2 r m3))
sigreturn-Restored kend p q h m h2 low v pos off on e v2 pos2 held2 kept =
    restore kend low p q h m (tick-Delivered kend p q h m low v pos off on e) pos h2 v2 pos2 held2
      kept
