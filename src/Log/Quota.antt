-- ===== src/Log/Quota.antt =====
-- kernel/log.c: what the system calls that `begin_op` admitted have logged, and what they may still
-- log.
use xv6_riscv.Base.{
  ℕ, ◌+◌, ◌-◌, ◌*◌, ◌≤◌, ◌<◌, ◌≡◌, ◌≢◌, refl, ◌∙◌, sym, subst, true, false, Bool, arith, List, [],
  ◌∷◌, ◌++◌, length, All, All-map, Bool-cases, inl, inr, ◌==◌, ◌||◌, if◌then◌else◌, ==→eq, some,
  update, update_self, update_ne,
}
use native.Mathlib.Decide.{ℕ_discrete}
use xv6_riscv.Store.{Store}
use xv6_riscv.Log.{LogHeader, Log, max_op_blocks, log_size, log_write}
use xv6_riscv.Log.Write.{absorbed, appended, log_write-Wrote}

-- The different blocks that one call may log: one less than MAXOPBLOCKS, since the header takes a
-- block of the log.
abbrev pub quota : ℕ
quota = max_op_blocks - 1

abbrev pub logs : ℕ → List ℕ → Bool
logs b [] = false
logs b (x ∷ own) = x == b || logs b own

-- The different blocks that a call has logged, after it logs `b`.
abbrev pub note : ℕ → List ℕ → List ℕ
note b own = if logs b own then own else b ∷ own

-- the header names block `b`
abbrev pub InLog : LogHeader → ℕ → Type 0
InLog lh b = (i : ℕ) × (i < lh.n) × (lh.block i ≡ b)

abbrev pub Known : LogHeader → List (List ℕ) → Type 0
Known lh = All (All (InLog lh))

-- what the calls may still add to the log
abbrev pub left : List (List ℕ) → ℕ
left [] = 0
left (own ∷ calls) = (quota - length own) + left calls

abbrev pub Within : List (List ℕ) → Type 0
Within = All (λ own. length own ≤ quota)

pub left-append : (xs ys : List (List ℕ)) → left (xs ++ ys) ≡ left xs + left ys
left-append [] ys = omega arith
left-append (x ∷ xs) ys = omega (arith, left-append xs ys)

left-le : (calls : List (List ℕ)) → left calls ≤ length calls * quota
left-le [] = omega arith
left-le (x ∷ calls) = omega (arith, left-le calls)

-- The test of `begin_op` keeps a block free for each call, and an idle log is empty.
pub begin_room :
    (n : ℕ) (calls : List (List ℕ))
    → (calls ≡ [] → n ≡ 0)
    → n + (length calls + 1) * max_op_blocks ≤ log_size
    → n + (quota + left calls) + 2 ≤ log_size
begin_room n [] settled h = omega (arith, settled refl)
begin_room n (own ∷ calls) settled h = omega (arith, left-le calls)

pub All-at :
    (P : List ℕ → Type 0) (xs : List (List ℕ)) (own : List ℕ) (ys : List (List ℕ))
    → All P (xs ++ own ∷ ys)
    → P own
All-at P [] own ys h = h.0
All-at P (x ∷ xs) own ys h = All-at P xs own ys h.1

pub All-put :
    (P : List ℕ → Type 0) (xs : List (List ℕ)) (own own' : List ℕ) (ys : List (List ℕ))
    → P own'
    → All P (xs ++ own ∷ ys)
    → All P (xs ++ own' ∷ ys)
All-put P [] own own' ys p h = (p, h.1)
All-put P (x ∷ xs) own own' ys p h = (h.0, All-put P xs own own' ys p h.1)

pub All-drop :
    (P : List ℕ → Type 0) (xs : List (List ℕ)) (own : List ℕ) (ys : List (List ℕ))
    → All P (xs ++ own ∷ ys)
    → All P (xs ++ ys)
All-drop P [] own ys h = h.1
All-drop P (x ∷ xs) own ys h = (h.0, All-drop P xs own ys h.1)

pub InLog-logs :
    (lh : LogHeader) (b : ℕ) (own : List ℕ) → All (InLog lh) own → logs b own ≡ true → InLog lh b
InLog-logs lh b [] h e = absurd (cc)
InLog-logs lh b (x ∷ own) h e = elim (Bool-cases (x == b)) [
  | inl same ↦ subst (InLog lh) (==→eq x b same) h.0
  | inr other ↦ InLog-logs lh b own h.1 (rw other at e)
]

pub InLog-note :
    (lh : LogHeader) (b : ℕ) (own : List ℕ)
    → InLog lh b
    → All (InLog lh) own
    → All (InLog lh) (note b own)
InLog-note lh b own new old = elim (Bool-cases (logs b own)) [
  | inl again ↦ rw again old
  | inr first ↦ rw first (new, old)
]

pub Known-grows :
    (lh lh' : LogHeader) (calls : List (List ℕ))
    → ((b : ℕ) → InLog lh b → InLog lh' b)
    → Known lh calls
    → Known lh' calls
Known-grows lh lh' calls grows =
    All-map (All (InLog lh)) (All (InLog lh')) calls
      (λ own. All-map (InLog lh) (InLog lh') own grows)

-- What the reservation needs to know of a `log_write` of block `b`.
pub record Logs (b : ℕ) (log log' : Log) : Type 0 where
  pub named : InLog log'.lh b
  pub grows : (d : ℕ) → InLog log.lh d → InLog log'.lh d
  pub one : log'.lh.n ≤ log.lh.n + 1
  pub again : InLog log.lh b → log'.lh.n ≡ log.lh.n
  pub outstanding : log'.outstanding ≡ log.outstanding
  pub committing : log'.committing ≡ log.committing
  pub size : log'.size ≡ log.size

module _ (b : ℕ) (log : Log) where
  absorbed-Logs :
      (i : ℕ)
      → i < log.lh.n
      → log.lh.block i ≡ b
      → Logs b log (record log { lh = record { n = log.lh.n; block = update log.lh.block i b } })
  absorbed-Logs i lt at = record {
    named = (i, lt, update_self log.lh.block i b);
    grows = λ d old. (old.0, old.1, same old.0 ∙ old.2);
    one = omega arith;
    again = λ _. refl;
    outstanding = refl;
    committing = refl;
    size = refl;
  }
    where
      same : (j : ℕ) → update log.lh.block i b j ≡ log.lh.block j
      same j = elim (ℕ_discrete i j) [
        | yes e ↦
            subst (λ k. update log.lh.block i b k ≡ log.lh.block k) e
              (update_self log.lh.block i b ∙ sym at)
        | no ne ↦ update_ne log.lh.block i j b ne
      ]

  appended-Logs :
      ((j : ℕ) → j < log.lh.n → log.lh.block j ≢ b)
      → Logs b log
          (record log { lh = record { n = log.lh.n + 1; block = update log.lh.block log.lh.n b } })
  appended-Logs new = record {
    named = (log.lh.n, omega arith, update_self log.lh.block log.lh.n b);
    grows = λ d old. (
      old.0,
      omega (arith, old.1),
      update_ne log.lh.block log.lh.n old.0 b (omega (arith, old.1)) ∙ old.2,
    );
    one = omega arith;
    again = λ old. absurd (new old.0 old.1 old.2);
    outstanding = refl;
    committing = refl;
    size = refl;
  }

pub log_write-Logs :
    (b : ℕ) (log : Log) (s : Store) (r : Log × Store) → log_write b log s ≡ some r → Logs b log r.0
log_write-Logs b log s r e =
    let (wrote, _, _, _) = log_write-Wrote b log s r e in
    elim wrote [
      | absorbed i lt at eq ↦
          subst (λ (q : Log × Store). Logs b log q.0) (sym eq) (absorbed-Logs b log i lt at)
      | appended new eq ↦
          subst (λ (q : Log × Store). Logs b log q.0) (sym eq) (appended-Logs b log new)
    ]

-- A block that the call has logged already adds nothing to the log; another is charged to the call.
pub note_room :
    (b : ℕ) (own : List ℕ) (log log' : Log)
    → Logs b log log'
    → All (InLog log.lh) own
    → length (note b own) ≤ quota
    → log'.lh.n + (quota - length (note b own)) ≤ log.lh.n + (quota - length own)
note_room b own log log' l known few = elim (Bool-cases (logs b own)) [
  | inl again ↦ rw again (omega (arith, l.again (InLog-logs log.lh b own known again)))
  | inr first ↦ rw first (omega (arith, l.one, fits first))
]
  where
    fits : logs b own ≡ false → length own + 1 ≤ quota
    fits first = let h : length (note b own) ≤ quota = few in omega (arith, rw first at h)
