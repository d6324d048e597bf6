-- ===== src/Log/Write.antt =====
-- kernel/log.c: `log_write`. It absorbs a block that is logged already, and pins a new one.
use xv6_riscv.Base.{
  ℕ, zero, suc, ◌+◌, ◌^◌, ◌≤◌, ◌<◌, ◌≡◌, ◌≢◌, ◌∙◌, sym, subst, update, update_self, update_ne,
  arith, refl, ◌⊎◌, inl, inr, some, Bool-cases, ==→eq, eq→==, ne→==, ◌==◌,
}
use native.Mathlib.Decide.{ℕ_discrete}
use xv6_riscv.Store.{Block, Store, modify, bpin, inc32}
use xv6_riscv.Log.{Log, log_size, find_block, add_block, log_write}
use xv6_riscv.Log.Area.{InArea}
use xv6_riscv.Log.Recover.{Pending}

-- The absorption loop stops at the block's place, or past the end where it has none.
pub find_block_lem :
    (k i : ℕ) (block : ℕ → ℕ) (b : ℕ)
    → let r = find_block k i block b in
      ((i ≤ r) × (r < i + k) × (block r ≡ b))
      ⊎ ((r ≡ i + k) × ((j : ℕ) → i ≤ j → j < i + k → block j ≢ b))
unfolding find_block
find_block_lem zero i block b = inr (omega arith, λ j h h'. absurd (omega arith))
find_block_lem (suc k) i block b = elim (Bool-cases (block i == b)) [
  | inl hit ↦ rw hit (inl (omega arith, omega arith, ==→eq (block i) b hit))
  | inr miss ↦ rw miss (elim (find_block_lem k (suc i) block b) [
    | inl (lo, hi, e) ↦ inl (omega arith, omega arith, e)
    | inr (e, all) ↦ inr (
      omega arith,
      λ j lo hi. elim (ℕ_discrete i j) [
        | yes same ↦ λ p. ground (arith, same, p)
        | no ne ↦ all j (omega arith) (omega arith)
      ],
    )
  ])
]

-- What `log_write` of block `b` did: it overwrote `b` by itself, or appended it and pinned it.
pub data Wrote (b : ℕ) (log : Log) (s : Store) (r : Log × Store) : Type 0 where
  absorbed :
      (i : ℕ)
      → i < log.lh.n
      → log.lh.block i ≡ b
      → r ≡ (record log { lh = record { n = log.lh.n; block = update log.lh.block i b } }, s)
      → Wrote b log s r
  appended :
      ((j : ℕ) → j < log.lh.n → log.lh.block j ≢ b)
      → r ≡ (
        record log { lh = record { n = log.lh.n + 1; block = update log.lh.block log.lh.n b } },
        bpin b s,
      )
      → Wrote b log s r

add_block-Wrote : (b : ℕ) (log : Log) (s : Store) → Wrote b log s (add_block b log s)
unfolding add_block
add_block-Wrote b log s = elim (find_block_lem log.lh.n 0 log.lh.block b) [
  | inl (lo, hi, same) ↦
      absorbed (find_block log.lh.n 0 log.lh.block b) (omega arith) same
        (rw (ne→== (find_block log.lh.n 0 log.lh.block b) log.lh.n (omega arith)))
  | inr (end, new) ↦
      appended (λ j h. new j (omega arith) (omega arith))
        (let here : find_block log.lh.n 0 log.lh.block b ≡ log.lh.n = omega arith in
          rw (eq→== _ _ here, here))
]

-- `log_write` returns exactly under the log's bounds and inside a transaction.
pub log_write-room :
    (b : ℕ) (log : Log) (s : Store)
    → log.lh.n < log_size
    → log.lh.n + 1 < log.size
    → 0 < log.outstanding
    → log.outstanding < 2 ^ 31
    → log_write b log s ≡ some (add_block b log s)
unfolding log_write
log_write-room b log s h1 h2 h3 h4 = ground arith

pub log_write-Wrote :
    (b : ℕ) (log : Log) (s : Store) (r : Log × Store)
    → log_write b log s ≡ some r
    → Wrote b log s r × (log.lh.n < log_size) × (log.lh.n + 1 < log.size) × (0 < log.outstanding)
unfolding log_write
log_write-Wrote b log s r e = (
  subst (Wrote b log s) (ground arith) (add_block-Wrote b log s),
  ground arith,
  ground arith,
  ground arith,
)

module _ (b : ℕ) (v : Block) (log : Log) (s : Store) (p : Pending log s) where
  open log use {start, size, lh}

  absorbed-Pending :
      (i : ℕ)
      → i < lh.n
      → lh.block i ≡ b
      → Pending
          (record log { lh = record { n = lh.n; block = update lh.block i b } })
          (modify b v s)
  absorbed-Pending i lt here = record {
    idle = p.idle;
    fits = p.fits;
    away = λ j h. subst (λ c. ¬ InArea start size c) (sym (same j)) (p.away j h);
    clean = λ c out' new.
        update_ne s.cache b c v (subst (λ k. k ≢ c) (update_self lh.block i b) (new i lt))
        ∙ p.clean c out' (λ j h. subst (λ k. k ≢ c) (same j) (new j h));
  }
    where
      same : (j : ℕ) → update lh.block i b j ≡ lh.block j
      same j = elim (ℕ_discrete i j) [
        | yes e ↦
            subst (λ k. update lh.block i b k ≡ lh.block k) e (update_self lh.block i b ∙ sym here)
        | no ne ↦ update_ne lh.block i j b ne
      ]

  appended-Pending :
      ¬ InArea start size b
      → lh.n + 1 < size
      → Pending
          (record log { lh = record { n = lh.n + 1; block = update lh.block lh.n b } })
          (bpin b (modify b v s))
  appended-Pending out room = record {
    idle = p.idle;
    fits = room;
    away = λ j h. elim (ℕ_discrete lh.n j) [
      | yes e ↦
          subst (λ k. ¬ InArea start size (update lh.block lh.n b k)) e
            (subst (λ c. ¬ InArea start size c) (sym (update_self lh.block lh.n b)) out)
      | no ne ↦
          subst (λ c. ¬ InArea start size c) (sym (update_ne lh.block lh.n j b ne))
            (p.away j (omega arith))
    ];
    clean = λ c out' new.
        update_ne s.cache b c v
          (subst (λ k. k ≢ c) (update_self lh.block lh.n b) (new lh.n (omega arith)))
        ∙ p.clean c out' (λ j h.
          subst (λ k. k ≢ c) (update_ne lh.block lh.n j b (omega arith)) (new j (omega arith)));
  }

-- A block that the log has already keeps its count of holders; a new one is pinned, and no other.
abbrev pub Pinned : ℕ → Log → Store → Store → Type 0
Pinned b log s s' =
    (((i : ℕ) × (i < log.lh.n) × (log.lh.block i ≡ b)) × ((c : ℕ) → s'.refcnt c ≡ s.refcnt c))
    ⊎ (((j : ℕ) → j < log.lh.n → log.lh.block j ≢ b)
        × (s'.refcnt b ≡ inc32 (s.refcnt b))
        × ((c : ℕ) → b ≢ c → s'.refcnt c ≡ s.refcnt c))

-- If a transaction is pending and a block outside the log is changed in its buffer and then
-- logged by a log_write that returns, the transaction with that block is pending, and the buffer
-- has one holder more if the log did not have the block, and as many as before if it had it.
pub log_write-Pending :
    (b : ℕ) (v : Block) (log : Log) (s : Store) (r : Log × Store)
    → Pending log s
    → ¬ InArea log.start log.size b
    → log_write b log (modify b v s) ≡ some r
    → Pending r.0 r.1 × Pinned b log s r.1
log_write-Pending b v log s r p out e =
    let (wrote, _, room, _) = log_write-Wrote b log (modify b v s) r e in
    elim wrote [
      | absorbed i lt here eq ↦
          subst (λ (q : Log × Store). Pending q.0 q.1 × Pinned b log s q.1) (sym eq)
            (absorbed-Pending b v log s p i lt here, inl ((i, lt, here), λ c. refl))
      | appended new eq ↦
          subst (λ (q : Log × Store). Pending q.0 q.1 × Pinned b log s q.1) (sym eq)
            (
              appended-Pending b v log s p out room,
              inr (
                new,
                update_self s.refcnt b (inc32 (s.refcnt b)),
                λ c ne. update_ne s.refcnt b c (inc32 (s.refcnt b)) ne,
              ),
            )
    ]
