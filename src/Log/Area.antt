-- ===== src/Log/Area.antt =====
-- kernel/log.c: what a disk has to hold so that `recover_from_log` restores `goal` from it, and the
-- install loop, which keeps that true of every disk on the way.
use xv6_riscv.Base.{
  ℕ, zero, suc, ◌+◌, ◌≤◌, ◌<◌, ◌≡◌, ◌≢◌, refl, ◌∙◌, sym, ap, subst, Bool, true, false, All, update,
  update_self, update_ne, ◌∷◌, for_from_inv, arith, inl, inr, ◌⊎◌,
}
use native.Mathlib.Decide.{ℕ_discrete}
use xv6_riscv.Store.{Block, Disk, Store}
use xv6_riscv.Log.{LogHeader, Log, install_block, install_trans}

abbrev pub InArea : ℕ → ℕ → ℕ → Type 0
InArea start size b = (start ≤ b) × (b < start + size)

-- The on-disk header is `lh`, its blocks lie outside the log, the log holds `goal` for each of
-- them, and every other block outside the log already is as in `goal`.
pub record Committed (start size : ℕ) (lh : LogHeader) (d goal : Disk) : Type 0 where
  pub count : d start 0 ≡ lh.n
  pub names : (i : ℕ) → i < lh.n → d start (suc i) ≡ lh.block i
  pub fits : lh.n < size
  pub away : (i : ℕ) → i < lh.n → ¬ InArea start size (lh.block i)
  pub logged : (i : ℕ) → i < lh.n → d (start + i + 1) ≡ goal (lh.block i)
  pub others :
      (b : ℕ) → ¬ InArea start size b → ((i : ℕ) → i < lh.n → lh.block i ≢ b) → d b ≡ goal b

abbrev pub Recoverable : ℕ → ℕ → Disk → Disk → Type 0
Recoverable start size goal d = (lh : LogHeader) × Committed start size lh d goal

-- `Q` is what is to hold of every disk on the way.
module _ (log : Log) (goal : Disk) (Q : Disk → Type 0) where
  open log use {start, size, lh}

  -- what holds when the blocks below `i` are installed
  pub record Installed (i : ℕ) (s : Store) : Type 0 where
    pub held : Committed start size lh s.disk goal
    pub fresh : (j : ℕ) → j < lh.n → s.cache (start + j + 1) ≡ s.disk (start + j + 1)
    pub done : (j : ℕ) → j < i → s.disk (lh.block j) ≡ goal (lh.block j)
    pub synced : (b : ℕ) → ¬ InArea start size b → (s.cache b ≡ s.disk b) ⊎ (s.cache b ≡ goal b)
    pub before : All Q s.past

pub ne_of_outside : (start size : ℕ) {b c : ℕ} → ¬ InArea start size b → InArea start size c → b ≢ c
ne_of_outside start size out at e = out (subst (InArea start size) (sym e) at)

-- Is `b` among the first `k` blocks?
pub dec_home :
    (block : ℕ → ℕ) (b k : ℕ)
    → ((i : ℕ) × (i < k) × (block i ≡ b)) ⊎ ((i : ℕ) → i < k → block i ≢ b)
dec_home block b zero = inr (λ i h. absurd (omega arith))
dec_home block b (suc k) = elim (ℕ_discrete (block k) b) [
  | yes e ↦ inl (k, omega arith, e)
  | no ne ↦ elim (dec_home block b k) [
    | inl (i, h, e) ↦ inl (i, omega arith, e)
    | inr none_of ↦ inr (λ i h. elim (ℕ_discrete i k) [
      | yes e ↦ λ p. ne (ap block (sym e) ∙ p)
      | no ne' ↦ none_of i (omega arith)
    ])
  ]
]

-- Installing one more block from the log keeps the disk recoverable to the same `goal`.
pub install-Committed :
    (start size : ℕ) (lh : LogHeader) (d goal : Disk) (i : ℕ)
    → i < lh.n
    → Committed start size lh d goal
    → Committed start size lh (update d (lh.block i) (d (start + i + 1))) goal
install-Committed start size lh d goal i lt c = record {
  count = ap (λ (v : Block). v 0) (miss start (omega arith, omega (arith, c.fits))) ∙ c.count;
  names = λ j hj.
      ap (λ (v : Block). v (suc j)) (miss start (omega arith, omega (arith, c.fits)))
      ∙ c.names j hj;
  fits = c.fits;
  away = c.away;
  logged = λ j hj. miss (start + j + 1) (omega arith, omega (arith, c.fits)) ∙ c.logged j hj;
  others =
      λ b out new. update_ne d (lh.block i) b (d (start + i + 1)) (new i lt) ∙ c.others b out new;
}
  where
    miss : (b : ℕ) → InArea start size b → update d (lh.block i) (d (start + i + 1)) b ≡ d b
    miss b at =
        update_ne d (lh.block i) b (d (start + i + 1)) (ne_of_outside start size (c.away i lt) at)

install_block_disk :
    (recovering : Bool) (log : Log) (i : ℕ) (s : Store)
    → let v = s.cache (log.start + i + 1) in
      ((install_block recovering log i s).disk ≡ update s.disk (log.lh.block i) v)
      × ((install_block recovering log i s).cache ≡ update s.cache (log.lh.block i) v)
      × ((install_block recovering log i s).past ≡ s.disk ∷ s.past)
unfolding install_block
install_block_disk true log i s =
    (ap (update s.disk (log.lh.block i)) (update_self s.cache (log.lh.block i) _), refl, refl)
install_block_disk false log i s =
    (ap (update s.disk (log.lh.block i)) (update_self s.cache (log.lh.block i) _), refl, refl)

module _ (recovering : Bool) (log : Log) (goal : Disk) (Q : Disk → Type 0)
    (enter : (d : Disk) → Committed log.start log.size log.lh d goal → Q d) where
  open log use {start, size, lh}

  install_block-Installed :
      (i : ℕ) (s : Store)
      → i < lh.n
      → Installed log goal Q i s
      → Installed log goal Q (suc i) (install_block recovering log i s)
  install_block-Installed i s lt v = record {
    held =
        subst (λ d. Committed start size lh d goal) (sym disk_eq)
          (install-Committed start size lh s.disk goal i lt v.held);
    fresh = λ j hj.
        subst (λ (c : Disk). c (start + j + 1) ≡ s'.disk (start + j + 1)) (sym parts.1)
          (subst (λ (d : Disk). written s.cache (start + j + 1) ≡ d (start + j + 1)) (sym parts.0)
            (miss s.cache j hj ∙ v.fresh j hj ∙ sym (miss s.disk j hj)));
    done = λ j hj. ap (λ (d : Disk). d (lh.block j)) disk_eq ∙ installed j hj;
    synced = λ b out. elim (ℕ_discrete (lh.block i) b) [
      | yes e ↦ inr (
          ap (λ (c : Disk). c b) parts.1
          ∙ subst (λ k. written s.cache k ≡ goal k) e
              (update_self s.cache (lh.block i) _ ∙ v.fresh i lt ∙ v.held.logged i lt))
      | no ne ↦ elim (v.synced b out) [
        | inl same ↦ inl (
            ap (λ (c : Disk). c b) parts.1
            ∙ update_ne s.cache (lh.block i) b _ ne
            ∙ same
            ∙ sym (ap (λ (d : Disk). d b) parts.0 ∙ update_ne s.disk (lh.block i) b _ ne))
        | inr new ↦
            inr (ap (λ (c : Disk). c b) parts.1 ∙ update_ne s.cache (lh.block i) b _ ne ∙ new)
      ]
    ];
    before = subst (All Q) (sym parts.2) (enter s.disk v.held, v.before);
  }
    where
      parts :
          let w = s.cache (start + i + 1) in
          ((install_block recovering log i s).disk ≡ update s.disk (lh.block i) w)
          × ((install_block recovering log i s).cache ≡ update s.cache (lh.block i) w)
          × ((install_block recovering log i s).past ≡ s.disk ∷ s.past)
      parts = install_block_disk recovering log i s

      s' : Store
      s' = install_block recovering log i s

      written : Disk → Disk
      written d = update d (lh.block i) (s.cache (start + i + 1))

      disk_eq : s'.disk ≡ update s.disk (lh.block i) (s.disk (start + i + 1))
      disk_eq = parts.0 ∙ ap (update s.disk (lh.block i)) (v.fresh i lt)

      miss : (d : Disk) (j : ℕ) → j < lh.n → written d (start + j + 1) ≡ d (start + j + 1)
      miss d j hj =
          update_ne d (lh.block i) (start + j + 1) _
            (ne_of_outside start size (v.held.away i lt) (omega arith, omega (arith, v.held.fits)))

      installed :
          (j : ℕ)
          → j < suc i
          → update s.disk (lh.block i) (s.disk (start + i + 1)) (lh.block j) ≡ goal (lh.block j)
      installed j hj = elim (ℕ_discrete (lh.block i) (lh.block j)) [
        | yes e ↦
            subst (λ b. update s.disk (lh.block i) (s.disk (start + i + 1)) b ≡ goal b) e
              (update_self s.disk (lh.block i) _ ∙ v.held.logged i lt)
        | no ne ↦
            update_ne s.disk (lh.block i) (lh.block j) _ ne
            ∙ v.done j (elim (ℕ_discrete j i) [
              | yes e ↦ absurd (ne (ap lh.block (sym e)))
              | no ne' ↦ omega arith
            ])
      ]

  -- The whole loop, from a store in which the log blocks are as on the disk.
  pub install_trans-Installed :
      (s : Store)
      → Installed log goal Q 0 s
      → Installed log goal Q lh.n (install_trans recovering log s)
  unfolding install_trans
  install_trans-Installed s v =
      for_from_inv (Installed log goal Q) (install_block recovering log) lh.n
        install_block-Installed lh.n 0 s (omega arith) v

-- With every block installed, the disk is `goal` outside the log.
pub Installed-goal :
    (log : Log) (goal : Disk) (Q : Disk → Type 0) (s : Store)
    → Installed log goal Q log.lh.n s
    → (b : ℕ) → ¬ InArea log.start log.size b
    → s.disk b ≡ goal b
Installed-goal log goal Q s v b out = elim (dec_home log.lh.block b log.lh.n) [
  | inl (i, h, e) ↦ subst (λ c. s.disk c ≡ goal c) e (v.done i h)
  | inr new ↦ v.held.others b out new
]

-- So are the buffers.
pub Installed-cache :
    (log : Log) (goal : Disk) (Q : Disk → Type 0) (s : Store)
    → Installed log goal Q log.lh.n s
    → (b : ℕ) → ¬ InArea log.start log.size b
    → s.cache b ≡ goal b
Installed-cache log goal Q s v b out = elim (v.synced b out) [
  | inl same ↦ same ∙ Installed-goal log goal Q s v b out
  | inr new ↦ new
]
