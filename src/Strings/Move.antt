-- ===== src/Strings/Move.antt =====
-- kernel/string.c: `memmove` on ranges that may overlap, and `memset`.
use xv6_riscv.Base.{
  ℕ, zero, suc, ◌+◌, ◌%◌, ◌≤◌, ◌<◌, ◌≡◌, refl, sym, ◌∙◌, subst, arith, ◌⊎◌, inl, inr, update,
  update_self, update_ne, ltb, ◌&&◌, ◌==◌, Bool-cases, for_from_inv, ==→eq,
}
use native.Mathlib.Decide.{ℕ_discrete}
use xv6_riscv.Strings.{Memory, copy_down, copy_up, memmove, memset}

-- What a copy of the bytes from `lo` on, `n` of them, promises: they are those of the source as they
-- were, and nothing else changed.
pub record Copied (dst src lo n : ℕ) (m m' : Memory) : Type 0 where
  pub moved : (i : ℕ) → lo ≤ i → i < lo + n → m' (dst + i) ≡ m (src + i)
  pub kept : (a : ℕ) → (a < dst + lo) ⊎ (dst + lo + n ≤ a) → m' a ≡ m a

none-Copied : (dst src lo : ℕ) (m : Memory) → Copied dst src lo 0 m m
none-Copied dst src lo m = record { moved = λ i h h'. absurd (omega arith); kept = λ a out. refl }

-- The byte copied first is above the others, and is no later source byte.
down_one :
    (dst src n : ℕ) (m m' : Memory)
    → src ≤ dst
    → Copied dst src 0 n (update m (dst + n) (m (src + n))) m'
    → Copied dst src 0 (suc n) m m'
down_one dst src n m m' le c = record {
  moved = λ i h h'. elim (ℕ_discrete n i) [
    | yes e ↦
        subst (λ j. m' (dst + j) ≡ m (src + j)) e
          (c.kept (dst + n) (inr (omega arith)) ∙ update_self m (dst + n) (m (src + n)))
    | no ne ↦
        c.moved i h (omega (arith, h'))
        ∙ update_ne m (dst + n) (src + i) (m (src + n)) (λ e. ne (omega (arith, e, h', le)))
  ];
  kept =
      λ a out. c.kept a (ground arith) ∙ update_ne m (dst + n) a (m (src + n)) (λ e. ground arith);
}

copy_down-Copied :
    (dst src n : ℕ) (m : Memory) → src ≤ dst → Copied dst src 0 n m (copy_down dst src n m)
unfolding copy_down
copy_down-Copied dst src zero m le = none-Copied dst src 0 m
copy_down-Copied dst src (suc n) m le =
    down_one dst src n m (copy_down dst src n (update m (dst + n) (m (src + n)))) le
      (copy_down-Copied dst src n (update m (dst + n) (m (src + n))) le)

-- The byte copied first is below the others, and is no later source byte.
up_one :
    (dst src n lo : ℕ) (m m' : Memory)
    → (dst ≤ src) ⊎ (src + lo + suc n ≤ dst)
    → Copied dst src (suc lo) n (update m (dst + lo) (m (src + lo))) m'
    → Copied dst src lo (suc n) m m'
up_one dst src n lo m m' apart c = record {
  moved = λ i h h'. elim (ℕ_discrete lo i) [
    | yes e ↦
        subst (λ j. m' (dst + j) ≡ m (src + j)) e
          (c.kept (dst + lo) (inl (omega arith)) ∙ update_self m (dst + lo) (m (src + lo)))
    | no ne ↦
        c.moved i (omega (arith, h, ne)) (omega (arith, h'))
        ∙ update_ne m (dst + lo) (src + i) (m (src + lo)) (λ e. ground arith)
  ];
  kept = λ a out.
      c.kept a (ground arith) ∙ update_ne m (dst + lo) a (m (src + lo)) (λ e. ground arith);
}

copy_up-Copied :
    (dst src n lo : ℕ) (m : Memory)
    → (dst ≤ src) ⊎ (src + lo + n ≤ dst)
    → Copied dst src lo n m (copy_up dst src n lo m)
unfolding copy_up
copy_up-Copied dst src zero lo m apart = none-Copied dst src lo m
copy_up-Copied dst src (suc n) lo m apart =
    up_one dst src n lo m (copy_up dst src n (suc lo) (update m (dst + lo) (m (src + lo)))) apart
      (copy_up-Copied dst src n (suc lo) (update m (dst + lo) (m (src + lo))) (ground arith))

-- After memmove of n bytes the destination holds the bytes that the source held before, also
-- where the two overlap, and every other byte is as it was.
pub memmove-Copied : (dst src n : ℕ) (m : Memory) → Copied dst src 0 n m (memmove dst src n m)
unfolding memmove
memmove-Copied dst src n m = elim (Bool-cases (n == 0)) [
  | inl empty ↦
      rw empty
        (subst (λ k. Copied dst src 0 k m m) (sym (==→eq n 0 empty)) (none-Copied dst src 0 m))
  | inr some ↦ elim (Bool-cases (ltb src dst && ltb dst (src + n))) [
    | inl over ↦ rw (some, over) (copy_down-Copied dst src n m (ground arith))
    | inr apart ↦ rw (some, apart) (copy_up-Copied dst src n 0 m (ground arith))
  ]
]

-- After memset of n bytes each of them is the low byte of c, and every other byte is as it was.
pub memset_filled :
    (dst c n : ℕ) (m : Memory)
    → ((i : ℕ) → i < n → memset dst c n m (dst + i) ≡ c % 256)
      × ((a : ℕ) → (a < dst) ⊎ (dst + n ≤ a) → memset dst c n m a ≡ m a)
unfolding memset
memset_filled dst c n m =
    for_from_inv
      (λ k (m' : Memory).
        ((i : ℕ) → i < k → m' (dst + i) ≡ c % 256)
        × ((a : ℕ) → (a < dst) ⊎ (dst + k ≤ a) → m' a ≡ m a))
      (λ i m'. update m' (dst + i) (c % 256)) n
      (λ k m' lt h. (
        λ i below. elim (ℕ_discrete k i) [
          | yes e ↦
              subst (λ j. update m' (dst + k) (c % 256) (dst + j) ≡ c % 256) e
                (update_self m' (dst + k) (c % 256))
          | no ne ↦
              update_ne m' (dst + k) (dst + i) (c % 256) (λ e. ne (omega (arith, e)))
              ∙ h.0 i (omega (arith, below, ne))
        ],
        λ a out. update_ne m' (dst + k) a (c % 256) (λ e. ground arith) ∙ h.1 a (ground arith),
      ))
      n 0 m (omega arith) (λ i below. absurd (omega (arith, below)), λ a out. refl)
