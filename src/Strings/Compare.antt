-- ===== src/Strings/Compare.antt =====
-- kernel/string.c: what `memcmp`, `strncmp` and `strlen` say of the bytes.
use xv6_riscv.Base.{
  ℕ, zero, suc, ◌+◌, ◌≤◌, ◌<◌, ◌≡◌, ◌≢◌, refl, sym, ap, ◌∙◌, subst, arith, ◌⊎◌, inl, inr, not, ◌==◌,
  Bool-cases, ==→eq, ==→ne,
}
use native.Mathlib.Decide.{ℕ_discrete}
use xv6_riscv.Strings.{Memory, memcmp, strncmp, minus, strlen, strlen_from}

-- The difference of two bytes is 0 only if they are equal.
minus_zero : (a b : ℕ) → a < 256 → b < 256 → a ≢ b → minus a b ≢ 0
minus_zero a b ha hb ne = λ e. ne (omega (arith, e, ha, hb))

-- The first of the `n` places where the two differ, and no other before it.
pub record Differ (p q n : ℕ) (m : Memory) (r : ℕ) : Type 0 where
  pub place : ℕ
  pub inside : place < n
  pub same : (i : ℕ) → i < place → m (p + i) ≡ m (q + i)
  pub other : m (p + place) ≢ m (q + place)
  pub result : r ≡ minus (m (p + place)) (m (q + place))
  pub signed : r ≢ 0

at_next : (m : Memory) (p i : ℕ) → m (suc p + i) ≡ m (p + suc i)
at_next m p i = ap m (omega arith)

at_zero : (m : Memory) (p : ℕ) → m (p + 0) ≡ m p
at_zero m p = ap m (omega arith)

same_suc :
    (p q k : ℕ) (m : Memory)
    → m p ≡ m q
    → ((i : ℕ) → i < k → m (suc p + i) ≡ m (suc q + i))
    → (i : ℕ) → i < suc k
    → m (p + i) ≡ m (q + i)
same_suc p q k m e h zero lt = at_zero m p ∙ e ∙ sym (at_zero m q)
same_suc p q k m e h (suc i) lt = sym (at_next m p i) ∙ h i (omega (arith, lt)) ∙ at_next m q i

Differ-here :
    (p q n : ℕ) (m : Memory)
    → ((a : ℕ) → m a < 256)
    → m p ≢ m q
    → Differ p q (suc n) m (minus (m p) (m q))
Differ-here p q n m bytes ne = record {
  place = 0;
  inside = omega arith;
  same = λ i h. absurd (omega (arith, h));
  other = λ e. ne (sym (at_zero m p) ∙ e ∙ at_zero m q);
  result = sym (ap (λ a. minus a (m (q + 0))) (at_zero m p) ∙ ap (minus (m p)) (at_zero m q));
  signed = minus_zero (m p) (m q) (bytes p) (bytes q) ne;
}

Differ-later :
    (p q n : ℕ) (m : Memory) (r : ℕ)
    → m p ≡ m q
    → Differ (suc p) (suc q) n m r
    → Differ p q (suc n) m r
Differ-later p q n m r e d = record {
  place = suc d.place;
  inside = omega (arith, d.inside);
  same = same_suc p q d.place m e d.same;
  other = λ f. d.other (at_next m p d.place ∙ f ∙ sym (at_next m q d.place));
  result =
      d.result
      ∙ ap (λ a. minus a (m (suc q + d.place))) (at_next m p d.place)
      ∙ ap (minus (m (p + suc d.place))) (at_next m q d.place);
  signed = d.signed;
}

-- On bytes below 256, memcmp answers 0 if all n bytes are equal; otherwise it answers the
-- difference, not 0, of the bytes at the first place where they differ.
pub memcmp_first :
    (p q n : ℕ) (m : Memory)
    → ((a : ℕ) → m a < 256)
    → ((memcmp p q n m ≡ 0) × ((i : ℕ) → i < n → m (p + i) ≡ m (q + i)))
      ⊎ Differ p q n m (memcmp p q n m)
unfolding memcmp
memcmp_first p q zero m bytes = inl (refl, λ i h. absurd (omega (arith, h)))
memcmp_first p q (suc n) m bytes = elim (Bool-cases (m p == m q)) [
  | inl same ↦ rw same (elim (memcmp_first (suc p) (suc q) n m bytes) [
    | inl (zero_result, all) ↦ inl (zero_result, same_suc p q n m (==→eq (m p) (m q) same) all)
    | inr d ↦ inr (Differ-later p q n m (memcmp (suc p) (suc q) n m) (==→eq (m p) (m q) same) d)
  ])
  | inr other ↦ rw other (inr (Differ-here p q n m bytes (==→ne (m p) (m q) other)))
]

-- The two strings agree up to `n` bytes or the end of both.
abbrev pub Agree : ℕ → ℕ → ℕ → Memory → Type 0
Agree p q n m =
    (k : ℕ) × (k ≤ n)
    × ((i : ℕ) → i < k → m (p + i) ≡ m (q + i))
    × ((k ≡ n) ⊎ ((m (p + k) ≡ 0) × (m (q + k) ≡ 0)))

-- On bytes below 256, strncmp answers 0 if the strings agree up to n bytes or the end of both;
-- otherwise it answers the difference, not 0, of the bytes at the first of the n places where
-- they differ.
pub strncmp_first :
    (p q n : ℕ) (m : Memory)
    → ((a : ℕ) → m a < 256)
    → ((strncmp p q n m ≡ 0) × Agree p q n m) ⊎ Differ p q n m (strncmp p q n m)
unfolding strncmp
strncmp_first p q zero m bytes =
    inl (refl, (0, omega arith, λ i h. absurd (omega (arith, h)), inl refl))
strncmp_first p q (suc n) m bytes = elim (Bool-cases (m p == m q)) [
  | inl same ↦
      let e : m p ≡ m q = ==→eq (m p) (m q) same in
      elim (Bool-cases (m p == 0)) [
        | inl ended ↦
            let end_p : m p ≡ 0 = ==→eq (m p) 0 ended in
            rw ended (
              inl (
                omega (arith, e, bytes p),
                (
                  0,
                  omega arith,
                  λ i h. absurd (omega (arith, h)),
                  inr (at_zero m p ∙ end_p, at_zero m q ∙ sym e ∙ end_p),
                ),
              ))
        | inr goes ↦
            rw (goes, same)
              (elim (strncmp_first (suc p) (suc q) n m bytes) [
                | inl (zero_result, (k, le, all, stop)) ↦ inl (
                  zero_result,
                  (
                    suc k,
                    omega (arith, le),
                    same_suc p q k m e all,
                    elim stop [
                      | inl full ↦ inl (omega (arith, full))
                      | inr (a, b) ↦ inr (sym (at_next m p k) ∙ a, sym (at_next m q k) ∙ b)
                    ],
                  ),
                )
                | inr d ↦ inr (Differ-later p q n m (strncmp (suc p) (suc q) n m) e d)
              ])
      ]
  | inr other ↦ elim (Bool-cases (not (m p == 0))) [
    | inl goes ↦ rw (goes, other) (inr (Differ-here p q n m bytes (==→ne (m p) (m q) other)))
    | inr ended ↦ rw ended (inr (Differ-here p q n m bytes (==→ne (m p) (m q) other)))
  ]
]

strlen_from_first :
    (fuel s n k : ℕ) (m : Memory)
    → n ≤ k
    → k < n + fuel
    → m (s + k) ≡ 0
    → let r = strlen_from fuel s n m in
      (r ≤ k) × (m (s + r) ≡ 0) × ((i : ℕ) → n ≤ i → i < r → m (s + i) ≢ 0)
unfolding strlen_from
strlen_from_first zero s n k m le lt e = absurd (omega (arith, le, lt))
strlen_from_first (suc fuel) s n k m le lt e = elim (Bool-cases (m (s + n) == 0)) [
  | inl ended ↦ rw ended (le, ==→eq (m (s + n)) 0 ended, λ i h h'. absurd (omega (arith, h, h')))
  | inr goes ↦
      let ne : m (s + n) ≢ 0 = ==→ne (m (s + n)) 0 goes in
      let past : n ≢ k = λ same. ne (ap (λ j. m (s + j)) same ∙ e) in
      let (a, b, c) =
        strlen_from_first fuel s (suc n) k m (omega (arith, le, past)) (omega (arith, lt)) e in
      rw goes (
        a,
        b,
        λ i h h'. elim (ℕ_discrete n i) [
          | yes same ↦ subst (λ j. m (s + j) ≢ 0) same ne
          | no other ↦ c i (omega (arith, h, other)) h'
        ],
      )
]

-- With fuel to reach a zero byte at k, strlen answers the index of the first zero byte.
pub strlen_first :
    (fuel s k : ℕ) (m : Memory)
    → k < fuel
    → m (s + k) ≡ 0
    → let r = strlen fuel s m in (r ≤ k) × (m (s + r) ≡ 0) × ((i : ℕ) → i < r → m (s + i) ≢ 0)
unfolding strlen
strlen_first fuel s k m lt e =
    let (le, ends, before) = strlen_from_first fuel s 0 k m (omega arith) (omega (arith, lt)) e in
    (le, ends, λ i h. before i (omega arith) h)
