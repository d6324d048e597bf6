-- ===== src/Strings/Copy.antt =====
-- kernel/string.c: `strncpy` and `safestrcpy` between ranges that do not overlap.
use xv6_riscv.Base.{
  Bool, ℕ, zero, suc, ◌+◌, ◌≤◌, ◌<◌, ◌≡◌, ◌≢◌, refl, sym, ap, ◌∙◌, true, false, arith, ◌⊎◌, inl,
  inr, update, update_self, update_ne, ◌==◌, Bool-cases, ==→eq, ==→ne,
}
use native.Mathlib.Decide.{ℕ_discrete}
use xv6_riscv.Strings.{Memory, strncpy, pad, safe_loop, safestrcpy}

abbrev pub Outside : ℕ → ℕ → ℕ → Type 0
Outside s n a = (a < s) ⊎ (s + n ≤ a)

-- The first `len` bytes are those of the source, none of them 0.
abbrev pub Prefix : ℕ → ℕ → ℕ → Memory → Memory → Type 0
Prefix s t len m r = (j : ℕ) → j < len → (r (s + j) ≡ m (t + j)) × (m (t + j) ≢ 0)

-- A copied string of `len` bytes, at most `limit`, cut only there, with a zero after it if there is
-- room; if `padded`, zeros follow up to `room` bytes.
pub record Written (padded : Bool) (s t limit room : ℕ) (m r : Memory) : Type 0 where
  pub len : ℕ
  pub fits : len ≤ limit
  pub prefix : Prefix s t len m r
  pub zeros : (j : ℕ) → len ≤ j → j < room → (padded ≡ true) ⊎ (j ≡ len) → r (s + j) ≡ 0
  pub stop : (len ≡ limit) ⊎ (m (t + len) ≡ 0)
  pub kept : (a : ℕ) → Outside s room a → r a ≡ m a

pad-zeros :
    (s n : ℕ) (m : Memory)
    → ((j : ℕ) → j < n → pad s n m (s + j) ≡ 0) × ((a : ℕ) → Outside s n a → pad s n m a ≡ m a)
unfolding pad
pad-zeros s zero m = (λ j h. absurd (omega (arith, h)), λ a out. refl)
pad-zeros s (suc n) m =
    let (zeros, kept) = pad-zeros (suc s) n (update m s 0) in
    (
      λ j h. elim (ℕ_discrete j 0) [
        | yes e ↦
            ap (pad (suc s) n (update m s 0)) (omega (arith, e))
            ∙ kept s (inl (omega arith))
            ∙ update_self m s 0
        | no ne ↦
            let (i, at) = before j ne in
            ap (pad (suc s) n (update m s 0)) (omega (arith, at)) ∙ zeros i (omega (arith, at, h))
      ],
      λ a out. kept a (ground arith) ∙ update_ne m s a 0 (λ e. ground arith),
    )
  where
    before : (j : ℕ) → j ≢ 0 → (i : ℕ) × (j ≡ suc i)
    before zero ne = absurd (ne refl)
    before (suc i) ne = (i, refl)

-- One byte that is not 0 goes before what is written after it.
more-Written :
    (padded : Bool) (s t limit room : ℕ) (m r : Memory)
    → (s + suc room ≤ t) ⊎ (t + suc limit ≤ s)
    → m t ≢ 0
    → Written padded (suc s) (suc t) limit room (update m s (m t)) r
    → Written padded s t (suc limit) (suc room) m r
more-Written padded s t limit room m r apart ne w = record {
  len = suc w.len;
  fits = omega (arith, w.fits);
  prefix = prefix;
  zeros = zeros;
  stop = elim w.stop [
    | inl full ↦ inl (omega (arith, full))
    | inr ended ↦ elim (ℕ_discrete w.len limit) [
      | yes full ↦ inl (omega (arith, full))
      | no short ↦ inr (sym (source w.len (omega (arith, short, w.fits))) ∙ ended)
    ]
  ];
  kept = λ a out. w.kept a (ground arith) ∙ update_ne m s a (m t) (λ e. ground arith);
}
  where
    source : (j : ℕ) → j < limit → update m s (m t) (suc t + j) ≡ m (t + suc j)
    source j h =
        update_ne m s (suc t + j) (m t) (λ e. ground (arith, e, apart, h)) ∙ ap m (omega arith)

    prefix : Prefix s t (suc w.len) m r
    prefix zero h =
        let t0 : t ≡ t + 0 = omega arith in
        (
          ap r (omega arith) ∙ w.kept s (inl (omega arith)) ∙ update_self m s (m t) ∙ ap m t0,
          λ e. ne (ap m t0 ∙ e),
        )
    prefix (suc j) h =
        let (same, other) = w.prefix j (omega (arith, h)) in
        let from : update m s (m t) (suc t + j) ≡ m (t + suc j) =
          source j (omega (arith, h, w.fits)) in
        (ap r (omega arith) ∙ same ∙ from, λ e. other (from ∙ e))

    zeros :
        (j : ℕ) → suc w.len ≤ j → j < suc room → (padded ≡ true) ⊎ (j ≡ suc w.len) → r (s + j) ≡ 0
    zeros zero h h' why = absurd (omega (arith, h))
    zeros (suc j) h h' why =
        ap r (omega arith)
        ∙ w.zeros j (omega (arith, h)) (omega (arith, h'))
            (elim why [ inl all ↦ inl all | inr last ↦ inr (omega (arith, last)) ])

-- A string that ends at once.
ended-Written :
    (padded : Bool) (s t limit room : ℕ) (m r : Memory)
    → m t ≡ 0
    → ((j : ℕ) → j < room → (padded ≡ true) ⊎ (j ≡ 0) → r (s + j) ≡ 0)
    → ((a : ℕ) → Outside s room a → r a ≡ m a)
    → Written padded s t limit room m r
ended-Written padded s t limit room m r ended zeros kept = record {
  len = 0;
  fits = omega arith;
  prefix = λ j h. absurd (omega (arith, h));
  zeros = λ j h h' why. zeros j h' why;
  stop = inr (ap m (omega arith) ∙ ended);
  kept = kept;
}

-- Between ranges that do not overlap, strncpy of size n copies the string up to its zero, or its
-- first n bytes, fills the rest of the n bytes with zeros, and keeps every other byte.
pub strncpy-Written :
    (s t n : ℕ) (m : Memory) → (s + n ≤ t) ⊎ (t + n ≤ s) → Written true s t n n m (strncpy s t n m)
unfolding strncpy
strncpy-Written s t zero m apart = record {
  len = 0;
  fits = omega arith;
  prefix = λ j h. absurd (omega (arith, h));
  zeros = λ j h h' why. absurd (omega (arith, h'));
  stop = inl refl;
  kept = λ a out. refl;
}
strncpy-Written s t (suc n) m apart = elim (Bool-cases (m t == 0)) [
  | inl ended ↦
      let (zeros, kept) = pad-zeros (suc s) n (update m s (m t)) in
      rw ended (
        ended-Written true s t (suc n) (suc n) m (pad (suc s) n (update m s (m t)))
          (==→eq (m t) 0 ended) (all_zeros zeros kept (==→eq (m t) 0 ended))
          (λ a out. kept a (ground arith) ∙ update_ne m s a (m t) (λ e. ground arith)))
  | inr goes ↦ rw goes (
      more-Written true s t n n m (strncpy (suc s) (suc t) n (update m s (m t))) apart
        (==→ne (m t) 0 goes) (strncpy-Written (suc s) (suc t) n (update m s (m t)) (ground arith)))
]
  where
    all_zeros :
        ((j : ℕ) → j < n → pad (suc s) n (update m s (m t)) (suc s + j) ≡ 0)
        → ((a : ℕ) → Outside (suc s) n a → pad (suc s) n (update m s (m t)) a ≡ update m s (m t) a)
        → m t ≡ 0
        → (j : ℕ) → j < suc n
        → (true ≡ true) ⊎ (j ≡ 0)
        → pad (suc s) n (update m s (m t)) (s + j) ≡ 0
    all_zeros zeros kept end zero h why =
        ap (pad (suc s) n (update m s (m t))) (omega arith)
        ∙ kept s (inl (omega arith))
        ∙ update_self m s (m t)
        ∙ end
    all_zeros zeros kept end (suc j) h why =
        ap (pad (suc s) n (update m s (m t))) (omega arith) ∙ zeros j (omega (arith, h))

safe_loop-Written :
    (s t n : ℕ) (m : Memory)
    → (s + suc n ≤ t) ⊎ (t + n ≤ s)
    → Written false s t n (suc n) m (safe_loop s t n m)
unfolding safe_loop
safe_loop-Written s t zero m apart = record {
  len = 0;
  fits = omega arith;
  prefix = λ j h. absurd (omega (arith, h));
  zeros =
      λ j h h' why. ap (update m s 0) {x = s + j} {y = s} (omega (arith, h')) ∙ update_self m s 0;
  stop = inl refl;
  kept = λ a out. update_ne m s a 0 (λ e. ground arith);
}
safe_loop-Written s t (suc n) m apart = elim (Bool-cases (m t == 0)) [
  | inl ended ↦
      let end : m t ≡ 0 = ==→eq (m t) 0 ended in
      rw ended (
        ended-Written false s t (suc n) (suc (suc n)) m (update (update m s (m t)) (suc s) 0) end
          (λ j h why. first_zero end j why)
          (λ a out.
            update_ne (update m s (m t)) (suc s) a 0 (λ e. ground arith)
            ∙ update_ne m s a (m t) (λ e. ground arith)))
  | inr goes ↦ rw goes (
      more-Written false s t n (suc n) m (safe_loop (suc s) (suc t) n (update m s (m t))) apart
        (==→ne (m t) 0 goes)
        (safe_loop-Written (suc s) (suc t) n (update m s (m t)) (ground arith)))
]
  where
    first_zero :
        m t ≡ 0
        → (j : ℕ) → (false ≡ true) ⊎ (j ≡ 0)
        → update (update m s (m t)) (suc s) 0 (s + j) ≡ 0
    first_zero end j (inl e) = absurd (cc)
    first_zero end j (inr e) =
        ap (update (update m s (m t)) (suc s) 0) {x = s + j} {y = s} (omega (arith, e))
        ∙ update_ne (update m s (m t)) (suc s) s 0 (omega arith)
        ∙ update_self m s (m t)
        ∙ end

-- Between ranges that do not overlap, safestrcpy of size n + 1 copies the string up to its zero,
-- or its first n bytes, writes a zero after it, and keeps every byte outside the n + 1 bytes.
pub safestrcpy-Written :
    (s t n : ℕ) (m : Memory)
    → (s + suc n ≤ t) ⊎ (t + n ≤ s)
    → Written false s t n (suc n) m (safestrcpy s t (suc n) m)
unfolding safestrcpy
safestrcpy-Written s t n m apart = safe_loop-Written s t n m apart
