-- ===== src/Blocks/Bitmap.antt =====
-- kernel/fs.c: the bitmap, by the blocks that it says are in use.
use xv6_riscv.Base.{
  ℕ, zero, suc, ◌+◌, ◌/◌, ◌%◌, ◌≤◌, ◌<◌, ◌≡◌, ◌≢◌, refl, sym, ap, ◌∙◌, subst, Bool, true, false,
  Option, none, some, update, update_self, update_ne, ltb, ◌==◌, arith, ==→eq, ==→ne, ltb→lt,
}
use native.Mathlib.Decide.{ℕ_discrete}
use xv6_riscv.Blocks.{bpb, Superblock, Disk, bblock, bit, bit_of, with_bit, free_bit}

-- The bit of block `n`.
abbrev pub mark : Superblock → Disk → ℕ → ℕ
mark sb disk n = bit_of (disk (bblock n sb)) (n % bpb)

pub bit_of-with_self :
    (change : ℕ → ℕ → ℕ) (bytes : ℕ → ℕ) (i : ℕ)
    → bit_of (with_bit change bytes i) i ≡ bit (change (bytes (i / 8)) (i % 8)) (i % 8)
bit_of-with_self change bytes i =
    ap (λ x. bit x (i % 8)) (update_self bytes (i / 8) (change (bytes (i / 8)) (i % 8)))

pub bit_of-with_ne :
    (change : ℕ → ℕ → ℕ) (bytes : ℕ → ℕ) (i j : ℕ)
    → ((x a k : ℕ) → a ≢ k → bit (change x k) a ≡ bit x a)
    → i ≢ j
    → bit_of (with_bit change bytes i) j ≡ bit_of bytes j
bit_of-with_ne change bytes i j keeps ne = elim (ℕ_discrete (i / 8) (j / 8)) [
  | yes same ↦
      ap (λ k. bit (update bytes (i / 8) (change (bytes (i / 8)) (i % 8)) k) (j % 8)) (sym same)
      ∙ (ap (λ x. bit x (j % 8)) (update_self bytes (i / 8) (change (bytes (i / 8)) (i % 8)))
          ∙ (keeps (bytes (i / 8)) (j % 8) (i % 8) (λ e. ne (omega (arith, same, e)))
              ∙ ap (λ k. bit (bytes k) (j % 8)) same))
  | no other ↦
      ap (λ x. bit x (j % 8))
        (update_ne bytes (i / 8) (j / 8) (change (bytes (i / 8)) (i % 8)) other)
]

-- A changed bit of the bitmap block of `n` changes the mark of `n` only.
pub mark-change_ne :
    (change : ℕ → ℕ → ℕ) (sb : Superblock) (disk : Disk) (n m : ℕ)
    → ((x a k : ℕ) → a ≢ k → bit (change x k) a ≡ bit x a)
    → n ≢ m
    → mark sb (update disk (bblock n sb) (with_bit change (disk (bblock n sb)) (n % bpb))) m
      ≡ mark sb disk m
mark-change_ne change sb disk n m keeps ne = elim (ℕ_discrete (bblock n sb) (bblock m sb)) [
  | yes same ↦
      ap
        (λ k.
          bit_of (update disk (bblock n sb) (with_bit change (disk (bblock n sb)) (n % bpb)) k)
            (m % bpb))
        (sym same)
      ∙ (ap (λ (f : ℕ → ℕ). bit_of f (m % bpb)) (update_self disk (bblock n sb) _)
          ∙ (bit_of-with_ne change (disk (bblock n sb)) (n % bpb) (m % bpb) keeps
                (λ e. ne (omega (arith, same, e)))
              ∙ ap (λ k. bit_of (disk k) (m % bpb)) same))
  | no other ↦
      ap (λ (f : ℕ → ℕ). bit_of f (m % bpb)) (update_ne disk (bblock n sb) (bblock m sb) _ other)
]

pub mark-change_self :
    (change : ℕ → ℕ → ℕ) (sb : Superblock) (disk : Disk) (n : ℕ)
    → mark sb (update disk (bblock n sb) (with_bit change (disk (bblock n sb)) (n % bpb))) n
      ≡ bit (change (disk (bblock n sb) (n % bpb / 8)) (n % bpb % 8)) (n % bpb % 8)
mark-change_self change sb disk n =
    ap (λ (f : ℕ → ℕ). bit_of f (n % bpb)) (update_self disk (bblock n sb) _)
    ∙ bit_of-with_self change (disk (bblock n sb)) (n % bpb)

-- What the inner loop finds from the bit `bi` on.
abbrev pub BitFound : (ℕ → ℕ) → ℕ → ℕ → ℕ → ℕ → Option ℕ → Type 0
BitFound bytes size b left bi none =
    (i : ℕ) → bi ≤ i → i < bi + left → b + i < size → bit_of bytes i ≢ 0
BitFound bytes size b left bi (some i) =
    (bi ≤ i)
    × ((i < bi + left)
        × ((b + i < size)
            × ((bit_of bytes i ≡ 0) × ((j : ℕ) → bi ≤ j → j < i → bit_of bytes j ≢ 0))))

bit_later :
    (bytes : ℕ → ℕ) (size b left bi : ℕ) (r : Option ℕ)
    → bit_of bytes bi ≢ 0
    → BitFound bytes size b left (suc bi) r
    → BitFound bytes size b (suc left) bi r
bit_later bytes size b left bi none set h = λ i le lt inside. elim (ℕ_discrete bi i) [
  | yes e ↦ subst (λ k. bit_of bytes k ≢ 0) e set
  | no ne ↦ h i (omega (arith, le, ne)) (omega (arith, lt)) inside
]
bit_later bytes size b left bi (some i) set (le, (lt, (inside, (z, lower)))) = (
  omega (arith, le),
  (
    omega (arith, lt),
    (
      inside,
      (
        z,
        λ j le' lt'. elim (ℕ_discrete bi j) [
          | yes e ↦ subst (λ k. bit_of bytes k ≢ 0) e set
          | no ne ↦ lower j (omega (arith, le', ne)) lt'
        ],
      ),
    ),
  ),
)

-- A round of the inner loop, by its two tests.
bit_round :
    (bytes : ℕ → ℕ) (size b left bi : ℕ) (r : Option ℕ) (inside clear : Bool)
    → ltb (b + bi) size ≡ inside
    → (bit_of bytes bi == 0) ≡ clear
    → BitFound bytes size b left (suc bi) r
    → BitFound bytes size b
        (suc left)
        bi
        (elim inside [ false ↦ none | true ↦ elim clear [ true ↦ some bi | false ↦ r ] ])
bit_round bytes size b left bi r false clear past e h =
    λ i le lt inside. absurd (ground (arith, past, le, inside))
bit_round bytes size b left bi r true true inside e h = (
  omega arith,
  (
    omega arith,
    (
      ltb→lt (b + bi) size inside,
      (==→eq (bit_of bytes bi) 0 e, λ j le lt. absurd (omega (arith, le, lt))),
    ),
  ),
)
bit_round bytes size b left bi r true false inside e h =
    bit_later bytes size b left bi r (==→ne (bit_of bytes bi) 0 e) h

pub free_bit-BitFound :
    (bytes : ℕ → ℕ) (size b left bi : ℕ)
    → BitFound bytes size b left bi (free_bit bytes size b left bi)
unfolding free_bit
free_bit-BitFound bytes size b zero bi = λ i le lt inside. absurd (omega (arith, le, lt))
free_bit-BitFound bytes size b (suc left) bi =
    bit_round bytes size b left bi (free_bit bytes size b left (suc bi)) (ltb (b + bi) size)
      (bit_of bytes bi == 0) refl refl (free_bit-BitFound bytes size b left (suc bi))
