-- ===== src/Vm/Translate.antt =====
-- kernel/vm.c: `walk` without `alloc`, and `walkaddr`, against what the tables map.
use xv6_riscv.Base.{
  ℕ, ◌/◌, ◌%◌, ◌<◌, ◌≡◌, ◌≢◌, refl, false, arith, ◌&&◌, if◌then◌else◌, Bool-cases, inl, inr, Option,
  none, some, leb,
}
use xv6_riscv.Kalloc.{Mem}
use xv6_riscv.Vm.{px, is_valid, maxva, pte2pa, descend, walk, walk_from}
use xv6_riscv.Vm.Tree.{Pages, child, lookup}
use xv6_riscv.Vm.User.{has_flag, pte_u, walkaddr}

-- The page that a user may see at an address, or 0.
abbrev pub translate : Pages → ℕ → ℕ → ℕ
translate page root va =
    if leb maxva va
    then 0
    else (let pte = lookup page root va in
        if is_valid pte && has_flag pte_u pte then pte2pa pte else 0)

-- Without `alloc`, the entry of an address or nothing, in a memory that is as it was.
unfoldable pub find : Pages → ℕ → ℕ → Option (ℕ × ℕ)
find page root va =
    if is_valid (page root (px 2 va))
    then (if is_valid (page (child page root (px 2 va)) (px 1 va))
        then some (child page (child page root (px 2 va)) (px 1 va), px 0 va)
        else none)
    else none

pub walk-find :
    (root va : ℕ) (m : Mem) → va < maxva → walk false root va m ≡ some (find m.page root va, m)
unfolding walk walk_from descend find
walk-find root va m lt =
    let inside : leb maxva va ≡ false = ground (arith, lt) in
    elim (Bool-cases (is_valid (m.page root (px 2 va)))) [
      | inr f ↦ rw (inside, f) refl
      | inl t ↦ elim (Bool-cases (is_valid (m.page (child m.page root (px 2 va)) (px 1 va)))) [
        | inl t' ↦ rw (inside, t, t') refl
        | inr f' ↦ rw (inside, t, f') refl
      ]
    ]

pub walkaddr-translate :
    (root va : ℕ) (m : Mem) → walkaddr root va m ≡ some (translate m.page root va)
unfolding walkaddr find
walkaddr-translate root va m = elim (Bool-cases (leb maxva va)) [
  | inl out ↦ rw out refl
  | inr inside ↦
      rw (inside, walk-find root va m (ground (arith, inside)))
        (elim (Bool-cases (is_valid (m.page root (px 2 va)))) [
          | inr f ↦ rw f refl
          | inl t ↦ elim (Bool-cases (is_valid (m.page (child m.page root (px 2 va)) (px 1 va)))) [
            | inr f' ↦ rw (t, f') refl
            | inl t' ↦ rw (t, t') (ground arith)
          ]
        ])
]

-- Addresses of one page have one translation.
pub translate_page :
    (page : Pages) (root va va' : ℕ)
    → va / 4096 ≡ va' / 4096
    → translate page root va ≡ translate page root va'
translate_page page root va va' e =
    let out : leb maxva va ≡ leb maxva va' = ground (arith, e) in
    let top : px 2 va ≡ px 2 va' = omega (arith, e) in
    let mid : px 1 va ≡ px 1 va' = omega (arith, e) in
    let low : px 0 va ≡ px 0 va' = omega (arith, e) in rw (out, top, mid, low) refl

pub translate_aligned : (page : Pages) (root va : ℕ) → translate page root va % 4096 ≡ 0
translate_aligned page root va = ground arith

pub translate_inside : (page : Pages) (root va : ℕ) → translate page root va ≢ 0 → va < maxva
translate_inside page root va ne = ground (arith, ne)
