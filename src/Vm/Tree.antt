-- ===== src/Vm/Tree.antt =====
-- kernel/vm.c: the tree of page tables, and what it maps.
use xv6_riscv.Base.{
  ℕ, ◌+◌, ◌*◌, ◌<◌, ◌≡◌, ◌≢◌, refl, sym, ap, ◌∙◌, true, false, arith, List, count, update,
  update_self, update_ne, if◌then◌else◌, Bool-cases, inl, inr,
}
use xv6_riscv.Kalloc.{Page}
use xv6_riscv.Vm.{px, pte2pa, is_valid}

abbrev pub Pages : Type 0
Pages = ℕ → Page

-- The table that entry `i` of the table `p` points to.
abbrev pub child : Pages → ℕ → ℕ → ℕ
child page p i = pte2pa (page p i)

abbrev pub Has : Pages → ℕ → ℕ → Type 0
Has page p i = is_valid (page p i) ≡ true

-- The entry that the hardware uses for an address, or 0 where a table is missing.
abbrev pub lookup : Pages → ℕ → ℕ → ℕ
lookup page root va =
    if is_valid (page root (px 2 va))
    then (if is_valid (page (child page root (px 2 va)) (px 1 va))
        then page (child page (child page root (px 2 va)) (px 1 va)) (px 0 va)
        else 0)
    else 0

-- The tables of a tree are held, and no two of them are one page: each has a label of its own.
pub record Tree (page : Pages) (held : List ℕ) (root : ℕ) : Type 0 where
  pub label : ℕ → ℕ
  pub top : label root ≡ 0
  pub top_held : 0 < count root held
  pub middle : (i : ℕ) → i < 512 → Has page root i → label (child page root i) ≡ 1 + i
  pub middle_held : (i : ℕ) → i < 512 → Has page root i → 0 < count (child page root i) held
  pub low :
      (i j : ℕ)
      → i < 512
      → j < 512
      → Has page root i
      → Has page (child page root i) j
      → label (child page (child page root i) j) ≡ 513 + 512 * i + j
  pub low_held :
      (i j : ℕ)
      → i < 512
      → j < 512
      → Has page root i
      → Has page (child page root i) j
      → 0 < count (child page (child page root i) j) held

-- Where the leaf entry of an address is.
pub record Slot (page : Pages) (root va p i : ℕ) : Type 0 where
  pub top : Has page root (px 2 va)
  pub middle : Has page (child page root (px 2 va)) (px 1 va)
  pub table : p ≡ child page (child page root (px 2 va)) (px 1 va)
  pub index : i ≡ px 0 va

abbrev pub write : Pages → ℕ → ℕ → ℕ → Pages
write page p i v = update page p (update (page p) i v)

pub write_self : (page : Pages) (p i v : ℕ) → write page p i v p i ≡ v
write_self page p i v =
    ap (λ (f : Page). f i) (update_self page p (update (page p) i v)) ∙ update_self (page p) i v

pub write_page : (page : Pages) (p q i j v : ℕ) → p ≢ q → write page p i v q j ≡ page q j
write_page page p q i j v ne = ap (λ (f : Page). f j) (update_ne page p q _ ne)

pub write_index : (page : Pages) (p i j v : ℕ) → i ≢ j → write page p i v p j ≡ page p j
write_index page p i j v ne =
    ap (λ (f : Page). f j) (update_self page p (update (page p) i v)) ∙ update_ne (page p) i j v ne

pub lookup-none_top :
    (page : Pages) (root va : ℕ) → is_valid (page root (px 2 va)) ≡ false → lookup page root va ≡ 0
lookup-none_top page root va e = rw e refl

pub lookup-none_middle :
    (page : Pages) (root va : ℕ)
    → is_valid (page (child page root (px 2 va)) (px 1 va)) ≡ false
    → lookup page root va ≡ 0
lookup-none_middle page root va e = elim (Bool-cases (is_valid (page root (px 2 va)))) [
  | inl t ↦ rw (t, e) refl
  | inr f ↦ rw f refl
]

pub lookup-some :
    (page : Pages) (root va : ℕ)
    → Has page root (px 2 va)
    → Has page (child page root (px 2 va)) (px 1 va)
    → lookup page root va ≡ page (child page (child page root (px 2 va)) (px 1 va)) (px 0 va)
lookup-some page root va t m = rw (t, m) refl

-- Two tables with the same entries on the way map an address the same.
pub lookup_same :
    (page page' : Pages) (root va : ℕ)
    → page' root (px 2 va) ≡ page root (px 2 va)
    → (Has page root (px 2 va)
        → page' (child page root (px 2 va)) (px 1 va) ≡ page (child page root (px 2 va)) (px 1 va))
    → (Has page root (px 2 va)
        → Has page (child page root (px 2 va)) (px 1 va)
        → page' (child page (child page root (px 2 va)) (px 1 va)) (px 0 va)
          ≡ page (child page (child page root (px 2 va)) (px 1 va)) (px 0 va))
    → lookup page' root va ≡ lookup page root va
lookup_same page page' root va top middle low = elim (Bool-cases (is_valid (page root (px 2 va)))) [
  | inr f ↦
      lookup-none_top page' root va (ap is_valid top ∙ f) ∙ sym (lookup-none_top page root va f)
  | inl t ↦
      let same_child : child page' root (px 2 va) ≡ child page root (px 2 va) = ap pte2pa top in
      let mid : page' (child page' root (px 2 va)) (px 1 va)
          ≡ page (child page root (px 2 va)) (px 1 va) =
        ap (λ c. page' c (px 1 va)) same_child ∙ middle t in
      elim (Bool-cases (is_valid (page (child page root (px 2 va)) (px 1 va)))) [
        | inr f ↦
            lookup-none_middle page' root va (ap is_valid mid ∙ f)
            ∙ sym (lookup-none_middle page root va f)
        | inl m ↦
            lookup-some page' root va (ap is_valid top ∙ t) (ap is_valid mid ∙ m)
            ∙ (ap (λ c. page' c (px 0 va)) (ap pte2pa mid)
                ∙ (low t m ∙ sym (lookup-some page root va t m)))
      ]
]

module _ (page : Pages) (held : List ℕ) (root : ℕ) (t : Tree page held root) where
  -- The three tables on the way are three pages.
  pub middle-ne-top : (i : ℕ) → i < 512 → Has page root i → child page root i ≢ root
  middle-ne-top i lt h e = omega (arith, t.middle i lt h, t.top, ap t.label e)

  pub low-ne-top :
      (i j : ℕ)
      → i < 512
      → j < 512
      → Has page root i
      → Has page (child page root i) j
      → child page (child page root i) j ≢ root
  low-ne-top i j lt lt' h h' e = omega (arith, t.low i j lt lt' h h', t.top, ap t.label e)

  pub low-ne-middle :
      (i j k : ℕ)
      → i < 512
      → j < 512
      → k < 512
      → Has page root i
      → Has page (child page root i) j
      → Has page root k
      → child page (child page root i) j ≢ child page root k
  low-ne-middle i j k lt lt' lk h h' hk e =
      omega (arith, t.low i j lt lt' h h', t.middle k lk hk, lk, ap t.label e)

  pub middle_inj :
      (i k : ℕ)
      → i < 512
      → k < 512
      → Has page root i
      → Has page root k
      → child page root i ≡ child page root k
      → i ≡ k
  middle_inj i k lt lk h hk e = omega (arith, t.middle i lt h, t.middle k lk hk, ap t.label e)

  pub low_inj :
      (i j k l : ℕ)
      → i < 512
      → j < 512
      → k < 512
      → l < 512
      → Has page root i
      → Has page (child page root i) j
      → Has page root k
      → Has page (child page root k) l
      → child page (child page root i) j ≡ child page (child page root k) l
      → (i ≡ k) × (j ≡ l)
  low_inj i j k l li lj lk ll h h' hk hk' e =
      let same : 512 * i + j ≡ 512 * k + l =
        omega (arith, t.low i j li lj h h', t.low k l lk ll hk hk', ap t.label e) in
      (omega (arith, same, lj, ll), omega (arith, same, lj, ll))
