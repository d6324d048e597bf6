-- ===== src/Vm/Copyin.antt =====
-- kernel/vm.c: `copyin`, which goes by pages, against a copy that goes by bytes.
use xv6_riscv.Base.{
  ℕ, zero, suc, ◌+◌, ◌-◌, ◌*◌, ◌/◌, ◌%◌, ◌^◌, ◌≤◌, ◌<◌, ◌≡◌, ◌≢◌, refl, sym, ap, ◌∙◌, Bool, true,
  false, arith, ◌==◌, if◌then◌else◌, some, List, [], ◌∷◌, ◌++◌, ne→==,
}
use native.Mathlib.Decide.{ℕ_discrete, dec_lt}
use xv6_riscv.Kalloc.{Mem, pgsize}
use xv6_riscv.Vm.{maxva, pgrounddown}
use xv6_riscv.Vm.Tree.{Pages}
use xv6_riscv.Vm.Bytes.{peek, peeks, copy_size, copyin_loop, copyin}
use xv6_riscv.Vm.Translate.{translate, walkaddr-translate, translate_page, translate_inside}

-- The byte that a user sees at an address.
abbrev pub user_byte : Pages → ℕ → ℕ → ℕ
user_byte page root va = peek page (translate page root va + va % 4096)

-- The bytes at `n` addresses, up to the first that a user may not see; true if there is none.
unfoldable pub copy_from : Pages → ℕ → ℕ → ℕ → Bool × List ℕ
copy_from page root zero va = (true, [])
copy_from page root (suc n) va =
    let rest = copy_from page root n (suc va) in
    if translate page root va == 0 then (false, []) else (rest.0, user_byte page root va ∷ rest.1)

module _ (page : Pages) (root q pa : ℕ) (ne : pa ≢ 0)
    (one : (x : ℕ) → x / 4096 ≡ q → translate page root x ≡ pa) where
  pub byte_at :
      (va : ℕ)
      → q * 4096 ≤ va
      → va < q * 4096 + 4096
      → user_byte page root va ≡ peek page (pa + (va - q * 4096))
  byte_at va le lt = ap (peek page) (omega (arith, one va (omega (arith, le, lt)), le, lt))

  pub here : (va : ℕ) → q * 4096 ≤ va → va < q * 4096 + 4096 → (translate page root va == 0) ≡ false
  here va le lt = ap (λ x. x == 0) (one va (omega (arith, le, lt))) ∙ ne→== pa 0 ne

  -- The first bytes, up to `n` of the page.
  page-copy_from :
      (n k all va after : ℕ)
      → all ≡ n + k
      → after ≡ va + n
      → q * 4096 ≤ va
      → after ≤ q * 4096 + 4096
      → copy_from page root all va ≡ (
        (copy_from page root k after).0,
        peeks page (pa + (va - q * 4096)) n ++ (copy_from page root k after).1,
      )
  unfolding copy_from peeks
  page-copy_from zero k all va after e e' le lt =
      let e : all ≡ k = omega (arith, e) in
      let e' : after ≡ va = omega (arith, e') in rw (e, e') refl
  page-copy_from (suc n) k zero va after e e' le lt = absurd (omega (arith, e))
  page-copy_from (suc n) k (suc all) va after e e' le lt =
      let same : user_byte page root va ≡ peek page (pa + (va - q * 4096)) =
        byte_at va le (omega (arith, e', lt)) in
      let next : suc (pa + (va - q * 4096)) ≡ pa + (suc va - q * 4096) = omega (arith, le) in
      let seen = here va le (omega (arith, e', lt)) in
      rw
        (
          seen,
          next,
          page-copy_from n k all (suc va) after (omega (arith, e)) (omega (arith, e'))
              (omega (arith, le)) lt,
        )
        (ap
          (λ b. (
            (copy_from page root k after).0,
            b ∷ (peeks page (pa + (suc va - q * 4096)) n ++ (copy_from page root k after).1),
          ))
          same)

module _ (page : Pages) (root : ℕ) where
  pub whole_page :
      (va x : ℕ)
      → x / 4096 ≡ va / 4096
      → translate page root x ≡ translate page root (pgrounddown va)
  whole_page va x e = translate_page page root x (pgrounddown va) (omega (arith, e))

  -- Where a round leaves off is where the next begins, unless nothing is left.
  copy_from_next :
      (va len : ℕ)
      → va < maxva
      → copy_from page root (len - copy_size va len) (va + copy_size va len)
        ≡ copy_from page root (len - copy_size va len) ((pgrounddown va + pgsize) % 2 ^ 64)
  unfolding copy_from
  copy_from_next va len lt = elim (dec_lt len (pgsize - (va - pgrounddown va))) [
    | yes few ↦
        let none_left : len - copy_size va len ≡ 0 = ground (arith, few) in rw none_left refl
    | no many ↦
        let next : va + copy_size va len ≡ (pgrounddown va + pgsize) % 2 ^ 64 =
          ground (arith, many, lt) in
        ap (copy_from page root (len - copy_size va len)) next
  ]

pub copy_size_le : (va len : ℕ) → copy_size va len ≤ len
copy_size_le va len = ground arith

pub copy_size_pos : (va len : ℕ) → 0 < len → 0 < copy_size va len
copy_size_pos va len pos = ground (arith, pos)

pub copy_size_page : (va len : ℕ) → va + copy_size va len ≤ va / 4096 * 4096 + 4096
copy_size_page va len = ground arith

copy_from-none :
    (page : Pages) (root va n : ℕ)
    → translate page root va ≡ 0
    → copy_from page root (suc n) va ≡ (false, [])
unfolding copy_from
copy_from-none page root va n e = rw e refl

copyin_loop-copy_from :
    (fuel root va len : ℕ) (m : Mem)
    → len < fuel
    → copyin_loop fuel root va len m ≡ some (copy_from m.page root len va)
unfolding copyin_loop copy_from
copyin_loop-copy_from zero root va len m enough = absurd (omega (arith, enough))
copyin_loop-copy_from (suc fuel) root va zero m enough = refl
copyin_loop-copy_from (suc fuel) root va (suc n) m enough =
    let nonzero : (suc n == 0) ≡ false = ground arith in
    let same = whole_page m.page root va va refl in
    elim (ℕ_discrete (translate m.page root (pgrounddown va)) 0) [
      | yes e ↦
          rw
            (
              nonzero,
              walkaddr-translate root (pgrounddown va) m,
              e,
              copy_from-none m.page root va n (same ∙ e),
            )
            refl
      | no ne ↦
          let rest = copy_size_pos va (suc n) (omega arith) in
          rw
            (
              nonzero,
              walkaddr-translate root (pgrounddown va) m,
              ne→== (translate m.page root (pgrounddown va)) 0 ne,
              copyin_loop-copy_from fuel root ((pgrounddown va + pgsize) % 2 ^ 64)
                  (suc n - copy_size va (suc n)) m (omega (arith, rest, enough)),
              sym (
                  copy_from_next m.page root va (suc n)
                    (translate_inside m.page root va (λ e. ne (sym same ∙ e)))),
            )
            (ap some (
              sym (
                page-copy_from m.page root (va / 4096) (translate m.page root (pgrounddown va)) ne
                  (whole_page m.page root va) (copy_size va (suc n)) (suc n - copy_size va (suc n))
                  (suc n) va (va + copy_size va (suc n)) (omega (arith, copy_size_le va (suc n)))
                  refl (omega arith) (copy_size_page va (suc n)))))
    ]

-- Copyin, which goes by pages and looks up the page of the user for each, does not panic, and
-- copies what a copy by bytes does: each byte as the tables show it to a user, up to the first
-- address that a user may not see, where the result is -1.
pub copyin-copy_from :
    (root va len : ℕ) (m : Mem) → copyin root va len m ≡ some (copy_from m.page root len va)
unfolding copyin
copyin-copy_from root va len m = copyin_loop-copy_from (suc len) root va len m (omega arith)
