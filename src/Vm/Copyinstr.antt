-- ===== src/Vm/Copyinstr.antt =====
-- kernel/vm.c: `copyinstr`, which goes by pages, against a copy that goes by bytes.
use xv6_riscv.Base.{
  ℕ, zero, suc, ◌+◌, ◌-◌, ◌*◌, ◌/◌, ◌%◌, ◌^◌, ◌≤◌, ◌<◌, ◌≡◌, ◌≢◌, refl, sym, ap, ◌∙◌, Bool, true,
  false, arith, ◌==◌, if◌then◌else◌, Bool-cases, inl, inr, some, List, [], ◌∷◌, ◌++◌, ne→==,
}
use native.Mathlib.Decide.{ℕ_discrete, dec_lt}
use xv6_riscv.Kalloc.{Mem, pgsize}
use xv6_riscv.Vm.{maxva, pgrounddown}
use xv6_riscv.Vm.Tree.{Pages}
use xv6_riscv.Vm.Bytes.{peek, copy_size, string_loop, copyinstr_loop, copyinstr}
use xv6_riscv.Vm.Translate.{translate, walkaddr-translate, translate_inside}
use xv6_riscv.Vm.Copyin.{
  user_byte, byte_at, here, whole_page, copy_size_le, copy_size_pos, copy_size_page,
}

-- The bytes at the addresses from `va` on up to the first zero; true if it is among the first `n`, and
-- a user may see all up to it.
unfoldable pub string_from : Pages → ℕ → ℕ → ℕ → Bool × List ℕ
string_from page root zero va = (false, [])
string_from page root (suc n) va =
    let rest = string_from page root n (suc va) in
    if translate page root va == 0
    then (false, [])
    else if user_byte page root va == 0
    then (true, 0 ∷ [])
    else (rest.0, user_byte page root va ∷ rest.1)

module _ (page : Pages) (root q pa : ℕ) (ne : pa ≢ 0)
    (one : (x : ℕ) → x / 4096 ≡ q → translate page root x ≡ pa) where
  page-string_from :
      (n k all va after : ℕ)
      → all ≡ n + k
      → after ≡ va + n
      → q * 4096 ≤ va
      → after ≤ q * 4096 + 4096
      → string_from page root all va ≡ (
          if (string_loop n (pa + (va - q * 4096)) page).0
          then (true, (string_loop n (pa + (va - q * 4096)) page).1)
          else (
            (string_from page root k after).0,
            (string_loop n (pa + (va - q * 4096)) page).1 ++ (string_from page root k after).1,
          ))
  unfolding string_from string_loop
  page-string_from zero k all va after e e' le lt =
      let e : all ≡ k = omega (arith, e) in
      let e' : after ≡ va = omega (arith, e') in rw (e, e') refl
  page-string_from (suc n) k zero va after e e' le lt = absurd (omega (arith, e))
  page-string_from (suc n) k (suc all) va after e e' le lt =
      let same : user_byte page root va ≡ peek page (pa + (va - q * 4096)) =
        byte_at page root q pa ne one va le (omega (arith, e', lt)) in
      let next : suc (pa + (va - q * 4096)) ≡ pa + (suc va - q * 4096) = omega (arith, le) in
      let seen = here page root q pa ne one va le (omega (arith, e', lt)) in
      let more =
        page-string_from n k all (suc va) after (omega (arith, e)) (omega (arith, e'))
          (omega (arith, le)) lt in
      elim (Bool-cases (peek page (pa + (va - q * 4096)) == 0)) [
        | inl end ↦ rw (seen, ap (λ b. b == 0) same ∙ end, end) refl
        | inr inner ↦
            rw (seen, ap (λ b. b == 0) same ∙ inner, inner, next, more)
              (elim (Bool-cases (string_loop n (pa + (suc va - q * 4096)) page).0) [
                | inl found ↦
                    rw found
                      (ap (λ b. (true, b ∷ (string_loop n (pa + (suc va - q * 4096)) page).1)) same)
                | inr open_end ↦ rw open_end (
                    ap
                      (λ b. (
                        (string_from page root k after).0,
                        b
                            ∷ ((string_loop n (pa + (suc va - q * 4096)) page).1
                                ++ (string_from page root k after).1),
                      ))
                      same)
              ])
      ]

module _ (page : Pages) (root : ℕ) where
  string_from_next :
      (va len : ℕ)
      → va < maxva
      → string_from page root (len - copy_size va len) (va + copy_size va len)
        ≡ string_from page root (len - copy_size va len) ((pgrounddown va + pgsize) % 2 ^ 64)
  unfolding string_from
  string_from_next va len lt = elim (dec_lt len (pgsize - (va - pgrounddown va))) [
    | yes few ↦
        let none_left : len - copy_size va len ≡ 0 = ground (arith, few) in rw none_left refl
    | no many ↦
        let next : va + copy_size va len ≡ (pgrounddown va + pgsize) % 2 ^ 64 =
          ground (arith, many, lt) in
        ap (string_from page root (len - copy_size va len)) next
  ]

string_from-none :
    (page : Pages) (root va n : ℕ)
    → translate page root va ≡ 0
    → string_from page root (suc n) va ≡ (false, [])
unfolding string_from
string_from-none page root va n e = rw e refl

copyinstr_loop-string_from :
    (fuel root va max : ℕ) (m : Mem)
    → max < fuel
    → copyinstr_loop fuel root va max m ≡ some (string_from m.page root max va)
unfolding copyinstr_loop string_from
copyinstr_loop-string_from zero root va max m enough = absurd (omega (arith, enough))
copyinstr_loop-string_from (suc fuel) root va zero m enough = refl
copyinstr_loop-string_from (suc fuel) root va (suc n) m enough =
    let nonzero : (suc n == 0) ≡ false = ground arith in
    let same = whole_page m.page root va va refl in
    elim (ℕ_discrete (translate m.page root (pgrounddown va)) 0) [
      | yes e ↦
          rw
            (
              nonzero,
              walkaddr-translate root (pgrounddown va) m,
              e,
              string_from-none m.page root va n (same ∙ e),
            )
            refl
      | no ne ↦
          let rest = copy_size_pos va (suc n) (omega arith) in
          let pa = translate m.page root (pgrounddown va) in
          let c = copy_size va (suc n) in
          let by_page =
            page-string_from m.page root (va / 4096) pa ne (whole_page m.page root va) c (suc n - c)
              (suc n) va (va + c) (omega (arith, copy_size_le va (suc n))) refl (omega arith)
              (copy_size_page va (suc n)) in
          rw
            (
              nonzero,
              walkaddr-translate root (pgrounddown va) m,
              ne→== pa 0 ne,
              copyinstr_loop-string_from fuel root ((pgrounddown va + pgsize) % 2 ^ 64) (suc n - c)
                  m (omega (arith, rest, enough)),
              sym (
                  string_from_next m.page root va (suc n)
                    (translate_inside m.page root va (λ e. ne (sym same ∙ e)))),
              by_page,
            )
            (elim (Bool-cases (string_loop c (pa + (va - pgrounddown va)) m.page).0) [
              | inl found ↦ rw found refl
              | inr open_end ↦ rw open_end refl
            ])
    ]

-- Copyinstr does not panic, and copies what a copy by bytes does: the bytes as the tables show
-- them to a user, up to the first zero. The result is 0 just if that zero is among the first max
-- bytes and a user may see all bytes up to it.
pub copyinstr-string_from :
    (root va max : ℕ) (m : Mem) → copyinstr root va max m ≡ some (string_from m.page root max va)
unfolding copyinstr
copyinstr-string_from root va max m =
    copyinstr_loop-string_from (suc max) root va max m (omega arith)
