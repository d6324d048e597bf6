-- ===== src/Vm/Copyout.antt =====
-- kernel/vm.c: `copyout`, which goes by pages, against a copy that goes by bytes.
use xv6_riscv.Base.{
  ℕ, zero, suc, ◌+◌, ◌-◌, ◌*◌, ◌/◌, ◌%◌, ◌^◌, ◌≤◌, ◌<◌, ◌≡◌, ◌≢◌, refl, sym, ap, ◌∙◌, subst, Bool,
  true, false, arith, ◌==◌, if◌then◌else◌, Option, some, List, [], ◌∷◌, take, drop, length, ne→==,
  update_ne,
}
use native.Mathlib.Decide.{ℕ_discrete, dec_lt}
use xv6_riscv.Kalloc.{Mem, Page, pgsize}
use xv6_riscv.Vm.{maxva, pgrounddown, px}
use xv6_riscv.Vm.Tree.{Pages, child, Has, lookup, lookup_same}
use xv6_riscv.Vm.User.{walkaddr}
use xv6_riscv.Vm.Bytes.{poke, pokes, copy_size, copyout_loop, copyout}
use xv6_riscv.Vm.Translate.{translate, walkaddr-translate, translate_inside, translate_aligned}
use xv6_riscv.Vm.Copyin.{copy_size_le, copy_size_pos, copy_size_page, whole_page}

-- The bytes put at the addresses from `va` on, up to the first that a user may not see; true if there is
-- none.
unfoldable pub put_bytes : (ℕ → ℕ) → ℕ → List ℕ → Pages → Bool × Pages
put_bytes see va [] page = (true, page)
put_bytes see va (b ∷ bs) page =
    let rest = put_bytes see (suc va) bs (poke (see va + va % 4096) b page) in
    if see va == 0 then (false, page) else rest

-- No page that a user sees is a page table.
abbrev pub Apart : Pages → ℕ → Type 0
Apart page root =
    (va va' : ℕ)
    → translate page root va ≢ 0
    → (translate page root va ≢ root)
      × ((Has page root (px 2 va') → translate page root va ≢ child page root (px 2 va'))
          × (Has page root (px 2 va')
              → Has page (child page root (px 2 va')) (px 1 va')
              → translate page root va ≢ child page (child page root (px 2 va')) (px 1 va')))

-- The page tables of `page` are in `page'` too.
abbrev Agree : Pages → Pages → ℕ → Type 0
Agree page page' root =
    (va : ℕ)
    → (page' root (px 2 va) ≡ page root (px 2 va))
      × ((Has page root (px 2 va)
            → page' (child page root (px 2 va)) (px 1 va)
              ≡ page (child page root (px 2 va)) (px 1 va))
          × (Has page root (px 2 va)
              → Has page (child page root (px 2 va)) (px 1 va)
              → page' (child page (child page root (px 2 va)) (px 1 va)) (px 0 va)
                ≡ page (child page (child page root (px 2 va)) (px 1 va)) (px 0 va)))

module _ (page : Pages) (root : ℕ) where
  see : ℕ → ℕ
  see = translate page root

  Agree-translate :
      (page' : Pages)
      → Agree page page' root
      → (va : ℕ) → translate page' root va ≡ translate page root va
  Agree-translate page' a va =
      let same : lookup page' root va ≡ lookup page root va =
        lookup_same page page' root va (a va).0 (a va).1.0 (a va).1.1 in
      rw same refl

  poke-Agree :
      (apart : Apart page root) (page' : Pages) (va off b : ℕ)
      → Agree page page' root
      → translate page root va ≢ 0
      → off < 4096
      → Agree page (poke (translate page root va + off) b page') root
  poke-Agree apart page' va off b a ne lt va' =
      let p = (translate page root va + off) / 4096 * 4096 in
      let at : p ≡ translate page root va = omega (arith, translate_aligned page root va, lt) in
      let other : (q k : ℕ)
          → translate page root va ≢ q
          → poke (translate page root va + off) b page' q k ≡ page' q k =
        λ q k ne'. ap (λ (f : Page). f k) (update_ne page' p q _ (λ e. ne' (sym at ∙ e))) in
      let no = apart va va' ne in
      (
        other root (px 2 va') no.0 ∙ (a va').0,
        (
          λ h. other _ (px 1 va') (no.1.0 h) ∙ (a va').1.0 h,
          λ h h'. other _ (px 0 va') (no.1.1 h h') ∙ (a va').1.1 h h',
        ),
      )

  pokes-Agree :
      (apart : Apart page root) (va : ℕ) (ne : translate page root va ≢ 0) (off : ℕ) (bs : List ℕ)
      (page' : Pages)
      → Agree page page' root
      → off + length bs ≤ 4096
      → Agree page (pokes (translate page root va + off) bs page') root
  unfolding pokes
  pokes-Agree apart va ne off [] page' a le = a
  pokes-Agree apart va ne off (b ∷ bs) page' a le =
      let next : translate page root va + suc off ≡ suc (translate page root va + off) =
        omega arith in
      subst (λ at. Agree page (pokes at bs (poke (translate page root va + off) b page')) root) next
        (pokes-Agree apart va ne (suc off) bs (poke (translate page root va + off) b page')
          (poke-Agree apart page' va off b a ne (omega (arith, le))) (omega (arith, le)))

module _ (see : ℕ → ℕ) (q pa : ℕ) (ne : pa ≢ 0) (one : (x : ℕ) → x / 4096 ≡ q → see x ≡ pa) where
  -- The first bytes, up to `n` of the page.
  page-put_bytes :
      (n : ℕ) (bs : List ℕ) (va after : ℕ) (page : Pages)
      → n ≤ length bs
      → after ≡ va + n
      → q * 4096 ≤ va
      → after ≤ q * 4096 + 4096
      → put_bytes see va bs page
        ≡ put_bytes see after (drop n bs) (pokes (pa + (va - q * 4096)) (take n bs) page)
  unfolding put_bytes pokes
  page-put_bytes zero bs va after page le e from to =
      let e' : after ≡ va = omega (arith, e) in rw e' refl
  page-put_bytes (suc n) [] va after page le e from to = absurd (omega (arith, le))
  page-put_bytes (suc n) (b ∷ bs) va after page le e from to =
      let at_page : see va ≡ pa = one va (omega (arith, from, to, e)) in
      let seen : (see va == 0) ≡ false = ap (λ x. x == 0) at_page ∙ ne→== pa 0 ne in
      let at : see va + va % 4096 ≡ pa + (va - q * 4096) = omega (arith, at_page, from, to, e) in
      let next : pa + (suc va - q * 4096) ≡ suc (pa + (va - q * 4096)) = omega (arith, from) in
      let here : Pages = poke (pa + (va - q * 4096)) b page in
      rw seen (
        ap (λ x. put_bytes see (suc va) bs (poke x b page)) at
        ∙ (page-put_bytes n bs (suc va) after here (omega (arith, le)) (omega (arith, e))
              (omega (arith, from)) to
            ∙ ap (λ x. put_bytes see after (drop n bs) (pokes x (take n bs) here)) next))

drop-all : (bs : List ℕ) → drop (length bs) bs ≡ []
drop-all [] = refl
drop-all (b ∷ bs) = drop-all bs

length-drop : (n : ℕ) (bs : List ℕ) → length (drop n bs) ≡ length bs - n
length-drop zero bs = omega arith
length-drop (suc n) [] = omega arith
length-drop (suc n) (b ∷ bs) = omega (arith, length-drop n bs)

length-take_le : (n : ℕ) (bs : List ℕ) → length (take n bs) ≤ n
length-take_le zero bs = omega arith
length-take_le (suc n) [] = omega arith
length-take_le (suc n) (b ∷ bs) = omega (arith, length-take_le n bs)

-- Where a round leaves off is where the next begins, unless nothing is left.
put_bytes_next :
    (see : ℕ → ℕ) (va : ℕ) (bs : List ℕ) (page : Pages)
    → va < maxva
    → put_bytes see ((pgrounddown va + pgsize) % 2 ^ 64) (drop (copy_size va (length bs)) bs) page
      ≡ put_bytes see (va + copy_size va (length bs)) (drop (copy_size va (length bs)) bs) page
unfolding put_bytes
put_bytes_next see va bs page lt = elim (dec_lt (length bs) (pgsize - (va - pgrounddown va))) [
  | yes few ↦
      let all : copy_size va (length bs) ≡ length bs = ground (arith, few) in
      rw (all, drop-all bs) refl
  | no many ↦
      let next : (pgrounddown va + pgsize) % 2 ^ 64 ≡ va + copy_size va (length bs) =
        ground (arith, many, lt) in
      ap (λ x. put_bytes see x (drop (copy_size va (length bs)) bs) page) next
]

-- What a copy out of these bytes returns.
abbrev outcome : Mem → Bool × Pages → Option (Bool × Mem)
outcome m r = some (r.0, record m { page = r.1 })

copyout_loop-put_bytes :
    (fuel : ℕ) (page : Pages) (root va : ℕ) (src : List ℕ) (m : Mem)
    → Apart page root
    → Agree page m.page root
    → length src < fuel
    → copyout_loop fuel root va src m
      ≡ some (
        (put_bytes (translate page root) va src m.page).0,
        record m { page = (put_bytes (translate page root) va src m.page).1 },
      )
unfolding copyout_loop put_bytes
copyout_loop-put_bytes zero page root va src m apart a enough = absurd (omega (arith, enough))
copyout_loop-put_bytes (suc fuel) page root va [] m apart a enough = refl
copyout_loop-put_bytes (suc fuel) page root va (b ∷ bs) m apart a enough =
    let first : ℕ = pgrounddown va in
    let seen : walkaddr root first m ≡ some (translate page root first) =
      walkaddr-translate root first m ∙ ap some (Agree-translate page root m.page a first) in
    let same : translate page root va ≡ translate page root first =
      whole_page page root va va refl in
    elim (ℕ_discrete (translate page root first) 0) [
      | yes e ↦ rw (seen, e, same ∙ e) refl
      | no ne ↦
          let n : ℕ = copy_size va (length (b ∷ bs)) in
          let pages : Pages =
            pokes (translate page root first + (va - first)) (take n (b ∷ bs)) m.page in
          let few : n ≤ length (b ∷ bs) = copy_size_le va (length (b ∷ bs)) in
          let some_done : 0 < n = copy_size_pos va (length (b ∷ bs)) (omega arith) in
          let fits = copy_size_page va (length (b ∷ bs)) in
          let agree : Agree page pages root =
            pokes-Agree page root apart first ne (va - first) (take n (b ∷ bs)) m.page a
              (omega (arith, length-take_le n (b ∷ bs), fits)) in
          let more =
            copyout_loop-put_bytes fuel page root ((first + pgsize) % 2 ^ 64) (drop n (b ∷ bs))
              (record m { page = pages }) apart agree
              (omega (arith, length-drop n (b ∷ bs), some_done, few, enough)) in
          let by_page : put_bytes (translate page root) ((first + pgsize) % 2 ^ 64)
                (drop n (b ∷ bs)) pages
              ≡ put_bytes (translate page root) va (b ∷ bs) m.page =
            put_bytes_next (translate page root) va (b ∷ bs) pages
              (translate_inside page root va (λ e. ne (sym same ∙ e)))
            ∙ sym (
                page-put_bytes (translate page root) (va / 4096) (translate page root first) ne
                  (whole_page page root va) n (b ∷ bs) va (va + n) m.page few refl (omega arith)
                  fits) in
          let run : copyout_loop (suc fuel) root va (b ∷ bs) m
              ≡ outcome m (
                  put_bytes (translate page root) ((first + pgsize) % 2 ^ 64) (drop n (b ∷ bs))
                    pages) =
            rw (seen, ne→== (translate page root first) 0 ne) more in
          run ∙ ap (outcome m) by_page
    ]

-- If no page that a user may see is a page table, copyout, which goes by pages and looks each up
-- in the memory that it has written so far, does not panic, and leaves what a copy by bytes
-- leaves: each byte where the tables as they were at the start show it to a user, up to the first
-- address that a user may not see, where the result is -1.
pub copyout-put_bytes :
    (root va : ℕ) (src : List ℕ) (m : Mem)
    → Apart m.page root
    → copyout root va src m
      ≡ some (
        (put_bytes (translate m.page root) va src m.page).0,
        record m { page = (put_bytes (translate m.page root) va src m.page).1 },
      )
unfolding copyout
copyout-put_bytes root va src m apart =
    copyout_loop-put_bytes (suc (length src)) m.page root va src m apart
      (λ va'. (refl, (λ h. refl, λ h h'. refl))) (omega arith)
