-- ===== src/Vm/Bytes.antt =====
-- kernel/vm.c: `copyin`, `copyinstr` and `copyout`, over the bytes of the pages. The kernel's buffer is a
-- list of bytes: what a copy in has stored there, or what a copy out takes from there.
use xv6_riscv.Base.{
  ℕ, zero, suc, ◌+◌, ◌-◌, ◌*◌, ◌/◌, ◌%◌, ◌^◌, Bool, true, false, Option, none, some, List, [], ◌∷◌,
  ◌++◌, update, if◌then◌else◌, ltb, ◌==◌, length, take, drop,
}
use xv6_riscv.Kalloc.{Mem, Page, ◌>>=◌, pgsize}
use xv6_riscv.Vm.{pgrounddown}
use xv6_riscv.Vm.User.{walkaddr}

-- the byte at a physical address
abbrev pub peek : (ℕ → Page) → ℕ → ℕ
peek page pa = page (pa / 4096 * 4096) (pa % 4096 / 8) / 2 ^ (8 * (pa % 8)) % 256

-- `memmove` out of the pages
unfoldable pub peeks : (ℕ → Page) → ℕ → ℕ → List ℕ
peeks page pa zero = []
peeks page pa (suc n) = peek page pa ∷ peeks page (suc pa) n

-- the word `w` with byte `k` set to `v`
abbrev pub set_byte : ℕ → ℕ → ℕ → ℕ
set_byte w k v = w / 2 ^ (8 * k + 8) * 2 ^ (8 * k + 8) + v % 256 * 2 ^ (8 * k) + w % 2 ^ (8 * k)

abbrev pub poke : ℕ → ℕ → (ℕ → Page) → ℕ → Page
poke pa v page =
    let p = pa / 4096 * 4096 in
    let i = pa % 4096 / 8 in update page p (update (page p) i (set_byte (page p i) (pa % 8) v))

-- How many bytes of the page of `va` a round copies.
abbrev pub copy_size : ℕ → ℕ → ℕ
copy_size va len = let n = pgsize - (va - pgrounddown va) in if ltb len n then len else n

-- The loop of `copyin`, with fuel: the result, true for 0, and the bytes that were copied.
unfoldable pub copyin_loop : ℕ → ℕ → ℕ → ℕ → Mem → Option (Bool × List ℕ)
copyin_loop zero pt srcva len m = none
copyin_loop (suc fuel) pt srcva len m =
    if len == 0
    then some (true, [])
    else (walkaddr pt (pgrounddown srcva) m >>= λ pa0.
        if pa0 == 0
        then some (false, [])
        else (let n = copy_size srcva len in
            copyin_loop fuel pt ((pgrounddown srcva + pgsize) % 2 ^ 64) (len - n) m >>= λ r.
            some (r.0, peeks m.page (pa0 + (srcva - pgrounddown srcva)) n ++ r.1)))

-- Each round copies a byte at least.
unfoldable pub copyin : ℕ → ℕ → ℕ → Mem → Option (Bool × List ℕ)
copyin pt srcva len m = copyin_loop (suc len) pt srcva len m

-- The inner loop of `copyinstr`: whether it found the end of the string, and the bytes it stored.
unfoldable pub string_loop : ℕ → ℕ → (ℕ → Page) → Bool × List ℕ
string_loop zero p page = (false, [])
string_loop (suc n) p page =
    let rest = string_loop n (suc p) page in
    if peek page p == 0 then (true, 0 ∷ []) else (rest.0, peek page p ∷ rest.1)

-- The outer loop of `copyinstr`, with fuel.
unfoldable pub copyinstr_loop : ℕ → ℕ → ℕ → ℕ → Mem → Option (Bool × List ℕ)
copyinstr_loop zero pt srcva max m = none
copyinstr_loop (suc fuel) pt srcva max m =
    if max == 0
    then some (false, [])
    else (walkaddr pt (pgrounddown srcva) m >>= λ pa0.
        if pa0 == 0
        then some (false, [])
        else (let n = copy_size srcva max in
            let got = string_loop n (pa0 + (srcva - pgrounddown srcva)) m.page in
            if got.0
            then some (true, got.1)
            else (copyinstr_loop fuel pt ((pgrounddown srcva + pgsize) % 2 ^ 64) (max - n) m
                >>= λ r. some (r.0, got.1 ++ r.1))))

unfoldable pub copyinstr : ℕ → ℕ → ℕ → Mem → Option (Bool × List ℕ)
copyinstr pt srcva max m = copyinstr_loop (suc max) pt srcva max m

-- `memmove` into the pages
unfoldable pub pokes : ℕ → List ℕ → (ℕ → Page) → ℕ → Page
pokes pa [] page = page
pokes pa (v ∷ vs) page = pokes (suc pa) vs (poke pa v page)

-- The loop of `copyout`, with fuel.
unfoldable pub copyout_loop : ℕ → ℕ → ℕ → List ℕ → Mem → Option (Bool × Mem)
copyout_loop zero pt dstva src m = none
copyout_loop (suc fuel) pt dstva [] m = some (true, m)
copyout_loop (suc fuel) pt dstva (b ∷ src) m = walkaddr pt (pgrounddown dstva) m >>= λ pa0.
    if pa0 == 0
    then some (false, m)
    else (let n = copy_size dstva (length (b ∷ src)) in
        copyout_loop fuel pt ((pgrounddown dstva + pgsize) % 2 ^ 64) (drop n (b ∷ src))
          (record m { page = pokes (pa0 + (dstva - pgrounddown dstva)) (take n (b ∷ src)) m.page }))

unfoldable pub copyout : ℕ → ℕ → List ℕ → Mem → Option (Bool × Mem)
copyout pt dstva src m = copyout_loop (suc (length src)) pt dstva src m
