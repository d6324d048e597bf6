-- ===== src/Strings.antt =====
-- kernel/string.c: the routines on bytes in memory. Memory is the byte at each address; a range does
-- not wrap around the address space. A difference of two bytes is its 32-bit word.
pub mod Move
pub mod Compare
pub mod Copy
pub mod Tests
use xv6_riscv.Base.{
  ℕ, zero, suc, ◌+◌, ◌-◌, ◌%◌, ◌^◌, Bool, true, false, ◌&&◌, not, update, if◌then◌else◌, ltb, ◌==◌,
  for_from,
}

abbrev pub Memory : Type 0
Memory = ℕ → ℕ

pub memset : ℕ → ℕ → ℕ → Memory → Memory
memset dst c n m = for_from n 0 (λ i m'. update m' (dst + i) (c % 256)) m

abbrev pub minus : ℕ → ℕ → ℕ
minus a b = (a + 2 ^ 32 - b) % 2 ^ 32

pub memcmp : ℕ → ℕ → ℕ → Memory → ℕ
memcmp v1 v2 zero m = 0
memcmp v1 v2 (suc n) m =
    let rest = memcmp (suc v1) (suc v2) n m in if m v1 == m v2 then rest else minus (m v1) (m v2)

-- The two loops of `memmove`: from the last byte down, and from the byte `i` on.
pub copy_down : ℕ → ℕ → ℕ → Memory → Memory
copy_down dst src zero m = m
copy_down dst src (suc n) m = copy_down dst src n (update m (dst + n) (m (src + n)))

pub copy_up : ℕ → ℕ → ℕ → ℕ → Memory → Memory
copy_up dst src zero i m = m
copy_up dst src (suc n) i m = copy_up dst src n (suc i) (update m (dst + i) (m (src + i)))

pub memmove : ℕ → ℕ → ℕ → Memory → Memory
memmove dst src n m =
    if n == 0
    then m
    else if ltb src dst && ltb dst (src + n)
    then copy_down dst src n m
    else copy_up dst src n 0 m

pub memcpy : ℕ → ℕ → ℕ → Memory → Memory
memcpy dst src n m = memmove dst src n m

pub strncmp : ℕ → ℕ → ℕ → Memory → ℕ
strncmp p q zero m = 0
strncmp p q (suc n) m =
    let rest = strncmp (suc p) (suc q) n m in
    if not (m p == 0) && m p == m q then rest else minus (m p) (m q)

-- the second loop of `strncpy`
pub pad : ℕ → ℕ → Memory → Memory
pad s zero m = m
pad s (suc n) m = pad (suc s) n (update m s 0)

pub strncpy : ℕ → ℕ → ℕ → Memory → Memory
strncpy s t zero m = m
strncpy s t (suc n) m =
    let m1 = update m s (m t) in
    let rest = strncpy (suc s) (suc t) n m1 in if m t == 0 then pad (suc s) n m1 else rest

-- The loop of `safestrcpy` and its last store, with `n` bytes left besides the last.
pub safe_loop : ℕ → ℕ → ℕ → Memory → Memory
safe_loop s t zero m = update m s 0
safe_loop s t (suc n) m =
    let m1 = update m s (m t) in
    let rest = safe_loop (suc s) (suc t) n m1 in if m t == 0 then update m1 (suc s) 0 else rest

-- A length that is not positive is 0 here.
pub safestrcpy : ℕ → ℕ → ℕ → Memory → Memory
safestrcpy s t zero m = m
safestrcpy s t (suc n) m = safe_loop s t n m

-- The loop of `strlen` from the byte `n` on, with fuel for that many bytes.
pub strlen_from : ℕ → ℕ → ℕ → Memory → ℕ
strlen_from zero s n m = n
strlen_from (suc fuel) s n m =
    let rest = strlen_from fuel s (suc n) m in if m (s + n) == 0 then n else rest

pub strlen : ℕ → ℕ → Memory → ℕ
strlen fuel s m = strlen_from fuel s 0 m
