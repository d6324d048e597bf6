-- ===== src/Base/Counts.antt =====
-- How often a number stands in a list, and the list without one of its places.
use Prim.Native.Nat.{ℕ, suc, ◌-◌, ◌<◌}
use mathlib.Core.Path.{◌≡◌, refl}
use mathlib.Core.Logic.{◌≢◌, inl, inr}
use mathlib.Core.List.{List, [], ◌∷◌}
use native.Mathlib.Omega.{arith}
use xv6_riscv.Base.Tests.{◌==◌, if◌then◌else◌, eq→==, ne→==, Bool-cases}
use xv6_riscv.Base.Lists.{length}

abbrev pub count : ℕ → List ℕ → ℕ
count q [] = 0
count q (p ∷ ps) = if p == q then suc (count q ps) else count q ps

abbrev pub remove : ℕ → List ℕ → List ℕ
remove q [] = []
remove q (p ∷ ps) = if p == q then ps else p ∷ remove q ps

pub count_self : (q : ℕ) (ps : List ℕ) → count q (q ∷ ps) ≡ suc (count q ps)
count_self q ps = rw (eq→== q q refl)

pub count_ne : (p q : ℕ) (ps : List ℕ) → p ≢ q → count q (p ∷ ps) ≡ count q ps
count_ne p q ps ne = rw (ne→== p q ne)

pub count-remove_self : (q : ℕ) (ps : List ℕ) → count q (remove q ps) ≡ count q ps - 1
count-remove_self q [] = refl
count-remove_self q (p ∷ ps) = ground (arith, count-remove_self q ps)

pub count-remove_ne : (p q : ℕ) (ps : List ℕ) → p ≢ q → count q (remove p ps) ≡ count q ps
count-remove_ne p q [] ne = refl
count-remove_ne p q (x ∷ ps) ne = ground (arith, count-remove_ne p q ps ne)

pub length_pos : (q : ℕ) (ps : List ℕ) → 0 < count q ps → 0 < length ps
length_pos q [] h = h
length_pos q (p ∷ ps) h = omega arith

pub length-remove : (q : ℕ) (ps : List ℕ) → 0 < count q ps → length (remove q ps) ≡ length ps - 1
length-remove q [] pos = absurd (omega (arith, pos))
length-remove q (p ∷ ps) pos = elim (Bool-cases (p == q)) [
  | inl same ↦ rw same (omega arith)
  | inr other ↦
      let inner : 0 < count q ps = (rw other at pos) in
      let ih = length-remove q ps inner in rw other (omega (arith, ih, length_pos q ps inner))
]
