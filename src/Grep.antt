-- ===== src/Grep.antt =====
-- user/grep.c: the matcher of regular expressions. A string is the list of its characters, without
-- the NUL that ends it. `matchstar` is given `matchhere(re, ·)` in place of `re`.
pub mod Language
pub mod Sound
pub mod Complete
pub mod Tests
use xv6_riscv.Base.{
  ℕ, zero, suc, ◌+◌, ◌-◌, Bool, true, false, ◌&&◌, ◌||◌, List, [], ◌∷◌, if◌then◌else◌, ◌==◌,
}

abbrev pub caret : ℕ
caret = 94

abbrev pub dollar : ℕ
dollar = 36

abbrev pub dot : ℕ
dot = 46

abbrev pub star : ℕ
star = 42

abbrev pub is_end : List ℕ → Bool
is_end [] = true
is_end (x ∷ text) = false

pub matchstar : (List ℕ → Bool) → ℕ → List ℕ → Bool
matchstar here c [] = here []
matchstar here c (x ∷ text) = here (x ∷ text) || ((x == c || c == dot) && matchstar here c text)

-- the last test of `matchhere`, with `matchhere(re+1, ·)`
pub matchone : (List ℕ → Bool) → ℕ → List ℕ → Bool
matchone here c [] = false
matchone here c (x ∷ text) = (c == dot || c == x) && here text

pub matchhere : List ℕ → List ℕ → Bool
matchhere [] text = true
matchhere (c ∷ []) text = if c == dollar then is_end text else matchone (λ t. matchhere [] t) c text
matchhere (c ∷ d ∷ re) text = elim (d == star) [
  | true ↦ matchstar (λ t. matchhere re t) c text
  | false ↦ matchone (λ t. matchhere (d ∷ re) t) c text
]

-- the loop of `match`
pub matchany : (List ℕ → Bool) → List ℕ → Bool
matchany here [] = here []
matchany here (x ∷ text) = here (x ∷ text) || matchany here text

pub match_re : List ℕ → List ℕ → Bool
match_re [] text = matchany (matchhere []) text
match_re (c ∷ re) text =
    if c == caret then matchhere re text else matchany (matchhere (c ∷ re)) text
