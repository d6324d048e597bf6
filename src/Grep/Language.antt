-- ===== src/Grep/Language.antt =====
-- user/grep.c: what an expression means, by the words that it stands for.
use xv6_riscv.Base.{ℕ, ◌≡◌, Bool, true, false, List, [], ◌∷◌, ◌++◌, All, if◌then◌else◌, ◌==◌, ◌⊎◌}
use xv6_riscv.Grep.{caret, dollar, dot, star}

-- One character, or any number of them; `.` is any character.
pub data Item : Type 0 where
  once : ℕ → Item
  many : ℕ → Item

abbrev pub Agrees : ℕ → ℕ → Type 0
Agrees c x = (c ≡ dot) ⊎ (c ≡ x)

abbrev pub Word : List Item → List ℕ → Type 0
Word [] w = w ≡ []
Word (once c ∷ items) w = (x : ℕ) × ((v : List ℕ) × ((w ≡ x ∷ v) × (Agrees c x × Word items v)))
Word (many c ∷ items) w =
    (u : List ℕ) × ((v : List ℕ) × ((w ≡ u ++ v) × (All (Agrees c) u × Word items v)))

-- The items of an expression, and whether a `$` ends it.
pub record Expression : Type 0 where
  pub items : List Item
  pub ends : Bool

abbrev pub more : Item → Expression → Expression
more i e = record e { items = i ∷ e.items }

unfoldable pub parse : List ℕ → Expression
parse [] = record { items = []; ends = false }
parse (c ∷ []) =
    if c == dollar
    then record { items = []; ends = true }
    else record { items = once c ∷ []; ends = false }
parse (c ∷ d ∷ re) = elim (d == star) [
  | true ↦ more (many c) (parse re)
  | false ↦ more (once c) (parse (d ∷ re))
]

-- Some word of the expression begins the text, and is all of it if the expression ends in `$`.
abbrev pub Here : Expression → List ℕ → Type 0
Here e text =
    (w : List ℕ) × ((rest : List ℕ) × ((text ≡ w ++ rest)
        × (Word e.items w × (e.ends ≡ true → rest ≡ []))))

-- Some word of the expression stands somewhere in the text.
abbrev pub Somewhere : Expression → List ℕ → Type 0
Somewhere e text =
    (before : List ℕ) × ((after : List ℕ) × ((text ≡ before ++ after) × Here e after))

-- The meaning of a whole expression.
abbrev pub Meaning : List ℕ → List ℕ → Type 0
Meaning [] text = Somewhere (parse []) text
Meaning (c ∷ re) text = if c == caret then Here (parse re) text else Somewhere (parse (c ∷ re)) text
