-- ===== src/Dirs/Elements.antt =====
-- kernel/fs.c: `skipelem` takes a path apart at its slashes.
use xv6_riscv.Base.{
  ℕ, zero, suc, ◌≤◌, ◌<◌, ◌≡◌, refl, sym, ap, ◌∙◌, arith, Bool-cases, inl, inr, true, false, none,
  some, List, [], ◌∷◌, ◌++◌, take, length, map, if◌then◌else◌, ◌==◌, append_assoc, append-nil,
}
use xv6_riscv.Dirs.{dirsiz, slash, skip_slashes, pass_element, element_of, skipelem}

-- The loop of `namex` over the path, with fuel: the elements that `skipelem` gives.
unfoldable pub elements : ℕ → List ℕ → List (List ℕ)
elements zero path = []
elements (suc fuel) path = elim (skipelem path) [
  | none ↦ []
  | some (name, rest) ↦ name ∷ elements fuel rest
]

-- A word, if it is not empty, before others.
abbrev pub flush : List ℕ → List (List ℕ) → List (List ℕ)
flush [] ws = ws
flush (c ∷ w) ws = (c ∷ w) ∷ ws

-- The words between the slashes, the first of which begins with `w`.
unfoldable pub words : List ℕ → List ℕ → List (List ℕ)
words w [] = flush w []
words w (c ∷ path) =
    let next = words (w ++ (c ∷ [])) path in
    let others = words [] path in if c == slash then flush w others else next

words-skip_slashes : (path : List ℕ) → words [] path ≡ words [] (skip_slashes path)
unfolding words skip_slashes
words-skip_slashes [] = refl
words-skip_slashes (c ∷ path) = elim (Bool-cases (c == slash)) [
  | inl e ↦ rw e (words-skip_slashes path)
  | inr e ↦ rw (e, e) refl
]

words-pass_element :
    (w path : List ℕ)
    → words w path ≡ flush (w ++ (pass_element path).0) (words [] (pass_element path).1)
unfolding words pass_element
words-pass_element w [] = ap (λ x. flush x []) (sym (append-nil w))
words-pass_element w (c ∷ path) = elim (Bool-cases (c == slash)) [
  | inl e ↦ rw (e, e) (ap (λ x. flush x (words [] path)) (sym (append-nil w)))
  | inr e ↦ rw e (
      words-pass_element (w ++ (c ∷ [])) path
      ∙ ap (λ x. flush x (words [] (pass_element path).1))
          (append_assoc w (c ∷ []) (pass_element path).0))
]

skip_slashes-length : (path : List ℕ) → length (skip_slashes path) ≤ length path
unfolding skip_slashes
skip_slashes-length [] = omega arith
skip_slashes-length (c ∷ path) = elim (Bool-cases (c == slash)) [
  | inl e ↦ rw e (omega (arith, skip_slashes-length path))
  | inr e ↦ rw e (omega arith)
]

pass_element-length : (path : List ℕ) → length (pass_element path).1 ≤ length path
unfolding pass_element
pass_element-length [] = omega arith
pass_element-length (c ∷ path) = elim (Bool-cases (c == slash)) [
  | inl e ↦ rw e (omega arith)
  | inr e ↦ rw e (omega (arith, pass_element-length path))
]

skip_slashes_twice : (path : List ℕ) → skip_slashes (skip_slashes path) ≡ skip_slashes path
unfolding skip_slashes
skip_slashes_twice [] = refl
skip_slashes_twice (c ∷ path) = elim (Bool-cases (c == slash)) [
  | inl e ↦ rw e (skip_slashes_twice path)
  | inr e ↦ rw (e, e) refl
]

pass_element-first :
    (c : ℕ) (path : List ℕ)
    → (c == slash) ≡ false
    → (pass_element (c ∷ path)).0 ≡ c ∷ (pass_element path).0
unfolding pass_element
pass_element-first c path e = rw e refl

pass_element-rest :
    (c : ℕ) (path : List ℕ)
    → (c == slash) ≡ false
    → (pass_element (c ∷ path)).1 ≡ (pass_element path).1
unfolding pass_element
pass_element-rest c path e = rw e refl

skip_slashes-slash :
    (c : ℕ) (path : List ℕ) → (c == slash) ≡ true → skip_slashes (c ∷ path) ≡ skip_slashes path
unfolding skip_slashes
skip_slashes-slash c path e = rw e refl

-- A path without leading slashes.
skipped-no_slash :
    (c : ℕ) (path : List ℕ) → skip_slashes (c ∷ path) ≡ c ∷ path → (c == slash) ≡ false
skipped-no_slash c path same = elim (Bool-cases (c == slash)) [
  | inr e ↦ e
  | inl e ↦
      let shorter : length (skip_slashes path) ≡ suc (length path) =
        ap length (sym (skip_slashes-slash c path e) ∙ same) in
      absurd (omega (arith, skip_slashes-length path, shorter))
]

flush_word : (c : ℕ) (x w : List ℕ) (ws : List (List ℕ)) → w ≡ c ∷ x → flush w ws ≡ w ∷ ws
flush_word c x [] ws e = absurd (omega (arith, ap length e))
flush_word c x (d ∷ w) ws e = refl

words-nil : words [] [] ≡ []
unfolding words
words-nil = refl

round :
    (fuel : ℕ) (p : List ℕ)
    → skip_slashes p ≡ p
    → length p < suc fuel
    → ((path : List ℕ)
        → length path < fuel
        → elements fuel path ≡ map (take dirsiz) (words [] path))
    → (elim (element_of p) [ none ↦ [] | some (name, rest) ↦ name ∷ elements fuel rest ])
      ≡ map (take dirsiz) (words [] p)
unfolding element_of
round fuel [] same enough more = ap (map (take dirsiz)) (sym words-nil)
round fuel (c ∷ p) same enough more =
    let plain = skipped-no_slash c p same in
    let (name, rest) = pass_element (c ∷ p) in
    let short : length rest ≤ length p =
      omega (arith, ap length (pass_element-rest c p plain), pass_element-length p) in
    let others : elements fuel (skip_slashes rest) ≡ map (take dirsiz) (words [] rest) =
      more (skip_slashes rest) (omega (arith, short, skip_slashes-length rest, enough))
      ∙ ap (map (take dirsiz)) (sym (words-skip_slashes rest)) in
    ap (λ ws. take dirsiz name ∷ ws) others
    ∙ sym (
        ap (map (take dirsiz)) (
          words-pass_element [] (c ∷ p)
          ∙ flush_word c (pass_element p).0 name (words [] rest) (pass_element-first c p plain)))

-- With more fuel than the path has bytes, calling skipelem until it answers a null pointer gives
-- the words of the path between its slashes, without empty ones, each cut off at DIRSIZ bytes.
pub elements-words :
    (fuel : ℕ) (path : List ℕ)
    → length path < fuel
    → elements fuel path ≡ map (take dirsiz) (words [] path)
unfolding elements skipelem
elements-words zero path enough = absurd (omega (arith, enough))
elements-words (suc fuel) path enough =
    round fuel (skip_slashes path) (skip_slashes_twice path)
      (omega (arith, skip_slashes-length path, enough)) (elements-words fuel)
    ∙ ap (map (take dirsiz)) (sym (words-skip_slashes path))
