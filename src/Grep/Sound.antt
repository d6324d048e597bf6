-- ===== src/Grep/Sound.antt =====
-- user/grep.c: a text that the matcher takes has a word of the expression.
use xv6_riscv.Base.{
  ℕ, ◌≡◌, refl, sym, ap, subst, Bool, true, false, ◌||◌, ◌&&◌, List, [], ◌∷◌, if◌then◌else◌, ◌==◌,
  ==→eq, ◌⊎◌, inl, inr, Bool-cases,
}
use xv6_riscv.Grep.{
  caret, dollar, dot, star, is_end, matchstar, matchone, matchhere, matchany, match_re,
}
use xv6_riscv.Grep.Language.{once, many, Agrees, Expression, more, parse, Here, Somewhere, Meaning}

pub or_cases : (a b : Bool) → (a || b) ≡ true → (a ≡ true) ⊎ ((a ≡ false) × (b ≡ true))
or_cases true b e = inl refl
or_cases false b e = inr (refl, e)

pub and_cases : (a b : Bool) → (a && b) ≡ true → (a ≡ true) × (b ≡ true)
and_cases true b e = (refl, e)
and_cases false b e = absurd (cc)

agrees : (c x : ℕ) → (c == dot || c == x) ≡ true → Agrees c x
agrees c x e = elim (or_cases (c == dot) (c == x) e) [
  | inl any ↦ inl (==→eq c dot any)
  | inr (_, same) ↦ inr (==→eq c x same)
]

Agrees-star : (c x : ℕ) → (x == c || c == dot) ≡ true → Agrees c x
Agrees-star c x e = elim (or_cases (x == c) (c == dot) e) [
  | inl same ↦ inr (sym (==→eq x c same))
  | inr (_, any) ↦ inl (==→eq c dot any)
]

module _ (e : Expression) (here : List ℕ → Bool)
    (ok : (t : List ℕ) → here t ≡ true → Here e t) where
  matchone_sound : (c : ℕ) (t : List ℕ) → matchone here c t ≡ true → Here (more (once c) e) t
  unfolding matchone
  matchone_sound c [] h = absurd (cc)
  matchone_sound c (x ∷ t) h =
      let (same, found) = and_cases (c == dot || c == x) (here t) h in
      let (w, (rest, (at, (word, ends)))) = ok t found in
      (x ∷ w, (rest, (ap (λ l. x ∷ l) at, ((x, (w, (refl, (agrees c x same, word)))), ends))))

  none_taken : (c : ℕ) (t : List ℕ) → Here e t → Here (more (many c) e) t
  none_taken c t (w, (rest, (at, (word, ends)))) =
      (w, (rest, (at, (([], (w, (refl, (tt, word)))), ends))))

  one_taken :
      (c x : ℕ) (t : List ℕ)
      → Agrees c x
      → Here (more (many c) e) t
      → Here (more (many c) e) (x ∷ t)
  one_taken c x t same (w, (rest, (at, ((u, (v, (split, (all, word)))), ends)))) = (
    x ∷ w,
    (
      rest,
      (ap (λ l. x ∷ l) at, ((x ∷ u, (v, (ap (λ l. x ∷ l) split, ((same, all), word)))), ends)),
    ),
  )

  matchstar_sound : (c : ℕ) (t : List ℕ) → matchstar here c t ≡ true → Here (more (many c) e) t
  unfolding matchstar
  matchstar_sound c [] h = none_taken c [] (ok [] h)
  matchstar_sound c (x ∷ t) h =
      elim (or_cases (here (x ∷ t)) ((x == c || c == dot) && matchstar here c t) h) [
        | inl found ↦ none_taken c (x ∷ t) (ok (x ∷ t) found)
        | inr (_, both) ↦
            let (same, later) = and_cases (x == c || c == dot) (matchstar here c t) both in
            one_taken c x t (Agrees-star c x same) (matchstar_sound c t later)
      ]

  matchany_sound : (t : List ℕ) → matchany here t ≡ true → Somewhere e t
  unfolding matchany
  matchany_sound [] h = ([], ([], (refl, ok [] h)))
  matchany_sound (x ∷ t) h = elim (or_cases (here (x ∷ t)) (matchany here t) h) [
    | inl found ↦ ([], (x ∷ t, (refl, ok (x ∷ t) found)))
    | inr (_, later) ↦
        let (before, (after, (at, found))) = matchany_sound t later in
        (x ∷ before, (after, (ap (λ l. x ∷ l) at, found)))
  ]

-- An expression of two characters or more, by whether the second is a star.
longer_sound :
    (c d : ℕ) (re t : List ℕ) (b : Bool)
    → ((s : List ℕ) → matchhere re s ≡ true → Here (parse re) s)
    → ((s : List ℕ) → matchhere (d ∷ re) s ≡ true → Here (parse (d ∷ re)) s)
    → elim b [
      | true ↦ matchstar (λ s. matchhere re s) c t
      | false ↦ matchone (λ s. matchhere (d ∷ re) s) c t
    ]
      ≡ true
    → Here (elim b [ true ↦ more (many c) (parse re) | false ↦ more (once c) (parse (d ∷ re)) ]) t
longer_sound c d re t true ok ok' h = matchstar_sound (parse re) (λ s. matchhere re s) ok c t h
longer_sound c d re t false ok ok' h =
    matchone_sound (parse (d ∷ re)) (λ s. matchhere (d ∷ re) s) ok' c t h

pub matchhere_sound : (re t : List ℕ) → matchhere re t ≡ true → Here (parse re) t
unfolding matchhere parse
matchhere_sound [] t h = ([], (t, (refl, (refl, λ e. absurd (cc)))))
matchhere_sound (c ∷ []) t h = elim (Bool-cases (c == dollar)) [
  | inl end ↦ rw end (
      at_end t
        (subst (λ b. (if b then is_end t else matchone (λ s. matchhere [] s) c t) ≡ true) end h))
  | inr other ↦ rw other (
      matchone_sound (parse []) (λ s. matchhere [] s) (matchhere_sound []) c t
        (subst (λ b. (if b then is_end t else matchone (λ s. matchhere [] s) c t) ≡ true) other h))
]
  where
    at_end : (s : List ℕ) → is_end s ≡ true → Here (record { items = []; ends = true }) s
    at_end [] e = ([], ([], (refl, (refl, λ _. refl))))
    at_end (x ∷ s) e = absurd (cc)
matchhere_sound (c ∷ d ∷ re) t h =
    longer_sound c d re t (d == star) (matchhere_sound re) (matchhere_sound (d ∷ re)) h

pub match_re_sound : (re t : List ℕ) → match_re re t ≡ true → Meaning re t
unfolding match_re
match_re_sound [] t h = matchany_sound (parse []) (matchhere []) (matchhere_sound []) t h
match_re_sound (c ∷ re) t h = elim (Bool-cases (c == caret)) [
  | inl anchored ↦ rw anchored (
      matchhere_sound re t (
        subst (λ b. (if b then matchhere re t else matchany (matchhere (c ∷ re)) t) ≡ true) anchored
          h))
  | inr free ↦ rw free (
      matchany_sound (parse (c ∷ re)) (matchhere (c ∷ re)) (matchhere_sound (c ∷ re)) t (
        subst (λ b. (if b then matchhere re t else matchany (matchhere (c ∷ re)) t) ≡ true) free h))
]
