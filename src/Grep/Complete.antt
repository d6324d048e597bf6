-- ===== src/Grep/Complete.antt =====
-- user/grep.c: the matcher takes each text that has a word of the expression.
use xv6_riscv.Base.{
  ℕ, ◌≡◌, refl, sym, ap, ◌∙◌, subst, Bool, true, false, ◌||◌, ◌&&◌, List, [], ◌∷◌, append_assoc,
  ◌++◌, All, if◌then◌else◌, ◌==◌, eq→==, inl, inr,
}
use xv6_riscv.Grep.{
  caret, dollar, dot, star, is_end, matchstar, matchone, matchhere, matchany, match_re,
}
use xv6_riscv.Grep.Sound.{match_re_sound}
use xv6_riscv.Grep.Language.{once, many, Agrees, Expression, more, parse, Here, Somewhere, Meaning}

or_left : (a b : Bool) → a ≡ true → (a || b) ≡ true
or_left true b e = refl
or_left false b e = absurd (cc)

or_right : (a b : Bool) → b ≡ true → (a || b) ≡ true
or_right true b e = refl
or_right false b e = e

and_both : (a b : Bool) → a ≡ true → b ≡ true → (a && b) ≡ true
and_both true b e f = f
and_both false b e f = absurd (cc)

Agrees-test : (c x : ℕ) → Agrees c x → (c == dot || c == x) ≡ true
Agrees-test c x (inl any) = or_left (c == dot) (c == x) (eq→== c dot any)
Agrees-test c x (inr same) = or_right (c == dot) (c == x) (eq→== c x same)

star-test : (c x : ℕ) → Agrees c x → (x == c || c == dot) ≡ true
star-test c x (inl any) = or_right (x == c) (c == dot) (eq→== c dot any)
star-test c x (inr same) = or_left (x == c) (c == dot) (eq→== x c (sym same))

module _ (e : Expression) (here : List ℕ → Bool)
    (ok : (t : List ℕ) → Here e t → here t ≡ true) where
  matchone_complete : (c : ℕ) (t : List ℕ) → Here (more (once c) e) t → matchone here c t ≡ true
  unfolding matchone
  matchone_complete c t (w, (rest, (at, ((x, (v, (split, (same, word)))), ends)))) =
      subst (λ s. matchone here c s ≡ true) (sym (at ∙ ap (λ l. l ++ rest) split))
        (and_both (c == dot || c == x) (here (v ++ rest)) (Agrees-test c x same)
          (ok (v ++ rest) (v, (rest, (refl, (word, ends))))))

  -- The characters `u` that the star takes, one after the other.
  matchstar_taken :
      (c : ℕ) (u s : List ℕ) → All (Agrees c) u → here s ≡ true → matchstar here c (u ++ s) ≡ true
  unfolding matchstar
  matchstar_taken c [] [] all found = found
  matchstar_taken c [] (x ∷ s) all found =
      or_left (here (x ∷ s)) ((x == c || c == dot) && matchstar here c s) found
  matchstar_taken c (x ∷ u) s (same, all) found =
      or_right (here (x ∷ (u ++ s))) ((x == c || c == dot) && matchstar here c (u ++ s)) (
        and_both (x == c || c == dot) (matchstar here c (u ++ s)) (star-test c x same)
          (matchstar_taken c u s all found))

  matchstar_complete : (c : ℕ) (t : List ℕ) → Here (more (many c) e) t → matchstar here c t ≡ true
  matchstar_complete c t (w, (rest, (at, ((u, (v, (split, (all, word)))), ends)))) =
      subst (λ s. matchstar here c s ≡ true)
        (sym (at ∙ (ap (λ l. l ++ rest) split ∙ append_assoc u v rest)))
        (matchstar_taken c u (v ++ rest) all (ok (v ++ rest) (v, (rest, (refl, (word, ends))))))

  matchany_complete :
      (before after : List ℕ) → Here e after → matchany here (before ++ after) ≡ true
  unfolding matchany
  matchany_complete [] [] h = ok [] h
  matchany_complete [] (x ∷ t) h = or_left (here (x ∷ t)) (matchany here t) (ok (x ∷ t) h)
  matchany_complete (x ∷ before) t h =
      or_right (here (x ∷ (before ++ t))) (matchany here (before ++ t))
        (matchany_complete before t h)

longer_complete :
    (c d : ℕ) (re t : List ℕ) (b : Bool)
    → ((s : List ℕ) → Here (parse re) s → matchhere re s ≡ true)
    → ((s : List ℕ) → Here (parse (d ∷ re)) s → matchhere (d ∷ re) s ≡ true)
    → Here (elim b [ true ↦ more (many c) (parse re) | false ↦ more (once c) (parse (d ∷ re)) ]) t
    → elim b [
      | true ↦ matchstar (λ s. matchhere re s) c t
      | false ↦ matchone (λ s. matchhere (d ∷ re) s) c t
    ]
      ≡ true
longer_complete c d re t true ok ok' h =
    matchstar_complete (parse re) (λ s. matchhere re s) ok c t h
longer_complete c d re t false ok ok' h =
    matchone_complete (parse (d ∷ re)) (λ s. matchhere (d ∷ re) s) ok' c t h

at_end : (t : List ℕ) → Here (record { items = []; ends = true }) t → is_end t ≡ true
at_end t (w, (rest, (at, (word, ends)))) =
    subst (λ s. is_end s ≡ true) (sym (at ∙ (ap (λ l. l ++ rest) word ∙ ends refl))) refl

last_complete :
    (c : ℕ) (t : List ℕ) (b : Bool)
    → ((s : List ℕ) → Here (parse []) s → matchhere [] s ≡ true)
    → Here
        (if b
          then record { items = []; ends = true }
          else record { items = once c ∷ []; ends = false })
        t
    → (if b then is_end t else matchone (λ s. matchhere [] s) c t) ≡ true
unfolding parse
last_complete c t true ok h = at_end t h
last_complete c t false ok h = matchone_complete (parse []) (λ s. matchhere [] s) ok c t h

matchhere_complete : (re t : List ℕ) → Here (parse re) t → matchhere re t ≡ true
unfolding matchhere parse
matchhere_complete [] t h = refl
matchhere_complete (c ∷ []) t h = last_complete c t (c == dollar) (matchhere_complete []) h
matchhere_complete (c ∷ d ∷ re) t h =
    longer_complete c d re t (d == star) (matchhere_complete re) (matchhere_complete (d ∷ re)) h

Somewhere-complete : (re t : List ℕ) → Somewhere (parse re) t → matchany (matchhere re) t ≡ true
Somewhere-complete re t (before, (after, (at, h))) =
    subst (λ s. matchany (matchhere re) s ≡ true) (sym at)
      (matchany_complete (parse re) (matchhere re) (matchhere_complete re) before after h)

caret_complete :
    (c : ℕ) (re t : List ℕ) (b : Bool)
    → (if b then Here (parse re) t else Somewhere (parse (c ∷ re)) t)
    → (if b then matchhere re t else matchany (matchhere (c ∷ re)) t) ≡ true
caret_complete c re t true h = matchhere_complete re t h
caret_complete c re t false h = Somewhere-complete (c ∷ re) t h

match_re_complete : (re t : List ℕ) → Meaning re t → match_re re t ≡ true
unfolding match_re
match_re_complete [] t h = Somewhere-complete [] t h
match_re_complete (c ∷ re) t h = caret_complete c re t (c == caret) h

-- Match answers true just where the text has a word of the expression: one that begins the text
-- if the expression begins with ^, and ends it if the expression ends with $.
pub match_re-Meaning :
    (re t : List ℕ) → (match_re re t ≡ true → Meaning re t) × (Meaning re t → match_re re t ≡ true)
match_re-Meaning re t = (match_re_sound re t, match_re_complete re t)
