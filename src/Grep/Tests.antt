-- ===== src/Grep/Tests.antt =====
-- user/grep.c: an expression and two texts.
use xv6_riscv.Base.{ℕ, ◌≡◌, refl, true, false, List, [], ◌∷◌}
use xv6_riscv.Grep.{matchstar, matchone, matchhere, matchany, match_re, dot, star, dollar}
use xv6_riscv.Grep.Language.{Meaning}
use xv6_riscv.Grep.Complete.{match_re-Meaning}

-- a.*c$
abbrev pattern_ac : List ℕ
pattern_ac = 97 ∷ dot ∷ star ∷ 99 ∷ dollar ∷ []

-- xabcc
abbrev text_ac : List ℕ
text_ac = 120 ∷ 97 ∷ 98 ∷ 99 ∷ 99 ∷ []

taken : match_re pattern_ac text_ac ≡ true
unfolding match_re matchany matchhere matchone matchstar
taken = refl

not_taken : match_re pattern_ac (97 ∷ 99 ∷ 98 ∷ []) ≡ false
unfolding match_re matchany matchhere matchone matchstar
not_taken = refl

match_re-Meaning_example :
    (match_re pattern_ac text_ac ≡ true → Meaning pattern_ac text_ac)
    × (Meaning pattern_ac text_ac → match_re pattern_ac text_ac ≡ true)
match_re-Meaning_example = match_re-Meaning pattern_ac text_ac
