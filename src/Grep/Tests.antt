-- ===== src/Grep/Tests.antt =====
-- Patterns and texts for the matcher of user/grep.c.
use assignment.Common.{ℕ, ◌≡◌, ◌↔◌, refl, true, false, List, [], ◌∷◌}
use assignment.Grep.{matchhere, match_from, match}
use assignment.Grep.Language.{Accepts, match_iff}

-- "b.*d$" and "abcd"
abbrev pattern' : List ℕ
pattern' = 98 ∷ 46 ∷ 42 ∷ 100 ∷ 36 ∷ []

abbrev abcd : List ℕ
abcd = 97 ∷ 98 ∷ 99 ∷ 100 ∷ []

match-abcd : match pattern' abcd ≡ true
unfolding match match_from matchhere
match-abcd = refl

-- Behind '^' it does not match, since the text starts with 'a'.
match-anchored : match (94 ∷ pattern') abcd ≡ false
unfolding match matchhere
match-anchored = refl

match_iff_example : (match pattern' abcd ≡ true) ↔ Accepts pattern' abcd
match_iff_example = match_iff pattern' abcd
