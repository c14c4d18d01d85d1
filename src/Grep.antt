-- ===== src/Grep.antt =====
-- user/grep.c: the matcher for patterns with ^ . * and $. A string is the bytes before its NUL.
pub mod Language
mod Tests
use assignment.Common.{ℕ, ◌==◌, Bool, true, false, ◌&&◌, ◌||◌, List, [], ◌∷◌, if◌then◌else◌}

-- '*', '$', '.' and '^'
abbrev pub star : ℕ
star = 42

abbrev pub dollar : ℕ
dollar = 36

abbrev pub dot : ℕ
dot = 46

abbrev pub caret : ℕ
caret = 94

abbrev pub is_nil : List ℕ → Bool
is_nil [] = true
is_nil (_ ∷ _) = false

-- The loop of `matchstar`; `here` is `matchhere` on the rest of the pattern.
unfoldable pub matchstar : (c : ℕ) (here : List ℕ → Bool) → List ℕ → Bool
matchstar c here [] = here []
matchstar c here (t ∷ text) = elim (here (t ∷ text)) [
  | true ↦ true
  | false ↦ elim (t == c || c == dot) [ true ↦ matchstar c here text | false ↦ false ]
]

-- The last case of `matchhere`: one byte, and `here` behind it.
abbrev pub match_one : (c : ℕ) (here : List ℕ → Bool) → List ℕ → Bool
match_one c here [] = false
match_one c here (t ∷ text) = if c == dot || c == t then here text else false

unfoldable pub matchhere : (re text : List ℕ) → Bool
unfolding matchstar
matchhere [] text = true
matchhere (c ∷ []) text = elim (c == dollar) [
  | true ↦ is_nil text
  | false ↦ match_one c (matchhere []) text
]
matchhere (c ∷ d ∷ re) text = elim (d == star) [
  | true ↦ matchstar c (matchhere re) text
  | false ↦ match_one c (matchhere (d ∷ re)) text
]

-- The loop of `match` over the text, its empty end included.
unfoldable pub match_from : (re text : List ℕ) → Bool
match_from re [] = matchhere re []
match_from re (t ∷ text) = elim (matchhere re (t ∷ text)) [
  | true ↦ true
  | false ↦ match_from re text
]

unfoldable pub match : (re text : List ℕ) → Bool
match [] text = match_from [] text
match (c ∷ re) text = if c == caret then matchhere re text else match_from (c ∷ re) text
