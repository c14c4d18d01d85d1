-- ===== src/Grep/Language.antt =====
-- The language of a pattern of user/grep.c, and that the matcher decides it.
use assignment.Common.{
  ℕ, ◌==◌, ◌≡◌, ◌↔◌, ◌⊎◌, inl, inr, ◌∙◌, ap, refl, Bool, true, ◌||◌, List, [], ◌∷◌, ◌++◌,
  append_assoc, if◌then◌else◌, Bool-cases, arith,
}
use assignment.Grep.{
  star, dollar, dot, caret, is_nil, matchstar, match_one, matchhere, match_from, match,
}

pub data Item : Type 0 where
  one : ℕ → Item
  many : ℕ → Item
  end : Item

-- The pattern behind its '^': `c*` before all else, then `$` where it stands last.
abbrev pub items : List ℕ → List Item
items [] = []
items (c ∷ []) = (if c == dollar then end else one c) ∷ []
items (c ∷ d ∷ re) = if d == star then many c ∷ items re else one c ∷ items (d ∷ re)

abbrev pub Fits : (c t : ℕ) → Type 0
Fits c t = (c ≡ dot) ⊎ (c ≡ t)

abbrev pub AllFit : (c : ℕ) → List ℕ → Type 0
AllFit c [] = Unit {0}
AllFit c (t ∷ w) = Fits c t × AllFit c w

-- The word w, with `rest` behind it, is in the language of the items.
abbrev pub Denotes : List Item → (w rest : List ℕ) → Type 0
Denotes [] w rest = w ≡ []
Denotes (one c ∷ is) w rest = (t : ℕ) × (v : List ℕ) × (w ≡ t ∷ v) × Fits c t × Denotes is v rest
Denotes (many c ∷ is) w rest = (u v : List ℕ) × (w ≡ u ++ v) × AllFit c u × Denotes is v rest
Denotes (end ∷ is) w rest = (w ≡ []) × (rest ≡ [])

-- A prefix of the text is in the language.
abbrev pub StartsWith : List Item → List ℕ → Type 0
StartsWith is text = (w rest : List ℕ) × (text ≡ w ++ rest) × Denotes is w rest

matchstar_sound :
    (c : ℕ) (here : List ℕ → Bool) (is : List Item)
    → ((text : List ℕ) → here text ≡ true → StartsWith is text)
    → (text : List ℕ) → matchstar c here text ≡ true
    → StartsWith (many c ∷ is) text
unfolding matchstar
matchstar_sound c here is sound [] h =
    let (w, rest, e, d) = sound [] h in (w, rest, e, ([], w, refl, tt, d))
matchstar_sound c here is sound (t ∷ text) h = elim (Bool-cases (here (t ∷ text))) [
  | inl now ↦ let (w, rest, e, d) = sound (t ∷ text) now in (w, rest, e, ([], w, refl, tt, d))
  | inr later ↦ elim (Bool-cases (t == c || c == dot)) [
    | inr stop ↦ absurd (ground arith)
    | inl go ↦
        let h' : matchstar c here text ≡ true = ground arith in
        let (w, rest, e, d') = matchstar_sound c here is sound text h' in
        (
          t ∷ w,
          rest,
          ap (λ x. t ∷ x) e,
          (t ∷ d'.0, d'.1, ap (λ x. t ∷ x) d'.2, (ground arith, d'.3), d'.4),
        )
  ]
]

matchstar_complete :
    (c : ℕ) (here : List ℕ → Bool) (u text : List ℕ)
    → AllFit c u
    → here text ≡ true
    → matchstar c here (u ++ text) ≡ true
unfolding matchstar
matchstar_complete c here [] [] fit h = h
matchstar_complete c here [] (t ∷ text) fit h = rw h
matchstar_complete c here (t ∷ u) text fit h = elim (Bool-cases (here (t ∷ (u ++ text)))) [
  | inl now ↦ rw now
  | inr later ↦
      let go : (t == c || c == dot) ≡ true = ground arith in
      rw (later, go, matchstar) (matchstar_complete c here u text fit.1 h)
]

-- One byte, and a match of the items behind it.
match_one_sound :
    (c : ℕ) (here : List ℕ → Bool) (is : List Item)
    → ((text : List ℕ) → here text ≡ true → StartsWith is text)
    → (text : List ℕ) → match_one c here text ≡ true
    → StartsWith (one c ∷ is) text
match_one_sound c here is sound [] h = absurd (cc)
match_one_sound c here is sound (t ∷ text) h =
    let fit : Fits c t = ground arith in
    let (w, rest, e, d) = sound text (ground arith) in
    (t ∷ w, rest, ap (λ x. t ∷ x) e, (t, w, refl, fit, d))

matchhere_sound : (re text : List ℕ) → matchhere re text ≡ true → StartsWith (items re) text
unfolding matchhere
matchhere_sound [] text h = ([], text, refl, refl)
matchhere_sound (c ∷ []) text h = elim (Bool-cases (c == dollar)) [
  | inl last ↦ rw last (at_end text (rw (last, matchhere) at h))
  | inr other ↦
      rw other
        (match_one_sound c (matchhere []) [] (matchhere_sound []) text (rw (other, matchhere) at h))
]
  where
    at_end : (text : List ℕ) → is_nil text ≡ true → StartsWith (end ∷ []) text
    at_end [] h = ([], [], refl, (refl, refl))
    at_end (t ∷ text) h = absurd (cc)
matchhere_sound (c ∷ d ∷ re) text h = elim (Bool-cases (d == star)) [
  | inl starred ↦ rw starred (
      matchstar_sound c (matchhere re) (items re) (matchhere_sound re) text
        (rw (starred, matchhere) at h))
  | inr plain ↦ rw plain (
      match_one_sound c (matchhere (d ∷ re)) (items (d ∷ re)) (matchhere_sound (d ∷ re)) text
        (rw (plain, matchhere) at h))
]

match_one_complete :
    (c t : ℕ) (here : List ℕ → Bool) (text : List ℕ)
    → Fits c t
    → here text ≡ true
    → match_one c here (t ∷ text) ≡ true
match_one_complete c t here text fit h =
    let hit : (c == dot || c == t) ≡ true = ground arith in rw (hit, h)

matchhere_complete :
    (re w rest : List ℕ) → Denotes (items re) w rest → matchhere re (w ++ rest) ≡ true
unfolding matchhere
matchhere_complete [] w rest d = refl
matchhere_complete (c ∷ []) w rest d = elim (Bool-cases (c == dollar)) [
  | inl last ↦ let d' : Denotes (end ∷ []) w rest = rw last at d in rw (last, matchhere, d'.0, d'.1)
  | inr other ↦
      let d' : Denotes (one c ∷ []) w rest = rw other at d in
      let e : w ++ rest ≡ d'.0 ∷ (d'.1 ++ rest) = ap (λ x. x ++ rest) d'.2 in
      rw (other, matchhere, e)
        (match_one_complete c d'.0 (matchhere []) (d'.1 ++ rest) d'.3
          (matchhere_complete [] d'.1 rest d'.4))
]
matchhere_complete (c ∷ x ∷ re) w rest d = elim (Bool-cases (x == star)) [
  | inl starred ↦
      let d' : Denotes (many c ∷ items re) w rest = rw starred at d in
      let e : w ++ rest ≡ d'.0 ++ (d'.1 ++ rest) =
        ap (λ y. y ++ rest) d'.2 ∙ append_assoc d'.0 d'.1 rest in
      rw (starred, matchhere, e)
        (matchstar_complete c (matchhere re) d'.0 (d'.1 ++ rest) d'.3
          (matchhere_complete re d'.1 rest d'.4))
  | inr plain ↦
      let d' : Denotes (one c ∷ items (x ∷ re)) w rest = rw plain at d in
      let e : w ++ rest ≡ d'.0 ∷ (d'.1 ++ rest) = ap (λ y. y ++ rest) d'.2 in
      rw (plain, matchhere, e)
        (match_one_complete c d'.0 (matchhere (x ∷ re)) (d'.1 ++ rest) d'.3
          (matchhere_complete (x ∷ re) d'.1 rest d'.4))
]

-- A match somewhere in the text.
abbrev pub Contains : List Item → List ℕ → Type 0
Contains is text = (pre post : List ℕ) × (text ≡ pre ++ post) × StartsWith is post

match_from_sound : (re text : List ℕ) → match_from re text ≡ true → Contains (items re) text
unfolding match_from
match_from_sound re [] h = ([], [], refl, matchhere_sound re [] h)
match_from_sound re (t ∷ text) h = elim (Bool-cases (matchhere re (t ∷ text))) [
  | inl now ↦ ([], t ∷ text, refl, matchhere_sound re (t ∷ text) now)
  | inr later ↦
      let h' : match_from re text ≡ true = rw (later, match_from) at h in
      let (pre, post, e, s) = match_from_sound re text h' in (t ∷ pre, post, ap (λ x. t ∷ x) e, s)
]

match_from_complete :
    (re pre post : List ℕ) → matchhere re post ≡ true → match_from re (pre ++ post) ≡ true
unfolding match_from
match_from_complete re [] [] h = h
match_from_complete re [] (t ∷ post) h = rw (h, match_from)
match_from_complete re (t ∷ pre) post h = elim (Bool-cases (matchhere re (t ∷ (pre ++ post)))) [
  | inl now ↦ rw (now, match_from)
  | inr later ↦ rw (later, match_from) (match_from_complete re pre post h)
]

-- What a pattern asks of a text: a match at its start behind '^', and anywhere else.
abbrev pub Accepts : (re text : List ℕ) → Type 0
Accepts [] text = Contains [] text
Accepts (c ∷ re) text =
    if c == caret then StartsWith (items re) text else Contains (items (c ∷ re)) text

matchhere_iff : (re text : List ℕ) → (matchhere re text ≡ true) ↔ StartsWith (items re) text
matchhere_iff re text = (
  matchhere_sound re text,
  λ (w, rest, e, d). ap (matchhere re) e ∙ matchhere_complete re w rest d,
)

match_from_iff : (re text : List ℕ) → (match_from re text ≡ true) ↔ Contains (items re) text
match_from_iff re text = (
  match_from_sound re text,
  λ (pre, post, e, s).
      ap (match_from re) e ∙ match_from_complete re pre post ((matchhere_iff re post).1 s),
)

-- `match` accepts a text exactly when a part of it, or its start behind '^', is in the language of
-- the pattern.
pub match_iff : (re text : List ℕ) → (match re text ≡ true) ↔ Accepts re text
unfolding match
match_iff [] text = match_from_iff [] text
match_iff (c ∷ re) text = elim (Bool-cases (c == caret)) [
  | inl anchored ↦ rw anchored (matchhere_iff re text)
  | inr free ↦ rw free (match_from_iff (c ∷ re) text)
]
