-- ===== src/Shell/Tokens.antt =====
-- `gettoken` and `peek` of user/sh.c use up the text.
use assignment.Common.{
  ℕ, ◌<◌, ◌≤◌, ◌≡◌, ◌≢◌, inl, inr, ◌==◌, true, false, ◌∙◌, ap, sym, refl, List, [], ◌∷◌, length,
  if◌then◌else◌, Bool-cases, arith,
}
use assignment.Shell.{
  is_one_of, whitespace, skip_space, in_word, span_word, Token, token_at, gettoken, starts_with,
  peek,
}

pub length-skip_space : (s : List ℕ) → length (skip_space s) ≤ length s
unfolding skip_space
length-skip_space [] = omega arith
length-skip_space (c ∷ s) =
    let ih = length-skip_space s in
    elim (Bool-cases (is_one_of whitespace c)) [
      | inl sp ↦ rw (sp, skip_space) (omega arith)
      | inr no' ↦ rw (no', skip_space) (omega arith)
    ]

-- No white space is left in front.
skip_space_front : (s : List ℕ) → starts_with whitespace (skip_space s) ≡ false
unfolding skip_space
skip_space_front [] = refl
skip_space_front (c ∷ s) = elim (Bool-cases (is_one_of whitespace c)) [
  | inl sp ↦ rw (sp, skip_space) (skip_space_front s)
  | inr no' ↦ rw (no', skip_space) no'
]

length-span_word : (s : List ℕ) → length (span_word s).1 ≤ length s
unfolding span_word
length-span_word [] = omega arith
length-span_word (c ∷ s) =
    let ih = length-span_word s in
    elim (Bool-cases (in_word c)) [
      | inl w ↦ rw (w, span_word) (omega arith)
      | inr no' ↦ rw (no', span_word) (omega arith)
    ]

-- Behind a `>`, and a second one.
double_rest :
    (c : ℕ) (s : List ℕ)
    → length
        (elim s as (λ _. Token) [
          | [] ↦ record { ret = c; word = c ∷ []; rest = skip_space s }
          | d ∷ s' ↦
              if d == b'>'
              then record { ret = b'+'; word = c ∷ d ∷ []; rest = skip_space s' }
              else record { ret = c; word = c ∷ []; rest = skip_space s }
        ]).rest
      ≤ length s
double_rest c [] = length-skip_space []
double_rest c (d ∷ s') =
    let one = length-skip_space (d ∷ s') in
    let two = length-skip_space s' in
    elim (Bool-cases (d == b'>')) [ inl e ↦ rw e (omega arith) | inr ne ↦ rw ne one ]

-- A token that does not start with white space takes a byte at least.
token_at_rest :
    (c : ℕ) (s : List ℕ)
    → is_one_of whitespace c ≡ false
    → length (token_at (c ∷ s)).rest ≤ length s
unfolding token_at span_word
token_at_rest c s no' =
    let skipped = length-skip_space s in
    elim (Bool-cases (is_one_of (b'|' ∷ b'(' ∷ b')' ∷ b';' ∷ b'&' ∷ b'<' ∷ []) c)) [
      | inl one ↦ rw (one, token_at) skipped
      | inr other ↦ elim (Bool-cases (c == b'>')) [
        | inl gt' ↦ rw (other, gt', token_at) (double_rest c s)
        | inr ngt ↦
            let w : in_word c ≡ true = ground arith in
            let sp = length-span_word s in
            let sk = length-skip_space (span_word s).1 in
            rw (other, ngt, token_at) (rw w (omega arith))
      ]
    ]

-- `gettoken` never goes back, and takes a byte where there is one that is no white space.
pub gettoken_le : (s : List ℕ) → length (gettoken s).rest ≤ length s
unfolding gettoken token_at
gettoken_le s =
    elim (skip_space s)
        as (λ t.
          length t ≤ length s
          → starts_with whitespace t ≡ false
          → length (token_at t).rest ≤ length s) [
            | [] ↦ λ le front. omega arith
            | c ∷ t ↦ λ le front. (let r = token_at_rest c t front in omega arith)
          ]
      (length-skip_space s) (skip_space_front s)

pub gettoken_lt : (s : List ℕ) → skip_space s ≢ [] → length (gettoken s).rest < length s
unfolding gettoken token_at
gettoken_lt s =
    elim (skip_space s)
        as (λ t.
          length t ≤ length s
          → starts_with whitespace t ≡ false
          → t ≢ []
          → length (token_at t).rest < length s) [
            | [] ↦ λ le front ne. absurd (ne refl)
            | c ∷ t ↦ λ le front ne. (let r = token_at_rest c t front in omega arith)
          ]
      (length-skip_space s) (skip_space_front s)

pub gettoken-peek : (toks s : List ℕ) → peek toks s ≡ true → length (gettoken s).rest < length s
unfolding peek
gettoken-peek toks s e =
    gettoken_lt s (λ z. absurd (let f : false ≡ true = ap (starts_with toks) (sym z) ∙ e in cc))

pub gettoken_some :
    (s : List ℕ) → ((gettoken s).ret == 0) ≡ false → length (gettoken s).rest < length s
unfolding gettoken token_at
gettoken_some s e =
    gettoken_lt s
      (λ z. absurd (let f : true ≡ false = ap (λ t. (token_at t).ret == 0) (sym z) ∙ e in cc))
