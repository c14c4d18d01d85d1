-- ===== src/Shell/Words.antt =====
-- The parser of user/sh.c on the words of a simple command.
use assignment.Common.{
  ℕ, zero, suc, ◌+◌, ◌<◌, ◌≤◌, ◌≡◌, ◌≢◌, ◌⊎◌, inl, inr, ◌==◌, Bool, true, false, not, ◌||◌, ◌∙◌, ap,
  sym, refl, subst, List, [], ◌∷◌, ◌++◌, append-nil, append_assoc, length, length-append, leb,
  arith,
}
use assignment.Shell.{
  Redir, Cmd, execcmd, is_one_of, whitespace, skip_space, in_word, span_word, Token, token_at,
  gettoken, starts_with, peek, Outcome, done, panic, then_do, redirs_from, parseredirs, args_from,
  parseexec, parse, max_args, wrap,
}

-- The bytes of a word.
abbrev pub AllInWord : List ℕ → Type 0
AllInWord [] = Unit {0}
AllInWord (c ∷ w) = (in_word c ≡ true) × AllInWord w

abbrev pub IsWords : List (List ℕ) → Type 0
IsWords [] = Unit {0}
IsWords (w ∷ ws) = (w ≢ []) × AllInWord w × IsWords ws

-- Words with a blank behind each.
unfoldable pub words_text : List (List ℕ) → List ℕ → List ℕ
words_text [] rest = rest
words_text (w ∷ ws) rest = w ++ (32 ∷ words_text ws rest)

-- A text that does not start with white space.
abbrev pub Front : List ℕ → Type 0
Front s = starts_with whitespace s ≡ false

pub skip_space-Front : (s : List ℕ) → Front s → skip_space s ≡ s
unfolding skip_space
skip_space-Front [] f = refl
skip_space-Front (c ∷ s) f = rw (f, skip_space) refl

span_word-AllInWord : (w t : List ℕ) → AllInWord w → span_word (w ++ (32 ∷ t)) ≡ (w, 32 ∷ t)
unfolding span_word
span_word-AllInWord [] t h = refl
span_word-AllInWord (c ∷ w) t h =
    rw (h.0, span_word) (ap (λ (r : List ℕ × List ℕ). (c ∷ r.0, r.1)) (span_word-AllInWord w t h.1))

abbrev word_token : (word rest : List ℕ) → Token
word_token word rest = record { ret = b'a'; word = word; rest = rest }

gettoken_word :
    (c : ℕ) (w t : List ℕ)
    → AllInWord (c ∷ w)
    → Front t
    → gettoken ((c ∷ w) ++ (32 ∷ t)) ≡ word_token (c ∷ w) t
unfolding gettoken token_at skip_space
gettoken_word c w t h f =
    let ok = h.0 in
    let sp : is_one_of whitespace c ≡ false = ground arith in
    let one : is_one_of (b'|' ∷ b'(' ∷ b')' ∷ b';' ∷ b'&' ∷ b'<' ∷ []) c ≡ false = ground arith in
    let gt' : (c == b'>') ≡ false = ground arith in
    rw (sp, skip_space, one, gt', token_at)
      (ap (λ (r : List ℕ × List ℕ). word_token r.0 (skip_space r.1))
          (span_word-AllInWord (c ∷ w) t h)
        ∙ ap (λ r. word_token (c ∷ w) r) (skip_space-Front t f))

peek-Front : (toks s : List ℕ) → Front s → peek toks s ≡ starts_with toks s
unfolding peek
peek-Front toks s f = ap (starts_with toks) (skip_space-Front s f)

-- No redirection stands there.
redirs_from_none :
    (n : ℕ) (found : List Redir) (s : List ℕ)
    → 0 < n
    → Front s
    → starts_with (b'<' ∷ b'>' ∷ []) s ≡ false
    → redirs_from n found s ≡ done found s
unfolding redirs_from
redirs_from_none zero found s lt f no' = absurd (omega arith)
redirs_from_none (suc n) found s lt f no' =
    let miss : peek (b'<' ∷ b'>' ∷ []) s ≡ false = peek-Front (b'<' ∷ b'>' ∷ []) s f ∙ no' in
    rw (miss, redirs_from) (ap (λ t. done found t) (skip_space-Front s f))

-- Where the words of a simple command end.
abbrev pub Stops : List ℕ → Type 0
Stops s = (s ≡ []) ⊎ ((t : List ℕ) × (s ≡ b'|' ∷ t))

Stops-Front : (s : List ℕ) → Stops s → Front s
Stops-Front s h = elim h [
  | inl e ↦ ap (starts_with whitespace) e
  | inr (t, e) ↦ ap (starts_with whitespace) e
]

pub words_text-Front :
    (ws : List (List ℕ)) (s : List ℕ) → IsWords ws → Front s → Front (words_text ws s)
unfolding words_text
words_text-Front [] s h f = f
words_text-Front ([] ∷ ws) s h f = absurd (h.0 refl)
words_text-Front ((c ∷ w) ∷ ws) s h f = let ok = h.1.0 in ground arith

-- No text of words starts a redirection.
words_text-plain :
    (ws : List (List ℕ)) (s : List ℕ)
    → IsWords ws
    → Stops s
    → starts_with (b'<' ∷ b'>' ∷ []) (words_text ws s) ≡ false
unfolding words_text
words_text-plain [] s h stop = elim stop [
  | inl e ↦ ap (starts_with (b'<' ∷ b'>' ∷ [])) e
  | inr (t, e) ↦ ap (starts_with (b'<' ∷ b'>' ∷ [])) e
]
words_text-plain ([] ∷ ws) s h stop = absurd (h.0 refl)
words_text-plain ((c ∷ w) ∷ ws) s h stop = let ok = h.1.0 in ground arith

parseredirs_none :
    (found : List Redir) (ws : List (List ℕ)) (s : List ℕ)
    → IsWords ws
    → Stops s
    → parseredirs found (words_text ws s) ≡ done found (words_text ws s)
unfolding parseredirs
parseredirs_none found ws s h stop =
    let t = words_text ws s in
    redirs_from_none (length t + 1) found t (omega arith)
      (words_text-Front ws s h (Stops-Front s stop)) (words_text-plain ws s h stop)

-- What follows `gettoken` in a round of `parseexec`.
abbrev args_round :
    (n : ℕ) (argv : List (List ℕ)) (found : List Redir)
    → Token
    → Outcome (List (List ℕ) × List Redir)
args_round n argv found t = elim (t.ret == 0) [
  | true ↦ done (argv, found) t.rest
  | false ↦ elim (not (t.ret == b'a') || leb max_args (length argv + 1)) [
    | true ↦ panic
    | false ↦
        then_do (parseredirs found t.rest)
          (λ found' s'. args_from n (argv ++ (t.word ∷ [])) found' s')
  ]
]

args_from-round :
    (n : ℕ) (argv : List (List ℕ)) (found : List Redir) (s : List ℕ)
    → peek (b'|' ∷ b')' ∷ b'&' ∷ b';' ∷ []) s ≡ false
    → args_from (suc n) argv found s ≡ args_round n argv found (gettoken s)
unfolding args_from
args_from-round n argv found s on = rw (on, args_from) refl

args_from_words :
    (n : ℕ) (argv ws : List (List ℕ)) (found : List Redir) (s : List ℕ)
    → length ws < n
    → length argv + length ws < max_args
    → IsWords ws
    → Stops s
    → args_from n argv found (words_text ws s) ≡ done (argv ++ ws, found) s
unfolding args_from words_text
args_from_words zero argv ws found s lt few h stop = absurd (omega arith)
args_from_words (suc n) argv [] found s lt few h stop = elim stop [
  | inl e ↦
      subst (λ x. args_from (suc n) argv found x ≡ done (argv ++ [], found) x) (sym e)
        (rw append-nil refl)
  | inr (t, e) ↦
      subst (λ x. args_from (suc n) argv found x ≡ done (argv ++ [], found) x) (sym e)
        (rw append-nil refl)
]
args_from_words (suc n) argv ([] ∷ ws) found s lt few h stop = absurd (h.0 refl)
args_from_words (suc n) argv ((c ∷ w) ∷ ws) found s lt few h stop =
    let ok = h.1.0 in
    let t = words_text ws s in
    let word = gettoken_word c w t h.1 (words_text-Front ws s h.2 (Stops-Front s stop)) in
    let on : peek (b'|' ∷ b')' ∷ b'&' ∷ b';' ∷ []) ((c ∷ w) ++ (32 ∷ t)) ≡ false =
      peek-Front (b'|' ∷ b')' ∷ b'&' ∷ b';' ∷ []) ((c ∷ w) ++ (32 ∷ t)) (ground arith)
      ∙ (ground arith) in
    let room : leb max_args (length argv + 1) ≡ false = ground arith in
    let rest = words_text ws s in
    let argv' = argv ++ ((c ∷ w) ∷ []) in
    args_from-round n argv found ((c ∷ w) ++ (32 ∷ t)) on
    ∙ ap (args_round n argv found) word
    ∙ ap
        (λ (b : Bool). elim b as (λ _. Outcome (List (List ℕ) × List Redir)) [
          | true ↦ panic
          | false ↦ then_do (parseredirs found rest) (λ found' s'. args_from n argv' found' s')
        ])
        room
    ∙ ap (λ o. then_do o (λ found' s'. args_from n argv' found' s'))
        (parseredirs_none found ws s h.2 stop)
    ∙ args_from_words n argv' ws found s (omega arith)
        (let e = length-append argv ((c ∷ w) ∷ []) in omega arith) h.2 stop
    ∙ ap (λ a. done (a, found) s) (rw append_assoc refl)

pub length-words_text :
    (ws : List (List ℕ)) (s : List ℕ) → length ws + length s ≤ length (words_text ws s)
unfolding words_text
length-words_text [] s = omega arith
length-words_text (w ∷ ws) s =
    let e = length-append w (32 ∷ words_text ws s) in let ih = length-words_text ws s in omega arith

-- No text of words starts a block.
words_text_no_block :
    (ws : List (List ℕ)) (s : List ℕ)
    → IsWords ws
    → Stops s
    → starts_with (b'(' ∷ []) (words_text ws s) ≡ false
unfolding words_text
words_text_no_block [] s h stop = elim stop [
  | inl e ↦ ap (starts_with (b'(' ∷ [])) e
  | inr (t, e) ↦ ap (starts_with (b'(' ∷ [])) e
]
words_text_no_block ([] ∷ ws) s h stop = absurd (h.0 refl)
words_text_no_block ((c ∷ w) ∷ ws) s h stop = let ok = h.1.0 in ground arith

-- A simple command.
pub parseexec_words :
    (n : ℕ) (ws : List (List ℕ)) (s : List ℕ)
    → 0 < n
    → length ws < max_args
    → IsWords ws
    → Stops s
    → parse n parseexec (words_text ws s) ≡ done (execcmd ws) s
unfolding parse
parseexec_words zero ws s lt few h stop = absurd (omega arith)
parseexec_words (suc n) ws s lt few h stop =
    let t = words_text ws s in
    let front = words_text-Front ws s h (Stops-Front s stop) in
    let no' : peek (b'(' ∷ []) t ≡ false =
      peek-Front (b'(' ∷ []) t front ∙ words_text_no_block ws s h stop in
    let args : List Redir → List ℕ → Outcome Cmd = λ found s₁.
      then_do (args_from (length s₁ + 1) [] found s₁) (λ r s₂. done (wrap r.1 (execcmd r.0)) s₂) in
    let long = length-words_text ws s in
    rw (no', parse)
      (ap (λ x. then_do (parseredirs [] x) args) (skip_space-Front t front)
        ∙ ap (λ o. then_do o args) (parseredirs_none [] ws s h stop)
        ∙ ap (λ o. then_do o (λ r s₂. done (wrap r.1 (execcmd r.0)) s₂))
            (args_from_words (length t + 1) [] ws [] s (omega arith) (omega arith) h stop))
