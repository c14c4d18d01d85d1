-- ===== src/Shell.antt =====
-- The parser of user/sh.c. The text is the list of the bytes from `*ps` to `es`, where its NUL stands;
-- a word between q and eq is its bytes, which `nulterminate` makes a string of.
pub mod Tokens
pub mod Ends
pub mod Words
pub mod Pipelines
mod Tests
use assignment.Common.{
  ℕ, zero, suc, ◌+◌, ◌*◌, ◌==◌, Bool, true, false, not, ◌&&◌, ◌||◌, List, [], ◌∷◌, ◌++◌, length,
  leb, if◌then◌else◌,
}

-- A redirection: its file, the mode to open it with, and the descriptor.
pub record Redir : Type 0 where
  pub file : List ℕ
  pub mode : ℕ
  pub fd : ℕ

pub data Cmd : Type 0 where
  execcmd : (argv : List (List ℕ)) → Cmd
  redircmd : (subcmd : Cmd) → Redir → Cmd
  pipecmd : (left right : Cmd) → Cmd
  listcmd : (left right : Cmd) → Cmd
  backcmd : (subcmd : Cmd) → Cmd

-- `strchr(chars, c) != 0`
abbrev pub is_one_of : (chars : List ℕ) → ℕ → Bool
is_one_of [] c = false
is_one_of (d ∷ chars) c = d == c || is_one_of chars c

-- " \t\r\n\v"
abbrev pub whitespace : List ℕ
whitespace = 32 ∷ 9 ∷ 13 ∷ 10 ∷ 11 ∷ []

-- "<|>&;()"
abbrev pub symbols : List ℕ
symbols = b'<' ∷ b'|' ∷ b'>' ∷ b'&' ∷ b';' ∷ b'(' ∷ b')' ∷ []

-- `while(s < es && strchr(whitespace, *s)) s++`
unfoldable pub skip_space : List ℕ → List ℕ
skip_space [] = []
skip_space (c ∷ s) = let rest = skip_space s in if is_one_of whitespace c then rest else c ∷ s

abbrev pub in_word : ℕ → Bool
in_word c = not (is_one_of whitespace c) && not (is_one_of symbols c)

-- The bytes of a word, and what is behind them.
unfoldable pub span_word : List ℕ → List ℕ × List ℕ
span_word [] = ([], [])
span_word (c ∷ s) = let r = span_word s in if in_word c then (c ∷ r.0, r.1) else ([], c ∷ s)

-- What `gettoken` returns, the word from q to eq, and the text behind it.
pub record Token : Type 0 where
  pub ret : ℕ
  pub word : List ℕ
  pub rest : List ℕ

-- The switch of `gettoken`, at a byte that is no white space.
unfoldable pub token_at : List ℕ → Token
token_at [] = record { ret = 0; word = []; rest = [] }
token_at (c ∷ s) =
    let one : Token = record { ret = c; word = c ∷ []; rest = skip_space s } in
    let r = span_word (c ∷ s) in
    let word : Token = record { ret = b'a'; word = r.0; rest = skip_space r.1 } in
    if is_one_of (b'|' ∷ b'(' ∷ b')' ∷ b';' ∷ b'&' ∷ b'<' ∷ []) c
    then one
    else if c == b'>'
    then (elim s [
      | [] ↦ one
      | d ∷ s' ↦
          if d == b'>' then record { ret = b'+'; word = c ∷ d ∷ []; rest = skip_space s' } else one
    ])
    else word

unfoldable pub gettoken : List ℕ → Token
unfolding skip_space token_at
gettoken s = token_at (skip_space s)

-- `*s && strchr(toks, *s)`, the text being behind the white space.
abbrev pub starts_with : (toks : List ℕ) → List ℕ → Bool
starts_with toks [] = false
starts_with toks (c ∷ s) = is_one_of toks c

unfoldable pub peek : (toks : List ℕ) → List ℕ → Bool
unfolding skip_space
peek toks s = starts_with toks (skip_space s)

-- A result with the text that is left, a call of `panic`, or no rounds left.
pub data Outcome (A : Type 0) : Type 0 where
  done : A → List ℕ → Outcome A
  panic : Outcome A
  stuck : Outcome A

abbrev pub then_do : {A B : Type 0} → Outcome A → (A → List ℕ → Outcome B) → Outcome B
then_do (done a s) f = f a s
then_do panic f = panic
then_do stuck f = stuck

-- O_RDONLY; O_WRONLY | O_CREATE | O_TRUNC; O_WRONLY | O_CREATE.
abbrev pub redir_of : (tok : ℕ) (file : List ℕ) → Redir
redir_of tok file =
    if tok == b'<'
    then record { file = file; mode = 0; fd = 0 }
    else if tok == b'>'
    then record { file = file; mode = 0x601; fd = 1 }
    else record { file = file; mode = 0x201; fd = 1 }

-- The loop of `parseredirs`: the redirections that it puts around its command, innermost first.
unfoldable pub redirs_from : (rounds : ℕ) (found : List Redir) → List ℕ → Outcome (List Redir)
unfolding peek gettoken
redirs_from zero found s = stuck
redirs_from (suc n) found s =
    let t = gettoken s in
    let u = gettoken t.rest in
    elim (peek (b'<' ∷ b'>' ∷ []) s) [
      | false ↦ done found (skip_space s)
      | true ↦ elim (u.ret == b'a') [
        | true ↦ redirs_from n (found ++ (redir_of t.ret u.word ∷ [])) u.rest
        | false ↦ panic
      ]
    ]

unfoldable pub parseredirs : (found : List Redir) → List ℕ → Outcome (List Redir)
unfolding redirs_from
parseredirs found s = redirs_from (length s + 1) found s

abbrev pub wrap : List Redir → Cmd → Cmd
wrap [] cmd = cmd
wrap (r ∷ rs) cmd = wrap rs (redircmd cmd r)

-- MAXARGS
abbrev pub max_args : ℕ
max_args = 10

-- The loop of `parseexec`. The command around which the redirections go keeps its arguments till the
-- end, so both are found first and put together then.
unfoldable pub args_from :
    (rounds : ℕ) (argv : List (List ℕ)) (found : List Redir)
    → List ℕ
    → Outcome (List (List ℕ) × List Redir)
unfolding peek gettoken parseredirs
args_from zero argv found s = stuck
args_from (suc n) argv found s =
    let t = gettoken s in
    elim (peek (b'|' ∷ b')' ∷ b'&' ∷ b';' ∷ []) s) [
      | true ↦ done (argv, found) (skip_space s)
      | false ↦ elim (t.ret == 0) [
        | true ↦ done (argv, found) t.rest
        | false ↦ elim (not (t.ret == b'a') || leb max_args (length argv + 1)) [
          | true ↦ panic
          | false ↦
              then_do (parseredirs found t.rest)
                (λ found' s'. args_from n (argv ++ (t.word ∷ [])) found' s')
        ]
      ]
    ]

-- `while(peek(ps, es, "&"))`
unfoldable pub back_from : (rounds : ℕ) → Cmd → List ℕ → Outcome Cmd
unfolding peek gettoken
back_from zero cmd s = stuck
back_from (suc n) cmd s = elim (peek (b'&' ∷ []) s) [
  | false ↦ done cmd (skip_space s)
  | true ↦ back_from n (backcmd cmd) (gettoken s).rest
]

-- The four functions that call each other.
pub data Level : Type 0 where
  parseline parsepipe parseexec parseblock : Level

unfoldable pub parse : (fuel : ℕ) → Level → List ℕ → Outcome Cmd
unfolding peek gettoken parseredirs args_from back_from
parse zero level s = stuck
parse (suc n) parseline s = then_do (parse n parsepipe s) (λ cmd s₁.
    then_do (back_from (length s₁ + 1) cmd s₁) (λ cmd' s₂. elim (peek (b';' ∷ []) s₂) [
      | false ↦ done cmd' (skip_space s₂)
      | true ↦
          then_do (parse n parseline (gettoken s₂).rest) (λ right s₃. done (listcmd cmd' right) s₃)
    ]))
parse (suc n) parsepipe s = then_do (parse n parseexec s) (λ cmd s₁. elim (peek (b'|' ∷ []) s₁) [
  | false ↦ done cmd (skip_space s₁)
  | true ↦ then_do (parse n parsepipe (gettoken s₁).rest) (λ right s₂. done (pipecmd cmd right) s₂)
])
parse (suc n) parseexec s = elim (peek (b'(' ∷ []) s) [
  | true ↦ parse n parseblock (skip_space s)
  | false ↦ then_do (parseredirs [] (skip_space s)) (λ found s₁.
      then_do (args_from (length s₁ + 1) [] found s₁) (λ r s₂. done (wrap r.1 (execcmd r.0)) s₂))
]
parse (suc n) parseblock s = elim (peek (b'(' ∷ []) s) [
  | false ↦ panic
  | true ↦ then_do (parse n parseline (gettoken s).rest) (λ cmd s₁. elim (peek (b')' ∷ []) s₁) [
    | false ↦ panic
    | true ↦ then_do (parseredirs [] (gettoken s₁).rest) (λ found s₂. done (wrap found cmd) s₂)
  ])
]

-- Four calls for each byte of the text, and four.
unfoldable pub parsecmd : List ℕ → Outcome Cmd
unfolding parse
parsecmd s =
    then_do (parse (4 * length s + 4) parseline s)
      (λ cmd s₁. elim (skip_space s₁) [ [] ↦ done cmd [] | c ∷ s₂ ↦ panic ])
