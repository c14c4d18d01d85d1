-- ===== src/Shell/Pipelines.antt =====
-- The parser of user/sh.c on pipelines of simple commands.
use assignment.Common.{
  ℕ, zero, suc, ◌+◌, ◌*◌, ◌<◌, ◌≤◌, ◌≡◌, inl, inr, true, false, ◌∙◌, ap, refl, List, [], ◌∷◌,
  length, arith,
}
use assignment.Shell.{
  Cmd, execcmd, pipecmd, listcmd, skip_space, gettoken, peek, Outcome, done, panic, then_do,
  back_from, parseline, parsepipe, parse, parsecmd, max_args,
}
use assignment.Shell.Words.{
  IsWords, words_text, Front, skip_space-Front, words_text-Front, length-words_text,
  parseexec_words,
}

-- A pipeline: its first command and the others, with a bar before each of them.
unfoldable pub pipe_text : List (List ℕ) → List (List (List ℕ)) → List ℕ
unfolding words_text
pipe_text ws [] = words_text ws []
pipe_text ws (vs ∷ ps) = words_text ws (b'|' ∷ pipe_text vs ps)

abbrev pub pipe_of : List (List ℕ) → List (List (List ℕ)) → Cmd
pipe_of ws [] = execcmd ws
pipe_of ws (vs ∷ ps) = pipecmd (execcmd ws) (pipe_of vs ps)

-- The commands have less than MAXARGS words.
abbrev pub IsPipeline : List (List ℕ) → List (List (List ℕ)) → Type 0
IsPipeline ws [] = IsWords ws × (length ws < max_args)
IsPipeline ws (vs ∷ ps) = IsWords ws × (length ws < max_args) × IsPipeline vs ps

pipe_text-Front :
    (ws : List (List ℕ)) (ps : List (List (List ℕ))) → IsPipeline ws ps → Front (pipe_text ws ps)
unfolding pipe_text
pipe_text-Front ws [] h = words_text-Front ws [] h.0 refl
pipe_text-Front ws (vs ∷ ps) h = words_text-Front ws (b'|' ∷ pipe_text vs ps) h.0 refl

-- What follows the first command in `parsepipe`.
abbrev pipe_rest : (n : ℕ) → Cmd → List ℕ → Outcome Cmd
pipe_rest n cmd s₁ = elim (peek (b'|' ∷ []) s₁) [
  | false ↦ done cmd (skip_space s₁)
  | true ↦ then_do (parse n parsepipe (gettoken s₁).rest) (λ right s₂. done (pipecmd cmd right) s₂)
]

parsepipe_pipeline :
    (n : ℕ) (ws : List (List ℕ)) (ps : List (List (List ℕ)))
    → length ps + 1 < n
    → IsPipeline ws ps
    → parse n parsepipe (pipe_text ws ps) ≡ done (pipe_of ws ps) []
unfolding parse pipe_text
parsepipe_pipeline zero ws ps lt h = absurd (omega arith)
parsepipe_pipeline (suc n) ws [] lt h =
    ap (λ o. then_do o (pipe_rest n)) (parseexec_words n ws [] (omega arith) h.1 h.0 (inl refl))
parsepipe_pipeline (suc n) ws (vs ∷ ps) lt h =
    let t = pipe_text vs ps in
    ap (λ o. then_do o (pipe_rest n))
      (parseexec_words n ws (b'|' ∷ t) (omega arith) h.1 h.0 (inr (t, refl)))
    ∙ ap (λ x. then_do (parse n parsepipe x) (λ right s₂. done (pipecmd (execcmd ws) right) s₂))
        (skip_space-Front t (pipe_text-Front vs ps h.2))
    ∙ ap (λ o. then_do o (λ right s₂. done (pipecmd (execcmd ws) right) s₂))
        (parsepipe_pipeline n vs ps (omega arith) h.2)

length-pipe_text :
    (ws : List (List ℕ)) (ps : List (List (List ℕ))) → length ps ≤ length (pipe_text ws ps)
unfolding pipe_text
length-pipe_text ws [] = omega arith
length-pipe_text ws (vs ∷ ps) =
    let ih = length-pipe_text vs ps in
    let e = length-words_text ws (b'|' ∷ pipe_text vs ps) in omega arith

-- What follows the pipe in `parseline`.
abbrev line_rest : (n : ℕ) → Cmd → List ℕ → Outcome Cmd
line_rest n cmd s₁ = then_do (back_from (length s₁ + 1) cmd s₁) (λ cmd' s₂.
    elim (peek (b';' ∷ []) s₂) [
      | false ↦ done cmd' (skip_space s₂)
      | true ↦
          then_do (parse n parseline (gettoken s₂).rest) (λ right s₃. done (listcmd cmd' right) s₃)
    ])

parseline_pipeline :
    (n : ℕ) (ws : List (List ℕ)) (ps : List (List (List ℕ)))
    → length ps + 2 < n
    → IsPipeline ws ps
    → parse n parseline (pipe_text ws ps) ≡ done (pipe_of ws ps) []
unfolding parse back_from
parseline_pipeline zero ws ps lt h = absurd (omega arith)
parseline_pipeline (suc n) ws ps lt h =
    ap (λ o. then_do o (line_rest n)) (parsepipe_pipeline n ws ps (omega arith) h)

-- The shell reads a pipeline, its words written with a blank behind each and its commands with a bar
-- between, as the pipe of these commands, if every word is of the bytes of words and not empty, and
-- every command has less than MAXARGS of them.
pub parsecmd-pipe_text :
    (ws : List (List ℕ)) (ps : List (List (List ℕ)))
    → IsPipeline ws ps
    → parsecmd (pipe_text ws ps) ≡ done (pipe_of ws ps) []
unfolding parsecmd
parsecmd-pipe_text ws ps h =
    let t = pipe_text ws ps in
    let long = length-pipe_text ws ps in
    ap (λ o. then_do o (λ cmd s₁. elim (skip_space s₁) [ [] ↦ done cmd [] | c ∷ s₂ ↦ panic ]))
      (parseline_pipeline (4 * length t + 4) ws ps (omega arith) h)
