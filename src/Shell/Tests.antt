-- ===== src/Shell/Tests.antt =====
-- Commands read by the parser of user/sh.c, and the theorem about it at one.
use assignment.Common.{ℕ, ◌≡◌, refl, arith, List, [], ◌∷◌}
use assignment.Shell.{execcmd, redircmd, pipecmd, backcmd, done, panic, span_word, parsecmd}
use assignment.Shell.Ends.{Ends, parsecmd-Ends}
use assignment.Shell.Pipelines.{pipe_text, pipe_of, parsecmd-pipe_text}

-- "a>>f|b c&"
abbrev text : List ℕ
text = b'a' ∷ b'>' ∷ b'>' ∷ b'f' ∷ b'|' ∷ b'b' ∷ 32 ∷ b'c' ∷ b'&' ∷ []

parsecmd_text :
    parsecmd text
    ≡ done
        (backcmd (
          pipecmd
            (redircmd
              (execcmd ((b'a' ∷ []) ∷ []))
              (record { file = b'f' ∷ []; mode = 0x201; fd = 1 }))
            (execcmd ((b'b' ∷ []) ∷ (b'c' ∷ []) ∷ []))))
        []
unfolding parsecmd span_word
parsecmd_text = refl

-- "(a;b" has no closing parenthesis.
parsecmd_open : parsecmd (b'(' ∷ b'a' ∷ b';' ∷ b'b' ∷ []) ≡ panic
unfolding parsecmd span_word
parsecmd_open = refl

parsecmd-Ends_example : Ends 0 (parsecmd text)
parsecmd-Ends_example = parsecmd-Ends text

-- "a b |c "
parsecmd-pipe_text_example :
    parsecmd (pipe_text ((b'a' ∷ []) ∷ (b'b' ∷ []) ∷ []) (((b'c' ∷ []) ∷ []) ∷ []))
    ≡ done (pipe_of ((b'a' ∷ []) ∷ (b'b' ∷ []) ∷ []) (((b'c' ∷ []) ∷ []) ∷ [])) []
parsecmd-pipe_text_example =
    parsecmd-pipe_text ((b'a' ∷ []) ∷ (b'b' ∷ []) ∷ []) (((b'c' ∷ []) ∷ []) ∷ []) (
      (λ e. absurd (cc), (refl, tt), (λ e. absurd (cc), (refl, tt), tt)),
      omega arith,
      ((λ e. absurd (cc), (refl, tt), tt), omega arith),
    )
