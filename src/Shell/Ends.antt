-- ===== src/Shell/Ends.antt =====
-- The parser of user/sh.c ends on every text.
use assignment.Common.{
  ℕ, zero, suc, ◌+◌, ◌*◌, ◌<◌, ◌≤◌, ◌≡◌, ◌==◌, Bool, true, false, not, ◌||◌, refl, List, [], ◌∷◌,
  ◌++◌, length, leb, arith,
}
use assignment.Shell.{
  Redir, Cmd, backcmd, skip_space, gettoken, peek, Outcome, done, panic, stuck, then_do, redir_of,
  redirs_from, parseredirs, max_args, args_from, back_from, Level, parseline, parsepipe, parseexec,
  parseblock, parse, parsecmd,
}
use assignment.Shell.Tokens.{length-skip_space, gettoken_le, gettoken-peek, gettoken_some}

-- An end, with at most n bytes left.
abbrev pub Ends : {A : Type 0} → (n : ℕ) → Outcome A → Type 0
Ends n (done a s) = length s ≤ n
Ends n panic = Unit {0}
Ends n stuck = 1 ≤ 0

Ends-then_do :
    {A B : Type 0} (m n : ℕ) (o : Outcome A) (f : A → List ℕ → Outcome B)
    → Ends m o
    → ((a : A) (s : List ℕ) → length s ≤ m → Ends n (f a s))
    → Ends n (then_do o f)
Ends-then_do m n (done a s) f h k = k a s h
Ends-then_do m n panic f h k = tt
Ends-then_do m n stuck f h k = absurd (omega arith)

-- The branches of a test, which may be used in them.
Ends-test :
    {A : Type 0} (n : ℕ) (b : Bool) (x y : Outcome A)
    → (b ≡ true → Ends n x)
    → (b ≡ false → Ends n y)
    → Ends n (elim b [ true ↦ x | false ↦ y ])
Ends-test n true x y h h' = h refl
Ends-test n false x y h h' = h' refl

weaken : {A : Type 0} (m n : ℕ) (o : Outcome A) → m ≤ n → Ends m o → Ends n o
weaken m n (done a s) le h = omega arith
weaken m n panic le h = tt
weaken m n stuck le h = h

redirs_from-Ends :
    (n : ℕ) (found : List Redir) (s : List ℕ)
    → length s < n
    → Ends (length s) (redirs_from n found s)
unfolding redirs_from
redirs_from-Ends zero found s lt = absurd (omega arith)
redirs_from-Ends (suc n) found s lt =
    let t = gettoken s in
    let u = gettoken t.rest in
    Ends-test (length s) (peek (b'<' ∷ b'>' ∷ []) s) _ _
      (λ e.
        Ends-test (length s) (u.ret == b'a') _ _
          (λ e'.
            (let one = gettoken-peek (b'<' ∷ b'>' ∷ []) s e in
              let two = gettoken_le t.rest in
              weaken (length u.rest) (length s)
                (redirs_from n (found ++ (redir_of t.ret u.word ∷ [])) u.rest) (omega arith)
                (redirs_from-Ends n (found ++ (redir_of t.ret u.word ∷ [])) u.rest (omega arith))))
          (λ e'. tt))
      (λ e. length-skip_space s)

parseredirs-Ends : (found : List Redir) (s : List ℕ) → Ends (length s) (parseredirs found s)
unfolding parseredirs
parseredirs-Ends found s = redirs_from-Ends (length s + 1) found s (omega arith)

args_from-Ends :
    (n : ℕ) (argv : List (List ℕ)) (found : List Redir) (s : List ℕ)
    → length s < n
    → Ends (length s) (args_from n argv found s)
unfolding args_from
args_from-Ends zero argv found s lt = absurd (omega arith)
args_from-Ends (suc n) argv found s lt =
    let t = gettoken s in
    Ends-test (length s) (peek (b'|' ∷ b')' ∷ b'&' ∷ b';' ∷ []) s) _ _ (λ e. length-skip_space s)
      (λ e.
        Ends-test (length s) (t.ret == 0) _ _ (λ e'. gettoken_le s)
          (λ e'.
            (let one = gettoken_some s e' in
              Ends-test (length s) (not (t.ret == b'a') || leb max_args (length argv + 1)) _ _
                (λ _. tt)
                (λ _.
                  Ends-then_do (length t.rest) (length s) (parseredirs found t.rest) _
                    (parseredirs-Ends found t.rest)
                    (λ found' s' le.
                      weaken (length s') (length s) (args_from n (argv ++ (t.word ∷ [])) found' s')
                        (omega arith)
                        (args_from-Ends n (argv ++ (t.word ∷ [])) found' s' (omega arith)))))))

back_from-Ends :
    (n : ℕ) (cmd : Cmd) (s : List ℕ) → length s < n → Ends (length s) (back_from n cmd s)
unfolding back_from
back_from-Ends zero cmd s lt = absurd (omega arith)
back_from-Ends (suc n) cmd s lt =
    Ends-test (length s) (peek (b'&' ∷ []) s) _ _
      (λ e.
        (let one = gettoken-peek (b'&' ∷ []) s e in
          let s' = (gettoken s).rest in
          weaken (length s') (length s) (back_from n (backcmd cmd) s') (omega arith)
            (back_from-Ends n (backcmd cmd) s' (omega arith))))
      (λ e. length-skip_space s)

-- How far from `parseblock` a function stands.
abbrev rank : Level → ℕ
rank parseline = 3
rank parsepipe = 2
rank parseexec = 1
rank parseblock = 0

parse-Ends :
    (n : ℕ) (level : Level) (s : List ℕ)
    → 4 * length s + rank level < n
    → Ends (length s) (parse n level s)
unfolding parse
parse-Ends zero level s lt = absurd (omega arith)
parse-Ends (suc n) parseline s lt =
    Ends-then_do (length s) (length s) (parse n parsepipe s) _
      (parse-Ends n parsepipe s (omega arith))
      (λ cmd s₁ le.
        Ends-then_do (length s₁) (length s) (back_from (length s₁ + 1) cmd s₁) _
          (back_from-Ends (length s₁ + 1) cmd s₁ (omega arith))
          (λ cmd' s₂ le'.
            Ends-test (length s) (peek (b';' ∷ []) s₂) _ _
              (λ e.
                (let one = gettoken-peek (b';' ∷ []) s₂ e in
                  let s₃ = (gettoken s₂).rest in
                  Ends-then_do (length s₃) (length s) (parse n parseline s₃) _
                    (parse-Ends n parseline s₃ (omega arith)) (λ right s₄ le₃. omega arith)))
              (λ e. (let sk = length-skip_space s₂ in omega arith))))
parse-Ends (suc n) parsepipe s lt =
    Ends-then_do (length s) (length s) (parse n parseexec s) _
      (parse-Ends n parseexec s (omega arith))
      (λ cmd s₁ le.
        Ends-test (length s) (peek (b'|' ∷ []) s₁) _ _
          (λ e.
            (let one = gettoken-peek (b'|' ∷ []) s₁ e in
              let s₂ = (gettoken s₁).rest in
              Ends-then_do (length s₂) (length s) (parse n parsepipe s₂) _
                (parse-Ends n parsepipe s₂ (omega arith)) (λ right s₃ le₃. omega arith)))
          (λ e. (let sk = length-skip_space s₁ in omega arith)))
parse-Ends (suc n) parseexec s lt =
    let s₀ = skip_space s in
    let sk = length-skip_space s in
    Ends-test (length s) (peek (b'(' ∷ []) s) _ _
      (λ e.
        weaken (length s₀) (length s) (parse n parseblock s₀) sk
          (parse-Ends n parseblock s₀ (omega arith)))
      (λ e.
        Ends-then_do (length s₀) (length s) (parseredirs [] s₀) _ (parseredirs-Ends [] s₀)
          (λ found s₁ le.
            Ends-then_do (length s₁) (length s) (args_from (length s₁ + 1) [] found s₁) _
              (args_from-Ends (length s₁ + 1) [] found s₁ (omega arith)) (λ r s₂ le₂. omega arith)))
parse-Ends (suc n) parseblock s lt =
    Ends-test (length s) (peek (b'(' ∷ []) s) _ _
      (λ e.
        (let one = gettoken-peek (b'(' ∷ []) s e in
          let s₀ = (gettoken s).rest in
          Ends-then_do (length s₀) (length s) (parse n parseline s₀) _
            (parse-Ends n parseline s₀ (omega arith))
            (λ cmd s₁ le.
              Ends-test (length s) (peek (b')' ∷ []) s₁) _ _
                (λ e'.
                  (let s₂ = (gettoken s₁).rest in
                    let le₂ = gettoken_le s₁ in
                    Ends-then_do (length s₂) (length s) (parseredirs [] s₂) _
                      (parseredirs-Ends [] s₂) (λ found s₃ le₃. omega arith)))
                (λ e'. tt))))
      (λ e. tt)

-- `parsecmd` comes to an end on every text: a command that uses all of it, or a call of `panic`.
pub parsecmd-Ends : (s : List ℕ) → Ends 0 (parsecmd s)
unfolding parsecmd
parsecmd-Ends s =
    Ends-then_do (length s) 0 (parse (4 * length s + 4) parseline s) _
      (parse-Ends (4 * length s + 4) parseline s (omega arith))
      (λ cmd s₁ le.
        elim (skip_space s₁)
          as (λ t. Ends 0 (elim t as (λ _. Outcome Cmd) [ [] ↦ done cmd [] | c ∷ s₂ ↦ panic ])) [
            | [] ↦ omega arith
            | c ∷ s₂ ↦ tt
          ])
