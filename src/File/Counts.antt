-- ===== src/File/Counts.antt =====
-- The reference counts of kernel/file.c.
use assignment.Common.{
  ℕ, zero, suc, ◌+◌, ◌-◌, ◌≤◌, ◌==◌, ◌≡◌, ◌≢◌, ◌⊎◌, inl, inr, ◌∙◌, refl, ap, subst, true, false,
  Option, none, some, [], ◌∷◌, ltb, get_elem?, set, get_elem?-set_self, get_elem?-set_ne,
  lt-length_of_get_elem?, Bool-cases, Option-cases, arith,
}
use assignment.File.{File, Files, filealloc_from, filealloc, filedup, kept, fileclose}

-- `filedup` behind its check, undone by `fileclose`: the table is as before, and nothing is closed.
pub fileclose-filedup :
    (i : ℕ) (fs : Files) (f : File)
    → get_elem? fs i ≡ some f
    → 1 ≤ f.ref
    → (fs' : Files) × (filedup i fs ≡ some fs')
      × (fs'' : Files) × (fileclose i fs' ≡ some (fs'', kept))
      × (get_elem? fs'' i ≡ some f)
      × ((j : ℕ) → i ≢ j → get_elem? fs'' j ≡ get_elem? fs j)
unfolding filedup fileclose
fileclose-filedup i fs f e live =
    let up : File = record f { ref = f.ref + 1 } in
    let down : File = record f { ref = f.ref + 1 - 1 } in
    let fs' = set fs i up in
    let at : get_elem? fs' i ≡ some up =
      get_elem?-set_self fs i up (lt-length_of_get_elem? fs i e) in
    let open' : ltb f.ref 1 ≡ false = ground arith in
    let open'' : ltb (f.ref + 1) 1 ≡ false = ground arith in
    let more : ltb 0 (f.ref + 1 - 1) ≡ true = ground arith in
    let same : down ≡ f = ap (λ r. record f { ref = r }) (omega arith) in
    (
      fs',
      rw (e, open', filedup),
      set fs' i down,
      rw (at, open'', more, fileclose),
      get_elem?-set_self fs' i down (lt-length_of_get_elem? fs' i at) ∙ ap some same,
      λ j ne. get_elem?-set_ne fs' i j down ne ∙ get_elem?-set_ne fs i j up ne,
    )

-- What a search from index i on may answer.
abbrev Allocates : Files → ℕ → Option (Files × ℕ) → Type 0
Allocates fs i none = (j : ℕ) (f : File) → get_elem? fs j ≡ some f → f.ref ≢ 0
Allocates fs i (some (fs', k)) =
    (j : ℕ) × (f : File) × (k ≡ i + j)
    × (get_elem? fs j ≡ some f)
    × (f.ref ≡ 0)
    × (get_elem? fs' j ≡ some (record f { ref = 1 }))
    × ((n : ℕ) → n ≢ j → get_elem? fs' n ≡ get_elem? fs n)

filealloc_from-Allocates : (fs : Files) (i : ℕ) → Allocates fs i (filealloc_from fs i)
unfolding filealloc_from
filealloc_from-Allocates [] i = λ j f e. absurd (cc)
filealloc_from-Allocates (g ∷ fs) i = elim (Bool-cases (g.ref == 0)) [
  | inl free ↦ rw (free, filealloc_from) (0, g, omega arith, refl, ground arith, refl, head_only)
  | inr busy ↦ elim (Option-cases (filealloc_from fs (i + 1))) [
    | inl none' ↦
        let rest : Allocates fs (i + 1) none =
          subst (Allocates fs (i + 1)) none' (filealloc_from-Allocates fs (i + 1)) in
        rw (busy, none', filealloc_from) (all_busy busy rest)
    | inr (r, found) ↦
        let (j, f, at, was, zero', now, others) =
          subst (Allocates fs (i + 1)) found (filealloc_from-Allocates fs (i + 1)) in
        rw (busy, found, filealloc_from)
          (suc j, f, omega arith, was, zero', now, below r.0 j others)
  ]
]
  where
    head_only : (n : ℕ) → n ≢ 0 → get_elem? (record g { ref = 1 } ∷ fs) n ≡ get_elem? (g ∷ fs) n
    head_only zero ne = absurd (ne refl)
    head_only (suc n) ne = refl

    same_head : (f : File) → get_elem? (g ∷ fs) 0 ≡ some f → g ≡ f
    same_head f e = cc

    all_busy :
        (g.ref == 0) ≡ false
        → ((j : ℕ) (f : File) → get_elem? fs j ≡ some f → f.ref ≢ 0)
        → (j : ℕ) (f : File) → get_elem? (g ∷ fs) j ≡ some f
        → f.ref ≢ 0
    all_busy busy rest zero f e = subst (λ x. x.ref ≢ 0) (same_head f e) (ground arith)
    all_busy busy rest (suc j) f e = rest j f e

    below :
        (fs' : Files) (j : ℕ)
        → ((n : ℕ) → n ≢ j → get_elem? fs' n ≡ get_elem? fs n)
        → (n : ℕ) → n ≢ suc j
        → get_elem? (g ∷ fs') n ≡ get_elem? (g ∷ fs) n
    below fs' j others zero ne = refl
    below fs' j others (suc n) ne = others n (λ e. ne (ap suc e))

-- `filealloc` takes an unused entry, gives it one reference and changes no other entry; it answers
-- none only when no entry is unused.
pub filealloc_lem :
    (fs : Files)
    → ((filealloc fs ≡ none) × ((j : ℕ) (f : File) → get_elem? fs j ≡ some f → f.ref ≢ 0))
      ⊎ ((fs' : Files) × (j : ℕ) × (f : File) × (filealloc fs ≡ some (fs', j))
          × (get_elem? fs j ≡ some f)
          × (f.ref ≡ 0)
          × (get_elem? fs' j ≡ some (record f { ref = 1 }))
          × ((n : ℕ) → n ≢ j → get_elem? fs' n ≡ get_elem? fs n))
unfolding filealloc
filealloc_lem fs = elim (Option-cases (filealloc fs)) [
  | inl none' ↦ inl (none', subst (Allocates fs 0) none' (filealloc_from-Allocates fs 0))
  | inr ((fs', k), found) ↦
      let (j, f, at, was, zero', now, others) =
        subst (Allocates fs 0) found (filealloc_from-Allocates fs 0) in
      let e : k ≡ j = omega arith in
      inr (fs', j, f, found ∙ ap (λ x. some (fs', x)) e, was, zero', now, others)
]
