-- ===== src/Fs/Path/Elem.antt =====
-- The elements of a path name: what skipelem of kernel/fs.c takes off, and why namex ends.
use mathlib.Core.Path.{fun_ext}
use assignment.Common.{
  ℕ, zero, suc, ◌<◌, ◌≤◌, ◌≡◌, ◌≢◌, ◌⊎◌, inl, inr, ◌==◌, Bool, false, none, some, List, [], ◌∷◌,
  ◌++◌, ◌∙◌, ap, sym, refl, subst, length, get_or, length-append, append-nil, Bool-cases,
  Option-cases, arith,
}
use assignment.Str.{Bytes}
use assignment.Fs.Path.{
  slash, skip_slashes, span_elem, copy_elem, skipelem, dirsiz, walk_elem, walk_path,
}

abbrev pub AllSlash : List ℕ → Type 0
AllSlash [] = Unit {0}
AllSlash (c ∷ cs) = (c ≡ slash) × AllSlash cs

abbrev pub NoSlash : List ℕ → Type 0
NoSlash [] = Unit {0}
NoSlash (c ∷ cs) = (c ≢ slash) × NoSlash cs

-- The path does not start with a slash, and ends or starts with one.
abbrev pub NotAtSlash : List ℕ → Type 0
NotAtSlash [] = Unit {0}
NotAtSlash (c ∷ cs) = c ≢ slash

abbrev AtSlash : List ℕ → Type 0
AtSlash [] = Unit {0}
AtSlash (c ∷ cs) = c ≡ slash

skip_slashes_lem :
    (p : List ℕ)
    → (pre : List ℕ) × (p ≡ pre ++ skip_slashes p) × AllSlash pre × NotAtSlash (skip_slashes p)
unfolding skip_slashes
skip_slashes_lem [] = ([], refl, tt, tt)
skip_slashes_lem (c ∷ p) = elim (Bool-cases (c == slash)) [
  | inr other ↦ rw (other, skip_slashes) ([], refl, tt, ground arith)
  | inl hit ↦
      let (pre, e, all, at) = skip_slashes_lem p in
      rw (hit, skip_slashes) (c ∷ pre, ap (λ x. c ∷ x) e, (ground arith, all), at)
]

span_elem_lem :
    (p : List ℕ)
    → (p ≡ (span_elem p).0 ++ (span_elem p).1) × NoSlash (span_elem p).0 × AtSlash (span_elem p).1
unfolding span_elem
span_elem_lem [] = (refl, tt, tt)
span_elem_lem (c ∷ p) = elim (Bool-cases (c == slash)) [
  | inl hit ↦ rw (hit, span_elem) (refl, tt, ground arith)
  | inr other ↦
      let (e, no', at) = span_elem_lem p in
      rw (other, span_elem) (ap (λ x. c ∷ x) e, (ground arith, no'), at)
]

-- The first element of a path: the slashes around it, and the rest.
pub record IsFirst (path pre elem post rest : List ℕ) : Type 0 where
  pub split : path ≡ pre ++ (elem ++ (post ++ rest))
  pub before : AllSlash pre
  pub element : NoSlash elem
  pub filled : 1 ≤ length elem
  pub after : AllSlash post
  pub trimmed : NotAtSlash rest
  pub whole : post ≡ [] → rest ≡ []

-- The element in `name`: its first 14 bytes, a NUL behind a shorter one, and nothing else written.
pub record IsCopied (elem : List ℕ) (name name' : Bytes) : Type 0 where
  pub bytes : (i : ℕ) → i < dirsiz → i < length elem → name' i ≡ get_or elem i 0
  pub ended : length elem < dirsiz → name' (length elem) ≡ 0
  pub kept : (i : ℕ) → dirsiz ≤ i → name' i ≡ name i

copy_elem-IsCopied : (elem : List ℕ) (name : Bytes) → IsCopied elem name (copy_elem elem name)
unfolding copy_elem
copy_elem-IsCopied elem name = record {
  bytes = λ i lt lt'. ground arith;
  ended = λ lt. ground arith;
  kept = λ i le. ground arith;
}

-- No element, or the first one taken off.
abbrev pub SkipelemEnds : List ℕ → Bytes → Type 0
SkipelemEnds path name =
    (AllSlash path × (skipelem path name ≡ none))
    ⊎ ((pre elem post rest : List ℕ) × (name' : Bytes) × (skipelem path name ≡ some (rest, name'))
        × IsFirst path pre elem post rest
        × IsCopied elem name name')

-- `skipelem` finds no element exactly in a path of slashes alone; else it takes off the first
-- element with the slashes around it and leaves the element in `name`.
pub skipelem_lem : (path : List ℕ) (name : Bytes) → SkipelemEnds path name
unfolding skipelem
skipelem_lem path name =
    let (pre, e, all, at) = skip_slashes_lem path in answer pre all (skip_slashes path) refl e at
  where
    end : (q : List ℕ) → AtSlash q → NotAtSlash q → q ≡ []
    end [] h h' = refl
    end (c ∷ q) h h' = absurd (h' h)

    answer :
        (pre : List ℕ)
        → AllSlash pre
        → (q : List ℕ) → skip_slashes path ≡ q
        → path ≡ pre ++ skip_slashes path
        → NotAtSlash (skip_slashes path)
        → SkipelemEnds path name
    answer pre all [] eq e at =
        inl
          (subst AllSlash (sym (e ∙ ap (λ x. pre ++ x) eq ∙ append-nil pre)) all, rw (eq, skipelem))
    answer pre all (c ∷ q) eq e at =
        let first : NotAtSlash (c ∷ q) = subst NotAtSlash eq at in
        let starts : (c == slash) ≡ false = ground arith in
        let (e', no', at') = span_elem_lem (c ∷ q) in
        let elem = (span_elem (c ∷ q)).0 in
        let tail = (span_elem (c ∷ q)).1 in
        let (post, e'', all', at'') = skip_slashes_lem tail in
        inr (
          pre,
          elem,
          post,
          skip_slashes tail,
          copy_elem elem name,
          rw (eq, skipelem),
          record {
            split = e ∙ ap (λ x. pre ++ x) (eq ∙ e' ∙ ap (λ x. elem ++ x) e'');
            before = all;
            element = no';
            filled = rw starts (omega arith);
            after = all';
            trimmed = at'';
            whole = λ z.
                end (skip_slashes tail)
                  (subst AtSlash (e'' ∙ ap (λ x. x ++ skip_slashes tail) z) at') at'';
          },
          copy_elem-IsCopied elem name,
        )

skipelem-length :
    (path : List ℕ) (name : Bytes) (rest : List ℕ) (name' : Bytes)
    → skipelem path name ≡ some (rest, name')
    → length rest < length path
skipelem-length path name rest name' e = elim (skipelem_lem path name) [
  | inl (all, none') ↦ absurd (cc)
  | inr (pre, elem, post, rest', n, e', first, copied) ↦
      let same : rest' ≡ rest = cc in
      omega (
        arith,
        ap length first.split,
        ap length same,
        first.filled,
        length-append pre (elem ++ (post ++ rest')),
        length-append elem (post ++ rest'),
        length-append post rest',
      )
]

-- The loop of `namex` ends by itself: with more rounds than the path has bytes, the number of rounds
-- changes neither the answer nor the state it leaves.
pub walk_path_ends :
    (k k' : ℕ) (path : List ℕ) (parent : Bool) (name : Bytes)
    → length path < k
    → length path < k'
    → walk_path k path parent name ≡ walk_path k' path parent name
unfolding walk_path
walk_path_ends zero k' path parent name lt lt' = absurd (omega arith)
walk_path_ends (suc k) zero path parent name lt lt' = absurd (omega arith)
walk_path_ends (suc k) (suc k') path parent name lt lt' = fun_ext λ ip.
    elim (Option-cases (skipelem path name)) [
      | inl last ↦ rw (last, walk_path)
      | inr ((rest, name'), more) ↦
          let shorter = skipelem-length path name rest name' more in
          let ih = walk_path_ends k k' rest parent name' (omega arith) (omega arith) in
          rw (more, walk_path) (ap (λ next. walk_elem parent rest name' next ip) ih)
    ]
