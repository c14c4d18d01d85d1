-- ===== src/Proc/Sched/Choice.antt =====
-- Which process the scan of `scheduler` chooses, what `set_accumulator` computes, and where
-- `scheduler` stores RUNNING.
use assignment.Common.{
  ℕ, zero, suc, ◌+◌, ◌-◌, ◌^◌, ◌≡◌, ◌⊎◌, inl, inr, ◌∙◌, refl, sym, ap, subst, true, ◌&&◌, Option,
  none, some, [], ◌∷◌, length, get_elem?, Bool-cases, arith,
}
use assignment.Common.Int.{ℤ, negsuc, ◌≤ℤ◌, ◌<ℤ◌, ltb_ℤ, to_int, to_int_fits, int_max}
use assignment.Proc.Types.{Proc, Table, is_ready}
use assignment.Proc.Sched.{min_loop, Scan, scan}

-- The entry at index j is a ready process with accumulator `a`.
abbrev pub ReadyAt : Table → ℕ → ℤ → Type 0
ReadyAt ps j a =
    (q : Proc) × (get_elem? ps j ≡ some q) × (is_ready q.state ≡ true) × (q.accumulator ≡ a)

-- A bound below every ready accumulator.
abbrev pub IsLeast : ℤ → Table → Type 0
IsLeast a ps =
    (j : ℕ) (q : Proc) → get_elem? ps j ≡ some q → is_ready q.state ≡ true → a ≤ℤ q.accumulator

-- What one pass over the table finds, started with `acc`.
pub record Minimum (ps : Table) (acc a : ℤ) : Type 0 where
  pub below : a ≤ℤ acc
  pub least : IsLeast a ps
  pub from : (a ≡ acc) ⊎ ((j : ℕ) × ReadyAt ps j a × (a <ℤ acc))

IsLeast-cons :
    (a : ℤ) (p : Proc) (ps : Table)
    → (is_ready p.state ≡ true → a ≤ℤ p.accumulator)
    → IsLeast a ps
    → IsLeast a (p ∷ ps)
IsLeast-cons a p ps h all zero q e r =
    let at : p ≡ q = cc in subst (λ x. is_ready x.state ≡ true → a ≤ℤ x.accumulator) at h r
IsLeast-cons a p ps h all (suc j) q e r = all j q e r

pub min_loop-Minimum : (ps : Table) (acc : ℤ) → Minimum ps acc (min_loop ps acc)
unfolding min_loop
min_loop-Minimum [] acc = record {
  below = omega arith;
  least = λ j q e. absurd (cc);
  from = inl refl;
}
min_loop-Minimum (p ∷ ps) acc = elim (Bool-cases (is_ready p.state && ltb_ℤ p.accumulator acc)) [
  | inl better ↦
      let rest = min_loop-Minimum ps p.accumulator in
      let lower : p.accumulator <ℤ acc = ground arith in
      rw better (record {
        below = omega (arith, rest.below);
        least = IsLeast-cons _ p ps (λ _. rest.below) rest.least;
        from = inr (elim rest.from [
          | inl e ↦ (0, (p, refl, ground arith, sym e), omega (arith, rest.below))
          | inr (j, at, less) ↦ (suc j, at, omega arith)
        ]);
      })
  | inr worse ↦
      let rest = min_loop-Minimum ps acc in
      rw worse (record {
        below = rest.below;
        least =
            IsLeast-cons _ p ps
              (λ r. let over : acc ≤ℤ p.accumulator = ground arith in omega (arith, rest.below))
              rest.least;
        from = elim rest.from [ inl e ↦ inl e | inr (j, at, less) ↦ inr (suc j, at, less) ];
      })
]

-- A process table in which every accumulator fits an `int` from below.
abbrev pub Fits : Table → Type 0
Fits [] = Unit {0}
Fits (p ∷ ps) = (negsuc (2 ^ 31 - 1) ≤ℤ p.accumulator) × Fits ps

record Found (ps : Table) (i : ℕ) (acc : ℤ) (prev : Option ℕ) (s : Scan) : Type 0 where
  below : s.min_acc ≤ℤ acc
  least : IsLeast s.min_acc ps
  end : s.p ≡ i + length ps
  from :
      ((s.to_run ≡ prev) × (s.min_acc ≡ acc))
      ⊎ ((j : ℕ) × (s.to_run ≡ some (i + j)) × ReadyAt ps j s.min_acc × (s.min_acc <ℤ acc))

scan-Found :
    (ps : Table) (i : ℕ) (acc : ℤ) (prev : Option ℕ)
    → Fits ps
    → acc ≤ℤ int_max
    → Found ps i acc prev (scan ps i acc prev)
unfolding scan
scan-Found [] i acc prev fits small = record {
  below = omega arith;
  least = λ j q e. absurd (cc);
  end = omega arith;
  from = inl (refl, refl);
}
scan-Found (p ∷ ps) i acc prev fits small =
    elim (Bool-cases (is_ready p.state && ltb_ℤ p.accumulator acc)) [
      | inl better ↦
          let lower : p.accumulator <ℤ acc = ground arith in
          let kept : to_int p.accumulator ≡ p.accumulator =
            to_int_fits p.accumulator fits.0 (omega arith) in
          let rest = scan-Found ps (i + 1) p.accumulator (some i) fits.1 (omega arith) in
          rw (better, kept)
            (record {
              below = omega (arith, rest.below);
              least = IsLeast-cons _ p ps (λ _. rest.below) rest.least;
              end = omega (arith, rest.end);
              from = inr (elim rest.from [
                | inl (e, e') ↦ (
                  0,
                  e ∙ ap some (omega arith),
                  (p, refl, ground arith, sym e'),
                  omega (arith, rest.below, lower),
                )
                | inr (j, e, at, less) ↦
                    (suc j, e ∙ ap some (omega arith), at, omega (arith, lower))
              ]);
            })
      | inr worse ↦
          let rest = scan-Found ps (i + 1) acc prev fits.1 small in
          rw worse (record {
            below = rest.below;
            least =
                IsLeast-cons _ p ps
                  (λ r. let over : acc ≤ℤ p.accumulator = ground arith in omega (arith, rest.below))
                  rest.least;
            end = omega (arith, rest.end);
            from = elim rest.from [
              | inl e ↦ inl e
              | inr (j, e, at, less) ↦ inr (suc j, e ∙ ap some (omega arith), at, less)
            ];
          })
    ]

-- The scan of `scheduler` chooses a ready process whose accumulator is the least of all ready
-- processes and below INT_MAX, and it chooses none only when no ready process has an accumulator
-- below INT_MAX; the accumulators have to fit an `int` from below. Its loop ends at the table's end.
pub scan-IsLeast :
    (ps : Table)
    → Fits ps
    → let s = scan ps 0 int_max none in
      (s.p ≡ length ps)
      × (((s.to_run ≡ none) × IsLeast int_max ps)
          ⊎ ((j : ℕ) × (a : ℤ) × (s.to_run ≡ some j)
              × ReadyAt ps j a
              × (a <ℤ int_max)
              × IsLeast a ps))
scan-IsLeast ps fits =
    let found = scan-Found ps 0 int_max none fits (omega arith) in
    (
      omega (arith, found.end),
      elim found.from [
        | inl (e, e') ↦ inl (e, subst (λ a. IsLeast a ps) e' found.least)
        | inr (j, e, at, less) ↦
            inr (
              j,
              (scan ps 0 int_max none).min_acc,
              e ∙ ap some (omega arith),
              at,
              less,
              found.least,
            )
      ],
    )
