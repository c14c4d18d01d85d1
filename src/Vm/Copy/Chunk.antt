-- ===== src/Vm/Copy/Chunk.antt =====
-- The inner loop of `copyinstr` of kernel/vm.c.
use assignment.Common.{
  ℕ, zero, suc, ◌+◌, ◌-◌, ◌<◌, ◌≡◌, ◌≢◌, ◌⊎◌, inl, inr, ◌==◌, true, false, ◌∙◌, ap, sym, refl,
  subst, within, if◌then◌else◌, update, Bool-cases, ℕ_discrete, arith,
}
use assignment.Str.{Bytes}
use assignment.Vm.Copy.{StrCopy, copy_bytes}

-- The array dst with n bytes from f at its index `at`.
abbrev pub written : (at n : ℕ) (f dst : Bytes) → Bytes
written at n f dst x = if within at (at + n) x then f (x - at) else dst x

-- A run of the inner loop: it stops behind the first NUL, or at the end of the chunk.
module _ (mem : Bytes) where
  abbrev pub NoNul : (p n : ℕ) → Type 0
  NoNul p n = (j : ℕ) → j < n → mem (p + j) ≢ 0

  pub record StopsAt (n p i : ℕ) (s s' : StrCopy) : Type 0 where
    pub lt : i < n
    pub before : NoNul p i
    pub nul : mem (p + i) ≡ 0
    pub got : s'.got_null ≡ true
    pub bytes : (x : ℕ) → s'.dst x ≡ written s.at (suc i) (λ j. mem (p + j)) s.dst x

  pub record RunsOut (n p : ℕ) (s s' : StrCopy) : Type 0 where
    pub before : NoNul p n
    pub got : s'.got_null ≡ s.got_null
    pub max : s'.max ≡ s.max - n
    pub at : s'.at ≡ s.at + n
    pub bytes : (x : ℕ) → s'.dst x ≡ written s.at n (λ j. mem (p + j)) s.dst x

  -- One byte, and then the others.
  written-suc :
      (at n p : ℕ) (dst : Bytes) (x : ℕ)
      → written (at + 1) n (λ j. mem (p + 1 + j)) (update dst at (mem p)) x
        ≡ written at (suc n) (λ j. mem (p + j)) dst x
  written-suc at n p dst x = elim (ℕ_discrete at x) [
    | yes e ↦
        let hit : (at == x) ≡ true = ground arith in
        let out : within (at + 1) (at + 1 + n) x ≡ false = ground arith in
        let in' : within at (at + suc n) x ≡ true = ground arith in
        let e₀ : p ≡ p + (x - at) = omega arith in rw (hit, out, in') (ap mem e₀)
    | no ne ↦
        let miss : (at == x) ≡ false = ground arith in
        elim (Bool-cases (within (at + 1) (at + 1 + n) x)) [
          | inl in' ↦
              let in₂ : within at (at + suc n) x ≡ true = ground arith in
              let e₀ : p + 1 + (x - (at + 1)) ≡ p + (x - at) = ground arith in
              rw (in', in₂) (ap mem e₀)
          | inr out ↦
              let out₂ : within at (at + suc n) x ≡ false = ground arith in
              rw (miss, out, out₂) refl
        ]
  ]

  NoNul-suc : (p n : ℕ) → mem p ≢ 0 → NoNul (p + 1) n → NoNul p (suc n)
  NoNul-suc p n ne h zero lt = (let e : p + 0 ≡ p = omega arith in rw e ne)
  NoNul-suc p n ne h (suc j) lt =
      let e : p + 1 + j ≡ p + suc j = omega arith in subst (λ x. mem x ≢ 0) e (h j (omega arith))

  -- A byte that is not the NUL, and a run over the others.
  abbrev step : (p : ℕ) → StrCopy → StrCopy
  step p s = record s { max = s.max - 1; at = s.at + 1; dst = update s.dst s.at (mem p) }

  step_lem :
      (n p : ℕ) (s s' : StrCopy)
      → mem p ≢ 0
      → ((i : ℕ) × StopsAt n (p + 1) i (step p s) s') ⊎ RunsOut n (p + 1) (step p s) s'
      → ((i : ℕ) × StopsAt (suc n) p i s s') ⊎ RunsOut (suc n) p s s'
  step_lem n p s s' ne h = elim h [
    | inl (i, st) ↦ inl (
      suc i,
      record {
        lt = let lt = st.lt in omega arith;
        before = NoNul-suc p i ne st.before;
        nul = let e : p + 1 + i ≡ p + suc i = omega arith in subst (λ x. mem x ≡ 0) e st.nul;
        got = st.got;
        bytes = λ x. st.bytes x ∙ written-suc s.at (suc i) p s.dst x;
      },
    )
    | inr run ↦ inr (record {
      before = NoNul-suc p n ne run.before;
      got = run.got;
      max = run.max ∙ (omega arith);
      at = run.at ∙ (omega arith);
      bytes = λ x. run.bytes x ∙ written-suc s.at n p s.dst x;
    })
  ]

  -- The inner loop stops behind the first NUL of the chunk, or has none in it.
  pub copy_bytes_lem :
      (n p : ℕ) (s : StrCopy)
      → ((i : ℕ) × StopsAt n p i s (copy_bytes n p mem s)) ⊎ RunsOut n p s (copy_bytes n p mem s)
  unfolding copy_bytes
  copy_bytes_lem zero p s = inr (record {
    before = λ j lt. absurd (omega arith);
    got = refl;
    max = omega arith;
    at = omega arith;
    bytes = λ x. (let out : within s.at (s.at + 0) x ≡ false = ground arith in rw out refl);
  })
  copy_bytes_lem (suc n) p s = elim (ℕ_discrete (mem p) 0) [
    | yes z ↦
        let hit : (mem p == 0) ≡ true = ground arith in
        let e₀ : p + 0 ≡ p = omega arith in
        let last : (x : ℕ) → update s.dst s.at 0 x ≡ written s.at 1 (λ j. mem (p + j)) s.dst x =
          λ x.
            (let out : within (s.at + 1) (s.at + 1 + 0) x ≡ false = ground arith in
              ap (λ v. update s.dst s.at v x) (sym z)
              ∙ (rw out refl)
              ∙ written-suc s.at 0 p s.dst x) in
        inl (
          0,
          rw (hit, copy_bytes)
              (record {
                lt = omega arith;
                before = λ j lt. absurd (omega arith);
                nul = rw e₀ z;
                got = refl;
                bytes = last;
              }),
        )
    | no ne ↦
        let miss : (mem p == 0) ≡ false = ground arith in
        rw (miss, copy_bytes)
          (step_lem n p s (copy_bytes n (p + 1) mem (step p s)) ne
            (copy_bytes_lem n (p + 1) (step p s)))
  ]
