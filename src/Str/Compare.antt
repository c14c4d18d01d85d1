-- ===== src/Str/Compare.antt =====
-- When `memcmp` and `strncmp` of string.c answer 0.
use assignment.Common.{
  ℕ, zero, suc, ◌+◌, ◌-◌, ◌≤◌, ◌<◌, ◌≡◌, ◌≢◌, ◌↔◌, ◌∙◌, refl, sym, ap, false, ℕ_discrete, arith,
}
use assignment.Common.Int.{pos, sub_ℕ}
use assignment.Str.{Bytes, memcmp_from, memcmp, strncmp_from, strncmp}
use assignment.Str.Copy.{ends_before, ends_before_mono}

sub_ℕ-eq-zero : (a b : ℕ) → sub_ℕ a b ≡ pos 0 → a ≡ b
sub_ℕ-eq-zero a b e = ground arith

memcmp_from_iff :
    (n i : ℕ) (p q : Bytes)
    → (memcmp_from n i p q ≡ pos 0) ↔ ((a : ℕ) → i ≤ a → a < i + n → p a ≡ q a)
unfolding memcmp_from
memcmp_from_iff zero i p q = (λ _ a lo hi. absurd (omega arith), λ _. refl)
memcmp_from_iff (suc n) i p q = elim (ℕ_discrete (p i) (q i)) [
  | yes e ↦
      let rest = memcmp_from_iff n (i + 1) p q in
      (
        λ z a lo hi. elim (ℕ_discrete i a) [
          | yes at ↦ ap p (sym at) ∙ e ∙ ap q at
          | no other ↦ rest.0 (ground arith) a (omega arith) (omega arith)
        ],
        λ all. ground (arith, rest.1 (λ a lo hi. all a (omega arith) (omega arith))),
      )
  | no ne ↦ (
    λ z. absurd (ne (sub_ℕ-eq-zero (p i) (q i) (ground arith))),
    λ all. absurd (ne (all i (omega arith) (omega arith))),
  )
]

-- `memcmp` answers 0 exactly when the first `n` bytes agree.
pub memcmp_iff : (p q : Bytes) (n : ℕ) → (memcmp p q n ≡ pos 0) ↔ ((a : ℕ) → a < n → p a ≡ q a)
unfolding memcmp
memcmp_iff p q n =
    let all = memcmp_from_iff n 0 p q in
    (
      λ z a h. all.0 z a (omega arith) (omega arith),
      λ same. all.1 (λ a lo hi. same a (omega arith)),
    )

strncmp_from_iff :
    (n i : ℕ) (p q : Bytes)
    → ends_before p i ≡ false
    → (strncmp_from n i p q ≡ pos 0)
      ↔ ((a : ℕ) → i ≤ a → a < i + n → ends_before p a ≡ false → p a ≡ q a)
unfolding strncmp_from
strncmp_from_iff zero i p q h = (λ _ a lo hi. absurd (omega arith), λ _. refl)
strncmp_from_iff (suc n) i p q h = elim (ℕ_discrete (p i) (q i)) [
  | yes e ↦ elim (ℕ_discrete (p i) 0) [
    | yes z ↦ (
      λ _ a lo hi open'. elim (ℕ_discrete i a) [
        | yes at ↦ ap p (sym at) ∙ e ∙ ap q at
        | no other ↦ absurd (ended a lo other z open')
      ],
      λ all. ground arith,
    )
    | no ne ↦
        let goes_on : ends_before p (i + 1) ≡ false =
          ap (ends_before p) (let k : i + 1 ≡ suc i = omega arith in k) ∙ ground arith in
        let rest = strncmp_from_iff n (i + 1) p q goes_on in
        (
          λ z a lo hi open'. elim (ℕ_discrete i a) [
            | yes at ↦ ap p (sym at) ∙ e ∙ ap q at
            | no other ↦ rest.0 (ground arith) a (omega arith) (omega arith) open'
          ],
          λ all. ground (arith, rest.1 (λ a lo hi. all a (omega arith) (omega arith))),
        )
  ]
  | no ne ↦ (
    λ z. absurd (ne (sub_ℕ-eq-zero (p i) (q i) (ground arith))),
    λ all. absurd (ne (all i (omega arith) (omega arith) h)),
  )
]
  where
    ended : (a : ℕ) → i ≤ a → i ≢ a → p i ≡ 0 → ends_before p a ≡ false → ⊥
    ended a lo ne z open' =
        let at : a ≡ i + suc (a - i - 1) = omega arith in
        let e = ap (ends_before p) at ∙ ends_before_mono p i (a - i - 1) z in cc

-- `strncmp` answers 0 exactly when the two strings agree at every index below `n` up to and with
-- the first NUL of `p`.
pub strncmp_iff :
    (p q : Bytes) (n : ℕ)
    → (strncmp p q n ≡ pos 0) ↔ ((a : ℕ) → a < n → ends_before p a ≡ false → p a ≡ q a)
unfolding strncmp
strncmp_iff p q n =
    let all = strncmp_from_iff n 0 p q refl in
    (
      λ z a h. all.0 z a (omega arith) (omega arith),
      λ same. all.1 (λ a lo hi. same a (omega arith)),
    )
