-- ===== src/Log/Header.antt =====
-- The in-memory header under `log_write`: absorption, and a header free of duplicates.
use assignment.Common.{
  ℕ, zero, suc, ◌+◌, ◌≤◌, ◌<◌, ◌==◌, ◌≡◌, ◌≢◌, ◌∙◌, refl, sym, ap, true, ◌||◌, if◌then◌else◌,
  update, ℕ_discrete, dec_lt, arith,
}
use assignment.Log.{
  Machine, Log, LogHeader, log_size, max_op_blocks, Begun, asleep, admitted, Result, ok, panic,
  begin_op, end_op, commit, find_block, log_write,
}
use assignment.Log.Crash.{logs, logs_of_block, logs_none}

-- The blocks of the header are distinct.
abbrev pub Distinct : LogHeader → Type 0
Distinct lh = (i j : ℕ) → i < lh.n → j < lh.n → lh.block i ≡ lh.block j → i ≡ j

module _ (lh : LogHeader) (b : ℕ) where
  find_block_bounds : (k i : ℕ) → (i ≤ find_block lh b k i) × (find_block lh b k i ≤ i + k)
  unfolding find_block
  find_block_bounds zero i = omega arith
  find_block_bounds (suc k) i = ground (arith, find_block_bounds k (i + 1))

  find_block_found : (k i : ℕ) → find_block lh b k i < i + k → lh.block (find_block lh b k i) ≡ b
  unfolding find_block
  find_block_found zero i h = absurd (omega arith)
  find_block_found (suc k) i h = ground (arith, find_block_found k (i + 1))

  find_block_first : (k i j : ℕ) → i ≤ j → j < find_block lh b k i → lh.block j ≢ b
  unfolding find_block
  find_block_first zero i j lo hi = absurd (omega arith)
  find_block_first (suc k) i j lo hi = elim (ℕ_discrete (lh.block i) b) [
    | yes e ↦ absurd (ground arith)
    | no ne ↦ elim (ℕ_discrete i j) [
      | yes e ↦ λ e'. ne (ap lh.block e ∙ e')
      | no other ↦ find_block_first k (i + 1) j (omega arith) (ground arith)
    ]
  ]

-- The header after `log_write` of block `b`.
unfoldable pub logged : LogHeader → ℕ → LogHeader
logged lh b =
    let i = find_block lh b lh.n 0 in
    record { n = if i == lh.n then lh.n + 1 else lh.n; block = update lh.block i b }

-- The three guards of `log_write`, and what it does past them.
pub log_write_lem :
    (b : ℕ) (l : Log) (m : Machine)
    → l.lh.n < log_size
    → l.lh.n + 1 < l.size
    → 1 ≤ l.outstanding
    → (m' : Machine) × (log_write b l m ≡ ok (record l { lh = logged l.lh b }, m'))
unfolding log_write logged
log_write_lem b l m h₁ h₂ h₃ = elim (ℕ_discrete (find_block l.lh b l.lh.n 0) l.lh.n) [
  | yes e ↦ (assignment.Log.bpin b m, ground arith)
  | no ne ↦ (m, ground arith)
]

logs-ext :
    (lh lh' : LogHeader) (k c : ℕ)
    → ((j : ℕ) → j < k → lh.block j ≡ lh'.block j)
    → logs lh k c ≡ logs lh' k c
logs-ext lh lh' zero c same = refl
logs-ext lh lh' (suc k) c same =
    ground (arith, same k (omega arith), logs-ext lh lh' k c (λ j h. same j (omega arith)))

module _ (lh : LogHeader) (b : ℕ) where
  -- `log_write` of a block that is in the header changes nothing there.
  absorbed :
      find_block lh b lh.n 0 ≢ lh.n
      → ((logged lh b).n ≡ lh.n) × ((j : ℕ) → (logged lh b).block j ≡ lh.block j)
  unfolding logged
  absorbed ne =
      let found = find_block_found lh b lh.n 0 (omega (arith, find_block_bounds lh b lh.n 0)) in
      (
        ground arith,
        λ j. elim (ℕ_discrete (find_block lh b lh.n 0) j) [
          | yes e ↦ ground (arith, ap lh.block e)
          | no other ↦ ground arith
        ],
      )

  -- A block that is not there goes behind the others.
  appended :
      find_block lh b lh.n 0 ≡ lh.n
      → ((logged lh b).n ≡ lh.n + 1)
        × ((logged lh b).block lh.n ≡ b)
        × ((j : ℕ) → j < lh.n → ((logged lh b).block j ≡ lh.block j) × (lh.block j ≢ b))
  unfolding logged
  appended e = (
    ground arith,
    ground arith,
    λ j h. (ground arith, find_block_first lh b lh.n 0 j (omega arith) (omega arith)),
  )

  pub n-logged : (logged lh b).n ≤ lh.n + 1
  unfolding logged
  n-logged = ground arith

  -- A block of the header takes no room.
  pub n-logged_again : logs lh lh.n b ≡ true → (logged lh b).n ≡ lh.n
  n-logged_again there = elim (ℕ_discrete (find_block lh b lh.n 0) lh.n) [
    | no ne ↦ (absorbed ne).0
    | yes e ↦ absurd (let f = sym there ∙ logs_none lh lh.n b (λ j h. ((appended e).2 j h).1) in cc)
  ]

  -- The header stays free of duplicates.
  pub logged-Distinct : Distinct lh → Distinct (logged lh b)
  logged-Distinct d = elim (ℕ_discrete (find_block lh b lh.n 0) lh.n) [
    | no ne ↦
        let a = absorbed ne in
        λ i j hi hj e. d i j (omega (arith, a.0)) (omega (arith, a.0)) (sym (a.1 i) ∙ e ∙ a.1 j)
    | yes e ↦ fresh (appended e)
  ]
    where
      fresh :
          ((logged lh b).n ≡ lh.n + 1)
            × ((logged lh b).block lh.n ≡ b)
            × ((j : ℕ) → j < lh.n → ((logged lh b).block j ≡ lh.block j) × (lh.block j ≢ b))
          → Distinct (logged lh b)
      fresh (count, last, old) i j hi hj same = elim (dec_lt i lh.n) [
        | yes p ↦ elim (dec_lt j lh.n) [
          | yes q ↦ d i j p q (sym (old i p).0 ∙ same ∙ (old j q).0)
          | no q ↦
              let e : j ≡ lh.n = omega (arith, count) in
              absurd ((old i p).1 (sym (old i p).0 ∙ same ∙ ap (logged lh b).block e ∙ last))
        ]
        | no p ↦
            let e : i ≡ lh.n = omega (arith, count) in
            elim (dec_lt j lh.n) [
              | yes q ↦
                  absurd
                    ((old j q).1 (sym (old j q).0 ∙ sym same ∙ ap (logged lh b).block e ∙ last))
              | no q ↦ omega (arith, count)
            ]
      ]

  -- The logged blocks are those from before and `b`.
  pub logs-logged : (c : ℕ) → logs (logged lh b) (logged lh b).n c ≡ ((b == c) || logs lh lh.n c)
  logs-logged c = elim (ℕ_discrete (find_block lh b lh.n 0) lh.n) [
    | no ne ↦
        let a = absorbed ne in
        ap (λ k. logs (logged lh b) k c) a.0
        ∙ logs-ext (logged lh b) lh lh.n c (λ j _. a.1 j)
        ∙ elim (ℕ_discrete b c) [
          | yes e ↦ ground (
            arith,
            logs_of_block lh lh.n (find_block lh b lh.n 0)
                (omega (arith, find_block_bounds lh b lh.n 0)),
            find_block_found lh b lh.n 0 (omega (arith, find_block_bounds lh b lh.n 0)),
            ap (λ x. logs lh lh.n x) e,
            ap (λ x. logs lh lh.n x)
                (find_block_found lh b lh.n 0 (omega (arith, find_block_bounds lh b lh.n 0))),
          )
          | no other ↦ ground arith
        ]
    | yes e ↦
        let a = appended e in
        let count : (logged lh b).n ≡ suc lh.n = omega (arith, a.0) in
        ap (λ k. logs (logged lh b) k c) count
        ∙ ap (λ x. (x == c) || logs (logged lh b) lh.n c) a.1
        ∙ ap (λ x. (b == c) || x) (logs-ext (logged lh b) lh lh.n c (λ j h. (a.2 j h).0))
  ]
