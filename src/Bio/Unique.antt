-- ===== src/Bio/Unique.antt =====
-- One buffer for each block, through every use of the cache of kernel/bio.c.
use assignment.Common.{
  ℕ, ◌+◌, ◌-◌, ◌≤◌, ◌==◌, ◌≡◌, ◌≢◌, ◌⊎◌, inl, inr, ◌∙◌, refl, sym, ap, subst, true, false, ◌&&◌,
  Option, none, some, List, [], ◌∷◌, ◌++◌, if◌then◌else◌, Bool-cases, Option-cases, ℕ_discrete,
  arith,
}
use assignment.Bio.{Buf, is_block, get_cached, recycle, bget, take_out, unref, brelse}

-- How many buffers hold a block.
abbrev pub holders : (dev blockno : ℕ) → List Buf → ℕ
holders dev blockno [] = 0
holders dev blockno (b ∷ bs) = (if is_block dev blockno b then 1 else 0) + holders dev blockno bs

-- Device 0 is that of a buffer never used.
abbrev pub IsUnique : List Buf → Type 0
IsUnique bs = (dev blockno : ℕ) → dev ≢ 0 → holders dev blockno bs ≤ 1

-- The buffer with the number holds the block and is in use.
abbrev pub InUse : (id dev blockno : ℕ) → List Buf → Type 0
InUse id dev blockno [] = ⊥
InUse id dev blockno (b ∷ bs) =
    ((b.id ≡ id) × (is_block dev blockno b ≡ true) × (1 ≤ b.refcnt)) ⊎ InUse id dev blockno bs

-- No buffer is unused.
abbrev pub AllBusy : List Buf → Type 0
AllBusy [] = Unit {0}
AllBusy (b ∷ bs) = (b.refcnt ≢ 0) × AllBusy bs

module _ (dev blockno : ℕ) where
  abbrev Hits : List Buf → Option (List Buf × ℕ) → Type 0
  Hits bs none = holders dev blockno bs ≡ 0
  Hits bs (some (bs', i)) = ((d n : ℕ) → holders d n bs' ≡ holders d n bs) × InUse i dev blockno bs'

  get_cached-Hits : (bs : List Buf) → Hits bs (get_cached dev blockno bs)
  unfolding get_cached
  get_cached-Hits [] = refl
  get_cached-Hits (b ∷ bs) = elim (Bool-cases (is_block dev blockno b)) [
    | inl hit ↦ rw (hit, get_cached) (λ d n. refl, inl (refl, hit, omega arith))
    | inr miss ↦ elim (Option-cases (get_cached dev blockno bs)) [
      | inl none' ↦
          let rest : Hits bs none = subst (Hits bs) none' (get_cached-Hits bs) in
          rw (miss, none', get_cached) (rw (miss, rest))
      | inr (r, found) ↦
          let rest : Hits bs (some r) = subst (Hits bs) found (get_cached-Hits bs) in
          rw (miss, found, get_cached)
            (λ d n. ap (λ x. (if is_block d n b then 1 else 0) + x) (rest.0 d n), inr rest.1)
    ]
  ]

  abbrev Recycles : List Buf → Option (List Buf × ℕ) → Type 0
  Recycles bs none = AllBusy bs
  Recycles bs (some (bs', i)) =
      ((d n : ℕ) → holders d n bs' ≤ holders d n bs + (if dev == d && blockno == n then 1 else 0))
      × InUse i dev blockno bs'

  recycle-Recycles : (bs : List Buf) → Recycles bs (recycle dev blockno bs)
  unfolding recycle
  recycle-Recycles [] = tt
  recycle-Recycles (b ∷ bs) = elim (Option-cases (recycle dev blockno bs)) [
    | inr (r, found) ↦
        let rest : Recycles bs (some r) = subst (Recycles bs) found (recycle-Recycles bs) in
        rw (found, recycle) (λ d n. omega (arith, rest.0 d n), inr rest.1)
    | inl none' ↦
        let rest : AllBusy bs = subst (Recycles bs) none' (recycle-Recycles bs) in
        elim (Bool-cases (b.refcnt == 0)) [
          | inl free ↦
              rw (none', free, recycle) (λ d n. omega arith, inl (refl, ground arith, omega arith))
          | inr busy ↦ rw (none', busy, recycle) (ground arith, rest)
        ]
  ]

  -- `bget` returns a buffer that is in use for the block, and keeps one buffer for each block at
  -- most; it panics only when the block has no buffer and every buffer is in use.
  pub bget_lem :
      (bs : List Buf)
      → dev ≢ 0
      → IsUnique bs
      → ((holders dev blockno bs ≡ 0) × AllBusy bs × (bget dev blockno bs ≡ none))
        ⊎ ((bs' : List Buf) × (i : ℕ) × (bget dev blockno bs ≡ some (bs', i))
            × IsUnique bs'
            × InUse i dev blockno bs')
  unfolding bget
  bget_lem bs used unique = elim (Option-cases (get_cached dev blockno bs)) [
    | inr ((bs', i), found) ↦
        let hits : Hits bs (some (bs', i)) = subst (Hits bs) found (get_cached-Hits bs) in
        inr (bs', i, rw (found, bget), (λ d n ne. omega (arith, hits.0 d n, unique d n ne)), hits.1)
    | inl missing ↦
        let zero' : Hits bs none = subst (Hits bs) missing (get_cached-Hits bs) in
        elim (Option-cases (recycle dev blockno bs)) [
          | inl full ↦
              inl (zero', subst (Recycles bs) full (recycle-Recycles bs), rw (missing, full, bget))
          | inr ((bs', i), found) ↦
              let got : Recycles bs (some (bs', i)) =
                subst (Recycles bs) found (recycle-Recycles bs) in
              inr (bs', i, rw (missing, found, bget), fresh bs' got.0 zero', got.1)
        ]
  ]
    where
      fresh :
          (bs' : List Buf)
          → ((d n : ℕ)
              → holders d n bs' ≤ holders d n bs + (if dev == d && blockno == n then 1 else 0))
          → holders dev blockno bs ≡ 0
          → IsUnique bs'
      fresh bs' bound none' d n ne = elim (Bool-cases (dev == d && blockno == n)) [
        | inr other ↦ let e = bound d n in ground (arith, bound d n, unique d n ne)
        | inl same ↦
            let e : dev ≡ d = ground arith in
            let e' : blockno ≡ n = ground arith in
            let none'' : holders d n bs ≡ 0 =
              ap (λ x. holders x n bs) (sym e) ∙ ap (λ x. holders dev x bs) (sym e') ∙ none' in
            ground (arith, bound d n)
      ]

-- Releasing a buffer changes which block no buffer holds.
abbrev Keeps : List Buf → List Buf → Type 0
Keeps bs bs' = (d n : ℕ) → holders d n bs' ≡ holders d n bs

unref-Keeps : (id : ℕ) (bs : List Buf) → Keeps bs (unref id bs)
unfolding unref
unref-Keeps id [] d n = refl
unref-Keeps id (b ∷ bs) d n = ground (arith, unref-Keeps id bs d n)

abbrev TakesOut : List Buf → Option (Buf × List Buf) → Type 0
TakesOut bs none = Unit {0}
TakesOut bs (some (b, rest)) = Keeps bs (b ∷ rest)

take_out-TakesOut : (id : ℕ) (bs : List Buf) → TakesOut bs (take_out id bs)
unfolding take_out
take_out-TakesOut id [] = tt
take_out-TakesOut id (b ∷ bs) = elim (Bool-cases (b.id == id)) [
  | inl hit ↦ rw (hit, take_out) (λ d n. refl)
  | inr miss ↦ elim (Option-cases (take_out id bs)) [
    | inl none' ↦ rw (miss, none', take_out) tt
    | inr (r, found) ↦
        let rest : TakesOut bs (some r) = subst (TakesOut bs) found (take_out-TakesOut id bs) in
        rw (miss, found, take_out) (λ d n. omega (arith, rest d n))
  ]
]

-- Every block has as many buffers as before.
holders-brelse : (id : ℕ) (bs : List Buf) (d n : ℕ) → holders d n (brelse id bs) ≡ holders d n bs
unfolding brelse
holders-brelse id bs d n = elim (Option-cases (take_out id bs)) [
  | inl none' ↦ rw (none', brelse)
  | inr (r, found) ↦
      let rest : TakesOut bs (some r) = subst (TakesOut bs) found (take_out-TakesOut id bs) in
      elim (Bool-cases (r.0.refcnt - 1 == 0)) [
        | inl last ↦ rw (found, last, brelse) (rest d n)
        | inr more ↦ rw (found, more, brelse) (unref-Keeps id bs d n)
      ]
]

-- No buffer of the list has the number.
abbrev pub NoBuffer : ℕ → List Buf → Type 0
NoBuffer id [] = Unit {0}
NoBuffer id (b ∷ bs) = (b.id ≢ id) × NoBuffer id bs

take_out-append :
    (front : List Buf) (b : Buf) (back : List Buf)
    → NoBuffer b.id front
    → take_out b.id (front ++ (b ∷ back)) ≡ some (b, front ++ back)
unfolding take_out
take_out-append [] b back free = ground arith
take_out-append (c ∷ front) b back free =
    let other : (c.id == b.id) ≡ false = (let ne = free.0 in ground arith) in
    rw (other, take_out-append front b back free.1)

unref-append :
    (front : List Buf) (b : Buf) (back : List Buf)
    → NoBuffer b.id front
    → unref b.id (front ++ (b ∷ back)) ≡ front ++ (record b { refcnt = b.refcnt - 1 } ∷ back)
unfolding unref
unref-append [] b back free = ground arith
unref-append (c ∷ front) b back free =
    let other : (c.id == b.id) ≡ false = (let ne = free.0 in ground arith) in
    rw (other, unref-append front b back free.1)

-- `brelse` of the buffer b of the list, whose number no buffer before it has and which has a reference,
-- takes one reference from b and changes nothing else of any buffer. With the last one b goes to the
-- front of the list, and the others keep their order; else every buffer keeps its place. Every block
-- has as many buffers as before.
pub brelse_lem :
    (front : List Buf) (b : Buf) (back : List Buf)
    → NoBuffer b.id front
    → 1 ≤ b.refcnt
    → (((b.refcnt ≡ 1)
          × (brelse b.id (front ++ (b ∷ back)) ≡ record b { refcnt = 0 } ∷ (front ++ back)))
        ⊎ ((2 ≤ b.refcnt)
            × (brelse b.id (front ++ (b ∷ back))
                ≡ front ++ (record b { refcnt = b.refcnt - 1 } ∷ back))))
      × ((d n : ℕ)
          → holders d n (brelse b.id (front ++ (b ∷ back))) ≡ holders d n (front ++ (b ∷ back)))
unfolding brelse
brelse_lem front b back free used = (
  elim (ℕ_discrete b.refcnt 1) [
    | yes one ↦
        let zero' : b.refcnt - 1 ≡ 0 = omega arith in
        let last : (b.refcnt - 1 == 0) ≡ true = ground arith in
        inl (
          one,
          rw (take_out-append front b back free, last, brelse)
              (ap (λ r. record b { refcnt = r } ∷ (front ++ back)) zero'),
        )
    | no ne ↦
        let more : (b.refcnt - 1 == 0) ≡ false = ground arith in
        inr (
          omega arith,
          rw (take_out-append front b back free, more, brelse) (unref-append front b back free),
        )
  ],
  holders-brelse b.id (front ++ (b ∷ back)),
)
