-- ===== src/Fs/Bitmap/Alloc.antt =====
-- What balloc and bfree of kernel/fs.c do to the bitmap and to the other blocks.
use assignment.Common.{
  ℕ, zero, suc, ◌+◌, ◌-◌, ◌*◌, ◌/◌, ◌%◌, ◌<◌, ◌≤◌, ◌≡◌, ◌≢◌, ◌⊎◌, inl, inr, ◌==◌, Bool, true, false,
  Option, none, some, ◌∙◌, ap, sym, refl, subst, ltb, update, update_self, update_ne, Bool-cases,
  ℕ_discrete, Option-cases, arith,
}
use assignment.Fs.Types.{Block, bsize, bpb, Fs, bitmap_block}
use assignment.Fs.Bitmap.{
  is_free, set_bit, clear_bit, zeroed, bzero, find_bit, balloc_from, balloc, bfree,
}
use assignment.Fs.Bitmap.Bits.{
  is_free-set_bit_self, is_free-set_bit_ne, is_free-clear_bit_self, is_free-clear_bit_ne,
}

-- The bit of a block says that it is free.
abbrev pub free : Fs → ℕ → Bool
free s b = is_free (s.cache (bitmap_block s.sb b)) (b % bpb)

abbrev Finds : (k bi b size : ℕ) → Block → Option ℕ → Type 0
Finds k bi b size d none = (j : ℕ) → bi ≤ j → j < bi + k → b + j < size → is_free d j ≡ false
Finds k bi b size d (some r) = (bi ≤ r) × (r < bi + k) × (b + r < size) × (is_free d r ≡ true)

find_bit-Finds : (k bi b size : ℕ) (d : Block) → Finds k bi b size d (find_bit k bi b size d)
unfolding find_bit
find_bit-Finds zero bi b size d = λ j lo hi in'. absurd (omega arith)
find_bit-Finds (suc k) bi b size d = elim (Bool-cases (ltb (b + bi) size)) [
  | inr out ↦ rw (out, find_bit) (λ j lo hi in'. absurd (ground arith))
  | inl more ↦ elim (Bool-cases (is_free d bi)) [
    | inl hit ↦ rw (more, hit, find_bit) (omega arith, omega arith, ground arith, hit)
    | inr used ↦
        rw (more, used, find_bit)
          (elim (Option-cases (find_bit k (bi + 1) b size d)) [
            | inl none' ↦
                let rest =
                  subst (Finds k (bi + 1) b size d) none' (find_bit-Finds k (bi + 1) b size d) in
                rw none' (later rest used)
            | inr (r, found) ↦
                let rest =
                  subst (Finds k (bi + 1) b size d) found (find_bit-Finds k (bi + 1) b size d) in
                rw found (omega arith, omega arith, rest.2, rest.3)
          ])
  ]
]
  where
    later : Finds k (bi + 1) b size d none → is_free d bi ≡ false → Finds (suc k) bi b size d none
    later rest used j lo hi in' = elim (Bool-cases (bi == j)) [
      | inl here ↦ let e : bi ≡ j = ground arith in subst (λ x. is_free d x ≡ false) e used
      | inr there ↦ rest j (ground arith) (omega arith) in'
    ]

-- The state that an allocation of block r leaves.
abbrev pub allocated : ℕ → Fs → Fs
allocated r s =
    let bm = bitmap_block s.sb r in
    let c = update s.cache bm (set_bit (s.cache bm) (r % bpb)) in
    record s { cache = update c r (zeroed (c r)); logged = update (update s.logged bm true) r true }

abbrev Allocates : ℕ → Fs → Option (ℕ × Fs) → Type 0
Allocates b s none = ⊥
Allocates b s (some (r, s')) =
    ((r ≡ 0) × (s' ≡ s) × ((c : ℕ) → b ≤ c → c < s.sb.size → free s c ≡ false))
    ⊎ ((b ≤ r) × (r < s.sb.size) × (free s r ≡ true) × (s' ≡ allocated r s))

-- A block of bits with no free one in the range does not change what the rest of the loop answers.
further :
    (s : Fs) (b : ℕ)
    → b % bpb ≡ 0
    → Finds bpb 0 b s.sb.size (s.cache (bitmap_block s.sb b)) none
    → (o : Option (ℕ × Fs)) → Allocates (b + bpb) s o
    → Allocates b s o
further s b al all (some (r, s')) (inr (lo, in', hit, e)) = inr (omega arith, in', hit, e)
further s b al all (some (r, s')) (inl (e, same, beyond)) = inl (e, same, both)
  where
    both : (c : ℕ) → b ≤ c → c < s.sb.size → free s c ≡ false
    both c lo hi = elim (Bool-cases (ltb c (b + bpb))) [
      | inr far ↦ beyond c (ground arith) hi
      | inl near ↦
          let near' : c < b + bpb = ground arith in
          let em : bitmap_block s.sb c ≡ bitmap_block s.sb b =
            ap (λ x. x + s.sb.bmapstart) (omega arith) in
          let eb : c % bpb ≡ c - b = omega arith in
          rw (em, eb) (all (c - b) (omega arith) (omega arith) (omega arith))
    ]
further s b al all none h = elim h [ ]

balloc_from-Allocates :
    (k b : ℕ) (s : Fs) → b % bpb ≡ 0 → s.sb.size < b + k * bpb → Allocates b s (balloc_from k b s)
unfolding balloc_from bzero
balloc_from-Allocates zero b s al fuel = inl (refl, refl, λ c lo hi. absurd (omega arith))
balloc_from-Allocates (suc k) b s al fuel = elim (Bool-cases (ltb b s.sb.size)) [
  | inr out ↦ rw (out, balloc_from) (inl (refl, refl, λ c lo hi. absurd (ground arith)))
  | inl more ↦
      let d = s.cache (bitmap_block s.sb b) in
      rw (more, balloc_from)
        (elim (Option-cases (find_bit bpb 0 b s.sb.size d)) [
          | inl none' ↦
              let all =
                subst (Finds bpb 0 b s.sb.size d) none' (find_bit-Finds bpb 0 b s.sb.size d) in
              rw none' (
                further s b al all (balloc_from k (b + bpb) s)
                  (balloc_from-Allocates k (b + bpb) s (omega arith) (omega arith)))
          | inr (r, found) ↦
              let (lo, hi, in', hit) =
                subst (Finds bpb 0 b s.sb.size d) found (find_bit-Finds bpb 0 b s.sb.size d) in
              let em : bitmap_block s.sb (b + r) ≡ bitmap_block s.sb b =
                ap (λ x. x + s.sb.bmapstart) (omega arith) in
              let eb : (b + r) % bpb ≡ r = omega arith in
              rw found (inr (omega arith, in', rw (em, eb) hit, rw (em, eb)))
        ])
]

-- No free block belongs to the bitmap.
abbrev pub IsSeparate : Fs → Type 0
IsSeparate s = (b c : ℕ) → b < s.sb.size → c < s.sb.size → free s b ≡ true → bitmap_block s.sb c ≢ b

-- The blocks after an allocation: the block of the bitmap, the block itself, and any other.
module _ (r : ℕ) (s : Fs) where
  abbrev bm : ℕ
  bm = bitmap_block s.sb r

  abbrev marked : ℕ → Block
  marked = update s.cache bm (set_bit (s.cache bm) (r % bpb))

  allocated-bitmap : bm ≢ r → (allocated r s).cache bm ≡ set_bit (s.cache bm) (r % bpb)
  allocated-bitmap apart =
      update_ne marked r bm (zeroed (marked r)) (λ e. apart (sym e))
      ∙ update_self s.cache bm (set_bit (s.cache bm) (r % bpb))

  allocated-zeroed : (i : ℕ) → i < bsize → (allocated r s).cache r i ≡ 0
  allocated-zeroed i lt =
      let low : ltb i bsize ≡ true = ground arith in
      ap (λ (d : Block). d i) (update_self marked r (zeroed (marked r))) ∙ rw low

  allocated-other : (c : ℕ) → c ≢ r → c ≢ bm → (allocated r s).cache c ≡ s.cache c
  allocated-other c ne apart =
      update_ne marked r c (zeroed (marked r)) (λ e. ne (sym e))
      ∙ update_ne s.cache bm c (set_bit (s.cache bm) (r % bpb)) (λ e. apart (sym e))

  allocated-used : free s r ≡ true → bm ≢ r → free (allocated r s) r ≡ false
  allocated-used hit apart =
      ap (λ (d : Block). is_free d (r % bpb)) (allocated-bitmap apart)
      ∙ is_free-set_bit_self (s.cache bm) (r % bpb) hit

  allocated-free :
      (c : ℕ)
      → free s r ≡ true
      → bitmap_block s.sb c ≢ r
      → bm ≢ r
      → c ≢ r
      → free (allocated r s) c ≡ free s c
  allocated-free c hit apart apart' ne = elim (ℕ_discrete (bitmap_block s.sb c) bm) [
    | no other ↦
        ap (λ (d : Block). is_free d (c % bpb)) (allocated-other (bitmap_block s.sb c) apart other)
    | yes same ↦
        let ne' : r % bpb ≢ c % bpb = λ e. ne (omega arith) in
        ap (λ x. is_free ((allocated r s).cache x) (c % bpb)) same
        ∙ ap (λ (d : Block). is_free d (c % bpb)) (allocated-bitmap apart')
        ∙ is_free-set_bit_ne (s.cache bm) (r % bpb) (c % bpb) hit ne'
        ∙ ap (λ x. is_free (s.cache x) (c % bpb)) (sym same)
  ]

-- Full, or one block taken.
abbrev pub BallocEnds : Fs → Type 0
BallocEnds s =
    ((balloc s ≡ some (0, s)) × ((c : ℕ) → c < s.sb.size → free s c ≡ false))
    ⊎ ((r : ℕ) × (s' : Fs) × (balloc s ≡ some (r, s'))
        × (r < s.sb.size)
        × (free s r ≡ true)
        × (free s' r ≡ false)
        × ((c : ℕ) → c < s.sb.size → c ≢ r → free s' c ≡ free s c)
        × ((i : ℕ) → i < bsize → s'.cache r i ≡ 0)
        × ((c : ℕ) → c ≢ r → c ≢ bitmap_block s.sb r → s'.cache c ≡ s.cache c))

-- `balloc` either returns 0 with the disk as it was, because every block is in use, or takes a free
-- block below the size: its bit is set and no other bit changes, its bytes are zero, and no block
-- changes but the one taken and the one of its bit. No free block is one of the bitmap's own.
pub balloc_lem : (s : Fs) → IsSeparate s → BallocEnds s
unfolding balloc
balloc_lem s apart =
    answer (balloc s) refl
      (balloc_from-Allocates (s.sb.size / bpb + 1) 0 s (omega arith) (omega arith))
  where
    answer : (o : Option (ℕ × Fs)) → balloc s ≡ o → Allocates 0 s o → BallocEnds s
    answer none e h = elim h [ ]
    answer (some (r, s')) e (inl (z, same, full)) =
        inl (e ∙ ap (λ (x : ℕ × Fs). some x) (λ i. (z i, same i)), λ c lt. full c (omega arith) lt)
    answer (some (r, s')) e (inr (lo, lt, hit, done)) = inr (
      r,
      allocated r s,
      e ∙ ap (λ x. some (r, x)) done,
      lt,
      hit,
      allocated-used r s hit (apart r r lt lt hit),
      (λ c lt' ne. allocated-free r s c hit (apart r c lt lt' hit) (apart r r lt lt hit) ne),
      allocated-zeroed r s,
      allocated-other r s,
    )

-- `bfree` panics exactly on a block that is free already; else it clears the block's bit and changes
-- no other bit and no other block.
pub bfree_lem :
    (b : ℕ) (s : Fs)
    → ((free s b ≡ true) × (bfree b s ≡ none))
      ⊎ ((free s b ≡ false)
          × (s' : Fs) × (bfree b s ≡ some (tt, s'))
          × (free s' b ≡ true)
          × ((c : ℕ) → c ≢ b → free s' c ≡ free s c)
          × ((c : ℕ) → c ≢ bitmap_block s.sb b → s'.cache c ≡ s.cache c))
unfolding bfree
bfree_lem b s = elim (Bool-cases (free s b)) [
  | inl already ↦ inl (already, rw (already, bfree))
  | inr used ↦
      let bm = bitmap_block s.sb b in
      let d = clear_bit (s.cache bm) (b % bpb) in
      let s' : Fs = record s { cache = update s.cache bm d; logged = update s.logged bm true } in
      let at : s'.cache bm ≡ d = update_self s.cache bm d in
      inr (
        used,
        s',
        rw (used, bfree),
        ap (λ (x : Block). is_free x (b % bpb)) at
            ∙ is_free-clear_bit_self (s.cache bm) (b % bpb) used,
        (λ c ne. elim (ℕ_discrete bm (bitmap_block s.sb c)) [
          | no other ↦
              ap (λ (x : Block). is_free x (c % bpb))
                (update_ne s.cache bm (bitmap_block s.sb c) d other)
          | yes same ↦
              let ne' : b % bpb ≢ c % bpb = λ e. ne (omega arith) in
              ap (λ x. is_free (s'.cache x) (c % bpb)) (sym same)
              ∙ ap (λ (x : Block). is_free x (c % bpb)) at
              ∙ is_free-clear_bit_ne (s.cache bm) (b % bpb) (c % bpb) used ne'
              ∙ ap (λ x. is_free (s.cache x) (c % bpb)) same
        ]),
        λ c ne. update_ne s.cache bm c d (λ e. ne (sym e)),
      )
]
