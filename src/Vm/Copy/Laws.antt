-- ===== src/Vm/Copy/Laws.antt =====
-- `copyin` of kernel/vm.c gives the bytes of the user's addresses, page by page.
use assignment.Common.{
  ℕ, zero, suc, ◌+◌, ◌-◌, ◌%◌, ◌<◌, ◌≤◌, ◌≡◌, ◌≢◌, ◌⊎◌, inl, inr, ◌==◌, Bool, true, false, ◌∙◌, ap,
  sym, refl, subst, ltb, within, if◌then◌else◌, Bool-cases, ℕ_discrete, arith,
}
use assignment.Kalloc.{Kmem, page_size}
use assignment.Str.{Bytes}
use assignment.Vm.{pg_round_down, walkaddr}
use assignment.Vm.Copy.{byte_of, move, chunk, in_page, copyin_from, copyin}

-- The frame of a user's address, 0 where it has none, and the byte there.
abbrev pub frame_of : (pagetable : ℕ) → Kmem → ℕ → ℕ
frame_of pagetable k va = walkaddr pagetable (pg_round_down va) k

abbrev pub user_byte : (pagetable : ℕ) → Kmem → Bytes
user_byte pagetable k va = byte_of k.mem (frame_of pagetable k va + va % page_size)

-- The bounds of a chunk: it stays on the page and fills it unless it is the last.
pub chunk_le : (va most : ℕ) → chunk va most ≤ most
chunk_le va most = ground arith

pub chunk_page : (va most : ℕ) → va % page_size + chunk va most ≤ page_size
chunk_page va most = ground arith

pub chunk_pos : (va most : ℕ) → 0 < most → 0 < chunk va most
chunk_pos va most pos = ground arith

pub chunk_next :
    (va most : ℕ) → chunk va most < most → pg_round_down va + page_size ≡ va + chunk va most
chunk_next va most lt = ground arith

-- A run of n bytes and one of len - n after it are a run of len.
pub join :
    (at n len next s : ℕ) (f mid dst : Bytes)
    → n ≤ len
    → ((j : ℕ) → n ≤ j → j < len → next + (j - n) ≡ s + j)
    → ((x : ℕ) → mid x ≡ (if within at (at + n) x then f (s + (x - at)) else dst x))
    → (x : ℕ)
    → (if within (at + n) (at + n + (len - n)) x then f (next + (x - (at + n))) else mid x)
      ≡ (if within at (at + len) x then f (s + (x - at)) else dst x)
join at n len next s f mid dst le later first x =
    elim (Bool-cases (within (at + n) (at + n + (len - n)) x)) [
      | inl in' ↦
          let in₂ : within at (at + len) x ≡ true = ground arith in
          let e = later (x - at) (ground arith) (ground arith) in
          let e₂ : next + (x - (at + n)) ≡ s + (x - at) = ground arith in rw (in', in₂) (ap f e₂)
      | inr out ↦ elim (Bool-cases (within at (at + n) x)) [
        | inl in' ↦
            let in₂ : within at (at + len) x ≡ true = ground arith in
            rw (out, in₂) (first x ∙ (rw in' refl))
        | inr out' ↦
            let out₂ : within at (at + len) x ≡ false = ground arith in
            rw (out, out₂) (first x ∙ (rw out' refl))
      ]
    ]

module _ (pagetable : ℕ) (k : Kmem) where
  -- The two ways that a copy ends.
  abbrev pub AllMapped : (srcva len : ℕ) → Type 0
  AllMapped srcva len = (j : ℕ) → j < len → frame_of pagetable k (srcva + j) ≢ 0

  abbrev pub SomeUnmapped : (srcva len : ℕ) → Type 0
  SomeUnmapped srcva len = (j : ℕ) × (j < len) × (frame_of pagetable k (srcva + j) ≡ 0)

  abbrev pub Copies : (at srcva len : ℕ) → Bytes → Bool × Bytes → Type 0
  Copies at srcva len dst r =
      ((r.0 ≡ true)
        × AllMapped srcva len
        × ((x : ℕ)
            → r.1 x ≡ (
                if within at (at + len) x
                then user_byte pagetable k (srcva + (x - at))
                else dst x)))
      ⊎ ((r.0 ≡ false)
          × SomeUnmapped srcva len
          × ((x : ℕ) → within at (at + len) x ≡ false → r.1 x ≡ dst x))

  -- The addresses of a chunk are on one page.
  pub same_frame : (va j most : ℕ) → j < chunk va most → pg_round_down (va + j) ≡ pg_round_down va
  same_frame va j most lt = let page = chunk_page va most in omega arith

  -- The bytes of a chunk are the user's.
  pub page_byte :
      (va j most : ℕ)
      → j < chunk va most
      → byte_of k.mem (in_page (frame_of pagetable k va) va + j) ≡ user_byte pagetable k (va + j)
  page_byte va j most lt =
      let page = chunk_page va most in
      let s = same_frame va j most lt in
      let e : va - pg_round_down va + j ≡ (va + j) % page_size = omega arith in
      let off : in_page (frame_of pagetable k va) va + j
          ≡ frame_of pagetable k va + (va + j) % page_size =
        omega arith in
      ap (byte_of k.mem) off
      ∙ ap (λ p. byte_of k.mem (walkaddr pagetable p k + (va + j) % page_size)) (sym s)

  first_bytes :
      (at srcva len : ℕ) (dst : Bytes) (x : ℕ)
      → move at (byte_of k.mem) (in_page (frame_of pagetable k srcva) srcva) (chunk srcva len) dst x
        ≡ (if within at (at + chunk srcva len) x
            then user_byte pagetable k (srcva + (x - at))
            else dst x)
  unfolding move
  first_bytes at srcva len dst x = elim (Bool-cases (within at (at + chunk srcva len) x)) [
    | inr out ↦ rw out refl
    | inl in' ↦ rw in' (page_byte srcva (x - at) len (ground arith))
  ]

  -- One chunk, and then the rest.
  chunk-Copies :
      (at srcva len : ℕ) (dst : Bytes) (r : Bool × Bytes)
      → frame_of pagetable k srcva ≢ 0
      → Copies
          (at + chunk srcva len)
          (pg_round_down srcva + page_size)
          (len - chunk srcva len)
          (move at
            (byte_of k.mem)
            (in_page (frame_of pagetable k srcva) srcva)
            (chunk srcva len)
            dst)
          r
      → Copies at srcva len dst r
  unfolding move
  chunk-Copies at srcva len dst r ok h =
      let n = chunk srcva len in
      let le = chunk_le srcva len in
      let next = pg_round_down srcva + page_size in
      let later : (j : ℕ) → n ≤ j → j < len → next + (j - n) ≡ srcva + j =
        λ j ge lt. (let e = chunk_next srcva len (omega arith) in omega arith) in
      elim h [
        | inl (e, all, bytes) ↦ inl (
          e,
          λ j lt. elim (Bool-cases (ltb j n)) [
            | inl first ↦
                let s = same_frame srcva j len (ground arith) in
                λ z. ok (ap (λ x. walkaddr pagetable x k) (sym s) ∙ z)
            | inr rest ↦
                let s = later j (ground arith) lt in
                λ z. all (j - n) (ground arith) (ap (frame_of pagetable k) s ∙ z)
          ],
          λ x.
              bytes x
              ∙ join at n len next srcva (user_byte pagetable k)
                  (move at (byte_of k.mem) (in_page (frame_of pagetable k srcva) srcva) n dst) dst
                  le later (first_bytes at srcva len dst) x,
        )
        | inr (e, (j, lt, z), out) ↦ inr (
          e,
          (
            n + j,
            omega arith,
            ap (frame_of pagetable k) (
                  sym (
                    let l = later (n + j) (omega arith) (omega arith) in
                    (let e2 : next + j ≡ srcva + (n + j) = omega arith in e2)))
                ∙ z,
          ),
          λ x away.
              out x (ground arith)
              ∙ (let m : within at (at + n) x ≡ false = ground arith in rw m refl),
        )
      ]

  -- The three cases of a round.
  copyin_from_done :
      (r at srcva len : ℕ) (dst : Bytes)
      → len ≡ 0
      → copyin_from r pagetable at srcva len k dst ≡ (true, dst)
  unfolding copyin_from
  copyin_from_done zero at srcva len dst e =
      let hit : (len == 0) ≡ true = ground arith in ap (λ b. (b, dst)) hit
  copyin_from_done (suc r) at srcva len dst e =
      let hit : (len == 0) ≡ true = ground arith in rw (hit, copyin_from) refl

  copyin_from_unmapped :
      (r at srcva len : ℕ) (dst : Bytes)
      → len ≢ 0
      → frame_of pagetable k srcva ≡ 0
      → copyin_from (suc r) pagetable at srcva len k dst ≡ (false, dst)
  unfolding copyin_from
  copyin_from_unmapped r at srcva len dst ne z =
      let miss : (len == 0) ≡ false = ground arith in
      let hit : (frame_of pagetable k srcva == 0) ≡ true = ground arith in
      rw (miss, hit, copyin_from) refl

  copyin_from-chunk :
      (r at srcva len : ℕ) (dst : Bytes)
      → len ≢ 0
      → frame_of pagetable k srcva ≢ 0
      → copyin_from (suc r) pagetable at srcva len k dst
        ≡ copyin_from r pagetable
            (at + chunk srcva len)
            (pg_round_down srcva + page_size)
            (len - chunk srcva len)
            k
            (move at
              (byte_of k.mem)
              (in_page (frame_of pagetable k srcva) srcva)
              (chunk srcva len)
              dst)
  unfolding copyin_from
  copyin_from-chunk r at srcva len dst ne nz =
      let miss : (len == 0) ≡ false = ground arith in
      let hit : (frame_of pagetable k srcva == 0) ≡ false = ground arith in
      rw (miss, hit, copyin_from) refl

  -- A copy of no bytes.
  none-Copies : (at srcva len : ℕ) (dst : Bytes) → len ≡ 0 → Copies at srcva len dst (true, dst)
  none-Copies at srcva len dst e = inl (
    refl,
    λ j lt. absurd (omega arith),
    λ x. (let m : within at (at + len) x ≡ false = ground arith in rw m refl),
  )

  copyin_from-Copies :
      (r at srcva len : ℕ) (dst : Bytes)
      → len ≤ r
      → Copies at srcva len dst (copyin_from r pagetable at srcva len k dst)
  copyin_from-Copies zero at srcva len dst le =
      let z : len ≡ 0 = omega arith in
      subst (Copies at srcva len dst) (sym (copyin_from_done 0 at srcva len dst z))
        (none-Copies at srcva len dst z)
  copyin_from-Copies (suc r) at srcva len dst le = elim (ℕ_discrete len 0) [
    | yes z ↦
        subst (Copies at srcva len dst) (sym (copyin_from_done (suc r) at srcva len dst z))
          (none-Copies at srcva len dst z)
    | no ne ↦ elim (ℕ_discrete (frame_of pagetable k srcva) 0) [
      | yes z ↦
          let e₀ : srcva + 0 ≡ srcva = omega arith in
          subst (Copies at srcva len dst) (sym (copyin_from_unmapped r at srcva len dst ne z))
            (inr (refl, (0, omega arith, ap (frame_of pagetable k) e₀ ∙ z), λ x out. refl))
      | no nz ↦
          let n = chunk srcva len in
          let next = pg_round_down srcva + page_size in
          let mid = move at (byte_of k.mem) (in_page (frame_of pagetable k srcva) srcva) n dst in
          let pos = chunk_pos srcva len (omega arith) in
          subst (Copies at srcva len dst) (sym (copyin_from-chunk r at srcva len dst ne nz)) (
            chunk-Copies at srcva len dst (copyin_from r pagetable (at + n) next (len - n) k mid) nz
              (copyin_from-Copies r (at + n) next (len - n) mid (omega arith)))
    ]
  ]

  -- `copyin` ends after at most len rounds. It returns 0 exactly if all of the user's addresses are
  -- mapped, and then the destination holds their bytes and is otherwise unchanged; where it
  -- returns -1, nothing past the len bytes is written.
  pub copyin-Copies :
      (srcva len : ℕ) (dst : Bytes) → Copies 0 srcva len dst (copyin pagetable srcva len k dst)
  unfolding copyin
  copyin-Copies srcva len dst = copyin_from-Copies len 0 srcva len dst (omega arith)
