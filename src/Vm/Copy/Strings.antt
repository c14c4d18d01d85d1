-- ===== src/Vm/Copy/Strings.antt =====
-- `copyinstr` of kernel/vm.c finds the NUL of a user's string.
use assignment.Common.{
  ℕ, zero, suc, ◌+◌, ◌-◌, ◌<◌, ◌≤◌, ◌≡◌, ◌≢◌, ◌⊎◌, inl, inr, ◌==◌, Bool, true, false, ◌||◌, ◌∙◌, ap,
  sym, refl, subst, ltb, within, Bool-cases, ℕ_discrete, arith,
}
use assignment.Kalloc.{Kmem, page_size}
use assignment.Str.{Bytes}
use assignment.Vm.{pg_round_down, walkaddr}
use assignment.Vm.Copy.{byte_of, chunk, in_page, StrCopy, copy_bytes, copyinstr_from, copyinstr}
use assignment.Vm.Copy.Laws.{
  frame_of, user_byte, AllMapped, chunk_le, chunk_pos, chunk_next, same_frame, page_byte, join,
}
use assignment.Vm.Copy.Chunk.{written, NoNul, StopsAt, copy_bytes_lem}

module _ (pagetable : ℕ) (k : Kmem) where
  -- The two ways that a copy of a string ends: at its NUL, which stands on a mapped page before max, or
  -- without one.
  pub record Terminated (at srcva max : ℕ) (dst : Bytes) (r : Bool × Bytes) : Type 0 where
    pub code : r.0 ≡ true
    pub length : ℕ
    pub short : length < max
    pub mapped : AllMapped pagetable k srcva (suc length)
    pub before : NoNul (user_byte pagetable k) srcva length
    pub nul : user_byte pagetable k (srcva + length) ≡ 0
    pub bytes :
        (x : ℕ) → r.1 x ≡ written at (suc length) (λ j. user_byte pagetable k (srcva + j)) dst x

  pub record Unterminated (at srcva max : ℕ) (dst : Bytes) (r : Bool × Bytes) : Type 0 where
    pub code : r.0 ≡ false
    pub length : ℕ
    pub short : length ≤ max
    pub mapped : AllMapped pagetable k srcva length
    pub before : NoNul (user_byte pagetable k) srcva length
    pub why : (length ≡ max) ⊎ ((length < max) × (frame_of pagetable k (srcva + length) ≡ 0))
    pub bytes : (x : ℕ) → r.1 x ≡ written at length (λ j. user_byte pagetable k (srcva + j)) dst x

  abbrev pub StrCopies : (at srcva max : ℕ) (dst : Bytes) → Bool × Bytes → Type 0
  StrCopies at srcva max dst r = Terminated at srcva max dst r ⊎ Unterminated at srcva max dst r

  -- What holds of a chunk and of the addresses from the next page on holds of both.
  extend :
      (P : ℕ → Type 0) (srcva max m : ℕ)
      → ((j : ℕ) → j < chunk srcva max → P (srcva + j))
      → ((j : ℕ) → j < m → P (pg_round_down srcva + page_size + j))
      → chunk srcva max + m ≤ max
      → (j : ℕ) → j < chunk srcva max + m
      → P (srcva + j)
  extend P srcva max m first rest le j lt = elim (Bool-cases (ltb j (chunk srcva max))) [
    | inl in' ↦ first j (ground arith)
    | inr out ↦
        let n = chunk srcva max in
        let ge : n ≤ j = ground arith in
        let e = chunk_next srcva max (omega arith) in
        let e' : pg_round_down srcva + page_size + (j - n) ≡ srcva + j = omega arith in
        subst P e' (rest (j - n) (omega arith))
  ]

  -- What a chunk without a NUL and the rest make.
  module _ (at srcva max : ℕ) (dst mid : Bytes) (ok : frame_of pagetable k srcva ≢ 0)
      (clean : NoNul (user_byte pagetable k) srcva (chunk srcva max))
      (copied : (x : ℕ)
        → mid x ≡ written at (chunk srcva max) (λ j. user_byte pagetable k (srcva + j)) dst x) where
    abbrev n : ℕ
    n = chunk srcva max

    abbrev next : ℕ
    next = pg_round_down srcva + page_size

    mapped :
        (m : ℕ) → AllMapped pagetable k next m → n + m ≤ max → AllMapped pagetable k srcva (n + m)
    mapped m all le =
        extend (λ x. frame_of pagetable k x ≢ 0) srcva max m
          (λ j lt z.
            ok (ap (λ x. walkaddr pagetable x k) (sym (same_frame pagetable k srcva j max lt)) ∙ z))
          all le

    unbroken :
        (m : ℕ)
        → NoNul (user_byte pagetable k) next m
        → n + m ≤ max
        → NoNul (user_byte pagetable k) srcva (n + m)
    unbroken m all le = extend (λ x. user_byte pagetable k x ≢ 0) srcva max m clean all le

    there : (m : ℕ) → m < max - n → next + m ≡ srcva + (n + m)
    there m lt = let e = chunk_next srcva max (omega arith) in omega arith

    joined :
        (m : ℕ) (x : ℕ)
        → n + m ≤ max
        → written (at + n) m (λ j. user_byte pagetable k (next + j)) mid x
          ≡ written at (n + m) (λ j. user_byte pagetable k (srcva + j)) dst x
    joined m x le =
        let e : n + m - n ≡ m = omega arith in
        ap (λ l. written (at + n) l (λ j. user_byte pagetable k (next + j)) mid x) (sym e)
        ∙ join at n (n + m) next srcva (user_byte pagetable k) mid dst (omega arith)
            (λ j ge lt. there (j - n) (omega arith) ∙ (ap (λ x. srcva + x) (omega arith))) copied x

    chunk-StrCopies :
        (r : Bool × Bytes) → StrCopies (at + n) next (max - n) mid r → StrCopies at srcva max dst r
    chunk-StrCopies r h =
        let le = chunk_le srcva max in
        elim h [
          | inl t ↦
              let short = t.short in
              inl (record {
                code = t.code;
                length = n + t.length;
                short = omega arith;
                mapped =
                    (let e : n + suc t.length ≡ suc (n + t.length) = omega arith in
                      subst (AllMapped pagetable k srcva) e
                        (mapped (suc t.length) t.mapped (omega arith)));
                before = unbroken t.length t.before (omega arith);
                nul = ap (user_byte pagetable k) (sym (there t.length (omega arith))) ∙ t.nul;
                bytes = λ x.
                    (let e : n + suc t.length ≡ suc (n + t.length) = omega arith in
                      t.bytes x
                      ∙ joined (suc t.length) x (omega arith)
                      ∙ ap (λ l. written at l (λ j. user_byte pagetable k (srcva + j)) dst x) e);
              })
          | inr u ↦
              let short = u.short in
              inr (record {
                code = u.code;
                length = n + u.length;
                short = omega arith;
                mapped = mapped u.length u.mapped (omega arith);
                before = unbroken u.length u.before (omega arith);
                why = elim u.why [
                  | inl e ↦ inl (omega arith)
                  | inr (lt, z) ↦
                      inr (omega arith, ap (frame_of pagetable k) (sym (there u.length lt)) ∙ z)
                ];
                bytes = λ x. u.bytes x ∙ joined u.length x (omega arith);
              })
        ]

  -- The memory that the inner loop reads of a chunk is the user's.
  NoNul-chunk :
      (srcva max m : ℕ)
      → m ≤ chunk srcva max
      → NoNul (byte_of k.mem) (in_page (frame_of pagetable k srcva) srcva) m
      → NoNul (user_byte pagetable k) srcva m
  NoNul-chunk srcva max m le h j lt z = h j lt (page_byte pagetable k srcva j max (omega arith) ∙ z)

  written-chunk :
      (at srcva max m : ℕ) (dst : Bytes) (x : ℕ)
      → m ≤ chunk srcva max
      → written at m (λ j. byte_of k.mem (in_page (frame_of pagetable k srcva) srcva + j)) dst x
        ≡ written at m (λ j. user_byte pagetable k (srcva + j)) dst x
  written-chunk at srcva max m dst x le = elim (Bool-cases (within at (at + m) x)) [
    | inl in' ↦ rw in' (page_byte pagetable k srcva (x - at) max (ground arith))
    | inr out ↦ rw out refl
  ]

  -- The cases of a round.
  copyinstr_from_got :
      (r srcva : ℕ) (s : StrCopy)
      → s.got_null ≡ true
      → copyinstr_from r pagetable srcva k s ≡ (true, s.dst)
  unfolding copyinstr_from
  copyinstr_from_got zero srcva s e = ap (λ b. (b, s.dst)) e
  copyinstr_from_got (suc r) srcva s e = rw (e, copyinstr_from) (ap (λ b. (b, s.dst)) e)

  copyinstr_from_end :
      (r srcva : ℕ) (s : StrCopy)
      → s.got_null ≡ false
      → s.max ≡ 0
      → copyinstr_from r pagetable srcva k s ≡ (false, s.dst)
  unfolding copyinstr_from
  copyinstr_from_end zero srcva s e z = ap (λ b. (b, s.dst)) e
  copyinstr_from_end (suc r) srcva s e z =
      let hit : (s.max == 0) ≡ true = ground arith in
      rw (e, hit, copyinstr_from) (ap (λ b. (b, s.dst)) e)

  copyinstr_from_unmapped :
      (r srcva : ℕ) (s : StrCopy)
      → s.got_null ≡ false
      → s.max ≢ 0
      → frame_of pagetable k srcva ≡ 0
      → copyinstr_from (suc r) pagetable srcva k s ≡ (false, s.dst)
  unfolding copyinstr_from
  copyinstr_from_unmapped r srcva s e ne z =
      let miss : (s.max == 0) ≡ false = ground arith in
      let hit : (frame_of pagetable k srcva == 0) ≡ true = ground arith in
      rw (e, miss, hit, copyinstr_from) refl

  abbrev chunk_of : (srcva : ℕ) → StrCopy → StrCopy
  chunk_of srcva s =
      copy_bytes (chunk srcva s.max) (in_page (frame_of pagetable k srcva) srcva) (byte_of k.mem) s

  copyinstr_from-chunk :
      (r srcva : ℕ) (s : StrCopy)
      → s.got_null ≡ false
      → s.max ≢ 0
      → frame_of pagetable k srcva ≢ 0
      → copyinstr_from (suc r) pagetable srcva k s
        ≡ copyinstr_from r pagetable (pg_round_down srcva + page_size) k (chunk_of srcva s)
  unfolding copyinstr_from
  copyinstr_from-chunk r srcva s e ne nz =
      let miss : (s.max == 0) ≡ false = ground arith in
      let on : (s.got_null || (s.max == 0)) ≡ false = ap (λ b. b || (s.max == 0)) e ∙ miss in
      let hit : (frame_of pagetable k srcva == 0) ≡ false = ground arith in
      rw (on, hit, copyinstr_from) refl

  -- A chunk that has the NUL.
  stopped-StrCopies :
      (i srcva : ℕ) (s s' : StrCopy)
      → frame_of pagetable k srcva ≢ 0
      → StopsAt
          (byte_of k.mem)
          (chunk srcva s.max)
          (in_page (frame_of pagetable k srcva) srcva)
          i
          s
          s'
      → StrCopies s.at srcva s.max s.dst (true, s'.dst)
  stopped-StrCopies i srcva s s' nz st =
      let lt = st.lt in
      let le = chunk_le srcva s.max in
      inl (record {
        code = refl;
        length = i;
        short = omega arith;
        mapped = λ j lj z. nz (
            ap (λ x. walkaddr pagetable x k)
              (sym (same_frame pagetable k srcva j s.max (omega arith)))
            ∙ z);
        before = NoNul-chunk srcva s.max i (omega arith) st.before;
        nul = sym (page_byte pagetable k srcva i s.max lt) ∙ st.nul;
        bytes = λ x. st.bytes x ∙ written-chunk s.at srcva s.max (suc i) s.dst x (omega arith);
      })

  ended-StrCopies :
      (srcva : ℕ) (s : StrCopy)
      → (s.max ≡ 0) ⊎ ((0 < s.max) × (frame_of pagetable k srcva ≡ 0))
      → StrCopies s.at srcva s.max s.dst (false, s.dst)
  ended-StrCopies srcva s why = inr (record {
    code = refl;
    length = 0;
    short = omega arith;
    mapped = λ j lt. absurd (omega arith);
    before = λ j lt. absurd (omega arith);
    why = elim why [
      | inl e ↦ inl (sym e)
      | inr (lt, z) ↦
          let e₀ : srcva + 0 ≡ srcva = omega arith in inr (lt, ap (frame_of pagetable k) e₀ ∙ z)
    ];
    bytes = λ x. (let out : within s.at (s.at + 0) x ≡ false = ground arith in rw out refl);
  })

  copyinstr_from-StrCopies :
      (r srcva : ℕ) (s : StrCopy)
      → s.got_null ≡ false
      → s.max ≤ r
      → StrCopies s.at srcva s.max s.dst (copyinstr_from r pagetable srcva k s)
  copyinstr_from-StrCopies zero srcva s e le =
      let z : s.max ≡ 0 = omega arith in
      subst (StrCopies s.at srcva s.max s.dst) (sym (copyinstr_from_end 0 srcva s e z))
        (ended-StrCopies srcva s (inl z))
  copyinstr_from-StrCopies (suc r) srcva s e le = elim (ℕ_discrete s.max 0) [
    | yes z ↦
        subst (StrCopies s.at srcva s.max s.dst) (sym (copyinstr_from_end (suc r) srcva s e z))
          (ended-StrCopies srcva s (inl z))
    | no ne ↦ elim (ℕ_discrete (frame_of pagetable k srcva) 0) [
      | yes z ↦
          subst (StrCopies s.at srcva s.max s.dst) (sym (copyinstr_from_unmapped r srcva s e ne z))
            (ended-StrCopies srcva s (inr (omega arith, z)))
      | no nz ↦
          let next = pg_round_down srcva + page_size in
          let s' = chunk_of srcva s in
          let pos = chunk_pos srcva s.max (omega arith) in
          subst (StrCopies s.at srcva s.max s.dst) (sym (copyinstr_from-chunk r srcva s e ne nz))
            (elim (copy_bytes_lem (byte_of k.mem) (chunk srcva s.max)
              (in_page (frame_of pagetable k srcva) srcva) s) [
                | inl (i, st) ↦
                    subst (StrCopies s.at srcva s.max s.dst)
                      (sym (copyinstr_from_got r next s' st.got))
                      (stopped-StrCopies i srcva s s' nz st)
                | inr run ↦
                    let le' : s'.max ≤ r = (let m = run.max in omega arith) in
                    let ih = copyinstr_from-StrCopies r next s' (run.got ∙ e) le' in
                    chunk-StrCopies s.at srcva s.max s.dst s'.dst nz
                      (NoNul-chunk srcva s.max (chunk srcva s.max) (omega arith) run.before)
                      (λ x.
                        run.bytes x
                        ∙ written-chunk s.at srcva s.max (chunk srcva s.max) s.dst x (omega arith))
                      (copyinstr_from r pagetable next k s')
                      (subst
                        (λ m.
                          StrCopies (s.at + chunk srcva s.max) next m s'.dst
                            (copyinstr_from r pagetable next k s'))
                        run.max
                        (subst
                          (λ a.
                            StrCopies a next s'.max s'.dst (copyinstr_from r pagetable next k s'))
                          run.at ih))
              ])
    ]
  ]

  -- `copyinstr` ends. With 0 there is a NUL among the first max bytes of the user, on mapped pages, and
  -- the destination has the bytes up to the first one, that one included. With -1 there is none
  -- before the first address that is not mapped, or among the first max bytes. In both cases the
  -- other bytes of the destination are as before.
  pub copyinstr-StrCopies :
      (srcva max : ℕ) (dst : Bytes)
      → StrCopies 0 srcva max dst (copyinstr pagetable srcva max k dst)
  unfolding copyinstr
  copyinstr-StrCopies srcva max dst =
      copyinstr_from-StrCopies (max + 1) srcva
        (record { got_null = false; max = max; at = 0; dst = dst }) refl (omega arith)
