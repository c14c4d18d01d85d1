-- ===== src/Ulib/Laws.antt =====
-- The functions of user/ulib.c against those of kernel/string.c, and lines by `gets`.
use assignment.Common.{
  ℕ, zero, suc, ◌+◌, ◌-◌, ◌<◌, ◌≤◌, ◌≡◌, ◌≢◌, ◌↔◌, ◌⊎◌, inl, inr, ◌==◌, true, false, ◌∙◌, ap, sym,
  refl, List, [], ◌∷◌, ◌++◌, get_or, length, ltb, within, if◌then◌else◌, update, Bool-cases,
  ℕ_discrete, arith,
}
use assignment.Common.Int.{pos}
use assignment.Str.{Bytes, move_up, move_down}
use assignment.Str.Copy.{move_up_lem, move_down_lem, memmove_lem}
use assignment.Ulib.{CString, strcmp, memmove, gets_from, gets, ends_line}

-- A copy of a range onto itself.
move_down_self : (n d : ℕ) (mem : Bytes) (a : ℕ) → move_down n d d mem a ≡ mem a
unfolding move_down
move_down_self zero d mem a = refl
move_down_self (suc n) d mem a =
    move_down_self n (d - 1) (update mem (d - 1) (mem (d - 1))) a ∙ elim (ℕ_discrete (d - 1) a) [
      | yes e ↦ let hit : (d - 1 == a) ≡ true = ground arith in rw hit (ap mem e)
      | no ne ↦ let miss : (d - 1 == a) ≡ false = ground arith in rw miss refl
    ]

-- The two ways to go, against the bytes as they were.
to_range :
    (dst src n : ℕ) (mem : Bytes) (a : ℕ)
    → memmove dst src n mem a ≡ (if within dst (dst + n) a then mem (src + (a - dst)) else mem a)
unfolding memmove
to_range dst src n mem a = elim (Bool-cases (ltb dst src)) [
  | inl up ↦ let le : dst ≤ src = ground arith in rw up (move_up_lem n dst src mem a (inl le))
  | inr down ↦ elim (ℕ_discrete src dst) [
    | yes e ↦ rw down (
        ap (λ s. move_down n (dst + n) (s + n) mem a) e
        ∙ move_down_self n (dst + n) mem a
        ∙ (let at : within dst (dst + n) a ≡ true → src + (a - dst) ≡ a = λ w. ground arith in
            elim (Bool-cases (within dst (dst + n) a)) [
              | inl w ↦ rw w (ap mem (sym (at w)))
              | inr w ↦ rw w refl
            ]))
    | no ne ↦
        let lt : src < dst = ground arith in
        let e₀ : dst + n - n ≡ dst = omega arith in
        rw down (
          move_down_lem n (dst + n) (src + n) mem a (omega arith) (omega arith)
          ∙ (rw e₀ (elim (Bool-cases (within dst (dst + n) a)) [
            | inl w ↦
                (let e₁ : a - (dst + n - (src + n)) ≡ src + (a - dst) = ground arith in
                  rw w (ap mem e₁))
            | inr w ↦ rw w refl
          ])))
  ]
]

-- The user's `memmove` leaves the memory that the kernel's leaves.
pub memmove-agrees :
    (dst src n : ℕ) (mem : Bytes) (a : ℕ)
    → memmove dst src n mem a ≡ assignment.Str.memmove dst src n mem a
memmove-agrees dst src n mem a = to_range dst src n mem a ∙ sym (memmove_lem dst src n mem a)

-- No byte of a string is 0.
abbrev pub IsString : CString → Type 0
IsString [] = Unit {0}
IsString (c ∷ s) = (c ≢ 0) × IsString s

pub strcmp_iff : (p q : CString) → IsString p → IsString q → strcmp p q ≡ pos 0 ↔ p ≡ q
unfolding strcmp
strcmp_iff [] [] hp hq = (λ e. refl, λ e. refl)
strcmp_iff [] (d ∷ q) hp hq = (λ e. absurd (let ne = hq.0 in ground arith), λ e. absurd (cc))
strcmp_iff (c ∷ p) [] hp hq = (λ e. absurd (let ne = hp.0 in ground arith), λ e. absurd (cc))
strcmp_iff (c ∷ p) (d ∷ q) hp hq = elim (ℕ_discrete c d) [
  | yes e ↦
      let hit : (c == d) ≡ true = ground arith in
      let ih = strcmp_iff p q hp.1 hq.1 in rw hit (λ z. (let t = ih.0 z in cc), λ z. ih.1 (cc))
  | no ne ↦
      let miss : (c == d) ≡ false = ground arith in
      rw miss (λ z. absurd (ground arith), λ z. absurd (ne (cc)))
]

-- What the loop of `gets` leaves, from index i on: it has stored the next m bytes of the input, of which
-- no one but the last ends a line, and stopped behind the end of a line, at the end of the input or
-- at the end of the room.
pub record Got (rounds i : ℕ) (input : List ℕ) (buf : Bytes) (r : ℕ × (List ℕ × Bytes))
    : Type 0 where
  pub taken : List ℕ
  pub whole : input ≡ taken ++ r.1.0
  pub index : r.0 ≡ i + length taken
  pub room : length taken ≤ rounds
  pub stored :
      (x : ℕ) → r.1.1 x ≡ (if within i (i + length taken) x then get_or taken (x - i) 0 else buf x)
  pub inside : (j : ℕ) → suc j < length taken → ends_line (get_or taken j 0) ≡ false
  pub why :
      (length taken ≡ rounds)
      ⊎ ((r.1.0 ≡ []) ⊎ ((j : ℕ) × (suc j ≡ length taken) × (ends_line (get_or taken j 0) ≡ true)))

more_stored :
    (i c : ℕ) (ys : List ℕ) (buf : Bytes) (x : ℕ)
    → (if within (i + 1) (i + 1 + length ys) x then get_or ys (x - (i + 1)) 0 else update buf i c x)
      ≡ (if within i (i + suc (length ys)) x then get_or (c ∷ ys) (x - i) 0 else buf x)
more_stored i c ys buf x = elim (ℕ_discrete i x) [
  | yes e ↦
      let hit : (i == x) ≡ true = ground arith in
      let out : within (i + 1) (i + 1 + length ys) x ≡ false = ground arith in
      let in' : within i (i + suc (length ys)) x ≡ true = ground arith in
      let z : x - i ≡ 0 = omega arith in rw (out, hit, in', z) refl
  | no ne ↦
      let miss : (i == x) ≡ false = ground arith in
      elim (Bool-cases (within (i + 1) (i + 1 + length ys) x)) [
        | inl in' ↦
            let in₂ : within i (i + suc (length ys)) x ≡ true = ground arith in
            let z : x - i ≡ suc (x - (i + 1)) = ground arith in rw (in', in₂, z) refl
        | inr out ↦
            let out₂ : within i (i + suc (length ys)) x ≡ false = ground arith in
            rw (out, out₂, miss) refl
      ]
]

one_stored :
    (i c : ℕ) (buf : Bytes) (x : ℕ)
    → update buf i c x ≡ (if within i (i + 1) x then get_or (c ∷ []) (x - i) 0 else buf x)
one_stored i c buf x =
    let out : within (i + 1) (i + 1 + 0) x ≡ false = ground arith in
    (rw out refl) ∙ more_stored i c [] buf x

-- A byte that does not end the line, and the rest of the line.
Got-suc :
    (n i c : ℕ) (input : List ℕ) (buf : Bytes) (r : ℕ × (List ℕ × Bytes))
    → ends_line c ≡ false
    → Got n (i + 1) input (update buf i c) r
    → Got (suc n) i (c ∷ input) buf r
Got-suc n i c input buf r more g = record {
  taken = c ∷ g.taken;
  whole = ap (λ l. c ∷ l) g.whole;
  index = let e = g.index in omega arith;
  room = let e = g.room in omega arith;
  stored = λ x. g.stored x ∙ more_stored i c g.taken buf x;
  inside = λ j lt.
      elim j as (λ j. suc j < suc (length g.taken) → ends_line (get_or (c ∷ g.taken) j 0) ≡ false) [
        | zero ↦ λ lt. more
        | suc j ↦ λ lt. g.inside j (omega arith)
      ]
        lt;
  why = elim g.why [
    | inl e ↦ inl (ap suc e)
    | inr (inl e) ↦ inr (inl e)
    | inr (inr (j, e, h)) ↦ inr (inr (suc j, ap suc e, h))
  ];
}

gets_from-Got :
    (rounds i : ℕ) (input : List ℕ) (buf : Bytes)
    → Got rounds i input buf (gets_from rounds i input buf)
unfolding gets_from
gets_from-Got zero i input buf = record {
  taken = [];
  whole = refl;
  index = omega arith;
  room = omega arith;
  stored = λ x. (let out : within i (i + 0) x ≡ false = ground arith in rw out refl);
  inside = λ j lt. absurd (omega arith);
  why = inl refl;
}
gets_from-Got (suc n) i [] buf = record {
  taken = [];
  whole = refl;
  index = omega arith;
  room = omega arith;
  stored = λ x. (let out : within i (i + 0) x ≡ false = ground arith in rw out refl);
  inside = λ j lt. absurd (omega arith);
  why = inr (inl refl);
}
gets_from-Got (suc n) i (c ∷ input) buf = elim (Bool-cases (ends_line c)) [
  | inl last ↦
      rw (last, gets_from)
        (record {
          taken = c ∷ [];
          whole = refl;
          index = omega arith;
          room = omega arith;
          stored = λ x. one_stored i c buf x;
          inside = λ j lt. absurd (omega arith);
          why = inr (inr (0, refl, last));
        })
  | inr more ↦
      rw (more, gets_from)
        (Got-suc n i c input buf (gets_from n (i + 1) input (update buf i c)) more
          (gets_from-Got n (i + 1) input (update buf i c)))
]

-- What `gets` gives with room for a byte: the next bytes of the input and a NUL, all within the room. No
-- byte but the last ends a line; it stopped there, at the end of the input, or with the room full.
pub gets-Got :
    (max : ℕ) (input : List ℕ) (buf : Bytes)
    → 0 < max
    → (r : ℕ × (List ℕ × Bytes)) × Got (max - 1) 0 input buf r
      × (r.0 < max)
      × (gets max input buf ≡ (r.1.0, update r.1.1 r.0 0))
unfolding gets
gets-Got max input buf room =
    let g = gets_from-Got (max - 1) 0 input buf in
    (gets_from (max - 1) 0 input buf, g, (let i = g.index in let le = g.room in omega arith), refl)
