-- ===== src/Str/Copy.antt =====
-- What the copying functions of string.c leave in memory, overlapping arrays included.
use assignment.Common.{
  ℕ, zero, suc, ◌+◌, ◌-◌, ◌%◌, ◌^◌, ◌≤◌, ◌<◌, ◌==◌, ◌≡◌, ◌⊎◌, inl, inr, ◌∙◌, refl, sym, ap, Bool,
  true, false, ◌&&◌, ◌||◌, ltb, within, if◌then◌else◌, update, ℕ_discrete, dec_lt, dec_le,
  Bool-cases, arith,
}
use assignment.Str.{
  Bytes, memset_from, memset, move_down, move_up, memmove, pad, strncpy_from, strncpy,
  safestrcpy_from, safestrcpy,
}

memset_from_lem :
    (k i dst c : ℕ) (mem : Bytes) (a : ℕ)
    → memset_from k i dst c mem a ≡ (if within (dst + i) (dst + i + k) a then c % 2 ^ 8 else mem a)
unfolding memset_from
memset_from_lem zero i dst c mem a = ground arith
memset_from_lem (suc k) i dst c mem a =
    ground (arith, memset_from_lem k (i + 1) dst c (update mem (dst + i) (c % 2 ^ 8)) a)

-- `memset` writes the low byte of `c` to the `n` bytes from `dst` on, and to no other.
pub memset_lem :
    (dst c n : ℕ) (mem : Bytes) (a : ℕ)
    → memset dst c n mem a ≡ (if within dst (dst + n) a then c % 2 ^ 8 else mem a)
unfolding memset
memset_lem dst c n mem a = ground (arith, memset_from_lem n 0 dst c mem a)

pub move_up_lem :
    (n d s : ℕ) (mem : Bytes) (a : ℕ)
    → (d ≤ s) ⊎ (s + n ≤ d)
    → move_up n d s mem a ≡ (if within d (d + n) a then mem (s + (a - d)) else mem a)
unfolding move_up
move_up_lem zero d s mem a h = ground arith
move_up_lem (suc n) d s mem a h = elim (ℕ_discrete d a) [
  | yes e ↦
      let here : s + (a - d) ≡ s = omega arith in
      ground
        (arith, move_up_lem n (d + 1) (s + 1) (update mem d (mem s)) a (omega arith), ap mem here)
  | no ne ↦ elim (dec_lt d a) [
    | yes above ↦
        let same : s + (a - d) ≡ s + 1 + (a - (d + 1)) = omega arith in
        ground
          (arith, move_up_lem n (d + 1) (s + 1) (update mem d (mem s)) a (omega arith), ap mem same)
    | no below ↦
        ground (arith, move_up_lem n (d + 1) (s + 1) (update mem d (mem s)) a (omega arith))
  ]
]

pub move_down_lem :
    (n d s : ℕ) (mem : Bytes) (a : ℕ)
    → n ≤ s
    → s < d
    → move_down n d s mem a ≡ (if within (d - n) d a then mem (a - (d - s)) else mem a)
unfolding move_down
move_down_lem zero d s mem a h k = ground arith
move_down_lem (suc n) d s mem a h k =
    let later = move_down_lem n (d - 1) (s - 1) (update mem (d - 1) (mem (s - 1))) a in
    elim (ℕ_discrete (d - 1) a) [
      | yes e ↦
          let here : a - (d - s) ≡ s - 1 = omega arith in
          ground (arith, later (omega arith) (omega arith), ap mem here)
      | no other ↦
          let same : a - (d - s) ≡ a - (d - 1 - (s - 1)) = omega arith in
          ground (arith, later (omega arith) (omega arith), ap mem same)
    ]

-- `memmove` copies the `n` bytes at `src` to `dst` as they were before the call, however the two
-- ranges overlap, and changes no other byte.
pub memmove_lem :
    (dst src n : ℕ) (mem : Bytes) (a : ℕ)
    → memmove dst src n mem a ≡ (if within dst (dst + n) a then mem (src + (a - dst)) else mem a)
unfolding memmove
memmove_lem dst src n mem a = elim (Bool-cases (ltb src dst && ltb dst (src + n))) [
  | inl down ↦
      let lt : src < dst = ground arith in
      elim (dec_le dst a) [
        | yes p ↦
            let at : src + (a - dst) ≡ a - (dst + n - (src + n)) = omega arith in
            ground (
              arith,
              move_down_lem n (dst + n) (src + n) mem a (omega arith) (omega arith),
              ap mem at,
            )
        | no p ↦
            ground (arith, move_down_lem n (dst + n) (src + n) mem a (omega arith) (omega arith))
      ]
  | inr up ↦
      let side : (dst ≤ src) ⊎ (src + n ≤ dst) = ground arith in
      ground (arith, move_up_lem n dst src mem a side)
]

-- Whether `t` ends before index i.
abbrev pub ends_before : Bytes → ℕ → Bool
ends_before t zero = false
ends_before t (suc i) = ends_before t i || (t i == 0)

pad_lem : (n i : ℕ) (s : Bytes) (a : ℕ) → pad n i s a ≡ (if within i (i + n) a then 0 else s a)
unfolding pad
pad_lem zero i s a = ground arith
pad_lem (suc n) i s a = ground (arith, pad_lem n (i + 1) (update s i 0) a)

pub ends_before_mono : (t : Bytes) (i k : ℕ) → t i ≡ 0 → ends_before t (i + suc k) ≡ true
ends_before_mono t i zero h =
    ap (ends_before t) (let e : i + 1 ≡ suc i = omega arith in e) ∙ ground arith
ends_before_mono t i (suc k) h =
    ap (ends_before t) (let e : i + suc (suc k) ≡ suc (i + suc k) = omega arith in e)
    ∙ ground (arith, ends_before_mono t i k h)

strncpy_from_lem :
    (n i : ℕ) (s t : Bytes) (a : ℕ)
    → ends_before t i ≡ false
    → strncpy_from n i s t a
      ≡ (if within i (i + n) a then (if ends_before t a then 0 else t a) else s a)
unfolding strncpy_from
strncpy_from_lem zero i s t a h = ground arith
strncpy_from_lem (suc n) i s t a h = elim (ℕ_discrete (t i) 0) [
  | yes z ↦ elim (dec_lt i a) [
    | yes later ↦
        let at : a ≡ i + suc (a - i - 1) = omega arith in
        let ended = ap (ends_before t) at ∙ ends_before_mono t i (a - i - 1) z in
        ground (arith, pad_lem n (i + 1) (update s i (t i)) a, ended)
    | no not_later ↦ ground (arith, pad_lem n (i + 1) (update s i (t i)) a, ends_at)
  ]
  | no ne ↦
      let goes_on : ends_before t (i + 1) ≡ false =
        ap (ends_before t) (let q : i + 1 ≡ suc i = omega arith in q) ∙ ground arith in
      ground (arith, strncpy_from_lem n (i + 1) (update s i (t i)) t a goes_on, ends_at)
]
  where
    ends_at : i ≡ a → (ends_before t a ≡ false) × (t a ≡ t i)
    ends_at e = (ap (ends_before t) (sym e) ∙ h, ap t (sym e))

-- `strncpy` copies `t` up to its end or to `n` bytes, fills up with zeros, and writes nothing past
-- `n` bytes.
pub strncpy_lem :
    (s t : Bytes) (n a : ℕ)
    → strncpy s t n a ≡ (if ltb a n then (if ends_before t a then 0 else t a) else s a)
unfolding strncpy
strncpy_lem s t n a = ground (arith, strncpy_from_lem n 0 s t a refl)

safestrcpy_from_lem :
    (k i : ℕ) (s t : Bytes)
    → (j : ℕ) × (i ≤ j)
      × (j ≤ i + k)
      × (safestrcpy_from k i s t j ≡ 0)
      × ((a : ℕ) → i ≤ a → a < j → safestrcpy_from k i s t a ≡ t a)
      × ((a : ℕ) → a < i → safestrcpy_from k i s t a ≡ s a)
      × ((a : ℕ) → i + k < a → safestrcpy_from k i s t a ≡ s a)
unfolding safestrcpy_from
safestrcpy_from_lem zero i s t = (
  i,
  omega arith,
  omega arith,
  ground arith,
  λ a lo hi. absurd (omega arith),
  λ a h. ground arith,
  λ a h. ground arith,
)
safestrcpy_from_lem (suc k) i s t = elim (ℕ_discrete (t i) 0) [
  | yes z ↦ (
    i + 1,
    omega arith,
    omega arith,
    ground arith,
    λ a lo hi. let e : i ≡ a = omega arith in ground (arith, ap t e),
    λ a h. ground arith,
    λ a h. ground arith,
  )
  | no ne ↦
      let (j, lo, hi, end, copied, below, above) =
        safestrcpy_from_lem k (i + 1) (update s i (t i)) t in
      (
        j,
        omega arith,
        omega arith,
        ground (arith, end),
        λ a l h. elim (ℕ_discrete i a) [
          | yes e ↦ ground (arith, below a (omega arith), ap t e)
          | no other ↦ ground (arith, copied a (omega arith) h)
        ],
        λ a h. ground (arith, below a (omega arith)),
        λ a h. ground (arith, above a (omega arith)),
      )
]

-- `safestrcpy` with room for at least one byte leaves a terminated copy: a NUL at some index j
-- below `n`, the bytes of `t` before it, and everything from index `n` on as it was.
pub safestrcpy_lem :
    (s t : Bytes) (n : ℕ)
    → 1 ≤ n
    → (j : ℕ) × (j < n)
      × (safestrcpy s t n j ≡ 0)
      × ((a : ℕ) → a < j → safestrcpy s t n a ≡ t a)
      × ((a : ℕ) → n ≤ a → safestrcpy s t n a ≡ s a)
unfolding safestrcpy
safestrcpy_lem s t n h =
    let (j, lo, hi, end, copied, below, above) = safestrcpy_from_lem (n - 1) 0 s t in
    (
      j,
      omega arith,
      ground (arith, end),
      λ a l. ground (arith, copied a (omega arith) l),
      λ a l. ground (arith, above a (omega arith)),
    )
