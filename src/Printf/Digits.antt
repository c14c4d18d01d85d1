-- ===== src/Printf/Digits.antt =====
-- `printint` of user/printf.c and kernel/printf.c: the bytes are the number's digits.
use assignment.Common.{
  ℕ, zero, suc, ◌+◌, ◌-◌, ◌*◌, ◌/◌, ◌%◌, ◌^◌, ◌<◌, ◌≤◌, ◌≡◌, ◌⊎◌, inl, inr, ◌==◌, Bool, true, false,
  ◌&&◌, ◌∙◌, ap, sym, refl, List, [], ◌∷◌, length, ltb, Bool-cases, ℕ_discrete, arith,
}
use assignment.Common.Int.{pos, signed}
use assignment.Ulib.{is_digit, atoi_from, atoi}
use assignment.Printf.{digit, digits_from, is_negative, printint}

-- `atoi` takes the digits of a number for the number.
atoi_from-digits_from :
    (n letter x : ℕ) (buf : List ℕ)
    → x < 2 ^ n
    → x < 2 ^ 32
    → atoi_from 0 (digits_from n letter x 10 buf) ≡ atoi_from x buf
unfolding atoi_from digits_from
atoi_from-digits_from zero letter x buf lt lt' =
    let z : x ≡ 0 = omega arith in ap (λ y. atoi_from y buf) (sym z)
atoi_from-digits_from (suc n) letter x buf lt lt' =
    let d = digit letter (x % 10) in
    let is : d ≡ 48 + x % 10 = ground arith in
    let ok : is_digit d ≡ true = ground arith in
    let step : (y : ℕ) → y ≡ x / 10 → atoi_from y (d ∷ buf) ≡ atoi_from x buf =
      λ y e. (let v : (y * 10 + d + 2 ^ 32 - 48) % 2 ^ 32 ≡ x = omega arith in rw (ok, v) refl) in
    let half : x / 10 < 2 ^ n = grind arith in
    elim (ℕ_discrete (x / 10) 0) [
      | yes z ↦ let hit : (x / 10 == 0) ≡ true = ground arith in rw hit (step 0 (sym z))
      | no nz ↦
          let miss : (x / 10 == 0) ≡ false = ground arith in
          rw miss (
            atoi_from-digits_from n letter (x / 10) (d ∷ buf) half (omega arith)
            ∙ step (x / 10) refl)
    ]

-- What `printint` prints in decimal for an `int` that is not negative, `atoi` reads as that number.
pub atoi-printint : (letter x : ℕ) → x < 2 ^ 31 → atoi (printint letter x 10 true) ≡ pos x
unfolding atoi printint atoi_from
atoi-printint letter x lt =
    let no' : is_negative x ≡ false = ground arith in
    let small : ltb x (2 ^ 31) ≡ true = ground arith in
    rw no' (
      ap (signed 31) (atoi_from-digits_from 32 letter x [] (omega arith) (omega arith))
      ∙ (rw small refl))

-- A number below b ^ k has k digits.
length-digits_from :
    (n letter x : ℕ) (buf : List ℕ)
    → (base : ℕ) → (base ≡ 10) ⊎ (base ≡ 16)
    → (k : ℕ) → x < 10 ^ suc k
    → length (digits_from n letter x base buf) ≤ length buf + suc k
unfolding digits_from
length-digits_from zero letter x buf base h k lt = omega arith
length-digits_from (suc n) letter x buf base h k lt =
    let buf' = digit letter (x % base) ∷ buf in
    elim (ℕ_discrete (x / base) 0) [
      | yes z ↦ let hit : (x / base == 0) ≡ true = ground arith in rw hit (omega arith)
      | no nz ↦
          let miss : (x / base == 0) ≡ false = ground arith in
          rw miss (
            elim k
                as (λ k.
                  x < 10 ^ suc k
                  → length (digits_from n letter (x / base) base buf') ≤ length buf + suc k) [
                    | zero ↦ λ lt.
                        absurd
                          (nz (elim h [ inl e ↦ rw e (omega arith) | inr e ↦ rw e (omega arith) ]))
                    | suc k ↦ λ lt.
                        (let less : x / base < 10 ^ suc k = elim h [
                          | inl e ↦ rw e (grind arith)
                          | inr e ↦ rw e (grind arith)
                        ] in
                          let ih = length-digits_from n letter (x / base) buf' base h k less in
                          omega arith)
                  ]
              lt)
    ]

-- `printint` never writes past the 16 bytes of its buffer: in the bases it is called with an `int` has
-- at most 11 characters.
pub length-printint :
    (letter xx base : ℕ) (sgn : Bool)
    → (base ≡ 10) ⊎ (base ≡ 16)
    → xx < 2 ^ 32
    → length (printint letter xx base sgn) ≤ 11
unfolding printint
length-printint letter xx base sgn h lt = elim (Bool-cases (sgn && is_negative xx)) [
  | inl neg ↦ rw neg (
      let ih = length-digits_from 32 letter (2 ^ 32 - xx) [] base h 9 (ground arith) in omega arith)
  | inr no' ↦
      rw no' (let ih = length-digits_from 32 letter xx [] base h 9 (omega arith) in omega arith)
]
