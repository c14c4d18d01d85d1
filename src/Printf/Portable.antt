-- ===== src/Printf/Portable.antt =====
-- Formats for which kernel/printf.c and user/printf.c print the same.
use assignment.Common.{
  ℕ, zero, suc, ◌-◌, ◌/◌, ◌%◌, ◌^◌, ◌≡◌, ◌==◌, Bool, true, false, not, ◌&&◌, ◌||◌, inl, inr, ◌∙◌,
  ap, sym, refl, List, [], ◌∷◌, ◌++◌, if◌then◌else◌, Bool-cases, arith,
}
use assignment.Ulib.{CString}
use assignment.Printf.{
  digit, digits_from, is_negative, printint, kernel_digits_from, kernel_printint, user_letter,
  kernel_letter, Arg, va_arg, after, int_of, convert, vprintf_from, vprintf, kernel_convert,
  kernel_printf,
}

-- A conversion that both know or neither does.
abbrev pub is_shared : ℕ → Bool
is_shared c = not (c == b'l' || (c == b'x') || (c == b'p') || (c == b'c'))

-- Every `%` of the format stands before such a conversion, or at the end.
abbrev pub is_portable : CString → Bool
is_portable [] = true
is_portable (_ ∷ []) = true
is_portable (c ∷ d ∷ fmt) =
    let next = is_portable fmt in
    let rest = is_portable (d ∷ fmt) in if c == b'%' then is_shared d && next else rest

-- Decimal digits are no letters.
digits_from_decimal :
    (n a b x : ℕ) (buf : List ℕ) → digits_from n a x 10 buf ≡ digits_from n b x 10 buf
unfolding digits_from
digits_from_decimal zero a b x buf = refl
digits_from_decimal (suc n) a b x buf =
    let e : digit a (x % 10) ≡ digit b (x % 10) = ground arith in
    rw e (
      ap (λ r. if x / 10 == 0 then digit b (x % 10) ∷ buf else r)
        (digits_from_decimal n a b (x / 10) (digit b (x % 10) ∷ buf)))

printint_decimal : (a b xx : ℕ) (sgn : Bool) → printint a xx 10 sgn ≡ printint b xx 10 sgn
unfolding printint
printint_decimal a b xx sgn =
    let neg = sgn && is_negative xx in
    let x = if neg then 2 ^ 32 - xx else xx in
    ap (λ buf. if neg then b'-' ∷ buf else buf) (digits_from_decimal 32 a b x [])

kernel_digits_from-digits_from :
    (n x base : ℕ) (buf : List ℕ)
    → kernel_digits_from n x base buf ≡ digits_from n kernel_letter x base buf
unfolding digits_from kernel_digits_from
kernel_digits_from-digits_from zero x base buf = refl
kernel_digits_from-digits_from (suc n) x base buf =
    let buf' = digit kernel_letter (x % base) ∷ buf in
    ap (λ r. if x / base == 0 then buf' else r)
      (kernel_digits_from-digits_from n (x / base) base buf')

-- The kernel's `printint` differs from the user's by its digits.
kernel_printint-printint :
    (xx base : ℕ) (sign : Bool) → kernel_printint xx base sign ≡ printint kernel_letter xx base sign
unfolding printint kernel_printint
kernel_printint-printint xx base false = kernel_digits_from-digits_from 32 xx base []
kernel_printint-printint xx base true = elim (Bool-cases (is_negative xx)) [
  | inr plus ↦ rw plus (kernel_digits_from-digits_from 32 xx base [])
  | inl minus ↦
      let small : (2 ^ 32 - xx) % 2 ^ 32 ≡ 2 ^ 32 - xx = ground arith in
      rw (minus, small)
        (ap (λ r. b'-' ∷ r) (kernel_digits_from-digits_from 32 (2 ^ 32 - xx) base []))
]

convert_shared : (c : ℕ) (a : Arg) → is_shared c ≡ true → kernel_convert c a ≡ convert c a
unfolding convert kernel_convert
convert_shared c a ok =
    let l : (c == b'l') ≡ false = ground arith in
    let x : (c == b'x') ≡ false = ground arith in
    let p : (c == b'p') ≡ false = ground arith in
    let ch : (c == b'c') ≡ false = ground arith in
    elim (Bool-cases (c == b'd')) [
      | inl d ↦
          rw (d, kernel_convert, convert)
            (ap (λ out. (true, out))
              (kernel_printint-printint (int_of a) 10 true
                ∙ printint_decimal kernel_letter user_letter (int_of a) true))
      | inr d ↦ elim (Bool-cases (c == b's')) [
        | inl s ↦ rw (d, l, x, p, s, kernel_convert, convert) refl
        | inr s ↦ elim (Bool-cases (c == b'%')) [
          | inl pc ↦
              let e : c ≡ b'%' = ground arith in
              rw (d, l, x, p, s, ch, pc, kernel_convert, convert)
                (ap (λ y. (false, y ∷ [])) (sym e))
          | inr pc ↦ rw (d, l, x, p, s, ch, pc, kernel_convert, convert) refl
        ]
      ]
    ]

-- The two print the same for a format that is portable, whatever the arguments.
pub kernel_printf-vprintf :
    (fmt : CString) (ap : List Arg) → is_portable fmt ≡ true → kernel_printf fmt ap ≡ vprintf fmt ap
unfolding kernel_printf vprintf vprintf_from
kernel_printf-vprintf [] args ok = refl
kernel_printf-vprintf (c ∷ []) args ok = elim (Bool-cases (c == b'%')) [
  | inl pc ↦ rw (pc, kernel_printf, vprintf_from) refl
  | inr pc ↦ rw (pc, kernel_printf, vprintf_from) refl
]
kernel_printf-vprintf (c ∷ d ∷ fmt) args ok = elim (Bool-cases (c == b'%')) [
  | inr pc ↦
      let ok' : is_portable (d ∷ fmt) ≡ true = rw (pc, is_portable) at ok in
      rw (pc, kernel_printf, vprintf_from)
        (ap (λ r. c ∷ r) (kernel_printf-vprintf (d ∷ fmt) args ok'))
  | inl pc ↦
      let both : (is_shared d && is_portable fmt) ≡ true = rw (pc, is_portable) at ok in
      let shared : is_shared d ≡ true = ground arith in
      let ok' : is_portable fmt ≡ true = ground arith in
      let e = convert_shared d (va_arg args) shared in
      let used = kernel_printf-vprintf fmt (after args) ok' in
      let kept = kernel_printf-vprintf fmt args ok' in
      rw (pc, kernel_printf, vprintf_from)
        (let r = convert d (va_arg args) in
          ap
            (λ (q : Bool × List ℕ).
              if q.0 then q.1 ++ kernel_printf fmt (after args) else q.1 ++ kernel_printf fmt args)
            e
          ∙ ap (λ t. if r.0 then r.1 ++ t else r.1 ++ kernel_printf fmt args) used
          ∙ ap (λ t. if r.0 then r.1 ++ vprintf fmt (after args) else r.1 ++ t) kept)
]
