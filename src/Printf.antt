-- ===== src/Printf.antt =====
-- user/printf.c and kernel/printf.c. What `putc` and `consputc` are called with is the result, in
-- order. A word is its 32 or 64 bits.
pub mod Digits
pub mod Portable
mod Tests
use assignment.Common.{
  ℕ, zero, suc, ◌+◌, ◌-◌, ◌*◌, ◌/◌, ◌%◌, ◌^◌, ◌==◌, Bool, true, false, not, ◌&&◌, ◌||◌, Option,
  none, some, List, [], ◌∷◌, ◌++◌, ltb, leb, if◌then◌else◌,
}
use assignment.Ulib.{CString}

-- `digits[d]`, where the letters start at `letter`: 65 in the user's table, 97 in the kernel's.
abbrev pub digit : (letter d : ℕ) → ℕ
digit letter d = if ltb d 10 then 48 + d else letter + (d - 10)

abbrev pub user_letter : ℕ
user_letter = 65

abbrev pub kernel_letter : ℕ
kernel_letter = 97

-- The do loop of `printint`; `buf` has the last byte stored in front.
unfoldable pub digits_from : (rounds letter x base : ℕ) (buf : List ℕ) → List ℕ
digits_from zero letter x base buf = buf
digits_from (suc n) letter x base buf =
    let buf' = digit letter (x % base) ∷ buf in
    let rest = digits_from n letter (x / base) base buf' in if x / base == 0 then buf' else rest

-- `xx < 0`
abbrev pub is_negative : ℕ → Bool
is_negative xx = leb (2 ^ 31) xx

-- The loop over `buf` from its end gives the bytes as they lie in the list.
unfoldable pub printint : (letter xx base : ℕ) (sgn : Bool) → List ℕ
unfolding digits_from
printint letter xx base sgn =
    let neg = sgn && is_negative xx in
    let x = if neg then 2 ^ 32 - xx else xx in
    let buf = digits_from 32 letter x base [] in if neg then b'-' ∷ buf else buf

-- The loop of `printptr`, 60 being `sizeof(uint64) * 8 - 4`.
unfoldable pub nibbles : (rounds letter x : ℕ) → List ℕ
nibbles zero letter x = []
nibbles (suc n) letter x = digit letter (x / 2 ^ 60) ∷ nibbles n letter (x * 16 % 2 ^ 64)

unfoldable pub printptr : (letter x : ℕ) → List ℕ
unfolding nibbles
printptr letter x = b'0' ∷ b'x' ∷ nibbles 16 letter x

-- An argument: its 64 bits, and the string that they point to, which none is for the null pointer.
pub record Arg : Type 0 where
  pub word : ℕ
  pub text : Option CString

-- `va_arg`. Without an argument left its value is anything; it is 0 here.
abbrev pub no_arg : Arg
no_arg = record { word = 0; text = none }

abbrev pub va_arg : List Arg → Arg
va_arg [] = no_arg
va_arg (a ∷ _) = a

abbrev pub after : List Arg → List Arg
after [] = []
after (_ ∷ ap) = ap

-- An argument that is taken as an `int`.
abbrev pub int_of : Arg → ℕ
int_of a = a.word % 2 ^ 32

-- "(null)"
abbrev pub text_of : Arg → CString
text_of a = elim a.text [ none ↦ b'(' ∷ b'n' ∷ b'u' ∷ b'l' ∷ b'l' ∷ b')' ∷ [] | some s ↦ s ]

-- What the user's `vprintf` prints for the byte behind a `%`, and whether it takes an argument.
unfoldable pub convert : (c : ℕ) → Arg → Bool × List ℕ
unfolding printint printptr
convert c a =
    if c == b'd'
    then (true, printint user_letter (int_of a) 10 true)
    else if c == b'l'
    then (true, printint user_letter (int_of a) 10 false)
    else if c == b'x'
    then (true, printint user_letter (int_of a) 16 false)
    else if c == b'p'
    then (true, printptr user_letter a.word)
    else if c == b's'
    then (true, text_of a)
    else if c == b'c'
    then (true, (int_of a % 256) ∷ [])
    else if c == b'%'
    then (false, c ∷ [])
    else (false, b'%' ∷ c ∷ [])

-- `vprintf` behind byte i of the format, in_percent being `state == '%'`.
unfoldable pub vprintf_from : (in_percent : Bool) (fmt : CString) (ap : List Arg) → List ℕ
unfolding convert
vprintf_from in_percent [] ap = []
vprintf_from false (c ∷ fmt) ap =
    let next = vprintf_from true fmt ap in
    let rest = vprintf_from false fmt ap in if c == b'%' then next else c ∷ rest
vprintf_from true (c ∷ fmt) ap =
    let r = convert c (va_arg ap) in
    let used = vprintf_from false fmt (after ap) in
    let kept = vprintf_from false fmt ap in if r.0 then r.1 ++ used else r.1 ++ kept

unfoldable pub vprintf : (fmt : CString) (ap : List Arg) → List ℕ
unfolding vprintf_from
vprintf fmt ap = vprintf_from false fmt ap

-- The kernel's `printint`, with its own table of digits: the do loop, and the function, in which
-- `sign = xx < 0` leaves in sign whether there is a minus.
unfoldable pub kernel_digits_from : (rounds x base : ℕ) (buf : List ℕ) → List ℕ
kernel_digits_from zero x base buf = buf
kernel_digits_from (suc n) x base buf =
    let buf' = digit kernel_letter (x % base) ∷ buf in
    let rest = kernel_digits_from n (x / base) base buf' in if x / base == 0 then buf' else rest

unfoldable pub kernel_printint : (xx base : ℕ) (sign : Bool) → List ℕ
unfolding kernel_digits_from
kernel_printint xx base sign =
    let sign' = if sign then is_negative xx else false in
    let x = if sign' then (2 ^ 32 - xx) % 2 ^ 32 else xx in
    let buf = kernel_digits_from 32 x base [] in if sign' then b'-' ∷ buf else buf

-- The same of the kernel's `printf`, which knows no %l and no %c, and prints %x with a sign.
unfoldable pub kernel_convert : (c : ℕ) → Arg → Bool × List ℕ
unfolding kernel_printint printptr
kernel_convert c a =
    if c == b'd'
    then (true, kernel_printint (int_of a) 10 true)
    else if c == b'x'
    then (true, kernel_printint (int_of a) 16 true)
    else if c == b'p'
    then (true, printptr kernel_letter a.word)
    else if c == b's'
    then (true, text_of a)
    else if c == b'%'
    then (false, b'%' ∷ [])
    else (false, b'%' ∷ c ∷ [])

-- The loop of the kernel's `printf`; a format that ends in a `%` ends there.
unfoldable pub kernel_printf : (fmt : CString) (ap : List Arg) → List ℕ
unfolding kernel_convert
kernel_printf [] ap = []
kernel_printf (c ∷ []) ap = if c == b'%' then [] else c ∷ []
kernel_printf (c ∷ d ∷ fmt) ap =
    let r = kernel_convert d (va_arg ap) in
    let literal = kernel_printf (d ∷ fmt) ap in
    let used = kernel_printf fmt (after ap) in
    let kept = kernel_printf fmt ap in
    if c == b'%' then (if r.0 then r.1 ++ used else r.1 ++ kept) else c ∷ literal
