-- ===== src/Printf/Tests.antt =====
-- Runs of user/printf.c and kernel/printf.c, and the theorems about them there.
use assignment.Common.{◌^◌, ◌-◌, ◌≡◌, refl, true, none, List, [], ◌∷◌, length, arith}
use assignment.Common.Int.{pos}
use assignment.Ulib.{CString, atoi}
use assignment.Printf.{printint, user_letter, Arg, vprintf, kernel_printf}
use assignment.Printf.Digits.{atoi-printint}
use assignment.Printf.Portable.{kernel_printf-vprintf}

-- "%d%s%" with -12 and a null pointer
abbrev format : CString
format = b'%' ∷ b'd' ∷ b'%' ∷ b's' ∷ b'%' ∷ []

abbrev args : List Arg
args = record { word = 2 ^ 32 - 12; text = none } ∷ record { word = 0; text = none } ∷ []

atoi-printint_example : atoi (printint user_letter 2050 10 true) ≡ pos 2050
atoi-printint_example = atoi-printint user_letter 2050 (omega arith)

kernel_printf-vprintf_example : kernel_printf format args ≡ vprintf format args
kernel_printf-vprintf_example = kernel_printf-vprintf format args refl

vprintf_null :
    vprintf format args ≡ b'-' ∷ b'1' ∷ b'2' ∷ b'(' ∷ b'n' ∷ b'u' ∷ b'l' ∷ b'l' ∷ b')' ∷ []
unfolding vprintf
vprintf_null = refl

-- The least `int` has the longest line.
printint_least : length (printint user_letter (2 ^ 31) 10 true) ≡ 11
unfolding printint
printint_least = refl

-- A negative number in hexadecimal has a sign in the kernel only.
kernel_printf_hex :
    kernel_printf (b'%' ∷ b'x' ∷ []) (record { word = 2 ^ 32 - 10; text = none } ∷ [])
    ≡ b'-' ∷ b'a' ∷ []
unfolding kernel_printf
kernel_printf_hex = refl
