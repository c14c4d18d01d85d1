-- ===== src/Ulib/Tests.antt =====
-- The functions of user/ulib.c at a line of input, and the theorems about them there.
use assignment.Common.{ℕ, ◌-◌, ◌<◌, ◌≡◌, refl, List, [], ◌∷◌, update, arith}
use assignment.Common.Int.{pos}
use assignment.Str.{Bytes}
use assignment.Ulib.{CString, strcmp, atoi, gets}
use assignment.Ulib.Laws.{Got, gets-Got}

-- "hi", the end of the line, and "x"
abbrev line : CString
line = b'h' ∷ b'i' ∷ 10 ∷ b'x' ∷ []

abbrev counting : Bytes
counting i = i

gets-Got_example :
    (r : ℕ × (List ℕ × Bytes)) × Got (10 - 1) 0 line counting r
    × (r.0 < 10)
    × (gets 10 line counting ≡ (r.1.0, update r.1.1 r.0 0))
gets-Got_example = gets-Got 10 line counting (omega arith)

-- The line is taken with its end, and the rest of the input stays.
gets_reads : (gets 10 line counting).0 ≡ b'x' ∷ []
unfolding gets
gets_reads = refl

atoi_stops : atoi (b'4' ∷ b'2' ∷ b'-' ∷ b'7' ∷ []) ≡ pos 42
unfolding atoi
atoi_stops = refl

strcmp_prefix : strcmp line (b'h' ∷ []) ≡ pos b'i'
unfolding strcmp
strcmp_prefix = refl
