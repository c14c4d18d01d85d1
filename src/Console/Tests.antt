-- ===== src/Console/Tests.antt =====
-- Two characters of a line typed, and the theorems about kernel/console.c at it.
use assignment.Common.{
  ℕ, ◌-◌, ◌^◌, ◌==◌, ◌≡◌, refl, false, Option, some, List, [], ◌∷◌, if◌then◌else◌, update, arith,
}
use assignment.Console.{
  Cons, uart, wakeup_readers, consputc, kill_line, type_char, consoleintr, read, consoleread,
}
use assignment.Console.Line.{IsEditing, Takes, consoleread_lem}

-- "hi" is typed, and the counters are about to wrap.
abbrev typed : Cons
typed = record { buf = λ j. if j == 126 then 104 else 105; r = 2 ^ 32 - 2; w = 2 ^ 32 - 2; e = 0 }

-- A newline commits the line.
abbrev entered : Cons
entered = record typed { buf = update typed.buf 0 10; w = 1; e = 1 }

consoleintr-newline : consoleintr 13 typed ≡ (entered, uart 10 ∷ wakeup_readers ∷ [])
unfolding consoleintr type_char consputc
consoleintr-newline = refl

-- Control-U takes the line off.
consoleintr-kill : (consoleintr 21 typed).0.e ≡ 2 ^ 32 - 2
unfolding consoleintr kill_line
consoleintr-kill = refl

entered-IsEditing : IsEditing entered
entered-IsEditing = record {
  read_fits = omega arith;
  write_fits = omega arith;
  edit_fits = omega arith;
  ordered = omega arith;
  bounded = omega arith;
}

-- Memory as the list of the bytes that arrived, last one first.
abbrev keep : ℕ → ℕ → List ℕ → Option (List ℕ)
keep dst b m = some (b ∷ m)

consoleread-entered :
    consoleread (List ℕ) keep false 80 0 entered []
    ≡ (record entered { r = 1 }, 10 ∷ 105 ∷ 104 ∷ [], read 3)
unfolding consoleread
consoleread-entered = refl

consoleread_lem_example :
    Takes false 80 80 entered (consoleread (List ℕ) keep false 80 0 entered [])
consoleread_lem_example = consoleread_lem (List ℕ) keep false 80 0 entered [] entered-IsEditing
