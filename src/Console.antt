-- ===== src/Console.antt =====
-- kernel/console.c: line editing by the interrupt handler, and reads of whole lines. The counters of
-- `cons` are 32-bit and wrap. What reaches the UART, and calls of other parts, are listed in order.
pub mod Line
mod Tests
use assignment.Common.{
  ℕ, zero, suc, ◌+◌, ◌-◌, ◌%◌, ◌^◌, ◌==◌, Bool, true, false, not, ◌&&◌, ◌||◌, Option, none, some,
  List, [], ◌∷◌, ◌++◌, ltb, if◌then◌else◌, update,
}

abbrev pub input_buf_size : ℕ
input_buf_size = 128

abbrev pub backspace : ℕ
backspace = 0x100

-- `C(x)`, Control-x
abbrev pub ctrl : ℕ → ℕ
ctrl x = x - 64

-- `cons`
pub record Cons : Type 0 where
  pub buf : ℕ → ℕ
  pub r : ℕ
  pub w : ℕ
  pub e : ℕ

pub data Effect : Type 0 where
  uart : ℕ → Effect
  wakeup_readers : Effect
  procdump : Effect

-- `a - b` and `a + 1` of `uint`s.
abbrev pub sub_uint : ℕ → ℕ → ℕ
sub_uint a b = (a + 2 ^ 32 - b) % 2 ^ 32

abbrev pub next_uint : ℕ → ℕ
next_uint a = (a + 1) % 2 ^ 32

unfoldable pub consputc : ℕ → List Effect
consputc c = if c == backspace then uart 8 ∷ uart 32 ∷ uart 8 ∷ [] else uart c ∷ []

-- `while(cons.e != cons.w && cons.buf[(cons.e-1) % INPUT_BUF_SIZE] != '\n')`. Each round takes a byte
-- off, so e - w rounds are enough.
unfoldable pub kill_line : (rounds : ℕ) → Cons → Cons × List Effect
kill_line zero c = (c, [])
kill_line (suc k) c =
    elim (not (c.e == c.w) && not (c.buf (sub_uint c.e 1 % input_buf_size) == 10)) [
      | false ↦ (c, [])
      | true ↦
          let rest = kill_line k (record c { e = sub_uint c.e 1 }) in
          (rest.0, consputc backspace ++ rest.1)
    ]

-- The `default` case: `c` with '\r' made '\n', echoed and stored.
unfoldable pub type_char : ℕ → Cons → Cons × List Effect
type_char c cons =
    let c' = if c == 13 then 10 else c in
    let e' = next_uint cons.e in
    let stored = record cons {
      buf = update cons.buf (cons.e % input_buf_size) (c' % 256);
      e = e';
    } in
    if c' == 10 || (c' == ctrl 68) || (sub_uint e' cons.r == input_buf_size)
    then (record stored { w = e' }, consputc c' ++ wakeup_readers ∷ [])
    else (stored, consputc c')

-- The cases of `consoleintr`.
unfoldable pub consoleintr : ℕ → Cons → Cons × List Effect
consoleintr c cons =
    if c == ctrl 80
    then (cons, procdump ∷ [])
    else if c == ctrl 85
    then kill_line (sub_uint cons.e cons.w) cons
    else if c == ctrl 72 || (c == 127)
    then if not (cons.e == cons.w)
      then (record cons { e = sub_uint cons.e 1 }, consputc backspace)
      else (cons, [])
    else if not (c == 0) && ltb (sub_uint cons.e cons.r) input_buf_size
    then type_char c cons
    else (cons, [])

-- How `consoleread` stops: -1, a count that it returns, or a sleep with n bytes still wanted, after
-- which it goes on with its loop.
pub data ReadEnd : Type 0 where
  failed : ReadEnd
  read : ℕ → ReadEnd
  asleep : (n dst : ℕ) → ReadEnd

-- `copyout dst b m` is the memory after either_copyout of one byte, or none for -1.
module _ (M : Type 0) (copyout : ℕ → ℕ → M → Option M) (killed : Bool) (target : ℕ) where
  -- The loop with n bytes wanted of `target`.
  unfoldable pub read_from : (n dst : ℕ) → Cons → M → Cons × M × ReadEnd
  read_from zero dst cons m = (cons, m, read target)
  read_from (suc k) dst cons m = elim (cons.r == cons.w) [
    | true ↦ (cons, m, if killed then failed else asleep (suc k) dst)
    | false ↦
        let c = cons.buf (cons.r % input_buf_size) in
        let next = record cons { r = next_uint cons.r } in
        elim (c == ctrl 68) [
          | true ↦ (if ltb (suc k) target then cons else next, m, read (target - suc k))
          | false ↦ elim (copyout dst c m) [
            | none ↦ (next, m, read (target - suc k))
            | some m' ↦ elim (c == 10) [
              | true ↦ (next, m', read (target - k))
              | false ↦ read_from k (dst + 1) next m'
            ]
          ]
        ]
  ]

  unfoldable pub consoleread : (dst : ℕ) → Cons → M → Cons × M × ReadEnd
  unfolding read_from
  consoleread dst cons m = read_from target dst cons m

-- The loop of `consolewrite` at index i: the count, and what goes to the UART. `copyin a` is
-- either_copyin of one byte.
module _ (copyin : ℕ → Option ℕ) (src : ℕ) where
  unfoldable pub write_from : (rounds i : ℕ) → ℕ × List Effect
  write_from zero i = (i, [])
  write_from (suc k) i = elim (copyin (src + i)) [
    | none ↦ (i, [])
    | some c ↦ let rest = write_from k (i + 1) in (rest.0, uart c ∷ rest.1)
  ]

  unfoldable pub consolewrite : (n : ℕ) → ℕ × List Effect
  unfolding write_from
  consolewrite n = write_from n 0
