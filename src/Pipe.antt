-- ===== src/Pipe.antt =====
-- kernel/pipe.c: a pipe's ring of 512 bytes with 32-bit counters that wrap. A call runs up to its
-- return or its next `sleep`, after which it goes on with its loop from the index that it had.
pub mod Ring
pub mod Transfer
mod Tests
use assignment.Common.{
  ℕ, zero, suc, ◌+◌, ◌%◌, ◌^◌, ◌==◌, Bool, true, false, not, ◌&&◌, ◌||◌, Option, none, some,
  if◌then◌else◌, update,
}

abbrev pub pipe_size : ℕ
pipe_size = 512

-- `uint`
abbrev pub add_uint : ℕ → ℕ → ℕ
add_uint a b = (a + b) % 2 ^ 32

-- A user address: `addr + i` in 64 bits.
abbrev pub add_addr : ℕ → ℕ → ℕ
add_addr a i = (a + i) % 2 ^ 64

-- `struct pipe`. `data'` is its array of bytes.
pub record Pipe : Type 0 where
  pub data' : ℕ → ℕ
  pub nread : ℕ
  pub nwrite : ℕ
  pub readopen : Bool
  pub writeopen : Bool

-- What `pipealloc` makes of the page.
abbrev pub fresh : (ℕ → ℕ) → Pipe
fresh page = record { data' = page; nread = 0; nwrite = 0; readopen = true; writeopen = true }

-- The pipe, and whether its page is given to kfree. The sleepers on the other end are woken.
unfoldable pub pipeclose : Pipe → Bool → Pipe × Bool
pipeclose pi writable =
    let pi' =
      if writable then record pi { writeopen = false } else record pi { readopen = false } in
    (pi', not pi'.readopen && not pi'.writeopen)

-- `pi->data[pi->nwrite++ % PIPESIZE] = ch`
unfoldable pub put : ℕ → Pipe → Pipe
put ch pi = record pi {
  data' = update pi.data' (pi.nwrite % pipe_size) ch;
  nwrite = add_uint pi.nwrite 1;
}

-- `pi->data[pi->nread++ % PIPESIZE]`: the byte, and the pipe.
abbrev pub next_byte : Pipe → ℕ
next_byte pi = pi.data' (pi.nread % pipe_size)

unfoldable pub advance : Pipe → Pipe
advance pi = record pi { nread = add_uint pi.nread 1 }

-- How `pipewrite` stops: -1, a count that it returns, or a sleep at an index.
pub data WriteEnd : Type 0 where
  failed : WriteEnd
  wrote : ℕ → WriteEnd
  blocked : ℕ → WriteEnd

-- `copyin a` is the byte that vm.c's copyin takes from the user address `a`, or none for its -1.
module _ (copyin : ℕ → Option ℕ) (killed : Bool) (addr : ℕ) where
  -- The loop at index i with `rounds` bytes left.
  unfoldable pub write_from : (rounds i : ℕ) → Pipe → Pipe × WriteEnd
  write_from zero i pi = (pi, wrote i)
  write_from (suc k) i pi = elim (not pi.readopen || killed) [
    | true ↦ (pi, failed)
    | false ↦ elim (pi.nwrite == add_uint pi.nread pipe_size) [
      | true ↦ (pi, blocked i)
      | false ↦ elim (copyin (add_addr addr i)) [
        | none ↦ (pi, wrote i)
        | some ch ↦ write_from k (i + 1) (put ch pi)
      ]
    ]
  ]

  unfoldable pub pipewrite : (n : ℕ) → Pipe → Pipe × WriteEnd
  unfolding write_from
  pipewrite n pi = write_from n 0 pi

-- How `piperead` stops: -1, a sleep, or a count that it returns.
pub data ReadEnd : Type 0 where
  failed : ReadEnd
  waiting : ReadEnd
  read : ℕ → ReadEnd

-- `copyout a b m` is the user memory after vm.c's copyout of the byte `b` to `a`, or none for -1.
module _ (M : Type 0) (copyout : ℕ → ℕ → M → Option M) (killed : Bool) (addr : ℕ) where
  unfoldable pub read_from : (rounds i : ℕ) → Pipe → M → Pipe × M × ℕ
  read_from zero i pi m = (pi, m, i)
  read_from (suc k) i pi m = elim (pi.nread == pi.nwrite) [
    | true ↦ (pi, m, i)
    | false ↦ elim (copyout (add_addr addr i) (next_byte pi) m) [
      | none ↦ (advance pi, m, i)
      | some m' ↦ read_from k (i + 1) (advance pi) m'
    ]
  ]

  unfoldable pub piperead : (n : ℕ) → Pipe → M → Pipe × M × ReadEnd
  unfolding read_from
  piperead n pi m =
      if pi.nread == pi.nwrite && pi.writeopen
      then (pi, m, if killed then failed else waiting)
      else (let (pi', m', i) = read_from n 0 pi m in (pi', m', read i))
