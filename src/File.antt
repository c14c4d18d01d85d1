-- ===== src/File.antt =====
-- kernel/file.c: the table of open files and its reference counts, and the loop of `filewrite`. A
-- `struct file *` is an index into the table.
pub mod Counts
pub mod Chunks
mod Tests
use assignment.Common.{
  ℕ, zero, suc, ◌+◌, ◌-◌, ◌*◌, ◌/◌, ◌%◌, ◌^◌, ◌==◌, Bool, true, false, ◌||◌, Option, none, some,
  List, [], ◌∷◌, if◌then◌else◌, ltb, get_elem?, set,
}

pub data FileType : Type 0 where
  fd_none fd_pipe fd_inode fd_device : FileType

-- `struct file`; `pipe` and `ip` name the objects that it points to.
pub record File : Type 0 where
  pub type : FileType
  pub ref : ℕ
  pub readable : Bool
  pub writable : Bool
  pub pipe : ℕ
  pub ip : ℕ
  pub off : ℕ
  pub major : ℕ

abbrev pub Files : Type 0
Files = List File

-- The table with the file taken, and its index; none when every file is in use.
unfoldable pub filealloc_from : Files → ℕ → Option (Files × ℕ)
filealloc_from [] i = none
filealloc_from (f ∷ fs) i =
    let rest = filealloc_from fs (i + 1) in
    if f.ref == 0
    then some (record f { ref = 1 } ∷ fs, i)
    else elim rest [ none ↦ none | some (fs', j) ↦ some (f ∷ fs', j) ]

unfoldable pub filealloc : Files → Option (Files × ℕ)
unfolding filealloc_from
filealloc fs = filealloc_from fs 0

-- None is the panic, or an index outside the table.
unfoldable pub filedup : ℕ → Files → Option Files
filedup i fs = elim (get_elem? fs i) [
  | none ↦ none
  | some f ↦ if ltb f.ref 1 then none else some (set fs i (record f { ref = f.ref + 1 }))
]

-- What `fileclose` does once the last reference is gone.
pub data Closed : Type 0 where
  kept : Closed
  close_pipe : (pipe : ℕ) (writable : Bool) → Closed
  put_inode : (ip : ℕ) → Closed
  nothing : Closed

abbrev pub last_close : File → FileType → Closed
last_close f fd_pipe = close_pipe f.pipe f.writable
last_close f fd_inode = put_inode f.ip
last_close f fd_device = put_inode f.ip
last_close f fd_none = nothing

unfoldable pub fileclose : ℕ → Files → Option (Files × Closed)
fileclose i fs = elim (get_elem? fs i) [
  | none ↦ none
  | some f ↦
      if ltb f.ref 1
      then none
      else if ltb 0 (f.ref - 1)
      then some (set fs i (record f { ref = f.ref - 1 }), kept)
      else some (set fs i (record f { ref = 0; type = fd_none }), last_close f f.type)
]

-- `((MAXOPBLOCKS-1-1-2) / 2) * BSIZE`
abbrev pub max_chunk : ℕ
max_chunk = (10 - 1 - 1 - 2) / 2 * 1024

-- `n1` in the round that starts with i of n bytes written.
abbrev pub chunk : (i n : ℕ) → ℕ
chunk i n = if ltb max_chunk (n - i) then max_chunk else n - i

-- `if ((r = writei(...)) > 0) f->off += r`, on a `uint`.
abbrev pub moved : ℕ → Option ℕ → ℕ
moved off none = off
moved off (some w) = (off + w) % 2 ^ 32

-- The loop of `filewrite` over an inode. `S` is the state of the file system and `writei off i n`
-- what one transaction with writei of the bytes from i on makes of it, with the count that writei
-- returns, or none for -1. None is a loop that has no round left. Else the result is the state, the
-- file's offset and the return value, which is `none` for -1.
module _ (S : Type 0) (writei : (off i n : ℕ) → S → S × Option ℕ) where
  unfoldable pub write_chunks : (fuel i n off : ℕ) → S → Option (S × ℕ × Option ℕ)
  write_chunks zero i n off s =
      if ltb i n then none else some (s, off, if i == n then some n else none)
  write_chunks (suc k) i n off s = elim (ltb i n) [
    | false ↦ some (s, off, if i == n then some n else none)
    | true ↦
        let (s', r) = writei off i (chunk i n) s in
        elim r [
          | none ↦ some (s', off, if i == n then some n else none)
          | some w ↦ elim (w == chunk i n) [
            | true ↦ write_chunks k (i + w) n (moved off (some w)) s'
            | false ↦ some (s', moved off (some w), if i == n then some n else none)
          ]
        ]
  ]

  unfoldable pub filewrite_inode : (n off : ℕ) → S → Option (S × ℕ × Option ℕ)
  unfolding write_chunks
  filewrite_inode n off s = write_chunks n 0 n off s
