-- ===== src/Bio.antt =====
-- kernel/bio.c: the buffer cache. The list through next and prev is the list of the buffers, most
-- recently used first; `id` is a buffer's place in `bcache.buf`. The sleep lock of a buffer, taken
-- when `bget` returns, is left to its holder.
pub mod Unique
mod Tests
use assignment.Common.{
  ℕ, zero, suc, ◌+◌, ◌-◌, ◌*◌, ◌==◌, Bool, true, false, ◌&&◌, Option, none, some, List, [], ◌∷◌,
  if◌then◌else◌,
}

-- `struct buf`. The data of a block is any number that stands for its contents.
pub record Buf : Type 0 where
  pub id : ℕ
  pub valid : Bool
  pub dev : ℕ
  pub blockno : ℕ
  pub refcnt : ℕ
  pub contents : ℕ

abbrev pub nbuf : ℕ
nbuf = 30

-- `binit`: each buffer goes in front of the list.
unfoldable pub binit_from : (rounds i : ℕ) → List Buf → List Buf
binit_from zero i bs = bs
binit_from (suc k) i bs =
    binit_from k (i + 1)
      (record { id = i; valid = false; dev = 0; blockno = 0; refcnt = 0; contents = 0 } ∷ bs)

unfoldable pub binit : List Buf
unfolding binit_from
binit = binit_from nbuf 0 []

abbrev pub is_block : (dev blockno : ℕ) → Buf → Bool
is_block dev blockno b = b.dev == dev && b.blockno == blockno

-- The first loop of `bget`: the list with the buffer's count raised, and the buffer.
unfoldable pub get_cached : (dev blockno : ℕ) → List Buf → Option (List Buf × ℕ)
get_cached dev blockno [] = none
get_cached dev blockno (b ∷ bs) =
    let rest = get_cached dev blockno bs in
    if is_block dev blockno b
    then some (record b { refcnt = b.refcnt + 1 } ∷ bs, b.id)
    else elim rest [ none ↦ none | some (bs', i) ↦ some (b ∷ bs', i) ]

-- The second loop of `bget`, from the end of the list.
unfoldable pub recycle : (dev blockno : ℕ) → List Buf → Option (List Buf × ℕ)
recycle dev blockno [] = none
recycle dev blockno (b ∷ bs) = elim (recycle dev blockno bs) [
  | some (bs', i) ↦ some (b ∷ bs', i)
  | none ↦
      if b.refcnt == 0
      then some (record b { dev = dev; blockno = blockno; valid = false; refcnt = 1 } ∷ bs, b.id)
      else none
]

-- None is the panic for want of a buffer.
unfoldable pub bget : (dev blockno : ℕ) → List Buf → Option (List Buf × ℕ)
bget dev blockno bs = elim (get_cached dev blockno bs) [
  | some r ↦ some r
  | none ↦ recycle dev blockno bs
]

-- `if(!b->valid)`, with the block that virtio_disk_rw reads.
unfoldable pub load : (id block : ℕ) → List Buf → List Buf
load id block [] = []
load id block (b ∷ bs) =
    if b.id == id
    then (if b.valid then b else record b { valid = true; contents = block }) ∷ bs
    else b ∷ load id block bs

unfoldable pub bread : (disk : ℕ → ℕ → ℕ) (dev blockno : ℕ) → List Buf → Option (List Buf × ℕ)
bread disk dev blockno bs = elim (bget dev blockno bs) [
  | none ↦ none
  | some (bs', i) ↦ some (load i (disk dev blockno) bs', i)
]

-- The buffer, and the list without it.
unfoldable pub take_out : ℕ → List Buf → Option (Buf × List Buf)
take_out id [] = none
take_out id (b ∷ bs) =
    let rest = take_out id bs in
    if b.id == id then some (b, bs) else elim rest [ none ↦ none | some (c, r) ↦ some (c, b ∷ r) ]

unfoldable pub unref : ℕ → List Buf → List Buf
unref id [] = []
unref id (b ∷ bs) = if b.id == id then record b { refcnt = b.refcnt - 1 } ∷ bs else b ∷ unref id bs

-- `brelse` behind its check of the lock: the last user moves the buffer to the front.
unfoldable pub brelse : ℕ → List Buf → List Buf
brelse id bs = elim (take_out id bs) [
  | none ↦ bs
  | some (b, rest) ↦
      if b.refcnt - 1 == 0 then record b { refcnt = b.refcnt - 1 } ∷ rest else unref id bs
]
