-- ===== src/Fs/Types.antt =====
-- The state that kernel/fs.c works on, after kernel/fs.h and kernel/file.h, and the fields of its
-- blocks. A block is its bytes by their index. `bread` gives the cached contents and `brelse` changes
-- none of them, so a read is a look at `cache`; a write stands with the `log_write` behind it.
use assignment.Common.{
  ℕ, ◌+◌, ◌*◌, ◌/◌, ◌%◌, Bool, true, Option, none, some, List, update, get_elem?, set,
}

abbrev pub Block : Type 0
Block = ℕ → ℕ

abbrev pub bsize : ℕ
bsize = 1024

abbrev pub ndirect : ℕ
ndirect = 12

-- `BSIZE / sizeof(uint)`
abbrev pub nindirect : ℕ
nindirect = 256

-- `BSIZE / sizeof(struct dinode)`
abbrev pub ipb : ℕ
ipb = 16

-- `BSIZE*8`
abbrev pub bpb : ℕ
bpb = 8192

pub record Superblock : Type 0 where
  pub size : ℕ
  pub ninodes : ℕ
  pub inodestart : ℕ
  pub bmapstart : ℕ

-- `struct inode`; a `short` is its bit pattern. `locked` is the sleep lock.
pub record Inode : Type 0 where
  pub dev : ℕ
  pub inum : ℕ
  pub ref : ℕ
  pub locked : Bool
  pub valid : Bool
  pub type : ℕ
  pub major : ℕ
  pub minor : ℕ
  pub nlink : ℕ
  pub size : ℕ
  pub addrs : ℕ → ℕ

-- `logged` are the blocks that `log_write` was called for. `itable` is `itable.inode`, and a
-- `struct inode *` is an index into it.
pub record Fs : Type 0 where
  pub sb : Superblock
  pub cache : ℕ → Block
  pub logged : ℕ → Bool
  pub itable : List Inode

-- None is a panic, or a wait for a lock that the process holds itself.
abbrev pub M : Type 0 → Type 0
M A = Fs → Option (A × Fs)

abbrev pub pure : {A : Type 0} → A → M A
pure a s = some (a, s)

abbrev pub panic : {A : Type 0} → M A
panic s = none

infixl 5 ◌>>=◌ ◌>>◌
abbrev pub ◌>>=◌ : {A B : Type 0} → M A → (A → M B) → M B
◌>>=◌ m f s = elim (m s) [ none ↦ none | some (a, s') ↦ f a s' ]

abbrev pub ◌>>◌ : {B : Type 0} → M (Unit {0}) → M B → M B
m >> k = m >>= λ _. k

-- `bread`
abbrev pub read_block : ℕ → M Block
read_block b s = some (s.cache b, s)

-- The buffer of a block changed, with no `log_write`.
abbrev pub change_block : ℕ → Block → M (Unit {0})
change_block b v s = some (tt, record s { cache = update s.cache b v })

-- The buffer of a block changed, and `log_write` of it.
abbrev pub write_block : ℕ → Block → M (Unit {0})
write_block b v s =
    some (tt, record s { cache = update s.cache b v; logged = update s.logged b true })

abbrev pub get_sb : M Superblock
get_sb s = some (s.sb, s)

-- An index outside the table is none.
abbrev pub get_inode : ℕ → M Inode
get_inode ip s = elim (get_elem? s.itable ip) [ none ↦ none | some i ↦ some (i, s) ]

abbrev pub put_inode : ℕ → Inode → M (Unit {0})
put_inode ip i s = some (tt, record s { itable = set s.itable ip i })

-- A little-endian `short` at a byte, and a `uint`.
abbrev pub read_short : Block → ℕ → ℕ
read_short d p = d p + 256 * d (p + 1)

abbrev pub write_short : Block → ℕ → ℕ → Block
write_short d p v = update (update d p (v % 256)) (p + 1) (v / 256 % 256)

abbrev pub read_uint : Block → ℕ → ℕ
read_uint d p = d p + 256 * d (p + 1) + 65536 * d (p + 2) + 16777216 * d (p + 3)

abbrev pub write_uint : Block → ℕ → ℕ → Block
write_uint d p v =
    update
      (update (update (update d p (v % 256)) (p + 1) (v / 256 % 256)) (p + 2) (v / 65536 % 256))
      (p + 3) (v / 16777216 % 256)

-- `IBLOCK`, and where the inode stands in that block.
abbrev pub inode_block : Superblock → ℕ → ℕ
inode_block sb inum = inum / ipb + sb.inodestart

abbrev pub inode_at : ℕ → ℕ
inode_at inum = inum % ipb * 64

-- `BBLOCK`
abbrev pub bitmap_block : Superblock → ℕ → ℕ
bitmap_block sb b = b / bpb + sb.bmapstart
