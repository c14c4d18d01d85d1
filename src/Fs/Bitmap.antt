-- ===== src/Fs/Bitmap.antt =====
-- kernel/fs.c: bzero, balloc and bfree over the bitmap of free blocks.
pub mod Bits
pub mod Alloc
use assignment.Common.{
  ℕ, zero, suc, ◌+◌, ◌-◌, ◌/◌, ◌%◌, ◌^◌, ◌==◌, ◌&&◌, Bool, true, false, Option, none, some, ltb,
  if◌then◌else◌, update,
}
use assignment.Fs.Types.{
  Block, bsize, bpb, Superblock, Fs, M, pure, panic, ◌>>=◌, ◌>>◌, read_block, write_block, get_sb,
  bitmap_block,
}

-- `memset(bp->data, 0, BSIZE)`
abbrev pub zeroed : Block → Block
zeroed d i = if ltb i bsize then 0 else d i

unfoldable pub bzero : ℕ → M (Unit {0})
bzero bno = do d ← read_block bno; write_block bno (zeroed d)

-- `(data[bi/8] & (1 << (bi % 8))) == 0`
abbrev pub is_free : Block → ℕ → Bool
is_free d bi = d (bi / 8) / 2 ^ (bi % 8) % 2 == 0

-- `data[bi/8] |= m` of a clear bit, and `data[bi/8] &= ~m` of a set one.
abbrev pub set_bit : Block → ℕ → Block
set_bit d bi = update d (bi / 8) (d (bi / 8) + 2 ^ (bi % 8))

abbrev pub clear_bit : Block → ℕ → Block
clear_bit d bi = update d (bi / 8) (d (bi / 8) - 2 ^ (bi % 8))

-- The inner loop of `balloc`: the first free bit from `bi` on in the bitmap block of `b`.
unfoldable pub find_bit : (rounds bi b size : ℕ) → Block → Option ℕ
find_bit zero bi b size d = none
find_bit (suc k) bi b size d = elim (ltb (b + bi) size) [
  | false ↦ none
  | true ↦ elim (is_free d bi) [ true ↦ some bi | false ↦ find_bit k (bi + 1) b size d ]
]

-- The outer loop, from `b` on. It ends by its test: `b` grows by a block of bits.
unfoldable pub balloc_from : (rounds b : ℕ) → M ℕ
unfolding find_bit bzero
balloc_from zero b s = some (0, s)
balloc_from (suc k) b s = elim (ltb b s.sb.size) [
  | false ↦ some (0, s)
  | true ↦
      let d = s.cache (bitmap_block s.sb b) in
      elim (find_bit bpb 0 b s.sb.size d) [
        | none ↦ balloc_from k (b + bpb) s
        | some bi ↦
            (write_block (bitmap_block s.sb b) (set_bit d bi) >> (bzero (b + bi) >> pure (b + bi)))
              s
      ]
]

unfoldable pub balloc : M ℕ
unfolding balloc_from
balloc s = balloc_from (s.sb.size / bpb + 1) 0 s

unfoldable pub bfree : ℕ → M (Unit {0})
bfree b = do
  sb ← get_sb
  d ← read_block (bitmap_block sb b)
  if is_free d (b % bpb) then panic else write_block (bitmap_block sb b) (clear_bit d (b % bpb))
