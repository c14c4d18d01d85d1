-- ===== src/Fs/Content.antt =====
-- kernel/fs.c: the contents of an inode: bmap, itrunc, iput, stati, readi and writei.
--
-- The caller's memory is a parameter. `copyout dst bytes` is either_copyout with the state `D` of that
-- memory, and says whether it succeeds; `copyin src n` is either_copyin: the bytes that arrived, all n
-- of them or those before the fault, and whether it succeeds.
pub mod Map
use assignment.Common.{
  ℕ, zero, suc, ◌+◌, ◌-◌, ◌*◌, ◌/◌, ◌%◌, ◌^◌, ◌==◌, ◌&&◌, ◌||◌, Bool, true, false, Option, none,
  some, List, [], ◌∷◌, ltb, if◌then◌else◌, update, min,
}
use assignment.Fs.Types.{
  Block, bsize, ndirect, nindirect, Inode, M, pure, panic, ◌>>=◌, ◌>>◌, read_block, change_block,
  write_block, get_inode, put_inode, read_uint, write_uint,
}
use assignment.Fs.Bitmap.{balloc, bfree}
use assignment.Fs.Inode.{iupdate, iunlock}

-- The block of a direct address, or of the indirect block, allocated if there is none.
unfoldable pub map_direct : (ip bn : ℕ) → M ℕ
map_direct i bn = do
  ip ← get_inode i
  if ip.addrs bn == 0
      then (do
        addr ← balloc
        ip' ← get_inode i
        if addr == 0
            then pure 0
            else put_inode i (record ip' { addrs = update ip'.addrs bn addr }) >> pure addr)
      else pure (ip.addrs bn)

-- The bn-th word of the indirect block `addr`.
unfoldable pub map_indirect : (addr bn : ℕ) → M ℕ
map_indirect addr bn = do
  a ← read_block addr
  if read_uint a (4 * bn) == 0
      then (do
        new ← balloc
        a' ← read_block addr
        if new == 0 then pure 0 else write_block addr (write_uint a' (4 * bn) new) >> pure new)
      else pure (read_uint a (4 * bn))

unfoldable pub bmap : (ip bn : ℕ) → M ℕ
unfolding map_direct map_indirect
bmap i bn =
    if ltb bn ndirect
    then map_direct i bn
    else if ltb (bn - ndirect) nindirect
    then (do
      addr ← map_direct i ndirect
      if addr == 0 then pure 0 else map_indirect addr (bn - ndirect))
    else panic

-- The loop over the direct blocks, from j on.
unfoldable pub free_direct : (rounds j ip : ℕ) → M (Unit {0})
free_direct zero j i = pure tt
free_direct (suc k) j i = do
  ip ← get_inode i
  if ip.addrs j == 0
      then pure tt
      else bfree (ip.addrs j) >> put_inode i (record ip { addrs = update ip.addrs j 0 })
  free_direct k (j + 1) i

-- The loop over the words of the indirect block.
unfoldable pub free_indirect : (rounds j : ℕ) → Block → M (Unit {0})
free_indirect zero j a = pure tt
free_indirect (suc k) j a = do
  if read_uint a (4 * j) == 0 then pure tt else bfree (read_uint a (4 * j))
  free_indirect k (j + 1) a

unfoldable pub itrunc : ℕ → M (Unit {0})
unfolding free_direct free_indirect
itrunc i = do
  free_direct ndirect 0 i
  ip ← get_inode i
  if ip.addrs ndirect == 0 then pure tt else (do
    a ← read_block (ip.addrs ndirect)
    free_indirect nindirect 0 a
    bfree (ip.addrs ndirect)
    put_inode i (record ip { addrs = update ip.addrs ndirect 0 }))
  ip' ← get_inode i
  put_inode i (record ip' { size = 0 })
  iupdate i

-- The part of `iput` for an inode with no links and no other references. A lock that is held then
-- would be waited for.
unfoldable pub free_inode : ℕ → M (Unit {0})
unfolding itrunc
free_inode i = do
  ip ← get_inode i
  if ip.locked then panic else put_inode i (record ip { locked = true })
  itrunc i
  ip' ← get_inode i
  put_inode i (record ip' { type = 0 })
  iupdate i
  put_inode i (record ip' { type = 0; valid = false; locked = false })

unfoldable pub iput : ℕ → M (Unit {0})
unfolding free_inode
iput i = do
  ip ← get_inode i
  if ip.ref == 1 && ip.valid && ip.nlink == 0 then free_inode i else pure tt
  ip' ← get_inode i
  put_inode i (record ip' { ref = ip'.ref - 1 })

unfoldable pub iunlockput : ℕ → M (Unit {0})
unfolding iput
iunlockput i = iunlock i >> iput i

-- `struct stat`
pub record Stat : Type 0 where
  pub dev : ℕ
  pub ino : ℕ
  pub type : ℕ
  pub nlink : ℕ
  pub size : ℕ

unfoldable pub stati : Inode → Stat
stati ip = record { dev = ip.dev; ino = ip.inum; type = ip.type; nlink = ip.nlink; size = ip.size }

-- The n bytes of a block from byte i on.
abbrev pub bytes_of : Block → (n i : ℕ) → List ℕ
bytes_of d zero i = []
bytes_of d (suc n) i = d i ∷ bytes_of d n (i + 1)

-- The block with the bytes stored from byte i on.
abbrev pub store_bytes : List ℕ → ℕ → Block → Block
store_bytes [] i d = d
store_bytes (b ∷ bs) i d = store_bytes bs (i + 1) (update d i b)

-- `min(n - tot, BSIZE - off%BSIZE)`
abbrev pub chunk : (left off : ℕ) → ℕ
chunk left off = min left (bsize - off % bsize)

module _ {D : Type 0} (copyout : (dst : ℕ) → List ℕ → D → D × Bool) where
  -- The loop of `readi`: `left` is n - tot. Each round copies a byte at least, so n rounds are
  -- enough. The count is none for -1.
  unfoldable pub read_from : (rounds i dst off left tot : ℕ) → D → M (Option ℕ × D)
  unfolding bmap
  read_from zero i dst off left tot u = pure (some tot, u)
  read_from (suc k) i dst off left tot u = elim (left == 0) [
    | true ↦ pure (some tot, u)
    | false ↦ do
      addr ← bmap i (off / bsize)
      elim (addr == 0) [
        | true ↦ pure (some tot, u)
        | false ↦ do
          d ← read_block addr
          let m = chunk left off
          let sent = copyout dst (bytes_of d m (off % bsize)) u
          elim sent.1 [
            | false ↦ pure (none, sent.0)
            | true ↦ read_from k i (dst + m) (off + m) (left - m) (tot + m) sent.0
          ]
      ]
  ]

  -- `off + n` is a `uint`.
  unfoldable pub readi : (ip dst off n : ℕ) → D → M (Option ℕ × D)
  unfolding read_from
  readi i dst off n u = do
    ip ← get_inode i
    if ltb ip.size off || ltb ((off + n) % 2 ^ 32) off
        then pure (some 0, u)
        else (let n' = if ltb ip.size (off + n) then ip.size - off else n in
            read_from n' i dst off n' 0 u)

module _ (copyin : (src n : ℕ) → List ℕ × Bool) where
  -- The loop of `writei`: the count, and the offset that it ends at. A fault leaves what arrived in
  -- the buffer, which is not logged.
  unfoldable pub write_from : (rounds i src off left tot : ℕ) → M (ℕ × ℕ)
  unfolding bmap
  write_from zero i src off left tot = pure (tot, off)
  write_from (suc k) i src off left tot = elim (left == 0) [
    | true ↦ pure (tot, off)
    | false ↦ do
      addr ← bmap i (off / bsize)
      elim (addr == 0) [
        | true ↦ pure (tot, off)
        | false ↦ do
          d ← read_block addr
          let m = chunk left off
          let got = copyin src m
          let d' = store_bytes got.0 (off % bsize) d
          elim got.1 [
            | false ↦ change_block addr d' >> pure (tot, off)
            | true ↦ write_block addr d' >> write_from k i (src + m) (off + m) (left - m) (tot + m)
          ]
      ]
  ]

  -- `MAXFILE*BSIZE`
  abbrev pub max_bytes : ℕ
  max_bytes = (ndirect + nindirect) * bsize

  unfoldable pub writei : (ip src off n : ℕ) → M (Option ℕ)
  unfolding write_from
  writei i src off n = do
    ip ← get_inode i
    if ltb ip.size off || ltb ((off + n) % 2 ^ 32) off || ltb max_bytes (off + n)
        then pure none
        else (do
          (tot, off') ← write_from n i src off n 0
          ip' ← get_inode i
          put_inode i (record ip' { size = if ltb ip'.size off' then off' else ip'.size })
          iupdate i
          pure (some tot))
