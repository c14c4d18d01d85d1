-- ===== src/Fs/Inode.antt =====
-- kernel/fs.c: the table of inodes, and an inode's copy on disk.
pub mod Table
pub mod Update
use assignment.Common.{
  ℕ, zero, suc, ◌+◌, ◌-◌, ◌*◌, ◌/◌, ◌%◌, ◌^◌, ◌==◌, ◌&&◌, ◌||◌, Bool, true, false, not, Option,
  none, some, List, [], ◌∷◌, ltb, if◌then◌else◌, update, set,
}
use assignment.Fs.Types.{
  Block, ndirect, Superblock, Inode, Fs, M, pure, panic, ◌>>=◌, ◌>>◌, read_block, write_block,
  get_sb, get_inode, put_inode, read_short, write_short, read_uint, write_uint, inode_block,
  inode_at,
}

-- The first loop of `iget`: the entry in use for the inode, or else the first empty one.
pub data Slot : Type 0 where
  cached : ℕ → Slot
  empty : ℕ → Slot
  full : Slot

unfoldable pub find_slot : (dev inum i : ℕ) → Option ℕ → List Inode → Slot
find_slot dev inum i none [] = full
find_slot dev inum i (some e) [] = empty e
find_slot dev inum i e (ip ∷ t) =
    if ltb 0 ip.ref && (ip.dev == dev) && (ip.inum == inum)
    then cached i
    else find_slot dev inum (i + 1)
        (elim e [ some j ↦ some j | none ↦ if ip.ref == 0 then some i else none ]) t

unfoldable pub iget : (dev inum : ℕ) → M ℕ
unfolding find_slot
iget dev inum s = elim (find_slot dev inum 0 none s.itable) [
  | full ↦ none
  | cached i ↦ (do ip ← get_inode i; put_inode i (record ip { ref = ip.ref + 1 }); pure i) s
  | empty i ↦
      (do
        ip ← get_inode i
        put_inode i (record ip { dev = dev; inum = inum; ref = 1; valid = false })
        pure i)
        s
]

unfoldable pub idup : ℕ → M ℕ
idup i = do ip ← get_inode i; put_inode i (record ip { ref = ip.ref + 1 }); pure i

-- `memmove` of the 13 addresses, from the j-th on, between an inode and its copy at byte p of d.
unfoldable pub load_addrs : (rounds j p : ℕ) → Block → (ℕ → ℕ) → ℕ → ℕ
load_addrs zero j p d addrs = addrs
load_addrs (suc k) j p d addrs =
    load_addrs k (j + 1) p d (update addrs j (read_uint d (p + 12 + 4 * j)))

unfoldable pub store_addrs : (rounds j p : ℕ) → (ℕ → ℕ) → Block → Block
store_addrs zero j p addrs d = d
store_addrs (suc k) j p addrs d =
    store_addrs k (j + 1) p addrs (write_uint d (p + 12 + 4 * j) (addrs j))

-- `*dip` in the fields of the inode, and the other way.
unfoldable pub load_inode : (p : ℕ) → Block → Inode → Inode
unfolding load_addrs
load_inode p d ip = record ip {
  type = read_short d p;
  major = read_short d (p + 2);
  minor = read_short d (p + 4);
  nlink = read_short d (p + 6);
  size = read_uint d (p + 8);
  addrs = load_addrs (ndirect + 1) 0 p d ip.addrs;
}

unfoldable pub store_inode : (p : ℕ) → Inode → Block → Block
unfolding store_addrs
store_inode p ip d = store_addrs (ndirect + 1) 0 p ip.addrs (
    write_uint
      (write_short
        (write_short (write_short (write_short d p ip.type) (p + 2) ip.major) (p + 4) ip.minor)
        (p + 6) ip.nlink)
      (p + 8) ip.size)

unfoldable pub iupdate : ℕ → M (Unit {0})
iupdate i = do
  sb ← get_sb
  ip ← get_inode i
  d ← read_block (inode_block sb ip.inum)
  write_block (inode_block sb ip.inum) (store_inode (inode_at ip.inum) ip d)

-- What `ilock` does with an inode that is not valid.
unfoldable pub read_inode : ℕ → M (Unit {0})
read_inode i = do
  sb ← get_sb
  ip ← get_inode i
  d ← read_block (inode_block sb ip.inum)
  let ip' : Inode = record (load_inode (inode_at ip.inum) d ip) { valid = true }
  put_inode i ip'
  if ip'.type == 0 then panic else pure tt

unfoldable pub ilock : ℕ → M (Unit {0})
ilock i = do
  ip ← get_inode i
  if ltb ip.ref 1 || ip.locked then panic else put_inode i (record ip { locked = true })
  if ip.valid then pure tt else read_inode i

unfoldable pub iunlock : ℕ → M (Unit {0})
iunlock i = do
  ip ← get_inode i
  if not ip.locked || ltb ip.ref 1 then panic else put_inode i (record ip { locked = false })

-- `memset(dip, 0, sizeof(*dip))` and the type.
abbrev pub fresh_inode : (p type : ℕ) → Block → Block
fresh_inode p type d =
    write_short (λ i. if ltb i p then d i else if ltb i (p + 64) then 0 else d i) p type

-- The loop of `ialloc` from `inum` on. None is the null pointer.
unfoldable pub ialloc_from : (rounds inum dev type : ℕ) → M (Option ℕ)
unfolding iget
ialloc_from zero inum dev type s = some (none, s)
ialloc_from (suc k) inum dev type s = elim (ltb inum s.sb.ninodes) [
  | false ↦ some (none, s)
  | true ↦
      let b = inode_block s.sb inum in
      elim (read_short (s.cache b) (inode_at inum) == 0) [
        | true ↦
            (do
              write_block b (fresh_inode (inode_at inum) type (s.cache b))
              i ← iget dev inum
              pure (some i))
              s
        | false ↦ ialloc_from k (inum + 1) dev type s
      ]
]

unfoldable pub ialloc : (dev type : ℕ) → M (Option ℕ)
unfolding ialloc_from
ialloc dev type s = ialloc_from s.sb.ninodes 1 dev type s
