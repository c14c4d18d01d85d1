-- ===== src/Fs/Dir.antt =====
-- kernel/fs.c: a directory is a file of 16-byte entries, a `ushort` and a name of 14 bytes.
use assignment.Common.{
  ℕ, zero, suc, ◌+◌, ◌-◌, ◌==◌, ◌&&◌, Bool, true, false, not, Option, none, some, ltb,
  if◌then◌else◌,
}
use assignment.Common.Int.{ℤ, pos, negsuc}
use assignment.Str.{Bytes, strncmp, strncpy}
use assignment.Fs.Types.{M, pure, panic, ◌>>=◌, ◌>>◌, get_inode, read_short, write_short}
use assignment.Fs.Inode.{iget}
use assignment.Fs.Content.{readi, writei, iput, bytes_of, store_bytes}

-- `DIRSIZ`
abbrev pub dirsiz : ℕ
dirsiz = 14

-- `sizeof(struct dirent)`
abbrev pub dirent_size : ℕ
dirent_size = 16

-- stat.h
abbrev pub t_dir : ℕ
t_dir = 1

abbrev is_zero : ℤ → Bool
is_zero (pos n) = n == 0
is_zero (negsuc n) = false

-- `namecmp(s, t) == 0`
unfoldable pub same_name : (s t : Bytes) → Bool
same_name s t = is_zero (strncmp s t dirsiz)

-- The entry's name, and its number.
abbrev pub name_of : Bytes → Bytes
name_of de i = de (i + 2)

abbrev pub inum_of : Bytes → ℕ
inum_of de = read_short de 0

-- `readi(dp, 0, (uint64)&de, off, sizeof(de)) != sizeof(de)` is a panic; the entry is returned. A
-- copy inside the kernel does not fail.
unfoldable pub read_dirent : (dp off : ℕ) → Bytes → M Bytes
unfolding readi
read_dirent dp off de = do
  r ← readi (λ dst bytes u. (store_bytes bytes dst u, true)) dp 0 off dirent_size de
  elim r.0 [ none ↦ panic | some n ↦ if n == dirent_size then pure r.1 else panic ]

-- The loop of `dirlookup` from `off` on: the number and the offset of the first entry of the name.
-- Every round moves on by an entry, so dp->size rounds are enough.
unfoldable pub lookup_from : (rounds dp off : ℕ) → (name de : Bytes) → M (Option (ℕ × ℕ))
unfolding read_dirent same_name
lookup_from zero dp off name de = pure none
lookup_from (suc k) dp off name de = do
  ip ← get_inode dp
  elim (ltb off ip.size) [
    | false ↦ pure none
    | true ↦ do
      de' ← read_dirent dp off de
      elim (not (inum_of de' == 0) && same_name name (name_of de')) [
        | true ↦ pure (some (inum_of de', off))
        | false ↦ lookup_from k dp (off + dirent_size) name de'
      ]
  ]

-- The inode and `*poff`; none is the null pointer.
unfoldable pub dirlookup : (dp : ℕ) → (name : Bytes) → M (Option (ℕ × ℕ))
unfolding lookup_from iget
dirlookup dp name = do
  ip ← get_inode dp
  if ip.type == t_dir then pure tt else panic
  found ← lookup_from ip.size dp 0 name (λ i. 0)
  elim found [ none ↦ pure none | some (inum, off) ↦ do i ← iget ip.dev inum; pure (some (i, off)) ]

-- The loop of `dirlink`: the offset of the first empty entry, or the size, and the entry read last.
unfoldable pub find_empty : (rounds dp off : ℕ) → (de : Bytes) → M (ℕ × Bytes)
unfolding read_dirent
find_empty zero dp off de = pure (off, de)
find_empty (suc k) dp off de = do
  ip ← get_inode dp
  elim (ltb off ip.size) [
    | false ↦ pure (off, de)
    | true ↦ do
      de' ← read_dirent dp off de
      elim (inum_of de' == 0) [
        | true ↦ pure (off, de')
        | false ↦ find_empty k dp (off + dirent_size) de'
      ]
  ]

-- `strncpy(de.name, name, DIRSIZ); de.inum = inum`
abbrev pub make_dirent : (name : Bytes) (inum : ℕ) → Bytes → Bytes
make_dirent name inum de =
    write_short (λ i. if ltb i 2 then de i else strncpy (name_of de) name dirsiz (i - 2)) 0 inum

-- True is 0, false is -1.
unfoldable pub dirlink : (dp : ℕ) → (name : Bytes) → (inum : ℕ) → M Bool
unfolding dirlookup find_empty iput
dirlink dp name inum = do
  there ← dirlookup dp name
  elim there [
    | some (i, off) ↦ iput i >> pure false
    | none ↦ do
      ip ← get_inode dp
      slot ← find_empty ip.size dp 0 (λ i. 0)
      r ←
          writei (λ src n. (bytes_of (make_dirent name inum slot.1) n src, true)) dp 0 slot.0
            dirent_size
      elim r [ none ↦ pure false | some n ↦ pure (n == dirent_size) ]
  ]
