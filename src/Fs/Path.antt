-- ===== src/Fs/Path.antt =====
-- kernel/fs.c: path names. A path is the bytes before its NUL.
pub mod Elem
use assignment.Common.{
  ℕ, zero, suc, ◌+◌, ◌-◌, ◌==◌, ◌&&◌, ◌||◌, Bool, true, false, not, Option, none, some, List, [],
  ◌∷◌, ltb, leb, if◌then◌else◌, update, length, get_or,
}
use assignment.Str.{Bytes}
use assignment.Fs.Types.{Inode, Fs, M, pure, panic, ◌>>=◌, ◌>>◌, get_inode}
use assignment.Fs.Inode.{iget, idup, ilock, iunlock}
use assignment.Fs.Content.{iput, iunlockput}
use assignment.Fs.Dir.{dirsiz, t_dir, dirlookup}

-- '/'
abbrev pub slash : ℕ
slash = 47

-- `while(*path == '/') path++`
unfoldable pub skip_slashes : List ℕ → List ℕ
skip_slashes [] = []
skip_slashes (c ∷ path) = if c == slash then skip_slashes path else c ∷ path

-- `while(*path != '/' && *path != 0) path++`: the bytes passed, and the rest.
unfoldable pub span_elem : List ℕ → List ℕ × List ℕ
span_elem [] = ([], [])
span_elem (c ∷ path) =
    let rest = span_elem path in if c == slash then ([], c ∷ path) else (c ∷ rest.0, rest.1)

-- The two `memmove`s into `name`, with the NUL.
unfoldable pub copy_elem : List ℕ → Bytes → Bytes
copy_elem s name i =
    if leb dirsiz (length s)
    then if ltb i dirsiz then get_or s i 0 else name i
    else if ltb i (length s)
    then get_or s i 0
    else if i == length s
    then 0
    else name i

unfoldable pub skipelem : List ℕ → Bytes → Option (List ℕ × Bytes)
unfolding skip_slashes span_elem copy_elem
skipelem path name = elim (skip_slashes path) [
  | [] ↦ none
  | c ∷ rest ↦ let r = span_elem (c ∷ rest) in some (skip_slashes r.1, copy_elem r.0 name)
]

-- root device and inode
abbrev pub rootdev : ℕ
rootdev = 1

abbrev pub rootino : ℕ
rootino = 1

abbrev is_nil : List ℕ → Bool
is_nil [] = true
is_nil _ = false

-- The body of the loop of `namex`, behind `skipelem`; `next` is the loop on the inode found.
unfoldable pub walk_elem :
    (parent : Bool) (path : List ℕ) (name : Bytes) (next : ℕ → M (Option ℕ × Bytes)) (ip : ℕ)
    → M (Option ℕ × Bytes)
walk_elem parent path name next ip = do
  ilock ip
  i ← get_inode ip
  elim (i.type == t_dir) [
    | false ↦ iunlockput ip >> pure (none, name)
    | true ↦ elim (parent && is_nil path) [
      | true ↦ iunlock ip >> pure (some ip, name)
      | false ↦ do
        found ← dirlookup ip name
        elim found [
          | none ↦ iunlockput ip >> pure (none, name)
          | some (n, off) ↦ iunlockput ip >> next n
        ]
    ]
  ]

-- The loop of `namex`, and what follows it. Each round takes an element off the path, so as many
-- rounds as the path has bytes, and one, are enough. None is the null pointer.
unfoldable pub walk_path :
    (rounds : ℕ) (path : List ℕ) (parent : Bool) (name : Bytes) (ip : ℕ) → M (Option ℕ × Bytes)
walk_path zero path parent name ip = pure (none, name)
walk_path (suc k) path parent name ip = elim (skipelem path name) [
  | none ↦ if parent then iput ip >> pure (none, name) else pure (some ip, name)
  | some (path', name') ↦ walk_elem parent path' name' (walk_path k path' parent name') ip
]

-- `cwd` is the entry of myproc()->cwd.
unfoldable pub namex :
    (cwd : ℕ) (path : List ℕ) (parent : Bool) (name : Bytes) → M (Option ℕ × Bytes)
unfolding walk_path
namex cwd path parent name = do
  ip ← if get_or path 0 0 == slash then iget rootdev rootino else idup cwd
  walk_path (length path + 1) path parent name ip

unfoldable pub namei : (cwd : ℕ) (path : List ℕ) → M (Option ℕ × Bytes)
unfolding namex
namei cwd path = namex cwd path false (λ i. 0)

unfoldable pub nameiparent : (cwd : ℕ) (path : List ℕ) (name : Bytes) → M (Option ℕ × Bytes)
unfolding namex
nameiparent cwd path name = namex cwd path true name
