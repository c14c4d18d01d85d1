-- ===== src/File/Tests.antt =====
-- A table of two files, and the theorems about kernel/file.c at it.
use assignment.Common.{
  ℕ, ◌+◌, ◌%◌, ◌^◌, ◌<◌, ◌≡◌, ◌⊎◌, refl, true, Option, none, some, [], ◌∷◌, if◌then◌else◌, ltb,
  arith,
}
use assignment.File.{
  File, Files, FileType, fd_none, fd_inode, filealloc_from, filealloc, write_chunks,
  filewrite_inode,
}
use assignment.File.Chunks.{Short, filewrite_inode_lem}

abbrev file : FileType → ℕ → File
file type ref = record {
  type = type;
  ref = ref;
  readable = true;
  writable = true;
  pipe = 0;
  ip = 4;
  off = 0;
  major = 0;
}

abbrev two : Files
two = file fd_inode 1 ∷ file fd_none 0 ∷ []

-- The first file is in use, so the second is taken.
filealloc-two : filealloc two ≡ some (file fd_inode 1 ∷ file fd_none 1 ∷ [], 1)
unfolding filealloc filealloc_from
filealloc-two = refl

-- A file system that counts the bytes written, and has room for 3 blocks.
abbrev write_some : (off i n : ℕ) → ℕ → ℕ × Option ℕ
write_some off i n s = if ltb (off + n) 3073 then (s + n, some n) else (s, none)

-- The 4 bytes are one round, which does not fit.
filewrite-full : filewrite_inode ℕ write_some 4 3070 0 ≡ some (0, 3070, none)
unfolding filewrite_inode write_chunks
filewrite-full = refl

filewrite_inode_lem_example :
    (s' off' : ℕ) × (r : Option ℕ) × (filewrite_inode ℕ write_some 4 100 0 ≡ some (s', off', r))
    × (((r ≡ some 4) × (off' ≡ 104))
        ⊎ ((r ≡ none)
            × ((j : ℕ) × (t : ℕ) × (j < 4)
                × Short ℕ write_some 4 j ((100 + j) % 2 ^ 32) t s' off')))
filewrite_inode_lem_example = filewrite_inode_lem ℕ write_some 4 100 0 (omega arith)
