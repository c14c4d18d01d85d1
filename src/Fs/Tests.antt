-- ===== src/Fs/Tests.antt =====
-- A small file system: an inode block, a bitmap block and 14 blocks of data. The root directory is
-- empty, and block 7 is in use.
use assignment.Common.{
  ◌≢◌, ◌⊎◌, subst, get_elem?, arith, ℕ, ◌==◌, ◌≡◌, refl, Bool, true, false, Option, none, some,
  List, [], ◌∷◌, if◌then◌else◌, replicate, get_or, update,
}
use assignment.Str.{Bytes, strncmp, strncpy}
use assignment.Fs.Content.Map.{mapped}
use assignment.Fs.Content.{bmap, writei, iunlockput}
use assignment.Fs.Types.{Inode, Fs, M, pure, ◌>>=◌, ◌>>◌}
use assignment.Fs.Bitmap.{balloc, bfree}
use assignment.Fs.Inode.{store_inode, load_inode, read_inode, iget, ilock, iunlock, ialloc, iupdate}
use assignment.Fs.Dir.{dirlookup, dirlink}
use assignment.Fs.Bitmap.Alloc.{allocated, free, IsSeparate, BallocEnds, balloc_lem, bfree_lem}
use assignment.Fs.Inode.Table.{IsSingle, IgetEnds, iget_lem}
use assignment.Fs.Inode.Update.{IsInRange, SameFields, ilock-iupdate}
use assignment.Fs.Path.Elem.{SkipelemEnds, skipelem_lem, walk_path_ends}
use assignment.Fs.Path.{namei, skipelem, walk_elem, walk_path}

abbrev unused : Inode
unused = record {
  dev = 0;
  inum = 0;
  ref = 0;
  locked = false;
  valid = false;
  type = 0;
  major = 0;
  minor = 0;
  nlink = 0;
  size = 0;
  addrs = λ i. 0;
}

abbrev small : Fs
small = record {
  sb = record { size = 20; ninodes = 16; inodestart = 2; bmapstart = 4 };
  cache = λ b i.
      if b == 4
      then if i == 0 then 191 else 0
      else if b == 2
      then if i == 64 then 1 else if i == 70 then 1 else 0
      else 9;
  logged = λ b. false;
  itable = replicate 3 unused;
}

abbrev text : List ℕ → Bytes
text cs i = get_or cs i 0

abbrev value : {A : Type 0} → Option (A × Fs) → Option A
value none = none
value (some (a, s)) = some a

-- The first free block is 6.
balloc-small : value (balloc small) ≡ some 6
unfolding balloc
balloc-small = refl

-- A new inode is linked as "a" in the root, and found again by its path.
link_and_find : M (Option ℕ × Bool × Option ℕ)
unfolding store_inode load_inode read_inode iget ilock iunlock ialloc iupdate dirlink skipelem
    walk_elem walk_path dirlookup namei
link_and_find = do
  root ← iget 1 1
  ilock root
  f ← ialloc 1 2
  linked ← dirlink root (text (97 ∷ [])) 2
  iunlock root
  r ← namei root (47 ∷ 97 ∷ [])
  pure (f, linked, r.0)

link_and_find-small : value (link_and_find small) ≡ some (some 1, true, some 1)
unfolding link_and_find writei balloc strncmp strncpy iunlockput
link_and_find-small = refl

small-IsSeparate : IsSeparate small
small-IsSeparate b c lt lt' hit e =
    let four : b ≡ 4 = omega (arith, e) in
    let hit' : free small 4 ≡ true = subst (λ x. free small x ≡ true) four hit in absurd (cc)

balloc_lem_example : BallocEnds small
balloc_lem_example = balloc_lem small small-IsSeparate

bfree_lem_example :
    ((free small 7 ≡ true) × (bfree 7 small ≡ none))
    ⊎ ((free small 7 ≡ false)
        × (s' : Fs) × (bfree 7 small ≡ some (tt, s'))
        × (free s' 7 ≡ true)
        × ((c : ℕ) → c ≢ 7 → free s' c ≡ free small c)
        × ((c : ℕ) → c ≢ 4 → s'.cache c ≡ small.cache c))
bfree_lem_example = bfree_lem 7 small

-- Entry 0 holds inode 5, locked and read, and its size has changed.
abbrev in_use : Inode
in_use = record unused {
  dev = 1;
  inum = 5;
  ref = 1;
  locked = true;
  valid = true;
  type = 2;
  nlink = 1;
  size = 100;
}

abbrev busy : Fs
busy = record small { itable = in_use ∷ unused ∷ [] }

in_use-IsInRange : IsInRange in_use
in_use-IsInRange = record {
  type_fits = omega arith;
  major_fits = omega arith;
  minor_fits = omega arith;
  nlink_fits = omega arith;
  size_fits = omega arith;
  addrs_fit = λ j lt. omega arith;
}

abbrev written : Fs
written = record busy {
  cache = update busy.cache 2 (store_inode 320 in_use (busy.cache 2));
  logged = update busy.logged 2 true;
}

iupdate-busy : iupdate 0 busy ≡ some (tt, written)
unfolding iupdate
iupdate-busy = refl

-- Entry 0 is given up and got again for the same inode.
abbrev not_read : Inode
not_read = record in_use { locked = false; valid = false }

abbrev got_again : Fs
got_again = record written { itable = not_read ∷ unused ∷ [] }

give_up_and_get : M ℕ
give_up_and_get = do iunlockput 0; iget 1 5

give_up_and_get-written : give_up_and_get written ≡ some (0, got_again)
unfolding give_up_and_get iunlockput iget iunlock
give_up_and_get-written = refl

ilock-iupdate_example :
    (t' : Fs) × (jp' : Inode) × (ilock 0 got_again ≡ some (tt, t'))
    × (get_elem? t'.itable 0 ≡ some jp')
    × SameFields jp' in_use
    × (jp'.valid ≡ true)
    × (jp'.locked ≡ true)
ilock-iupdate_example =
    ilock-iupdate busy written got_again 0 0 in_use not_read refl in_use-IsInRange (omega arith)
      iupdate-busy refl refl refl refl (omega arith) refl refl

small-IsSingle : IsSingle small.itable
small-IsSingle dev inum = omega arith

iget_lem_example : IgetEnds 1 1 small
iget_lem_example = iget_lem 1 1 small small-IsSingle

-- "//a/b"
abbrev a_and_b : List ℕ
a_and_b = 47 ∷ 47 ∷ 97 ∷ 47 ∷ 98 ∷ []

skipelem_lem_example : SkipelemEnds a_and_b (λ i. 0)
skipelem_lem_example = skipelem_lem a_and_b (λ i. 0)

walk_path_ends_example : walk_path 6 a_and_b false (λ i. 0) ≡ walk_path 9 a_and_b false (λ i. 0)
walk_path_ends_example = walk_path_ends 6 9 a_and_b false (λ i. 0) (omega arith) (omega arith)

-- Block 3 of the file is not there yet, and gets block 6 of the disk.
abbrev grown : Fs
grown = mapped 0 3 6 in_use (allocated 6 busy)

bmap-busy : bmap 0 3 busy ≡ some (6, grown)
unfolding bmap balloc
bmap-busy = refl
