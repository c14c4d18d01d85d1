-- ===== src/Bio/Tests.antt =====
-- A cache of two buffers, and the theorems about kernel/bio.c at it.
use assignment.Common.{ℕ, ◌≤◌, ◌≡◌, ◌⊎◌, refl, true, false, none, some, List, [], ◌∷◌, arith}
use assignment.Bio.{Buf, bget, brelse, get_cached, recycle}
use assignment.Bio.Unique.{holders, IsUnique, InUse, AllBusy, bget_lem, brelse_lem}

abbrev buffer : (id blockno refcnt : ℕ) → Buf
buffer id blockno refcnt = record {
  id = id;
  valid = true;
  dev = 1;
  blockno = blockno;
  refcnt = refcnt;
  contents = 9;
}

abbrev two : List Buf
two = buffer 0 5 0 ∷ buffer 1 6 1 ∷ []

two-IsUnique : IsUnique two
two-IsUnique dev blockno ne = ground arith

-- The unused buffer 0 is recycled for block 8.
bget-two : bget 1 8 two ≡ some (record (buffer 0 8 1) { valid = false } ∷ buffer 1 6 1 ∷ [], 0)
unfolding bget get_cached recycle
bget-two = refl

bget_lem_example :
    ((holders 1 8 two ≡ 0) × AllBusy two × (bget 1 8 two ≡ none))
    ⊎ ((bs' : List Buf) × (i : ℕ) × (bget 1 8 two ≡ some (bs', i)) × IsUnique bs' × InUse i 1 8 bs')
bget_lem_example = bget_lem 1 8 two (omega arith) two-IsUnique

brelse_lem_example :
    (((◌≡◌ {A = ℕ} 1 1) × (brelse 1 two ≡ buffer 1 6 0 ∷ buffer 0 5 0 ∷ []))
      ⊎ ((◌≤◌ 2 1) × (brelse 1 two ≡ buffer 0 5 0 ∷ buffer 1 6 0 ∷ [])))
    × ((d n : ℕ) → holders d n (brelse 1 two) ≡ holders d n two)
brelse_lem_example =
    brelse_lem (buffer 0 5 0 ∷ []) (buffer 1 6 1) [] (omega arith, tt) (omega arith)
