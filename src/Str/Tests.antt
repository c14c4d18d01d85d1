-- ===== src/Str/Tests.antt =====
-- string.c at small arrays, and the theorems there.
use assignment.Common.{◌≡◌, refl, update}
use assignment.Str.{Bytes, memmove}
use assignment.Str.Copy.{memmove_lem}

abbrev counting : Bytes
counting a = a

-- "ab"
abbrev ab : Bytes
ab = update (update (λ _. 0) 0 b'a') 1 b'b'

-- The ranges 3 to 7 and 5 to 9 overlap.
memmove_overlap : memmove 5 3 5 counting 9 ≡ 7
unfolding memmove
memmove_overlap = refl

memmove_lem_example : memmove 5 3 5 counting 9 ≡ 7
memmove_lem_example = memmove_lem 5 3 5 counting 9
