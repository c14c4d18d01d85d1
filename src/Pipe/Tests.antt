-- ===== src/Pipe/Tests.antt =====
-- A pipe whose counters are about to wrap, and the theorems at it.
use assignment.Common.{
  ℕ, ◌-◌, ◌^◌, ◌≡◌, refl, true, false, Option, none, some, List, [], ◌∷◌, ◌++◌, length, ◌==◌,
  if◌then◌else◌, arith,
}
use assignment.Pipe.{Pipe, put, pipewrite, wrote, read_from}
use assignment.Pipe.Ring.{contents, IsValid}
use assignment.Pipe.Transfer.{Taken, Stops, Delivered, Ends, pipewrite_lem, read_from_lem}

-- One byte, 7, behind the last counter value.
abbrev wrapping : Pipe
wrapping = record {
  data' = λ _. 7;
  nread = 2 ^ 32 - 1;
  nwrite = 0;
  readopen = true;
  writeopen = true;
}

wrapping-IsValid : IsValid wrapping
wrapping-IsValid = omega arith

-- Three bytes can be read from address 100 on.
abbrev user_bytes : ℕ → Option ℕ
user_bytes a =
    if a == 100 then some 1 else if a == 101 then some 2 else if a == 102 then some 3 else none

-- The user's memory as the list of what was stored.
abbrev store : ℕ → ℕ → List ℕ → Option (List ℕ)
store a b m = some (m ++ (b ∷ []))

pipewrite_run : (pipewrite user_bytes false 100 5 wrapping).1 ≡ wrote 3
unfolding pipewrite put
pipewrite_run = refl

contents-pipewrite : contents (pipewrite user_bytes false 100 5 wrapping).0 ≡ 7 ∷ 1 ∷ 2 ∷ 3 ∷ []
unfolding pipewrite put
contents-pipewrite = refl

pipewrite_lem_example :
    let (pi', end) = pipewrite user_bytes false 100 5 wrapping in
    (bs : List ℕ) × Taken user_bytes false 100 0 bs
    × IsValid pi'
    × (contents pi' ≡ contents wrapping ++ bs)
    × Stops user_bytes false 100 5 (length bs) pi' end
pipewrite_lem_example = pipewrite_lem user_bytes false 100 5 wrapping wrapping-IsValid

read_from_lem_example :
    let (pi', m', r) = read_from (List ℕ) store false 200 2 0 wrapping [] in
    (bs : List ℕ) × (lost : List ℕ) × IsValid pi'
    × (contents wrapping ≡ bs ++ (lost ++ contents pi'))
    × Delivered (List ℕ) store false 200 0 bs [] m'
    × (r ≡ length bs)
    × Ends (List ℕ) store false 200 2 (length bs) pi' m' lost
read_from_lem_example = read_from_lem (List ℕ) store false 200 2 wrapping [] wrapping-IsValid
