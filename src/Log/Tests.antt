-- ===== src/Log/Tests.antt =====
-- A log of three blocks on a small disk, and the theorems at it.
use assignment.Common.{
  ℕ, ◌+◌, ◌≤◌, ◌<◌, ◌==◌, ◌||◌, ◌≡◌, ◌≢◌, ◌⊎◌, refl, sym, subst, true, [], ◌∷◌, false, update,
  arith,
}
use assignment.Log.{
  ok, panic, log_size, begin_op, find_block, bpin, log_write, Machine, Log, commit, initlog, reboot,
  install_block, log_block,
}
use assignment.Log.Crash.{logs, boot, boots, commit_crash, commit_done}
use assignment.Log.Header.{Distinct}
use assignment.Log.Reserve.{Reach, here, next, begin, write}
use assignment.Log.Room.{started, log_write_room}

-- Blocks 50 and 60 are logged behind a log that starts at block 2.
abbrev two_blocks : Log
two_blocks = record {
  start = 2;
  size = 30;
  outstanding = 0;
  committing = true;
  lh = record { n = 2; block = update (update (λ _. 0) 0 50) 1 60 };
}

-- The disk is zero, and the cache holds 7s. There is power for 4 writes: both log blocks, the
-- header and one block of the installation.
abbrev failing : Machine
failing = record { disk = λ _ _. 0; cache = λ _ _. 7; pin = λ _. 0; power = 4 }

-- The second restart loses power at once.
commit_crash_run :
    (boot two_blocks 3 (boots two_blocks (1 ∷ 0 ∷ []) (commit two_blocks failing).1)).disk 60 0 ≡ 7
unfolding commit initlog reboot install_block log_block
commit_crash_run = refl

two_blocks-Apart : (j i : ℕ) → j < 2 → i ≤ 2 → two_blocks.lh.block j ≢ 2 + i
two_blocks-Apart j i hj hi = ground arith

commit_crash_example :
    (boot two_blocks 3 (boots two_blocks (1 ∷ 0 ∷ []) (commit two_blocks failing).1)).disk 60
    ≡ (λ _. 7)
commit_crash_example =
    commit_crash two_blocks failing two_blocks-Apart (omega arith) refl (1 ∷ 0 ∷ []) 3 (omega arith)
      60 (λ i h. omega arith)

commit_done_example :
    let powered : Machine = record failing { power = 6 } in
    ((commit two_blocks powered).1.disk 50 ≡ (λ _. 7))
    × ((commit two_blocks powered).1.disk 2 0 ≡ 0)
commit_done_example =
    commit_done two_blocks (record failing { power = 6 }) two_blocks-Apart (omega arith) refl
      (omega arith) 50 (λ i h. omega arith)

-- A log that an operation has begun in, and where it has logged block 50.
abbrev empty_disk : Machine
empty_disk = record { disk = λ _ _. 0; cache = λ _ _. 0; pin = λ _. 0; power = 9 }

abbrev begun : Log
begun = record {
  start = 2;
  size = 30;
  outstanding = 1;
  committing = false;
  lh = record { n = 0; block = λ _. 0 };
}

abbrev written : Log
written = record begun { lh = record { n = 1; block = update (λ _. 0) 0 50 } }

-- Block 50 once more, which takes no room.
abbrev absorbed : Log
absorbed = record begun { lh = record { n = 1; block = update (update (λ _. 0) 0 50) 0 50 } }

abbrev idle_log : Log
idle_log = record begun { outstanding = 0 }

two_writes :
    Reach (record { log = idle_log; ops = [] }) (record { log = absorbed; ops = (50 ∷ []) ∷ [] })
unfolding begin_op log_write find_block bpin
two_writes =
    next
      (next (next here (begin idle_log begun [] refl))
        (write 50 empty_disk (bpin 50 empty_disk) begun written [] [] [] refl (omega arith)))
      (write 50 empty_disk empty_disk written absorbed [] [] (50 ∷ []) refl (omega arith))

initlog-empty_disk : (initlog 2 30 empty_disk).0 ≡ idle_log
unfolding initlog
initlog-empty_disk = refl

from_initlog : Reach (started 2 30 empty_disk) (record { log = absorbed; ops = (50 ∷ []) ∷ [] })
from_initlog =
    subst
      (λ l. Reach (record { log = l; ops = [] }) (record { log = absorbed; ops = (50 ∷ []) ∷ [] }))
      (sym initlog-empty_disk) two_writes

log_write_room_example :
    (1 < log_size)
    × (((30 ≤ absorbed.lh.n + 1) × (log_write 60 absorbed empty_disk ≡ panic))
        ⊎ ((absorbed.lh.n + 1 < 30)
            × ((l' : Log) × (m' : Machine) × (log_write 60 absorbed empty_disk ≡ ok (l', m'))
                × ((c : ℕ) → logs l'.lh l'.lh.n c ≡ ((60 == c) || logs absorbed.lh 1 c)))))
log_write_room_example =
    log_write_room 2 30 empty_disk (record { log = absorbed; ops = (50 ∷ []) ∷ [] }) from_initlog []
      [] (50 ∷ []) refl (omega arith) 60 empty_disk

two-Distinct : Distinct two_blocks.lh
two-Distinct i j hi hj e = ground arith
