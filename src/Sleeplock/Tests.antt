-- ===== src/Sleeplock/Tests.antt =====
-- Two processes at a lock of kernel/sleeplock.c, and the theorems about it there.
use assignment.Common.{inr, refl, true, update}
use assignment.Sleeplock.{
  outside, trying, asleep, owner, SleepLock, initsleeplock, acquiresleep_turn, call, turn, Steps,
  none, more,
}
use assignment.Sleeplock.Progress.{Served, Steps-Served}

-- Process 3 has the lock, and process 4 sleeps on it.
abbrev two : SleepLock
two = record {
  locked = true;
  pid = 3;
  phase = update (update (update (update (λ _. outside) 3 trying) 3 owner) 4 trying) 4 asleep;
}

two-Steps : Steps (initsleeplock (λ _. outside)) two
unfolding initsleeplock acquiresleep_turn
two-Steps = more (call 3 refl) (more (turn 3 refl) (more (call 4 refl) (more (turn 4 refl) none)))

Steps-Served_example : Served 4 two
Steps-Served_example = Steps-Served two-Steps 4 (inr refl)
