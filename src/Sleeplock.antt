-- ===== src/Sleeplock.antt =====
-- kernel/sleeplock.c: a lock among processes, which sleep while another has it. The spin lock `lk->lk`
-- makes what stands between acquire and release, or between acquire and sleep, one step.
pub mod Progress
mod Tests
use assignment.Common.{ℕ, ◌==◌, ◌≡◌, ◌≢◌, Bool, true, false, ◌&&◌, if◌then◌else◌, update}

-- Where a process is: outside, at the test of the loop of `acquiresleep`, asleep on the lock, or
-- between acquiresleep and releasesleep.
pub data Phase : Type 0 where
  outside trying asleep owner : Phase

-- `lk->locked`, `lk->pid`, and the processes by their pid.
pub record SleepLock : Type 0 where
  pub locked : Bool
  pub pid : ℕ
  pub phase : ℕ → Phase

unfoldable pub initsleeplock : (ℕ → Phase) → SleepLock
initsleeplock phase = record { locked = false; pid = 0; phase = phase }

-- From the test in `while (lk->locked)` to the sleep, or to the end of `acquiresleep`.
unfoldable pub acquiresleep_turn : (me : ℕ) → SleepLock → SleepLock
acquiresleep_turn me s =
    if s.locked
    then record s { phase = update s.phase me asleep }
    else record { locked = true; pid = me; phase = update s.phase me owner }

-- `wakeup(lk)`: who sleeps on the lock goes back to the test.
abbrev pub woken : Phase → Phase
woken asleep = trying
woken outside = outside
woken trying = trying
woken owner = owner

unfoldable pub releasesleep : (me : ℕ) → SleepLock → SleepLock
releasesleep me s = record {
  locked = false;
  pid = 0;
  phase = λ p. woken (update s.phase me outside p);
}

unfoldable pub holdingsleep : (me : ℕ) → SleepLock → Bool
holdingsleep me s = s.locked && (s.pid == me)

-- What a process may do next. `wake` is no part of the lock's code: a sleeper may be woken for another
-- reason, by `kill` or by a wakeup of the same channel, and then runs the test again.
pub data Step : SleepLock → SleepLock → Type 0 where
  call :
      {s : SleepLock}
      → (p : ℕ) → s.phase p ≡ outside
      → Step s (record s { phase = update s.phase p trying })
  turn : {s : SleepLock} → (p : ℕ) → s.phase p ≡ trying → Step s (acquiresleep_turn p s)
  release : {s : SleepLock} → (p : ℕ) → s.phase p ≡ owner → Step s (releasesleep p s)
  wake :
      {s : SleepLock}
      → (p : ℕ) → s.phase p ≡ asleep
      → Step s (record s { phase = update s.phase p trying })

-- Any number of steps.
pub data Steps : SleepLock → SleepLock → Type 0 where
  none : {s : SleepLock} → Steps s s
  more : {s t u : SleepLock} → Step s t → Steps t u → Steps s u
