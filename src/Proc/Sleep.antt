-- ===== src/Proc/Sleep.antt =====
-- `sleep`, `wakeup`, `kill`, `setkilled` and `killed` of kernel/proc.c.
pub mod Wake
pub mod Kill
use assignment.Common.{
  ℕ, zero, suc, ◌+◌, ◌==◌, Bool, true, false, not, ◌&&◌, Option, none, some, List, [], ◌∷◌,
  if◌then◌else◌, length, get_elem?, set,
}
use assignment.Common.Int.{ℤ, pos, negsuc, ◌+ℤ◌, to_long}
use assignment.Proc.Types.{Proc, Table, ProcState, sleeping, runnable, is_sleeping, modify}
use assignment.Proc.Sched.{set_accumulator}

-- `sleep` of the process at `me` up to its call of `sched`, and what it does when it runs again.
unfoldable pub sleep_on : (me chan : ℕ) → Table → Table
unfolding modify
sleep_on me chan = modify me λ p. record p { chan = chan; state = sleeping }

unfoldable pub wake_up_from_sleep : (me : ℕ) → Table → Table
unfolding modify
wake_up_from_sleep me = modify me λ p. record p { chan = 0 }

abbrev pub sleeps_on : ℕ → Proc → Bool
sleeps_on chan p = is_sleeping p.state && (p.chan == chan)

-- The body of the loop of `wakeup(chan)` for the entry at index i; `me` runs it.
unfoldable pub wake_entry : (me chan i : ℕ) → Table → Table
unfolding modify
wake_entry me chan i ps = elim (get_elem? ps i) [
  | none ↦ ps
  | some p ↦
      if not (i == me) && sleeps_on chan p
      then set_accumulator i (modify i (λ q. record q { state = runnable }) ps)
      else ps
]

unfoldable pub wakeup_from : (rounds me chan i : ℕ) → Table → Table
wakeup_from zero me chan i ps = ps
wakeup_from (suc k) me chan i ps = wakeup_from k me chan (i + 1) (wake_entry me chan i ps)

unfoldable pub wakeup : (me chan : ℕ) → Table → Table
unfolding wakeup_from
wakeup me chan ps = wakeup_from (length ps) me chan 0 ps

-- What `kill` does to the process that it finds.
abbrev pub kill_entry : Proc → Proc
kill_entry p =
    if is_sleeping p.state
    then record p {
      killed = 1;
      state = runnable;
      accumulator = to_long (p.accumulator +ℤ p.ps_priority);
    }
    else record p { killed = 1 }

-- The table and the return value: 0, or -1 for a pid that no entry has.
unfoldable pub kill : ℕ → Table → Table × ℤ
kill pid [] = ([], negsuc 0)
kill pid (p ∷ ps) =
    let (ps', r) = kill pid ps in if p.pid == pid then (kill_entry p ∷ ps, pos 0) else (p ∷ ps', r)

unfoldable pub setkilled : ℕ → Table → Table
unfolding modify
setkilled i = modify i λ p. record p { killed = 1 }

unfoldable pub killed : ℕ → Table → ℕ
killed i ps = elim (get_elem? ps i) [ none ↦ 0 | some p ↦ p.killed ]
