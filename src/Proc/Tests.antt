-- ===== src/Proc/Tests.antt =====
-- A table of four processes, and the theorems about kernel/proc.c at it.
use assignment.Common.{
  ℕ, ◌+◌, ◌-◌, ◌^◌, ◌<◌, ◌==◌, ◌≡◌, ◌≢◌, ◌⊎◌, inl, inr, refl, Bool, true, false, not, ◌&&◌, Option,
  none, some, List, [], ◌∷◌, if◌then◌else◌, length, get_elem?, arith,
}
use assignment.Common.Int.{ℤ, pos, negsuc, ◌≤ℤ◌, ◌<ℤ◌, int_max}
use assignment.Str.{Bytes}
use assignment.Proc.Types.{Proc, Table, ProcState, unused, sleeping, runnable, running, zombie}
use assignment.Proc.Sched.{scan, SchedulerState, scheduler_round, set_accumulator}
use assignment.Proc.Sched.Choice.{ReadyAt, IsLeast, Fits, scan-IsLeast}
use assignment.Proc.Sched.Dispatch.{IsFloor, Dispatched, scheduler_round_lem, set_accumulator_lem}
use assignment.Proc.Sleep.{sleeps_on, wakeup, kill}
use assignment.Proc.Sleep.Wake.{wakeup_lem}
use assignment.Proc.Sleep.Kill.{NoPid, Marks, kill_lem}
use assignment.Proc.Life.{Kernel}
use assignment.Proc.Exit.Zombies.{ZombieAt}
use assignment.Proc.Exit.Forever.{Reach, here, next, kills, waits, zombie_forever}

abbrev process : ProcState → (chan pid : ℕ) → ℤ → Proc
process state chan pid acc = record {
  state = state;
  chan = chan;
  killed = 0;
  xstate = pos 0;
  pid = pid;
  exit_msg = λ _. 0;
  accumulator = acc;
  ps_priority = pos 5;
  cfs_priority = pos 0;
  rtime = pos 0;
  stime = pos 0;
  retime = pos 0;
  parent = some 0;
  kstack = 0;
  sz = 0;
  pagetable = 0;
  trapframe = 0;
  frame = λ _. 0;
  ofile = λ _. none;
  cwd = none;
  name = λ _. 0;
}

abbrev four : Table
four =
    process runnable 0 1 (pos 20)
    ∷ process sleeping 77 2 (pos 4)
    ∷ process running 0 3 (pos 15)
    ∷ process zombie 0 4 (pos 1)
    ∷ []

four-Fits : Fits four
four-Fits = omega arith

scan-four : (scan four 0 int_max none).to_run ≡ some 2
unfolding scan assignment.Common.Int.to_int
scan-four = refl

-- A CPU that holds no lock, and a process that switches back at once.
abbrev cpu : SchedulerState
cpu = record { procs = four; past = unused; held = λ i. false; current = none }

abbrev back_at_once : ℕ → SchedulerState → SchedulerState
back_at_once i c = c

-- The lock behind the table is not held, so the release panics.
scheduler_four : scheduler_round back_at_once cpu ≡ none
unfolding scheduler_round assignment.Common.Int.to_int
scheduler_four = refl

-- The sleeper on 77 gets the accumulator 15.
wakeup-four : get_elem? (wakeup 0 77 four) 1 ≡ some (process runnable 77 2 (pos 15))
unfolding wakeup assignment.Proc.Sleep.wake_entry set_accumulator
wakeup-four = refl

scan-IsLeast_example :
    let s = scan four 0 int_max none in
    (s.p ≡ 4)
    × (((s.to_run ≡ none) × IsLeast int_max four)
        ⊎ ((j : ℕ) × (a : ℤ) × (s.to_run ≡ some j)
            × ReadyAt four j a
            × (a <ℤ int_max)
            × IsLeast a four))
scan-IsLeast_example = scan-IsLeast four four-Fits

scheduler_round_lem_example :
    ((scheduler_round back_at_once cpu ≡ some cpu) × IsLeast int_max four)
    ⊎ ((j : ℕ) × (a : ℤ) × ReadyAt four j a
        × (a <ℤ int_max)
        × IsLeast a four
        × Dispatched back_at_once j cpu (scheduler_round back_at_once cpu))
scheduler_round_lem_example = scheduler_round_lem back_at_once cpu four-Fits

set_accumulator_lem_example :
    ((a : ℤ) × (get_elem? (set_accumulator 1 four) 1 ≡ some (process sleeping 77 2 a))
      × IsFloor 1 four a)
    × ((j : ℕ) → 1 ≢ j → get_elem? (set_accumulator 1 four) j ≡ get_elem? four j)
set_accumulator_lem_example = set_accumulator_lem 1 four (process sleeping 77 2 (pos 4)) refl

wakeup_lem_example : (a : ℤ) × (get_elem? (wakeup 0 77 four) 1 ≡ some (process runnable 77 2 a))
wakeup_lem_example = wakeup_lem 0 77 four 1 (process sleeping 77 2 (pos 4)) refl

kill_lem_example :
    let (ps', r) = kill 2 four in
    ((r ≡ negsuc 0) × (ps' ≡ four) × NoPid 2 four)
    ⊎ ((r ≡ pos 0)
        × ((j : ℕ) × (p : Proc) × (get_elem? four j ≡ some p)
            × (p.pid ≡ 2)
            × ((q : Proc) × (get_elem? ps' j ≡ some q) × Marks p q)
            × ((i : ℕ) → i ≢ j → get_elem? ps' i ≡ get_elem? four i)
            × ((i : ℕ) (q : Proc) → i < j → get_elem? four i ≡ some q → q.pid ≢ 2)))
kill_lem_example = kill_lem 2 four

abbrev kernel : Kernel
kernel = record { procs = four; nextpid = 5; initproc = 0; addr = λ i. i + 1; calls = [] }

abbrev no_memory : ℕ → Bytes → ℕ → Unit {0} → Unit {0} × Bool
no_memory dst bytes len m = (tt, true)

alive : ¬ ZombieAt four 0
alive (p, e, z) = cc

-- The parent of the zombie waits for it, and then kills process 2.
abbrev waited : Kernel
waited = (assignment.Proc.Exit.wait (Unit {0}) no_memory (λ _ _. 0) 0 0 (λ _. 0) kernel tt).1

two_steps :
    Reach (Unit {0}) no_memory (λ _ _. 0) kernel (record waited { procs = (kill 2 waited.procs).0 })
two_steps = next (next here (waits 0 0 (λ _. 0) kernel tt alive)) (kills 2 waited)

zombie_forever_example : ZombieAt (kill 2 waited.procs).0 3
zombie_forever_example =
    zombie_forever (Unit {0}) no_memory (λ _ _. 0) two_steps 3
      (process zombie 0 4 (pos 1), refl, refl)
