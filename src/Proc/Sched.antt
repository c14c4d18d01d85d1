-- ===== src/Proc/Sched.antt =====
-- The scheduling code of kernel/proc.c: `set_accumulator`, the scan and dispatch of `scheduler`,
-- and the state change of `yield`.
pub mod Choice
pub mod Dispatch
use assignment.Common.{
  ℕ, zero, suc, ◌+◌, ◌-◌, ◌==◌, Bool, true, false, ◌&&◌, Option, none, some, List, [], ◌∷◌,
  if◌then◌else◌, ltb, length, update,
}
use assignment.Common.Int.{
  ℤ, pos, negsuc, ◌+ℤ◌, ltb_ℤ, pos_part, neg_part, to_int, to_long, int_max,
}
use assignment.Proc.Types.{Proc, Table, ProcState, runnable, running, is_ready, modify}

abbrev pub eqb_ℤ : ℤ → ℤ → Bool
eqb_ℤ a b = pos_part a + neg_part b == pos_part b + neg_part a

-- The loop of `set_accumulator`, with `np->accumulator` as `acc`. At `j == np` the code compares
-- that field with itself; here the entry holds INT_MAX, and the test fails as well.
unfoldable pub min_loop : Table → ℤ → ℤ
min_loop [] acc = acc
min_loop (j ∷ js) acc =
    min_loop js (if is_ready j.state && ltb_ℤ j.accumulator acc then j.accumulator else acc)

unfoldable pub set_accumulator : ℕ → Table → Table
unfolding min_loop modify
set_accumulator np ps =
    let ps' = modify np (λ p. record p { accumulator = int_max }) ps in
    let acc = min_loop ps' int_max in
    modify np (λ p. record p { accumulator = if eqb_ℤ acc int_max then pos 0 else acc }) ps'

-- What the scan of `scheduler` leaves: the loop's pointer, `minAcc` and `toRun`.
pub record Scan : Type 0 where
  pub p : ℕ
  pub min_acc : ℤ
  pub to_run : Option ℕ

-- `for(p = proc; p < &proc[NPROC]; p++)` from index `p` on. `minAcc` is an `int`.
unfoldable pub scan : Table → ℕ → ℤ → Option ℕ → Scan
scan [] p min_acc to_run = record { p = p; min_acc = min_acc; to_run = to_run }
scan (q ∷ qs) p min_acc to_run =
    let better = is_ready q.state && ltb_ℤ q.accumulator min_acc in
    scan qs (p + 1) (if better then to_int q.accumulator else min_acc)
      (if better then some p else to_run)

-- What one CPU's `scheduler` works on: the table, `state` of the struct proc that would stand behind its
-- last entry, which locks of entries the CPU holds, the one behind the table included, and `c->proc`.
pub record SchedulerState : Type 0 where
  pub procs : Table
  pub past : ProcState
  pub held : ℕ → Bool
  pub current : Option ℕ

-- `acquire(&proc[i].lock)`. None is the panic of a CPU that holds the lock; while another holds it
-- the CPU waits.
unfoldable pub acquire_entry : ℕ → SchedulerState → Option SchedulerState
acquire_entry i c = if c.held i then none else some (record c { held = update c.held i true })

-- `release(&proc[i].lock)`. None is the panic of a CPU that does not hold the lock.
unfoldable pub release_entry : ℕ → SchedulerState → Option SchedulerState
release_entry i c = if c.held i then some (record c { held = update c.held i false }) else none

-- `p->state = RUNNING`, behind the table where p stands there.
unfoldable pub set_running : ℕ → SchedulerState → SchedulerState
unfolding modify
set_running p c =
    if ltb p (length c.procs)
    then record c { procs = modify p (λ q. record q { state = running }) c.procs }
    else record c { past = running }

-- The body of `if (toRun != NULL)`, with the loop's pointer at p. `swtch i` is what happens from the
-- switch to process i until a process switches back to the scheduler of this CPU. None is a panic.
unfoldable pub dispatch :
    (swtch : ℕ → SchedulerState → SchedulerState) (p to_run : ℕ)
    → SchedulerState
    → Option SchedulerState
unfolding acquire_entry release_entry set_running
dispatch swtch p to_run c = elim (acquire_entry to_run c) [
  | none ↦ none
  | some c' ↦
      let back = swtch to_run (record (set_running p c') { current = some to_run }) in
      release_entry p (record back { current = none })
]

-- One round of `scheduler`'s endless loop.
unfoldable pub scheduler_round :
    (swtch : ℕ → SchedulerState → SchedulerState) → SchedulerState → Option SchedulerState
unfolding scan dispatch
scheduler_round swtch c =
    let s = scan c.procs 0 int_max none in
    elim s.to_run [ none ↦ some c | some to_run ↦ dispatch swtch s.p to_run c ]

-- `yield` of the process at `me`, up to its call of `sched`.
unfoldable pub yield : ℕ → Table → Table
unfolding modify
yield me =
    modify me
      λ p. record p { state = runnable; accumulator = to_long (p.accumulator +ℤ p.ps_priority) }
