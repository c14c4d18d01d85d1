-- ===== src/Proc/Exit.antt =====
-- How a process ends in kernel/proc.c: `reparent`, `exit` and `wait`.
pub mod Zombies
pub mod Forever
use assignment.Common.{
  ℕ, zero, suc, ◌+◌, ◌-◌, ◌==◌, Bool, true, false, not, ◌&&◌, ◌||◌, Option, none, some, List, [],
  ◌∷◌, if◌then◌else◌, length, get_elem?, update,
}
use assignment.Common.Int.{ℤ, pos, negsuc}
use assignment.Str.{Bytes, strncpy, safestrcpy, strlen_from}
use assignment.Proc.Types.{
  Proc, Table, ProcState, unused, used, zombie, runnable, is_unused, is_zombie, modify,
}
use assignment.Proc.Sched.{set_accumulator}
use assignment.Proc.Sleep.{sleep_on, wakeup, killed}
use assignment.Proc.Life.{Kernel, Call, fileclose, iput, change, same_index, nofile}

-- The body of the loop of `reparent(p)` for the entry at index i; `me` runs it.
unfoldable pub reparent_entry : (me i : ℕ) → Kernel → Kernel
unfolding modify
reparent_entry me i k = elim (get_elem? k.procs i) [
  | none ↦ k
  | some pp ↦
      if same_index pp.parent me
      then (let k' = change i (λ q. record q { parent = some k.initproc }) k in
          record k' { procs = wakeup me (k.addr k.initproc) k'.procs })
      else k
]

unfoldable pub reparent_from : (rounds me i : ℕ) → Kernel → Kernel
reparent_from zero me i k = k
reparent_from (suc r) me i k = reparent_from r me (i + 1) (reparent_entry me i k)

unfoldable pub reparent : (me : ℕ) → Kernel → Kernel
unfolding reparent_from
reparent me k = reparent_from (length k.procs) me 0 k

-- The loop over the open files in `exit`.
unfoldable pub close_files :
    (rounds fd : ℕ) → (ℕ → Option ℕ) → List Call → (ℕ → Option ℕ) × List Call
close_files zero fd files cs = (files, cs)
close_files (suc k) fd files cs =
    close_files k (fd + 1) (elim (files fd) [ none ↦ files | some _ ↦ update files fd none ])
      (elim (files fd) [ none ↦ cs | some f ↦ fileclose f ∷ cs ])

-- `exit` up to its call of `sched`: `panic` for init, and `fault` for a null message, which strncpy
-- reads from address 0.
pub data Exited : Type 0 where
  panic : Exited
  fault : Exited
  exited : Kernel → Exited

-- `wakeup(p->parent)`: address 0 stands for a null parent.
abbrev pub parent_chan : Kernel → Option ℕ → ℕ
parent_chan k none = 0
parent_chan k (some i) = k.addr i

abbrev pub parent_of : Kernel → ℕ → Option ℕ
parent_of k i = elim (get_elem? k.procs i) [ none ↦ none | some q ↦ q.parent ]

-- `exit` behind its checks: it closes the files, drops the current directory, hands its children to
-- init, wakes its parent, and becomes a zombie.
unfoldable pub leave_files : (me : ℕ) (p : Proc) → Kernel → Kernel
unfolding close_files modify
leave_files me p k =
    let (files, cs) = close_files nofile 0 p.ofile k.calls in
    change me (λ q. record q { ofile = files; cwd = none }) (record k { calls = iput p.cwd ∷ cs })

unfoldable pub wake_parent : (me : ℕ) → Kernel → Kernel
wake_parent me k = record k { procs = wakeup me (parent_chan k (parent_of k me)) k.procs }

unfoldable pub become_zombie : (me : ℕ) (status : ℤ) (msg : Bytes) → Kernel → Kernel
unfolding modify
become_zombie me status msg =
    change me
      λ q. record q { exit_msg = strncpy q.exit_msg msg 32; xstate = status; state = zombie }

unfoldable pub exit : (me : ℕ) (status : ℤ) (msg : Option Bytes) → Kernel → Exited
exit me status msg k = if me == k.initproc then panic else elim (get_elem? k.procs me) [
  | none ↦ fault
  | some p ↦ elim msg [
    | none ↦ fault
    | some m ↦
        exited (become_zombie me status m (wake_parent me (reparent me (leave_files me p k))))
  ]
]

-- How far one pass of `wait` over the table gets.
pub data Scanned : Type 0 where
  returns : ℤ → Scanned
  end_of_table : Bool → Scanned

-- `M` is the caller's memory, and `copyout dst bytes len` what vm.c's copyout makes of it, with
-- false for -1; `word` gives the bytes of an `int`.
module _ (M : Type 0) (copyout : ℕ → Bytes → ℕ → M → M × Bool) (word : ℤ → Bytes) where
  -- The scan of `wait(addr, msg)` by `me`. A failing copy of the message is only reported. The
  -- message has 32 bytes.
  unfoldable pub wait_scan : (me addr : ℕ) (msg : Bytes) → Table → Bool → M → M × Scanned
  wait_scan me addr msg [] havekids m = (m, end_of_table havekids)
  wait_scan me addr msg (pp ∷ pps) havekids m =
      let (m', _) = copyout (msg 0) pp.exit_msg (strlen_from 32 0 pp.exit_msg) m in
      let (m'', copied) = copyout addr (word pp.xstate) 4 m' in
      let rest = wait_scan me addr msg pps true m' in
      let skip = wait_scan me addr msg pps havekids m in
      if same_index pp.parent me
      then (if is_zombie pp.state
          then (if addr == 0
              then (m', returns (pos pp.pid))
              else if copied
              then (m'', returns (pos pp.pid))
              else (m'', returns (negsuc 0)))
          else rest)
      else skip

  -- `wait` up to its return (`some`) or its next sleep (`none`), after which it runs again.
  unfoldable pub wait : (me addr : ℕ) (msg : Bytes) → Kernel → M → Option ℤ × Kernel × M
  unfolding wait_scan
  wait me addr msg k m =
      let (m', scanned) = wait_scan me addr msg k.procs false m in
      elim scanned [
        | returns r ↦ (some r, k, m')
        | end_of_table havekids ↦
            if not havekids || not (killed me k.procs == 0)
            then (some (negsuc 0), k, m')
            else (none, record k { procs = sleep_on me (k.addr me) k.procs }, m')
      ]
