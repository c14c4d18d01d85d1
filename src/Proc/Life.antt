-- ===== src/Proc/Life.antt =====
-- How a process starts in kernel/proc.c: `allocpid`, `allocproc`, `freeproc` and `fork`. The other components show as what their calls return, which these functions
-- take as arguments, and as `calls`, the list of the calls that change their state, last call first.
use assignment.Common.{
  ℕ, zero, suc, ◌+◌, ◌==◌, Bool, false, not, Option, none, some, List, [], ◌∷◌, if◌then◌else◌,
  get_elem?, update,
}
use assignment.Common.Int.{ℤ, pos, negsuc}
use assignment.Str.{safestrcpy}
use assignment.Proc.Types.{Proc, Table, unused, used, runnable, is_unused, modify}
use assignment.Proc.Sched.{set_accumulator}

-- Calls into the other components.
pub data Call : Type 0 where
  kfree : ℕ → Call
  proc_freepagetable : (pagetable sz : ℕ) → Call
  filedup : ℕ → Call
  fileclose : ℕ → Call
  idup : Option ℕ → Call
  iput : Option ℕ → Call

-- `addr i` is the address of `proc[i]`, on which its owner sleeps in `wait`.
pub record Kernel : Type 0 where
  pub procs : Table
  pub nextpid : ℕ
  pub initproc : ℕ
  pub addr : ℕ → ℕ
  pub calls : List Call

abbrev pub change : ℕ → (Proc → Proc) → Kernel → Kernel
change i f k = record k { procs = modify i f k.procs }

abbrev pub same_index : Option ℕ → ℕ → Bool
same_index none i = false
same_index (some j) i = j == i

unfoldable pub find_unused : Table → ℕ → Option ℕ
find_unused [] i = none
find_unused (p ∷ ps) i = if is_unused p.state then some i else find_unused ps (i + 1)

-- What `freeproc` writes into the entry. The rest of `name` stays.
abbrev pub cleared : Proc → Proc
cleared p = record p {
  trapframe = 0;
  pagetable = 0;
  sz = 0;
  pid = 0;
  parent = none;
  name = update p.name 0 0;
  chan = 0;
  killed = 0;
  xstate = pos 0;
  state = unused;
  accumulator = negsuc 0;
  ps_priority = pos 0;
}

abbrev pub free_calls : Proc → List Call → List Call
free_calls p cs =
    let cs' = if p.trapframe == 0 then cs else kfree p.trapframe ∷ cs in
    if p.pagetable == 0 then cs' else proc_freepagetable p.pagetable p.sz ∷ cs'

unfoldable pub freeproc : ℕ → Kernel → Kernel
unfolding modify
freeproc i k = elim (get_elem? k.procs i) [
  | none ↦ k
  | some p ↦ record k { procs = modify i cleared k.procs; calls = free_calls p k.calls }
]

-- `allocproc`; `frame` is what kalloc returns and `table` what proc_pagetable returns. The saved
-- context is left out: it is used by swtch only.
unfoldable pub allocproc : (frame table : Option ℕ) → Kernel → Option ℕ × Kernel
unfolding find_unused modify freeproc
allocproc frame table k = elim (find_unused k.procs 0) [
  | none ↦ (none, k)
  | some i ↦
      let k₁ =
        change i (λ p. record p { pid = k.nextpid; state = used })
          (record k { nextpid = k.nextpid + 1 }) in
      elim frame [
        | none ↦ (none, freeproc i (change i (λ p. record p { trapframe = 0 }) k₁))
        | some f ↦ elim table [
          | none ↦ (none, freeproc i (change i (λ p. record p { trapframe = f; pagetable = 0 }) k₁))
          | some t ↦ (some i, change i (λ p. record p { trapframe = f; pagetable = t }) k₁)
        ]
      ]
]

-- The loop over the open files, with what it hands to `filedup`.
abbrev pub nofile : ℕ
nofile = 16

unfoldable pub dup_files :
    (rounds i : ℕ) → (from to : ℕ → Option ℕ) → List Call → (ℕ → Option ℕ) × List Call
dup_files zero i from to cs = (to, cs)
dup_files (suc k) i from to cs =
    dup_files k (i + 1) from (elim (from i) [ none ↦ to | some f ↦ update to i (some f) ])
      (elim (from i) [ none ↦ cs | some f ↦ filedup f ∷ cs ])

-- The number of register a0 in the trapframe page.
abbrev pub reg_a0 : ℕ
reg_a0 = 14

-- The part of `fork` behind its error returns: the new process at `np`, of which `q` is the entry,
-- becomes a copy of `p`, the entry of `me`.
unfoldable pub copy_process : (me np : ℕ) (p q : Proc) → Kernel → Kernel
unfolding modify
copy_process me np p q k =
    let (files, cs) = dup_files nofile 0 p.ofile q.ofile k.calls in
    let ps =
      modify np
        (λ _. record q {
          sz = p.sz;
          frame = update p.frame reg_a0 0;
          ofile = files;
          cwd = p.cwd;
          name = safestrcpy q.name p.name 16;
          parent = some me;
          ps_priority = pos 5;
        })
        k.procs in
    let ps' =
      modify np
        (λ r. record r {
          retime = pos 0;
          rtime = pos 0;
          stime = pos 0;
          cfs_priority = p.cfs_priority;
          state = runnable;
        })
        (set_accumulator np ps) in
    record k { procs = ps'; calls = idup p.cwd ∷ cs }

-- `fork` of the process at `me`, whose entry is `p`, once `allocproc` has found `np`. `copied` says
-- that uvmcopy succeeds.
unfoldable pub fork_into : (me np : ℕ) (p : Proc) (copied : Bool) → Kernel → ℤ × Kernel
fork_into me np p copied k = elim (get_elem? k.procs np) [
  | none ↦ (negsuc 0, k)
  | some q ↦ if not copied then (negsuc 0, freeproc np k) else (pos q.pid, copy_process me np p q k)
]

-- `fork` of the process at `me`, and its return value.
unfoldable pub fork : (me : ℕ) (frame table : Option ℕ) (copied : Bool) → Kernel → ℤ × Kernel
fork me frame table copied k = elim (get_elem? k.procs me) [
  | none ↦ (negsuc 0, k)
  | some p ↦ elim (allocproc frame table k).0 [
    | none ↦ (negsuc 0, (allocproc frame table k).1)
    | some np ↦ fork_into me np p copied (allocproc frame table k).1
  ]
]
