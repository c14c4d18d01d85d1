-- ===== src/Proc/Types.antt =====
-- `struct proc` of kernel/proc.h and the process table of kernel/proc.c. A `struct proc *` is an
-- index into the table; a null pointer is `none`. Spin locks make each critical section one step,
-- so a function is modelled over the table that it sees inside its section.
use assignment.Common.{
  ℕ, zero, suc, ◌+◌, ◌-◌, ◌*◌, ◌^◌, ◌≡◌, ◌≢◌, refl, ap, Bool, true, false, Option, none, some, List,
  [], ◌∷◌, get_elem?,
}
use mathlib.Core.Option
use assignment.Common.Int.{ℤ, pos, negsuc}
use assignment.Str.{Bytes}

-- `enum procstate`
pub data ProcState : Type 0 where
  unused used sleeping runnable running zombie : ProcState

-- `chan` is an address, 0 when the process sleeps on nothing. `frame` holds the registers of the
-- page that `trapframe` points to, by their number there.
pub record Proc : Type 0 where
  pub state : ProcState
  pub chan : ℕ
  pub killed : ℕ
  pub xstate : ℤ
  pub pid : ℕ
  pub exit_msg : Bytes
  pub accumulator : ℤ
  pub ps_priority : ℤ
  pub cfs_priority : ℤ
  pub rtime : ℤ
  pub stime : ℤ
  pub retime : ℤ
  pub parent : Option ℕ
  pub kstack : ℕ
  pub sz : ℕ
  pub pagetable : ℕ
  pub trapframe : ℕ
  pub frame : ℕ → ℕ
  pub ofile : ℕ → Option ℕ
  pub cwd : Option ℕ
  pub name : Bytes

abbrev pub Table : Type 0
Table = List Proc

-- `(p->state == RUNNABLE) | (p->state == RUNNING)`
abbrev pub is_ready : ProcState → Bool
is_ready runnable = true
is_ready running = true
is_ready _ = false

abbrev pub is_unused : ProcState → Bool
is_unused unused = true
is_unused _ = false

abbrev pub is_sleeping : ProcState → Bool
is_sleeping sleeping = true
is_sleeping _ = false

abbrev pub is_zombie : ProcState → Bool
is_zombie zombie = true
is_zombie _ = false

-- `*p = f(*p)` for the process at index i.
unfoldable pub modify : ℕ → (Proc → Proc) → Table → Table
modify i f [] = []
modify zero f (p ∷ ps) = f p ∷ ps
modify (suc i) f (p ∷ ps) = p ∷ modify i f ps

-- memlayout.h
abbrev pub nproc : ℕ
nproc = 64

abbrev pub page_size : ℕ
page_size = 4096

abbrev pub trampoline : ℕ
trampoline = 2 ^ 38 - page_size

abbrev pub kstack_of : ℕ → ℕ
kstack_of i = trampoline - (i + 1) * 2 * page_size

-- `procinit`, for the entries from index i on: C's static storage is zero before.
unfoldable pub procinit_from : (rounds i : ℕ) → Table
procinit_from zero i = []
procinit_from (suc k) i =
    record {
      state = unused;
      chan = 0;
      killed = 0;
      xstate = pos 0;
      pid = 0;
      exit_msg = λ _. 0;
      accumulator = negsuc 0;
      ps_priority = pos 0;
      cfs_priority = pos 0;
      rtime = pos 0;
      stime = pos 0;
      retime = pos 0;
      parent = none;
      kstack = kstack_of i;
      sz = 0;
      pagetable = 0;
      trapframe = 0;
      frame = λ _. 0;
      ofile = λ _. none;
      cwd = none;
      name = λ _. 0;
    }
    ∷ procinit_from k (i + 1)

unfoldable pub procinit : Table
unfolding procinit_from
procinit = procinit_from nproc 0

pub get_elem?-modify_self :
    (f : Proc → Proc) (ps : Table) (i : ℕ) {p : Proc}
    → get_elem? ps i ≡ some p
    → get_elem? (modify i f ps) i ≡ some (f p)
unfolding modify
get_elem?-modify_self f [] i h = absurd (cc)
get_elem?-modify_self f (q ∷ ps) zero h = ap (λ o. Option.map f o) h
get_elem?-modify_self f (q ∷ ps) (suc i) h = get_elem?-modify_self f ps i h

pub get_elem?-modify_ne :
    (f : Proc → Proc) (ps : Table) (i j : ℕ) → i ≢ j → get_elem? (modify i f ps) j ≡ get_elem? ps j
unfolding modify
get_elem?-modify_ne f [] i j h = refl
get_elem?-modify_ne f (q ∷ ps) zero zero h = absurd (h refl)
get_elem?-modify_ne f (q ∷ ps) zero (suc j) h = refl
get_elem?-modify_ne f (q ∷ ps) (suc i) zero h = refl
get_elem?-modify_ne f (q ∷ ps) (suc i) (suc j) h = get_elem?-modify_ne f ps i j (λ e. h (ap suc e))
