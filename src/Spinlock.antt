-- ===== src/Spinlock.antt =====
-- kernel/spinlock.c: a spin lock among the CPUs, one atomic step of one of them at a time.
--
-- A CPU calls acquire and release in turn. `Pc` says which statement of them it runs next; an
-- interrupt handler, which would nest the two, does not run while a CPU has interrupts off.
pub mod Exclusion
mod Tests
use assignment.Common.{
  ℕ, zero, suc, ◌+◌, ◌-◌, ◌==◌, Bool, true, false, not, ◌&&◌, ◌||◌, Option, none, some, List, [],
  ◌∷◌, if◌then◌else◌, ltb, update,
}

pub data Pc : Type 0 where
  outside checking spinning taken critical clearing unlocking popping : Pc

-- The fields of `struct cpu` that push_off and pop_off use; `intr` is the CPU's interrupt flag.
pub record Cpu : Type 0 where
  pub pc : Pc
  pub noff : ℕ
  pub intena : Bool
  pub intr : Bool

-- `lk->locked`, `lk->cpu` and the CPUs by their number.
pub record Machine : Type 0 where
  pub locked : Bool
  pub cpu : Option ℕ
  pub cpus : ℕ → Cpu

unfoldable pub push_off : Cpu → Cpu
push_off c = record c {
  intr = false;
  intena = if c.noff == 0 then c.intr else c.intena;
  noff = c.noff + 1;
}

-- None is a panic.
unfoldable pub pop_off : Cpu → Option Cpu
pop_off c =
    if c.intr
    then none
    else if ltb c.noff 1
    then none
    else some (record c { noff = c.noff - 1; intr = c.noff - 1 == 0 && c.intena })

abbrev pub is_cpu : Option ℕ → ℕ → Bool
is_cpu none i = false
is_cpu (some k) i = k == i

unfoldable pub holding : ℕ → Machine → Bool
holding i s = s.locked && is_cpu s.cpu i

abbrev pub at_pc : Pc → ℕ → Machine → Machine
at_pc pc i s = record s { cpus = update s.cpus i (record (s.cpus i) { pc = pc }) }

-- CPU i behind its pop_off.
abbrev pub leave : Option Cpu → ℕ → Machine → Option Machine
leave none i s = none
leave (some c) i s = some (record s { cpus = update s.cpus i (record c { pc = outside }) })

-- The next step of CPU i; none is a panic.
unfoldable pub step_at : Pc → ℕ → Machine → Option Machine
unfolding push_off pop_off holding
step_at outside i s =
    some (record s { cpus = update s.cpus i (record (push_off (s.cpus i)) { pc = checking }) })
step_at checking i s = if holding i s then none else some (at_pc spinning i s)
step_at spinning i s =
    if s.locked then some s else some (at_pc taken i (record s { locked = true }))
step_at taken i s = some (at_pc critical i (record s { cpu = some i }))
step_at critical i s = if holding i s then some (at_pc clearing i s) else none
step_at clearing i s = some (at_pc unlocking i (record s { cpu = none }))
step_at unlocking i s = some (at_pc popping i (record s { locked = false }))
step_at popping i s = leave (pop_off (s.cpus i)) i s

unfoldable pub step : ℕ → Machine → Option Machine
step i s = step_at (s.cpus i).pc i s

-- The CPUs that make the steps, in order.
unfoldable pub run : List ℕ → Machine → Option Machine
run [] s = some s
run (i ∷ is) s = elim (step i s) [ none ↦ none | some s' ↦ run is s' ]
