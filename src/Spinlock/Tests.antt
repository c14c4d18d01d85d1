-- ===== src/Spinlock/Tests.antt =====
-- Two CPUs that contend for a spin lock.
use assignment.Common.{ℕ, ◌≡◌, refl, true, false, Option, none, some, List, [], ◌∷◌, arith}
use assignment.Spinlock.{Pc, outside, spinning, critical, Machine, step_at, step, run}
use assignment.Spinlock.Exclusion.{IsExclusive, run-IsExclusive}

-- The lock is free and every CPU is outside with interrupts on.
abbrev initial : Machine
initial = record {
  locked = false;
  cpu = none;
  cpus = λ i. record { pc = outside; noff = 0; intena = false; intr = true };
}

initial-IsExclusive : IsExclusive initial
initial-IsExclusive i j = ground arith

abbrev schedule : List ℕ
schedule = 0 ∷ 1 ∷ 0 ∷ 1 ∷ 0 ∷ 0 ∷ 1 ∷ []

abbrev pc_of : ℕ → Option Machine → Option Pc
pc_of i none = none
pc_of i (some s) = some (s.cpus i).pc

-- CPU 0 is in its critical section, and CPU 1 spins.
run-schedule : pc_of 0 (run schedule initial) ≡ some critical
unfolding run step step_at
run-schedule = refl

run-schedule_spins : pc_of 1 (run schedule initial) ≡ some spinning
unfolding run step step_at
run-schedule_spins = refl

run-IsExclusive_example : (s' : Machine) × (run schedule initial ≡ some s') × IsExclusive s'
run-IsExclusive_example = run-IsExclusive schedule initial initial-IsExclusive
