-- ===== src/Spinlock/Exclusion.antt =====
-- Under every interleaving of the CPUs, one at most is between acquire and release of a spin lock.
use assignment.Common.{
  ℕ, ◌-◌, ◌==◌, ◌≡◌, inl, inr, sym, refl, subst, Bool, true, false, not, ◌&&◌, Option, none, some,
  List, [], ◌∷◌, if◌then◌else◌, Bool-cases, arith,
}
use assignment.Spinlock.{
  Pc, outside, checking, spinning, taken, critical, clearing, unlocking, popping, Cpu, Machine,
  pop_off, is_cpu, at_pc, leave, holding, step_at, step, run,
}

-- The CPU has the lock; its number is in `lk->cpu`.
abbrev pub owns : Pc → Bool
owns taken = true
owns critical = true
owns clearing = true
owns unlocking = true
owns _ = false

abbrev pub named : Pc → Bool
named critical = true
named clearing = true
named _ = false

abbrev is_outside : Pc → Bool
is_outside outside = true
is_outside _ = false

-- A CPU in acquire or release, or between them, has interrupts off, once.
abbrev pub is_quiet : Cpu → Bool
is_quiet c = if is_outside c.pc then c.noff == 0 else c.noff == 1 && not c.intr

abbrev pub Excludes : Machine → ℕ → ℕ → Type 0
Excludes s i j =
    ((owns (s.cpus i).pc && owns (s.cpus j).pc && not (i == j)) ≡ false)
    × ((owns (s.cpus i).pc && not s.locked) ≡ false)
    × (is_cpu s.cpu i ≡ named (s.cpus i).pc)
    × (is_quiet (s.cpus i) ≡ true)

abbrev pub IsExclusive : Machine → Type 0
IsExclusive s = (i j : ℕ) → Excludes s i j

-- The step of a CPU is one that does not panic, and keeps the invariant.
abbrev Good : Option Machine → Type 0
Good none = ⊥
Good (some s) = IsExclusive s

step_at-Good :
    (pc : Pc) (k : ℕ) (s : Machine) → (s.cpus k).pc ≡ pc → IsExclusive s → Good (step_at pc k s)
unfolding step_at
step_at-Good outside k s e h = λ i j. ground (arith, h i j, h j i, h k j, h i k, h k k)
step_at-Good checking k s e h =
    let free : holding k s ≡ false = ground (arith, h k k) in
    rw free (λ i j. ground (arith, h i j, h j i, h k j, h i k, h k k))
step_at-Good spinning k s e h = elim (Bool-cases s.locked) [
  | inl busy ↦
      subst (λ b. Good (if b then some s else some (at_pc taken k (record s { locked = true }))))
        (sym busy) h
  | inr free ↦
      subst (λ b. Good (if b then some s else some (at_pc taken k (record s { locked = true }))))
        (sym free) (λ i j. ground (arith, h i j, h j i, h k j, h i k, h k k))
]
step_at-Good taken k s e h = λ i j. ground (arith, h i j, h j i, h k j, h i k, h k k)
step_at-Good critical k s e h =
    let mine : holding k s ≡ true = ground (arith, h k k) in
    rw mine (λ i j. ground (arith, h i j, h j i, h k j, h i k, h k k))
step_at-Good clearing k s e h = λ i j. ground (arith, h i j, h j i, h k j, h i k, h k k)
step_at-Good unlocking k s e h = λ i j. ground (arith, h i j, h j i, h k j, h i k, h k k)
step_at-Good popping k s e h =
    let c = s.cpus k in
    let quiet : pop_off c
        ≡ some (record c { noff = c.noff - 1; intr = c.noff - 1 == 0 && c.intena }) =
      ground (arith, h k k) in
    subst (λ o. Good (leave o k s)) (sym quiet)
      (λ i j. ground (arith, h i j, h j i, h k j, h i k, h k k))

step-Good : (k : ℕ) (s : Machine) → IsExclusive s → Good (step k s)
unfolding step
step-Good k s h = step_at-Good (s.cpus k).pc k s refl h

-- From a state that keeps the invariant, under any schedule of the CPUs, acquire and release never
-- panic and the invariant is kept: at most one CPU has the lock, the lock is set while one has it,
-- `lk->cpu` names the CPU in its critical section, and a CPU has turned interrupts off once unless it
-- is outside, where it has not.
pub run-IsExclusive :
    (schedule : List ℕ) (s : Machine)
    → IsExclusive s
    → (s' : Machine) × (run schedule s ≡ some s') × IsExclusive s'
unfolding run
run-IsExclusive [] s h = (s, refl, h)
run-IsExclusive (k ∷ schedule) s h =
    next (run-IsExclusive schedule) (step k s) refl (step-Good k s h)
  where
    next :
        ((s₁ : Machine)
          → IsExclusive s₁
          → (s' : Machine) × (run schedule s₁ ≡ some s') × IsExclusive s')
        → (o : Option Machine) → step k s ≡ o
        → Good o
        → (s' : Machine) × (run (k ∷ schedule) s ≡ some s') × IsExclusive s'
    next rec none e good = elim good [ ]
    next rec (some s₁) e good = let (s', r, h') = rec s₁ good in (s', rw (e, run) r, h')
