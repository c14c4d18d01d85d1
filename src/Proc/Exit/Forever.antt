-- ===== src/Proc/Exit/Forever.antt =====
-- No run of the operations of kernel/proc.c frees the entry of a process that has exited, whoever
-- waits for it.
use assignment.Common.{
  ℕ, ◌==◌, ◌≡◌, ◌⊎◌, inl, inr, refl, sym, subst, Bool, false, not, ◌||◌, Option, Bool-cases,
}
use assignment.Common.Int.{ℤ}
use assignment.Str.{Bytes}
use assignment.Proc.Types.{Proc, Table, modify}
use assignment.Proc.Sched.{yield}
use assignment.Proc.Sleep.{sleep_on, wakeup, kill}
use assignment.Proc.Life.{Kernel, fork}
use assignment.Proc.Exit.{exited, exit, wait}
use assignment.Proc.Exit.{Scanned, returns, end_of_table, wait_scan}
use assignment.Proc.Sleep.{killed}
use assignment.Proc.Exit.Zombies.{
  ZombieAt, modify_keeps, wakeup_keeps, kill_keeps, fork_keeps, exit_keeps,
}

module _ (M : Type 0) (copyout : ℕ → Bytes → ℕ → M → M × Bool) (word : ℤ → Bytes) where
  abbrev scanned : (me addr : ℕ) (msg : Bytes) (k : Kernel) (m : M) → Scanned
  scanned me addr msg k m = (wait_scan M copyout word me addr msg k.procs false m).1

  -- `wait` leaves the kernel as it is, or puts its caller to sleep.
  wait-Kernel :
      (me addr : ℕ) (msg : Bytes) (k : Kernel) (m : M)
      → ((wait M copyout word me addr msg k m).1 ≡ k)
        ⊎ ((wait M copyout word me addr msg k m).1
            ≡ record k { procs = sleep_on me (k.addr me) k.procs })
  unfolding wait
  wait-Kernel me addr msg k m = go (scanned me addr msg k m) refl
    where
      go :
          (s : Scanned)
          → scanned me addr msg k m ≡ s
          → ((wait M copyout word me addr msg k m).1 ≡ k)
            ⊎ ((wait M copyout word me addr msg k m).1
                ≡ record k { procs = sleep_on me (k.addr me) k.procs })
      go (returns r) e = inl (rw (e, wait))
      go (end_of_table havekids) e =
          elim (Bool-cases (not havekids || not (killed me k.procs == 0))) [
            | inl stop ↦ inl (rw (e, stop, wait))
            | inr on ↦ inr (rw (e, on, wait))
          ]

  -- One operation of proc.c.
  pub data Step : Kernel → Kernel → Type 0 where
    forks :
        (me : ℕ) (frame table : Option ℕ) (copied : Bool) (k : Kernel)
        → Step k (fork me frame table copied k).1
    exits :
        (me : ℕ) (status : ℤ) (msg : Option Bytes) (k k' : Kernel)
        → exit me status msg k ≡ exited k'
        → Step k k'
    waits :
        (me addr : ℕ) (msg : Bytes) (k : Kernel) (m : M)
        → ¬ ZombieAt k.procs me
        → Step k (wait M copyout word me addr msg k m).1
    yields :
        (me : ℕ) (k : Kernel)
        → ¬ ZombieAt k.procs me
        → Step k (record k { procs = yield me k.procs })
    sleeps :
        (me chan : ℕ) (k : Kernel)
        → ¬ ZombieAt k.procs me
        → Step k (record k { procs = sleep_on me chan k.procs })
    wakes : (me chan : ℕ) (k : Kernel) → Step k (record k { procs = wakeup me chan k.procs })
    kills : (pid : ℕ) (k : Kernel) → Step k (record k { procs = (kill pid k.procs).0 })

  -- Any number of operations, of any processes, in any order.
  pub data Reach (k : Kernel) : Kernel → Type 0 where
    here : Reach k k
    next : {k' k'' : Kernel} → Reach k k' → Step k' k'' → Reach k k''

  own_entry_keeps :
      (me : ℕ) (f : Proc → Proc) (ps : Table) (j : ℕ)
      → ¬ ZombieAt ps me
      → ZombieAt ps j
      → ZombieAt (modify me f ps) j
  own_entry_keeps me f ps j alive z = modify_keeps me f ps j (λ p e d. absurd (alive (p, e, d))) z

  sleep_on_keeps :
      (me chan : ℕ) (ps : Table) (j : ℕ)
      → ¬ ZombieAt ps me
      → ZombieAt ps j
      → ZombieAt (sleep_on me chan ps) j
  unfolding sleep_on
  sleep_on_keeps me chan ps j alive z = own_entry_keeps me _ ps j alive z

  yield_keeps :
      (me : ℕ) (ps : Table) (j : ℕ) → ¬ ZombieAt ps me → ZombieAt ps j → ZombieAt (yield me ps) j
  unfolding yield
  yield_keeps me ps j alive z = own_entry_keeps me _ ps j alive z

  Step-keeps : {k k' : Kernel} → Step k k' → (j : ℕ) → ZombieAt k.procs j → ZombieAt k'.procs j
  Step-keeps (forks me frame table copied k) j z = fork_keeps k j z me frame table copied
  Step-keeps (exits me status msg k k' e) j z = exit_keeps k j z me status msg k' e
  Step-keeps (waits me addr msg k m alive) j z = elim (wait-Kernel me addr msg k m) [
    | inl same ↦ subst (λ x. ZombieAt x.procs j) (sym same) z
    | inr slept ↦
        subst (λ x. ZombieAt x.procs j) (sym slept)
          (sleep_on_keeps me (k.addr me) k.procs j alive z)
  ]
  Step-keeps (yields me k alive) j z = yield_keeps me k.procs j alive z
  Step-keeps (sleeps me chan k alive) j z = sleep_on_keeps me chan k.procs j alive z
  Step-keeps (wakes me chan k) j z = wakeup_keeps me chan k.procs j z
  Step-keeps (kills pid k) j z = kill_keeps pid k.procs j z

  -- A zombie stays a zombie in every state that any sequence of fork, exit, wait, yield, sleep,
  -- wakeup and kill reaches, run by processes that are not zombies themselves: its entry is never
  -- free again, also when its parent has waited for it.
  pub zombie_forever :
      {k k' : Kernel} → Reach k k' → (j : ℕ) → ZombieAt k.procs j → ZombieAt k'.procs j
  zombie_forever here j z = z
  zombie_forever (next r st) j z = Step-keeps st j (zombie_forever r j z)
