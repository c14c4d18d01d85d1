-- ===== src/Proc/Sleep/Wake.antt =====
-- Whom `wakeup` of kernel/proc.c wakes.
use assignment.Common.{
  ℕ, zero, suc, ◌+◌, ◌≤◌, ◌<◌, ◌==◌, ◌≡◌, ◌≢◌, ◌⊎◌, inl, inr, ◌∙◌, refl, ap, subst, true, false,
  not, ◌&&◌, some, if◌then◌else◌, length, get_elem?, lt-length_of_get_elem?, Bool-cases,
  Option-cases, ℕ_discrete, arith,
}
use assignment.Common.Int.{ℤ, pos}
use assignment.Proc.Types.{
  Proc, Table, runnable, modify, get_elem?-modify_self, get_elem?-modify_ne,
}
use assignment.Proc.Sched.Dispatch.{set_accumulator_lem}
use assignment.Proc.Sleep.{sleeps_on, wake_entry, wakeup_from, wakeup}

-- The process as `wakeup` leaves it when it wakes it.
abbrev pub woken : Proc → ℤ → Proc
woken p a = record p { state = runnable; accumulator = a }

module _ (me chan : ℕ) where
  wake_entry_other :
      (ps : Table) (i j : ℕ) → i ≢ j → get_elem? (wake_entry me chan i ps) j ≡ get_elem? ps j
  unfolding wake_entry
  wake_entry_other ps i j ne = elim (Option-cases (get_elem? ps i)) [
    | inl e ↦ rw (e, wake_entry)
    | inr (p, e) ↦ elim (Bool-cases (not (i == me) && sleeps_on chan p)) [
      | inl yes' ↦
          rw (e, yes', wake_entry)
            ((set_accumulator_lem i (modify i (λ q. record q { state = runnable }) ps)
                  (record p { state = runnable })
                  (get_elem?-modify_self (λ q. record q { state = runnable }) ps i e)).1
                j ne
              ∙ get_elem?-modify_ne (λ q. record q { state = runnable }) ps i j ne)
      | inr no' ↦ rw (e, no', wake_entry)
    ]
  ]

  wake_entry_kept :
      (ps : Table) (i : ℕ) (p : Proc)
      → get_elem? ps i ≡ some p
      → (not (i == me) && sleeps_on chan p) ≡ false
      → get_elem? (wake_entry me chan i ps) i ≡ some p
  unfolding wake_entry
  wake_entry_kept ps i p e no' = rw (e, no', wake_entry) e

  wake_entry-woken :
      (ps : Table) (i : ℕ) (p : Proc)
      → get_elem? ps i ≡ some p
      → (not (i == me) && sleeps_on chan p) ≡ true
      → (a : ℤ) × (get_elem? (wake_entry me chan i ps) i ≡ some (woken p a))
  unfolding wake_entry
  wake_entry-woken ps i p e yes' =
      let (a, at, floor) =
        (set_accumulator_lem i (modify i (λ q. record q { state = runnable }) ps)
          (record p { state = runnable })
          (get_elem?-modify_self (λ q. record q { state = runnable }) ps i e)).0 in
      (a, rw (e, yes', wake_entry) at)

  wakeup_from_outside :
      (k i : ℕ) (ps : Table) (j : ℕ)
      → (j < i) ⊎ (i + k ≤ j)
      → get_elem? (wakeup_from k me chan i ps) j ≡ get_elem? ps j
  unfolding wakeup_from
  wakeup_from_outside zero i ps j h = refl
  wakeup_from_outside (suc k) i ps j h =
      wakeup_from_outside k (i + 1) (wake_entry me chan i ps) j (omega arith)
      ∙ wake_entry_other ps i j (λ e. omega arith)

  -- What the loop makes of an entry in its range.
  abbrev Visited : Table → Table → ℕ → Proc → Type 0
  Visited ps ps' j p =
      (a : ℤ) × (get_elem? ps' j
        ≡ some (if not (j == me) && sleeps_on chan p then woken p a else p))

  wake_entry-Visited :
      (ps : Table) (i : ℕ) (p : Proc)
      → get_elem? ps i ≡ some p
      → Visited ps (wake_entry me chan i ps) i p
  wake_entry-Visited ps i p e = elim (Bool-cases (not (i == me) && sleeps_on chan p)) [
    | inl yes' ↦ let (a, at) = wake_entry-woken ps i p e yes' in (a, rw yes' at)
    | inr no' ↦ (pos 0, rw no' (wake_entry_kept ps i p e no'))
  ]

  wakeup_from-Visited :
      (k i : ℕ) (ps : Table) (j : ℕ) (p : Proc)
      → get_elem? ps j ≡ some p
      → i ≤ j
      → j < i + k
      → Visited ps (wakeup_from k me chan i ps) j p
  unfolding wakeup_from
  wakeup_from-Visited zero i ps j p e lo hi = absurd (omega arith)
  wakeup_from-Visited (suc k) i ps j p e lo hi = elim (ℕ_discrete i j) [
    | yes at ↦
        subst (λ x. Visited ps (wakeup_from k me chan (i + 1) (wake_entry me chan i ps)) x p) at
          (let (a, now) = wake_entry-Visited ps i p (ap (get_elem? ps) at ∙ e) in
            (a, wakeup_from_outside k (i + 1) (wake_entry me chan i ps) i (omega arith) ∙ now))
    | no ne ↦
        wakeup_from-Visited k (i + 1) (wake_entry me chan i ps) j p (wake_entry_other ps i j ne ∙ e)
          (omega arith) (omega arith)
  ]

  -- `wakeup(chan)` makes runnable exactly the processes that sleep on `chan`, but for the caller:
  -- of those it changes the state and the accumulator, and every other entry stays as it is.
  pub wakeup_lem :
      (ps : Table) (j : ℕ) (p : Proc)
      → get_elem? ps j ≡ some p
      → (a : ℤ) × (get_elem? (wakeup me chan ps) j
          ≡ some (if not (j == me) && sleeps_on chan p then woken p a else p))
  unfolding wakeup
  wakeup_lem ps j p e =
      wakeup_from-Visited (length ps) 0 ps j p e (omega arith)
        (omega (arith, lt-length_of_get_elem? ps j e))
