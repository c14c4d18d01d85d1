-- ===== src/Proc/Sched/Dispatch.antt =====
-- What `scheduler` does with its choice, and the accumulator that `set_accumulator` gives a process.
use assignment.Common.{
  ℕ, ◌≡◌, ◌≢◌, ◌⊎◌, inl, inr, ◌∙◌, refl, sym, ap, subst, true, false, Option, none, some,
  if◌then◌else◌, get_elem?, length, ltb, update, Bool-cases, ℕ_discrete, arith,
}
use assignment.Common.Int.{ℤ, pos, ◌≤ℤ◌, ◌<ℤ◌, int_max}
use assignment.Proc.Types.{
  Proc, Table, running, is_ready, modify, get_elem?-modify_self, get_elem?-modify_ne,
}
use assignment.Proc.Sched.{
  eqb_ℤ, min_loop, set_accumulator, SchedulerState, acquire_entry, release_entry, set_running,
  dispatch, scheduler_round,
}
use assignment.Proc.Sched.Choice.{ReadyAt, IsLeast, Fits, min_loop-Minimum, scan-IsLeast}

-- The CPU as it stands when the process that `scheduler` has chosen starts to run.
abbrev pub switched : ℕ → SchedulerState → SchedulerState
switched j c = record c { past = running; held = update c.held j true; current = some j }

-- What a switch to process j with the loop's pointer behind the table may end in.
abbrev pub Dispatched :
    (swtch : ℕ → SchedulerState → SchedulerState) (j : ℕ)
    → SchedulerState
    → Option SchedulerState
    → Type 0
Dispatched swtch j c r =
    ((c.held j ≡ true) × (r ≡ none))
    ⊎ ((c.held j ≡ false)
        × (let end = length c.procs in
            let back = swtch j (switched j c) in
            ((back.held end ≡ false) × (r ≡ none))
            ⊎ ((back.held end ≡ true)
                × (r ≡ some (record back { current = none; held = update back.held end false })))))

set_running-end :
    (c : SchedulerState) → set_running (length c.procs) c ≡ record c { past = running }
unfolding set_running
set_running-end c = let t : ltb (length c.procs) (length c.procs) ≡ false = ground arith in rw t

dispatch-end :
    (swtch : ℕ → SchedulerState → SchedulerState) (j : ℕ) (c : SchedulerState)
    → Dispatched swtch j c (dispatch swtch (length c.procs) j c)
unfolding dispatch acquire_entry release_entry
dispatch-end swtch j c = elim (Bool-cases (c.held j)) [
  | inl own ↦ inl (own, rw (own, dispatch, acquire_entry))
  | inr free ↦
      let c' : SchedulerState = record c { held = update c.held j true } in
      let end = length c.procs in
      let back = swtch j (switched j c) in
      let run : dispatch swtch end j c ≡ release_entry end (record back { current = none }) =
        rw (free, dispatch, acquire_entry)
          (ap
            (λ (x : SchedulerState).
              release_entry end
                (record (swtch j (record x { current = some j })) { current = none }))
            (set_running-end c')) in
      inr (
        free,
        elim (Bool-cases (back.held end)) [
          | inr bad ↦ inl (bad, run ∙ (rw (bad, release_entry)))
          | inl good ↦ inr (good, run ∙ (rw (good, release_entry)))
        ],
      )
]

-- A round of `scheduler`, on a table whose accumulators fit an `int` from below. Without a ready process
-- whose accumulator is below INT_MAX nothing happens. Else it takes a ready process j with the least
-- accumulator, and panics if the CPU holds its lock. If not, it takes that lock and stores RUNNING
-- behind the end of the table, where the loop's pointer stands, not in the entry of j: j runs with
-- the table as it was. When a process has switched back, `c->proc` is cleared, and the lock behind
-- the table is released, not that of j: this is a panic unless the CPU holds the lock there.
pub scheduler_round_lem :
    (swtch : ℕ → SchedulerState → SchedulerState) (c : SchedulerState)
    → Fits c.procs
    → ((scheduler_round swtch c ≡ some c) × IsLeast int_max c.procs)
      ⊎ ((j : ℕ) × (a : ℤ) × ReadyAt c.procs j a
          × (a <ℤ int_max)
          × IsLeast a c.procs
          × Dispatched swtch j c (scheduler_round swtch c))
unfolding scheduler_round
scheduler_round_lem swtch c fits =
    let (end, chosen) = scan-IsLeast c.procs fits in
    elim chosen [
      | inl (e, least) ↦ inl (rw (e, scheduler_round), least)
      | inr (j, a, e, at, small, least) ↦
          let run : scheduler_round swtch c ≡ dispatch swtch (length c.procs) j c =
            rw (e, scheduler_round) (ap (λ p. dispatch swtch p j c) end) in
          inr (
            j,
            a,
            at,
            small,
            least,
            subst (Dispatched swtch j c) (sym run) (dispatch-end swtch j c),
          )
    ]

-- What `set_accumulator` may give the process at `np`: the least accumulator of the other ready
-- processes if it is below INT_MAX, and else 0.
pub record IsFloor (np : ℕ) (ps : Table) (a : ℤ) : Type 0 where
  pub below :
      (j : ℕ) (q : Proc)
      → j ≢ np
      → get_elem? ps j ≡ some q
      → is_ready q.state ≡ true
      → a ≤ℤ q.accumulator
  pub from :
      ((j : ℕ) × (j ≢ np) × ReadyAt ps j a × (a <ℤ int_max))
      ⊎ ((a ≡ pos 0)
          × ((j : ℕ) (q : Proc)
              → j ≢ np
              → get_elem? ps j ≡ some q
              → is_ready q.state ≡ true
              → int_max ≤ℤ q.accumulator))

module _ (np : ℕ) (ps : Table) (p : Proc) (here : get_elem? ps np ≡ some p) where
  abbrev raised : Table
  raised = modify np (λ q. record q { accumulator = int_max }) ps

  abbrev least_acc : ℤ
  least_acc = min_loop raised int_max

  abbrev given : ℤ
  given = if eqb_ℤ least_acc int_max then pos 0 else least_acc

  ReadyAt-raised : (j : ℕ) (a : ℤ) → a <ℤ int_max → ReadyAt raised j a → (j ≢ np) × ReadyAt ps j a
  ReadyAt-raised j a small (q, e, r, v) = elim (ℕ_discrete np j) [
    | yes at ↦ absurd (too_big at)
    | no ne ↦ (
      λ x. ne (sym x),
      (q, sym (get_elem?-modify_ne (λ q. record q { accumulator = int_max }) ps np j ne) ∙ e, r, v),
    )
  ]
    where
      too_big : np ≡ j → ⊥
      too_big at =
          let own = get_elem?-modify_self (λ q. record q { accumulator = int_max }) ps np here in
          let same : some (record p { accumulator = int_max }) ≡ some q =
            sym own ∙ ap (get_elem? raised) at ∙ e in
          let acc : q.accumulator ≡ int_max = ground arith in ground (arith, acc, v)

  least_below :
      (j : ℕ) (q : Proc)
      → j ≢ np
      → get_elem? ps j ≡ some q
      → is_ready q.state ≡ true
      → least_acc ≤ℤ q.accumulator
  least_below j q ne e r =
      (min_loop-Minimum raised int_max).least j q
        (get_elem?-modify_ne (λ q. record q { accumulator = int_max }) ps np j (λ x. ne (sym x))
          ∙ e)
        r

  IsFloor-given : IsFloor np ps given
  IsFloor-given =
      let m = min_loop-Minimum raised int_max in
      elim (Bool-cases (eqb_ℤ least_acc int_max)) [
        | inl top ↦
            let at_top : int_max ≤ℤ least_acc = ground arith in
            rw top (record {
              below = λ j q ne e r. omega (arith, least_below j q ne e r, at_top);
              from = inr (refl, λ j q ne e r. omega (arith, least_below j q ne e r, at_top));
            })
        | inr low ↦ rw low (record {
          below = least_below;
          from = elim m.from [
            | inl e ↦ absurd (not_top (ap (λ a. eqb_ℤ a int_max) e) low)
            | inr (j, at, small) ↦
                let (ne, at') = ReadyAt-raised j least_acc small at in inl (j, ne, at', small)
          ];
        })
      ]
    where
      not_top :
          eqb_ℤ least_acc int_max ≡ eqb_ℤ int_max int_max → eqb_ℤ least_acc int_max ≡ false → ⊥
      not_top e low = cc

  -- `set_accumulator` gives the process at `np` the least accumulator of the other ready processes,
  -- or 0 when none of those is below INT_MAX; it changes nothing else of that process and no other
  -- process.
  pub set_accumulator_lem :
      ((a : ℤ) × (get_elem? (set_accumulator np ps) np ≡ some (record p { accumulator = a }))
        × IsFloor np ps a)
      × ((j : ℕ) → np ≢ j → get_elem? (set_accumulator np ps) j ≡ get_elem? ps j)
  unfolding set_accumulator
  set_accumulator_lem = (
    (
      given,
      get_elem?-modify_self (λ q. record q { accumulator = given }) raised np
          (get_elem?-modify_self (λ q. record q { accumulator = int_max }) ps np here),
      IsFloor-given,
    ),
    λ j ne.
        get_elem?-modify_ne (λ q. record q { accumulator = given }) raised np j ne
        ∙ get_elem?-modify_ne (λ q. record q { accumulator = int_max }) ps np j ne,
  )
