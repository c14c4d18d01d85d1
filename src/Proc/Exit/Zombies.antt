-- ===== src/Proc/Exit/Zombies.antt =====
-- What happens to a process that has exited: no operation of kernel/proc.c ever frees its entry.
use assignment.Common.{
  ℕ, zero, suc, ◌+◌, ◌==◌, ◌≡◌, ◌≢◌, inl, inr, ◌∙◌, refl, sym, ap, subst, Bool, true, false, not,
  ◌&&◌, Option, none, some, [], ◌∷◌, length, get_elem?, Bool-cases, Option-cases, ℕ_discrete, arith,
}
use assignment.Common.Int.{ℤ}
use assignment.Str.{Bytes}
use assignment.Proc.Types.{
  Proc, Table, is_unused, is_zombie, modify, get_elem?-modify_self, get_elem?-modify_ne,
}
use assignment.Proc.Sched.{set_accumulator}
use assignment.Proc.Sched.Dispatch.{set_accumulator_lem}
use assignment.Proc.Sleep.{sleeps_on, wakeup, kill}
use assignment.Proc.Sleep.Wake.{wakeup_lem}
use assignment.Proc.Sleep.Kill.{Marks, kill_lem}
use assignment.Proc.Life.{
  Kernel, change, find_unused, freeproc, cleared, allocproc, copy_process, fork_into, fork,
}
use assignment.Proc.Exit.{
  reparent_entry, reparent_from, reparent, leave_files, wake_parent, become_zombie, exited, exit,
}

-- The entry at index i is a zombie.
abbrev pub ZombieAt : Table → ℕ → Type 0
ZombieAt ps i = (p : Proc) × (get_elem? ps i ≡ some p) × (is_zombie p.state ≡ true)

-- A change of one entry keeps the zombies, if it keeps that entry a zombie.
pub modify_keeps :
    (i : ℕ) (f : Proc → Proc) (ps : Table) (j : ℕ)
    → ((p : Proc)
        → get_elem? ps i ≡ some p
        → is_zombie p.state ≡ true
        → is_zombie (f p).state ≡ true)
    → ZombieAt ps j
    → ZombieAt (modify i f ps) j
modify_keeps i f ps j keep (p, e, z) = elim (ℕ_discrete i j) [
  | yes at ↦ subst (ZombieAt (modify i f ps)) at (
      let e' : get_elem? ps i ≡ some p = ap (get_elem? ps) at ∙ e in
      (f p, get_elem?-modify_self f ps i e', keep p e' z))
  | no ne ↦ (p, get_elem?-modify_ne f ps i j ne ∙ e, z)
]

pub wakeup_keeps :
    (me chan : ℕ) (ps : Table) (j : ℕ) → ZombieAt ps j → ZombieAt (wakeup me chan ps) j
wakeup_keeps me chan ps j (p, e, z) =
    let (a, now) = wakeup_lem me chan ps j p e in
    let awake : (not (j == me) && sleeps_on chan p) ≡ false = ground arith in (p, now ∙ rw awake, z)

set_accumulator_keeps :
    (np : ℕ) (ps : Table) (q : Proc)
    → get_elem? ps np ≡ some q
    → (j : ℕ) → np ≢ j
    → ZombieAt ps j
    → ZombieAt (set_accumulator np ps) j
set_accumulator_keeps np ps q e j ne (p, at, z) =
    (p, (set_accumulator_lem np ps q e).1 j ne ∙ at, z)

pub kill_keeps : (pid : ℕ) (ps : Table) (j : ℕ) → ZombieAt ps j → ZombieAt (kill pid ps).0 j
kill_keeps pid ps j (p, e, z) = elim (kill_lem pid ps) [
  | inl (r, same, _) ↦ subst (λ ps'. ZombieAt ps' j) (sym same) (p, e, z)
  | inr (r, (i, q, at, is, (q', now, marks), rest, first)) ↦ elim (ℕ_discrete j i) [
    | yes here ↦
        subst (ZombieAt (kill pid ps).0) (sym here)
          (q', now, stays q q' p marks (sym at ∙ ap (get_elem? ps) (sym here) ∙ e) z)
    | no ne ↦ (p, rest j ne ∙ e, z)
  ]
]
  where
    stays :
        (q q' p : Proc)
        → Marks q q'
        → some q ≡ some p
        → is_zombie p.state ≡ true
        → is_zombie q'.state ≡ true
    stays q q' p marks same z' =
        let z'' : is_zombie q.state ≡ true = ground arith in
        elim marks [
          | inl (asleep, e) ↦ absurd (let f = sym (ap is_zombie asleep) ∙ z'' in cc)
          | inr (awake, e) ↦ ap (λ x. is_zombie x.state) e ∙ z''
        ]

reparent_entry_keeps :
    (me i : ℕ) (k : Kernel) (j : ℕ) → ZombieAt k.procs j → ZombieAt (reparent_entry me i k).procs j
unfolding reparent_entry
reparent_entry_keeps me i k j z = elim (Option-cases (get_elem? k.procs i)) [
  | inl e ↦ rw (e, reparent_entry) z
  | inr (pp, e) ↦ elim (Bool-cases (assignment.Proc.Life.same_index pp.parent me)) [
    | inl yes' ↦
        rw (e, yes', reparent_entry)
          (wakeup_keeps me _ _ j (modify_keeps i _ k.procs j (λ p _ z'. z') z))
    | inr no' ↦ rw (e, no', reparent_entry) z
  ]
]

reparent_from_keeps :
    (r me i : ℕ) (k : Kernel) (j : ℕ)
    → ZombieAt k.procs j
    → ZombieAt (reparent_from r me i k).procs j
unfolding reparent_from
reparent_from_keeps zero me i k j z = z
reparent_from_keeps (suc r) me i k j z =
    reparent_from_keeps r me (i + 1) (reparent_entry me i k) j (reparent_entry_keeps me i k j z)

find_unused_lem :
    (ps : Table) (i r : ℕ)
    → find_unused ps i ≡ some r
    → (j : ℕ) × (r ≡ i + j) × (q : Proc) × (get_elem? ps j ≡ some q) × (is_unused q.state ≡ true)
unfolding find_unused
find_unused_lem [] i r e = absurd (cc)
find_unused_lem (p ∷ ps) i r e = elim (Bool-cases (is_unused p.state)) [
  | inl yes' ↦ (0, ground arith, p, refl, yes')
  | inr no' ↦
      let (j, at, q, here, free) = find_unused_lem ps (i + 1) r (ground arith) in
      (suc j, omega arith, q, here, free)
]

elsewhere :
    (i : ℕ) (f : Proc → Proc) (ps : Table) (j : ℕ)
    → i ≢ j
    → ZombieAt ps j
    → ZombieAt (modify i f ps) j
elsewhere i f ps j ne (p, e, z) = (p, get_elem?-modify_ne f ps i j ne ∙ e, z)

freeproc_keeps :
    (i : ℕ) (k : Kernel) (j : ℕ) → i ≢ j → ZombieAt k.procs j → ZombieAt (freeproc i k).procs j
unfolding freeproc
freeproc_keeps i k j ne z = elim (Option-cases (get_elem? k.procs i)) [
  | inl e ↦ rw (e, freeproc) z
  | inr (p, e) ↦ rw (e, freeproc) (elsewhere i cleared k.procs j ne z)
]

reparent_keeps :
    (me : ℕ) (k : Kernel) (j : ℕ) → ZombieAt k.procs j → ZombieAt (reparent me k).procs j
unfolding reparent
reparent_keeps me k j z = reparent_from_keeps (length k.procs) me 0 k j z

fork_into_keeps :
    (me np : ℕ) (p : Proc) (copied : Bool) (k : Kernel) (j : ℕ)
    → np ≢ j
    → ZombieAt k.procs j
    → ZombieAt (fork_into me np p copied k).1.procs j
unfolding fork_into copy_process
fork_into_keeps me np p copied k j ne z = elim (Option-cases (get_elem? k.procs np)) [
  | inl e ↦ rw (e, fork_into) z
  | inr (q, e) ↦ by_copy copied q e
]
  where
    by_copy :
        (copied : Bool) (q : Proc)
        → get_elem? k.procs np ≡ some q
        → ZombieAt (fork_into me np p copied k).1.procs j
    by_copy false q e = rw (e, fork_into) (freeproc_keeps np k j ne z)
    by_copy true q e =
        rw (e, fork_into, copy_process)
          (elsewhere np _ _ j ne (
            set_accumulator_keeps np _ _ (get_elem?-modify_self _ k.procs np e) j ne
              (elsewhere np _ k.procs j ne z)))

exit_body_keeps :
    (me : ℕ) (status : ℤ) (p : Proc) (m : Bytes) (k : Kernel) (j : ℕ)
    → ZombieAt k.procs j
    → ZombieAt
        (become_zombie me status m (wake_parent me (reparent me (leave_files me p k)))).procs
        j
unfolding leave_files wake_parent become_zombie
exit_body_keeps me status p m k j z =
    modify_keeps me _ _ j (λ q _ _. refl)
      (wakeup_keeps me _ _ j
        (reparent_keeps me (leave_files me p k) j (modify_keeps me _ k.procs j (λ q _ d. d) z)))

module _ (k : Kernel) (j : ℕ) (z : ZombieAt k.procs j) where
  unused_ne : (i : ℕ) → find_unused k.procs 0 ≡ some i → i ≢ j
  unused_ne i e at =
      let (j', here, q, e', free) = find_unused_lem k.procs 0 i e in
      let same : some q ≡ some z.0 =
        sym e' ∙ ap (get_elem? k.procs) (let x : j' ≡ j = omega (arith, at) in x) ∙ z.1 in
      not_both q z.0 same free z.2
    where
      not_both :
          (q p : Proc) → some q ≡ some p → is_unused q.state ≡ true → is_zombie p.state ≡ true → ⊥
      not_both q p same free dead = ground arith

  allocproc_keeps :
      (frame table : Option ℕ)
      → ZombieAt (allocproc frame table k).1.procs j
        × ((np : ℕ) → (allocproc frame table k).0 ≡ some np → np ≢ j)
  unfolding allocproc
  allocproc_keeps frame table = elim (Option-cases (find_unused k.procs 0)) [
    | inl e ↦ rw (e, allocproc) (z, λ np x. absurd (cc))
    | inr (i, e) ↦ found frame table i e
  ]
    where
      found :
          (frame table : Option ℕ) (i : ℕ)
          → find_unused k.procs 0 ≡ some i
          → ZombieAt (allocproc frame table k).1.procs j
            × ((np : ℕ) → (allocproc frame table k).0 ≡ some np → np ≢ j)
      found none table i e =
          rw (e, allocproc)
            (
              freeproc_keeps i _ j (unused_ne i e)
                  (elsewhere i _ _ j (unused_ne i e) (elsewhere i _ _ j (unused_ne i e) z)),
              λ np x. absurd (cc),
            )
      found (some f) none i e =
          rw (e, allocproc)
            (
              freeproc_keeps i _ j (unused_ne i e)
                  (elsewhere i _ _ j (unused_ne i e) (elsewhere i _ _ j (unused_ne i e) z)),
              λ np x. absurd (cc),
            )
      found (some f) (some t) i e =
          rw (e, allocproc)
            (
              elsewhere i _ _ j (unused_ne i e) (elsewhere i _ _ j (unused_ne i e) z),
              λ np x. let at : i ≡ np = cc in λ y. unused_ne i e (at ∙ y),
            )

  pub fork_keeps :
      (me : ℕ) (frame table : Option ℕ) (copied : Bool)
      → ZombieAt (fork me frame table copied k).1.procs j
  unfolding fork
  fork_keeps me frame table copied = elim (Option-cases (get_elem? k.procs me)) [
    | inl e ↦ rw (e, fork) z
    | inr (p, e) ↦ elim (Option-cases (allocproc frame table k).0) [
      | inl e' ↦ rw (e, e', fork) (allocproc_keeps frame table).0
      | inr (np, e') ↦
          rw (e, e', fork)
            (fork_into_keeps me np p copied (allocproc frame table k).1 j
              ((allocproc_keeps frame table).1 np e') (allocproc_keeps frame table).0)
    ]
  ]

  exit_done :
      (me : ℕ) (status : ℤ) (msg : Option Bytes) (p : Proc) (m : Bytes) (k' : Kernel)
      → (me == k.initproc) ≡ false
      → get_elem? k.procs me ≡ some p
      → msg ≡ some m
      → exit me status msg k ≡ exited k'
      → become_zombie me status m (wake_parent me (reparent me (leave_files me p k))) ≡ k'
  unfolding exit
  exit_done me status msg p m k' other at given e =
      let done : exit me status msg k
          ≡ exited (become_zombie me status m (wake_parent me (reparent me (leave_files me p k)))) =
        rw (other, at, given, exit) in
      cc

  pub exit_keeps :
      (me : ℕ) (status : ℤ) (msg : Option Bytes) (k' : Kernel)
      → exit me status msg k ≡ exited k'
      → ZombieAt k'.procs j
  unfolding exit
  exit_keeps me status msg k' e = elim (Bool-cases (me == k.initproc)) [
    | inl init ↦ absurd (ground arith)
    | inr other ↦ elim (Option-cases (get_elem? k.procs me)) [
      | inl none' ↦ absurd (ground arith)
      | inr (p, at) ↦ elim (Option-cases msg) [
        | inl null ↦ absurd (ground arith)
        | inr (m, given) ↦
            subst (λ x. ZombieAt x.procs j) (exit_done me status msg p m k' other at given e)
              (exit_body_keeps me status p m k j z)
      ]
    ]
  ]
