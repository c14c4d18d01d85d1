-- ===== src/Proc/Sleep/Kill.antt =====
-- Whom `kill` of kernel/proc.c marks, and when it fails.
use assignment.Common.{
  ℕ, zero, suc, ◌<◌, ◌==◌, ◌≡◌, ◌≢◌, ◌⊎◌, inl, inr, refl, ap, sym, ◌∙◌, subst, false, some, [], ◌∷◌,
  if◌then◌else◌, get_elem?, Bool-cases, arith,
}
use assignment.Common.Int.{pos, negsuc, ◌+ℤ◌, to_long}
use assignment.Proc.Types.{
  Proc, Table, ProcState, unused, used, sleeping, runnable, running, zombie, is_sleeping,
}
use assignment.Proc.Sleep.{kill, kill_entry}

-- No entry of the table has the pid.
abbrev pub NoPid : ℕ → Table → Type 0
NoPid pid ps = (j : ℕ) (p : Proc) → get_elem? ps j ≡ some p → p.pid ≢ pid

NoPid-cons : (pid : ℕ) (p : Proc) (ps : Table) → NoPid pid ps → p.pid ≢ pid → NoPid pid (p ∷ ps)
NoPid-cons pid p ps none' ne zero q e = subst (λ x. x.pid ≢ pid) (let at : p ≡ q = cc in at) ne
NoPid-cons pid p ps none' ne (suc j) q e = none' j q e

-- The entry q is p marked as killed. A sleeper is runnable besides, its accumulator raised by its
-- priority; of any other process nothing else has changed.
abbrev pub Marks : (p q : Proc) → Type 0
Marks p q =
    ((p.state ≡ sleeping)
      × (q ≡ record p {
        killed = 1;
        state = runnable;
        accumulator = to_long (p.accumulator +ℤ p.ps_priority);
      }))
    ⊎ ((p.state ≢ sleeping) × (q ≡ record p { killed = 1 }))

Marks-cases :
    (s : ProcState) (p : Proc)
    → p.state ≡ s
    → Marks p (
        if is_sleeping s
        then record p {
          killed = 1;
          state = runnable;
          accumulator = to_long (p.accumulator +ℤ p.ps_priority);
        }
        else record p { killed = 1 })
Marks-cases sleeping p e = inl (e, refl)
Marks-cases unused p e = inr (λ h. (let t = sym e ∙ h in cc), refl)
Marks-cases used p e = inr (λ h. (let t = sym e ∙ h in cc), refl)
Marks-cases runnable p e = inr (λ h. (let t = sym e ∙ h in cc), refl)
Marks-cases running p e = inr (λ h. (let t = sym e ∙ h in cc), refl)
Marks-cases zombie p e = inr (λ h. (let t = sym e ∙ h in cc), refl)

kill_entry-Marks : (p : Proc) → Marks p (kill_entry p)
kill_entry-Marks p = Marks-cases p.state p refl

-- `kill(pid)` marks the first process with the pid, sets `killed`, makes it runnable with its
-- accumulator raised by its priority if it sleeps, and changes nothing else of it; it returns 0 then
-- and changes no other entry. It returns -1 and changes nothing when no entry has the pid.
pub kill_lem :
    (pid : ℕ) (ps : Table)
    → let (ps', r) = kill pid ps in
      ((r ≡ negsuc 0) × (ps' ≡ ps) × NoPid pid ps)
      ⊎ ((r ≡ pos 0)
          × ((j : ℕ) × (p : Proc) × (get_elem? ps j ≡ some p)
              × (p.pid ≡ pid)
              × ((q : Proc) × (get_elem? ps' j ≡ some q) × Marks p q)
              × ((i : ℕ) → i ≢ j → get_elem? ps' i ≡ get_elem? ps i)
              × ((i : ℕ) (q : Proc) → i < j → get_elem? ps i ≡ some q → q.pid ≢ pid)))
unfolding kill
kill_lem pid [] = inl (refl, refl, λ j p e. absurd (cc))
kill_lem pid (p ∷ ps) = elim (Bool-cases (p.pid == pid)) [
  | inl hit ↦ rw hit (
      inr (
        refl,
        (
          0,
          p,
          refl,
          ground arith,
          (kill_entry p, refl, kill_entry-Marks p),
          others,
          λ i q h. absurd (omega arith),
        ),
      ))
  | inr miss ↦ rw miss (elim (kill_lem pid ps) [
    | inl (r, same, none') ↦ inl (r, ap (λ x. p ∷ x) same, NoPid-cons pid p ps none' (ground arith))
    | inr (r, (j, q, at, is, now, rest, first)) ↦
        inr (r, (suc j, q, at, is, now, below (kill pid ps).0 j rest, earlier j first miss))
  ])
]
  where
    same_head : (q : Proc) → get_elem? (p ∷ ps) 0 ≡ some q → p ≡ q
    same_head q e = cc

    others : (i : ℕ) → i ≢ 0 → get_elem? (kill_entry p ∷ ps) i ≡ get_elem? (p ∷ ps) i
    others zero ne = absurd (ne refl)
    others (suc i) ne = refl

    below :
        (ps' : Table) (j : ℕ)
        → ((i : ℕ) → i ≢ j → get_elem? ps' i ≡ get_elem? ps i)
        → (i : ℕ) → i ≢ suc j
        → get_elem? (p ∷ ps') i ≡ get_elem? (p ∷ ps) i
    below ps' j rest zero ne = refl
    below ps' j rest (suc i) ne = rest i (λ e. ne (ap suc e))

    earlier :
        (j : ℕ)
        → ((i : ℕ) (q : Proc) → i < j → get_elem? ps i ≡ some q → q.pid ≢ pid)
        → (p.pid == pid) ≡ false
        → (i : ℕ) (q : Proc) → i < suc j
        → get_elem? (p ∷ ps) i ≡ some q
        → q.pid ≢ pid
    earlier j first miss zero q h e = subst (λ x. x.pid ≢ pid) (same_head q e) (ground arith)
    earlier j first miss (suc i) q h e = first i q (omega arith) e
