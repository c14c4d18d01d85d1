-- ===== src/Sleeplock/Progress.antt =====
-- kernel/sleeplock.c: one owner at a time, no wake-up is lost, and who waits can get the lock.
use assignment.Common.{
  ℕ, ◌==◌, ◌≡◌, ◌≢◌, ◌⊎◌, inl, inr, true, false, ◌∙◌, ap, sym, refl, subst, if◌then◌else◌, update,
  update_self, update_ne, Bool-cases, ℕ_discrete, arith,
}
use assignment.Sleeplock.{
  Phase, outside, trying, asleep, owner, SleepLock, initsleeplock, acquiresleep_turn, woken,
  releasesleep, holdingsleep, Step, call, turn, release, wake, Steps, none, more,
}

-- A lock that is taken names its owner, which is the only one, and only a taken lock has sleepers.
pub record IsLock (s : SleepLock) : Type 0 where
  pub owned : s.locked ≡ true → s.phase s.pid ≡ owner
  pub alone : (p : ℕ) → s.phase p ≡ owner → (s.locked ≡ true) × (s.pid ≡ p)
  pub awaited : (p : ℕ) → s.phase p ≡ asleep → s.locked ≡ true

-- A change of one process to a phase that has no say in the lock.
moved-IsLock :
    (s : SleepLock) (p : ℕ) (f : Phase)
    → s.phase p ≢ owner
    → f ≢ owner
    → (f ≡ asleep → s.locked ≡ true)
    → IsLock s
    → IsLock (record s { phase = update s.phase p f })
moved-IsLock s p f was is sleeps l = record {
  owned = λ e. elim (ℕ_discrete p s.pid) [
    | yes h ↦ absurd (was (ap s.phase h ∙ l.owned e))
    | no ne ↦ update_ne s.phase p s.pid f ne ∙ l.owned e
  ];
  alone = λ q e. elim (ℕ_discrete p q) [
    | yes h ↦ absurd (is (sym (update_self s.phase p f) ∙ ap (update s.phase p f) h ∙ e))
    | no ne ↦ l.alone q (sym (update_ne s.phase p q f ne) ∙ e)
  ];
  awaited = λ q e. elim (ℕ_discrete p q) [
    | yes h ↦ sleeps (sym (update_self s.phase p f) ∙ ap (update s.phase p f) h ∙ e)
    | no ne ↦ l.awaited q (sym (update_ne s.phase p q f ne) ∙ e)
  ];
}

not_owner : {f g : Phase} → f ≡ g → g ≢ owner → f ≢ owner
not_owner e ne h = ne (sym e ∙ h)

woken-owner : (f : Phase) → woken f ≡ owner → f ≡ owner
woken-owner outside e = e
woken-owner trying e = e
woken-owner asleep e = absurd (cc)
woken-owner owner e = e

woken-asleep : (f : Phase) → woken f ≢ asleep
woken-asleep outside e = cc
woken-asleep trying e = cc
woken-asleep asleep e = cc
woken-asleep owner e = cc

turn-IsLock :
    (s : SleepLock) (p : ℕ) → s.phase p ≡ trying → IsLock s → IsLock (acquiresleep_turn p s)
unfolding acquiresleep_turn
turn-IsLock s p e l = elim (Bool-cases s.locked) [
  | inl taken ↦
      subst
        (λ b. IsLock (
          if b
          then record s { phase = update s.phase p asleep }
          else record { locked = true; pid = p; phase = update s.phase p owner }))
        (sym taken) (moved-IsLock s p asleep (not_owner e (cc)) (cc) (λ h. taken) l)
  | inr free ↦
      subst
        (λ b. IsLock (
          if b
          then record s { phase = update s.phase p asleep }
          else record { locked = true; pid = p; phase = update s.phase p owner }))
        (sym free)
        (record {
          owned = λ h. update_self s.phase p owner;
          alone = λ q h. (
            refl,
            elim (ℕ_discrete p q) [
              | yes eq ↦ eq
              | no ne ↦
                  let a = l.alone q (sym (update_ne s.phase p q owner ne) ∙ h) in
                  absurd (let t = a.0 in cc)
            ],
          );
          awaited = λ q h. refl;
        })
]

release-IsLock : (s : SleepLock) (p : ℕ) → s.phase p ≡ owner → IsLock s → IsLock (releasesleep p s)
unfolding releasesleep
release-IsLock s p e l = record {
  owned = λ h. absurd (cc);
  alone = λ q h.
      (let was : update s.phase p outside q ≡ owner = woken-owner (update s.phase p outside q) h in
        elim (ℕ_discrete p q) [
          | yes eq ↦
              (let o : outside ≡ owner =
                  sym (update_self s.phase p outside) ∙ ap (update s.phase p outside) eq ∙ was in
                absurd (cc))
          | no ne ↦
              let a = l.alone q (sym (update_ne s.phase p q outside ne) ∙ was) in
              let b = l.alone p e in absurd (ne (sym b.1 ∙ a.1))
        ]);
  awaited = λ q h. absurd (woken-asleep (update s.phase p outside q) h);
}

Step-IsLock : {s t : SleepLock} → Step s t → IsLock s → IsLock t
Step-IsLock {s} (call p e) l = moved-IsLock s p trying (not_owner e (cc)) (cc) (λ h. absurd (cc)) l
Step-IsLock {s} (turn p e) l = turn-IsLock s p e l
Step-IsLock {s} (release p e) l = release-IsLock s p e l
Step-IsLock {s} (wake p e) l = moved-IsLock s p trying (not_owner e (cc)) (cc) (λ h. absurd (cc)) l

-- From a new lock, with every process outside, any steps keep it that a taken lock names its one owner
-- and that nobody sleeps on a free lock.
pub Steps-IsLock : {s t : SleepLock} → Steps s t → IsLock s → IsLock t
Steps-IsLock none l = l
Steps-IsLock (more a b) l = Steps-IsLock b (Step-IsLock a l)

pub initsleeplock-IsLock : IsLock (initsleeplock (λ _. outside))
unfolding initsleeplock
initsleeplock-IsLock = record {
  owned = λ h. absurd (cc);
  alone = λ q h. absurd (cc);
  awaited = λ q h. absurd (cc);
}

-- In every state that can be reached, `holdingsleep` tells the owner from all others.
pub holdingsleep_iff :
    {t : SleepLock}
    → Steps (initsleeplock (λ _. outside)) t
    → (p : ℕ)
    → ((holdingsleep p t ≡ true) → (t.phase p ≡ owner))
      × ((t.phase p ≡ owner) → (holdingsleep p t ≡ true))
unfolding holdingsleep
holdingsleep_iff {t} steps p =
    let l = Steps-IsLock steps initsleeplock-IsLock in
    (
      λ h.
          (let locked : t.locked ≡ true = ground arith in
            let e : t.pid ≡ p = ground arith in subst (λ q. t.phase q ≡ owner) e (l.owned locked)),
      λ h.
          (let a = l.alone p h in
            let e = a.0 in
            let same : (t.pid == p) ≡ true = (let e' = a.1 in ground arith) in rw (e, same) refl),
    )

-- A process at the test takes a lock that is free.
free_turn : (s : SleepLock) (p : ℕ) → s.locked ≡ false → (acquiresleep_turn p s).phase p ≡ owner
unfolding acquiresleep_turn
free_turn s p e =
    subst
      (λ b.
        (if b
            then record s { phase = update s.phase p asleep }
            else record { locked = true; pid = p; phase = update s.phase p owner }).phase
          p
        ≡ owner)
      (sym e) (update_self s.phase p owner)

-- A process that waits.
abbrev pub Waits : Phase → Type 0
Waits f = (f ≡ trying) ⊎ (f ≡ asleep)

released :
    (s : SleepLock) (p q : ℕ) → q ≢ p → Waits (s.phase p) → (releasesleep q s).phase p ≡ trying
unfolding releasesleep
released s p q ne w =
    ap woken (update_ne s.phase q p outside ne) ∙ elim w [ inl e ↦ ap woken e | inr e ↦ ap woken e ]

-- What a process p that waits needs. At a free lock it is not asleep, and its own turn gives it the
-- lock. Else the lock names an owner, and the owner's release puts p to the test, asleep or not, so
-- that its own next turn gives it the lock.
abbrev pub Served : ℕ → SleepLock → Type 0
Served p s =
    ((s.locked ≡ false)
      × (s.phase p ≡ trying)
      × ((acquiresleep_turn p s).phase p ≡ owner)
      × (holdingsleep p (acquiresleep_turn p s) ≡ true))
    ⊎ ((s.locked ≡ true)
        × (s.phase s.pid ≡ owner)
        × ((releasesleep s.pid s).phase p ≡ trying)
        × ((acquiresleep_turn p (releasesleep s.pid s)).phase p ≡ owner)
        × (holdingsleep p (acquiresleep_turn p (releasesleep s.pid s)) ≡ true))

free_holds :
    (s : SleepLock) (p : ℕ) → s.locked ≡ false → holdingsleep p (acquiresleep_turn p s) ≡ true
unfolding acquiresleep_turn holdingsleep
free_holds s p e = ground arith

-- In every state that a new sleep lock can get to by its calls and by any wake-ups of sleepers, no
-- wake-up is lost to a process p that waits. If the lock is free, p is not asleep, and its own turn
-- gives it the lock. If it is taken, the release by its owner alone, with no other wake-up, puts p
-- back to the test of the loop, and its own turn after that gives it the lock.
pub Steps-Served :
    {s : SleepLock}
    → Steps (initsleeplock (λ _. outside)) s
    → (p : ℕ) → Waits (s.phase p)
    → Served p s
unfolding releasesleep
Steps-Served {s} steps p w =
    let l = Steps-IsLock steps initsleeplock-IsLock in
    elim (Bool-cases s.locked) [
      | inr free ↦ elim w [
        | inl e ↦ inl (free, e, free_turn s p free, free_holds s p free)
        | inr e ↦ absurd (let t = l.awaited p e in cc)
      ]
      | inl taken ↦
          let q = s.pid in
          let own = l.owned taken in
          let ne : q ≢ p = λ h. elim w [
            | inl e ↦ absurd (let o = sym own ∙ ap s.phase h ∙ e in cc)
            | inr e ↦ absurd (let o = sym own ∙ ap s.phase h ∙ e in cc)
          ] in
          let s' = releasesleep q s in
          inr (taken, own, released s p q ne w, free_turn s' p refl, free_holds s' p refl)
    ]
