-- ===== src/Syscall/Size.antt =====
-- `sys_sbrk` of kernel/sysproc.c against `sys_memsize`: the size of a process.
use assignment.Common.{
  ℕ, zero, suc, ◌+◌, ◌-◌, ◌/◌, ◌%◌, ◌^◌, ◌<◌, ◌≤◌, ◌≡◌, ◌⊎◌, inl, inr, ◌==◌, Bool, true, false, sym,
  refl, subst, Option, none, some, ltb, leb, if◌then◌else◌, Bool-cases, ℕ_discrete, arith,
}
use assignment.Kalloc.{Kmem, page_size, pg_round_up, kalloc, kfree}
use assignment.Vm.{mappages, uvmunmap}
use assignment.Vm.User.{uvmalloc, uvmdealloc, alloc_from, give_up, zeroed, user_perm}
use assignment.Syscall.{Caller, extended, pte_w, argraw, argint, growproc, sys_sbrk, sys_memsize}

-- A size that `uvmalloc` may return.
abbrev pub SizeIs : (P : ℕ → Type 0) → Option (ℕ × Kmem) → Type 0
SizeIs P none = Unit {0}
SizeIs P (some (sz, k)) = P sz

-- It is enough to look at each branch.
at_option :
    {A : Type 0} (P : ℕ → Type 0) (o : Option A) (f : A → Option (ℕ × Kmem))
    → ((a : A) → SizeIs P (f a))
    → SizeIs P (elim o [ none ↦ none | some a ↦ f a ])
at_option P none f h = tt
at_option P (some a) f h = h a

at_bool :
    (P : ℕ → Type 0) (b : Bool) (x y : Option (ℕ × Kmem))
    → SizeIs P x
    → SizeIs P y
    → SizeIs P (elim b [ true ↦ x | false ↦ y ])
at_bool P true x y h h' = h
at_bool P false x y h h' = h'

-- The size that a process of size sz asks for with an `int` of 32 bits; a shrink past 0 is ignored.
abbrev pub resized : (sz n : ℕ) → ℕ
resized sz n =
    if ltb n (2 ^ 31) then sz + n else if leb (2 ^ 32 - n) sz then sz - (2 ^ 32 - n) else sz

-- A call that returns has returned the old size and set the new one, or -1 and kept the old one.
abbrev pub Resizes : (n : ℕ) → Caller → Option (ℕ × Caller) → Type 0
Resizes n p none = Unit {0}
Resizes n p (some (r, p')) =
    ((r ≡ p.sz) × ((sys_memsize p').0 ≡ resized p.sz n))
    ⊎ ((r ≡ 2 ^ 64 - 1) × ((sys_memsize p').0 ≡ p.sz))

abbrev pub Grows : (n : ℕ) → Caller → Option (Bool × Caller) → Type 0
Grows n p none = Unit {0}
Grows n p (some (ok, p')) =
    ((ok ≡ true) × (p'.sz ≡ resized p.sz n)) ⊎ ((ok ≡ false) × (p'.sz ≡ p.sz))

module _ (end : ℕ) where
  give_up-SizeIs :
      (P : ℕ → Type 0) (pagetable a oldsz : ℕ) (k : Kmem)
      → P 0
      → SizeIs P (give_up end pagetable a oldsz k)
  unfolding give_up
  give_up-SizeIs P pagetable a oldsz k h =
      at_option P (uvmdealloc end pagetable a oldsz k) (λ r. some (0, r.1)) (λ r. h)

  alloc_from-SizeIs :
      (n pagetable a oldsz newsz xperm : ℕ) (k : Kmem)
      → SizeIs (λ sz. (sz ≡ newsz) ⊎ (sz ≡ 0)) (alloc_from end n pagetable a oldsz newsz xperm k)
  unfolding alloc_from
  alloc_from-SizeIs zero pagetable a oldsz newsz xperm k = inl refl
  alloc_from-SizeIs (suc n) pagetable a oldsz newsz xperm k =
      let P : ℕ → Type 0 = λ sz. (sz ≡ newsz) ⊎ (sz ≡ 0) in
      let page = (kalloc k).0 in
      let k₁ = (kalloc k).1 in
      let lost : (k' : Kmem) → SizeIs P (give_up end pagetable a oldsz k') =
        λ k'. give_up-SizeIs P pagetable a oldsz k' (inr refl) in
      at_bool P (ltb a newsz) _ _
        (at_bool P (page == 0) _ _ (lost k₁) (
          at_option P (mappages pagetable a page_size page (user_perm xperm) (zeroed page k₁)) _
            (λ r.
              at_bool P r.0 _ _
                (alloc_from-SizeIs n pagetable (a + page_size) oldsz newsz xperm r.1)
                (at_option P (kfree end page r.1) _ (λ k'. lost k')))))
        (inl refl)

  uvmalloc-SizeIs :
      (pagetable oldsz newsz xperm : ℕ) (k : Kmem)
      → oldsz ≤ newsz
      → SizeIs (λ sz. (sz ≡ newsz) ⊎ (sz ≡ 0)) (uvmalloc end pagetable oldsz newsz xperm k)
  unfolding uvmalloc
  uvmalloc-SizeIs pagetable oldsz newsz xperm k le =
      let up : ltb newsz oldsz ≡ false = ground arith in
      let from = pg_round_up end oldsz in
      rw (up, uvmalloc, SizeIs)
        (alloc_from-SizeIs (newsz / page_size + 1) pagetable from from newsz xperm k)

  uvmdealloc-SizeIs :
      (pagetable oldsz newsz : ℕ) (k : Kmem)
      → SizeIs
          (λ sz. sz ≡ (if leb oldsz newsz then oldsz else newsz))
          (uvmdealloc end pagetable oldsz newsz k)
  unfolding uvmdealloc
  uvmdealloc-SizeIs pagetable oldsz newsz k = elim (Bool-cases (leb oldsz newsz)) [
    | inl le ↦ rw (le, uvmdealloc, SizeIs) (rw le refl)
    | inr gt' ↦
        let P : ℕ → Type 0 = λ sz. sz ≡ (if leb oldsz newsz then oldsz else newsz) in
        let is : P newsz = rw gt' refl in
        rw (gt', uvmdealloc, SizeIs)
          (elim (Bool-cases (ltb (pg_round_up end newsz) (pg_round_up end oldsz))) [
            | inr same ↦ rw same is
            | inl less ↦ rw less (
                at_option P
                  (uvmunmap end pagetable (pg_round_up end newsz)
                    ((pg_round_up end oldsz - pg_round_up end newsz) / page_size) true k)
                  (λ k'. some (newsz, k')) (λ k'. is))
          ])
  ]

  -- The two ways out of `growproc`.
  grown :
      (n : ℕ) (p : Caller) (o : Option (ℕ × Kmem))
      → SizeIs (λ sz. (sz ≡ resized p.sz n) ⊎ (sz ≡ 0)) o
      → 0 < resized p.sz n
      → Grows n p (elim o [
        | none ↦ none
        | some (sz, k) ↦
            if sz == 0
            then some (false, record p { memory = k })
            else some (true, record p { sz = sz; memory = k })
      ])
  grown n p none h up = tt
  grown n p (some (sz, k)) h up = elim (ℕ_discrete sz 0) [
    | yes z ↦ let hit : (sz == 0) ≡ true = ground arith in rw hit (inr (refl, refl))
    | no nz ↦
        let miss : (sz == 0) ≡ false = ground arith in
        rw miss (inl (refl, elim h [ inl e ↦ e | inr z ↦ absurd (nz z) ]))
  ]

  shrunk :
      (n : ℕ) (p : Caller) (o : Option (ℕ × Kmem))
      → SizeIs (λ sz. sz ≡ resized p.sz n) o
      → Grows n p
          (elim o [ none ↦ none | some (sz, k) ↦ some (true, record p { sz = sz; memory = k }) ])
  shrunk n p none h = tt
  shrunk n p (some (sz, k)) h = inl (refl, h)

  growproc_up :
      (n : ℕ) (p : Caller)
      → (n == 0) ≡ false
      → ltb n (2 ^ 31) ≡ true
      → growproc end n p
        ≡ elim (uvmalloc end p.pagetable p.sz ((p.sz + extended n) % 2 ^ 64) pte_w p.memory) [
          | none ↦ none
          | some (sz, k) ↦
              if sz == 0
              then some (false, record p { memory = k })
              else some (true, record p { sz = sz; memory = k })
        ]
  unfolding growproc
  growproc_up n p miss up = rw (miss, up, growproc) refl

  growproc_down :
      (n : ℕ) (p : Caller)
      → (n == 0) ≡ false
      → ltb n (2 ^ 31) ≡ false
      → growproc end n p
        ≡ elim (uvmdealloc end p.pagetable p.sz ((p.sz + extended n) % 2 ^ 64) p.memory) [
          | none ↦ none
          | some (sz, k) ↦ some (true, record p { sz = sz; memory = k })
        ]
  unfolding growproc
  growproc_down n p miss down = rw (miss, down, growproc) refl

  growproc-Grows : (n : ℕ) (p : Caller) → n < 2 ^ 32 → p.sz < 2 ^ 63 → Grows n p (growproc end n p)
  unfolding growproc
  growproc-Grows n p lt small = elim (ℕ_discrete n 0) [
    | yes z ↦
        let hit : (n == 0) ≡ true = ground arith in
        let same : p.sz ≡ resized p.sz n = ground arith in
        rw (hit, growproc, Grows) (inl (refl, same))
    | no nz ↦
        let miss : (n == 0) ≡ false = ground arith in
        elim (Bool-cases (ltb n (2 ^ 31))) [
          | inl up ↦
              let sz' = (p.sz + extended n) % 2 ^ 64 in
              let is : sz' ≡ resized p.sz n = ground arith in
              let h =
                subst
                  (λ x.
                    SizeIs (λ sz. (sz ≡ x) ⊎ (sz ≡ 0))
                      (uvmalloc end p.pagetable p.sz sz' pte_w p.memory))
                  is (uvmalloc-SizeIs p.pagetable p.sz sz' pte_w p.memory (ground arith)) in
              subst (Grows n p) (sym (growproc_up n p miss up))
                (grown n p (uvmalloc end p.pagetable p.sz sz' pte_w p.memory) h (ground arith))
          | inr down ↦
              let sz' = (p.sz + extended n) % 2 ^ 64 in
              let is : (if leb p.sz sz' then p.sz else sz') ≡ resized p.sz n = ground arith in
              let h =
                subst (λ x. SizeIs (λ sz. sz ≡ x) (uvmdealloc end p.pagetable p.sz sz' p.memory)) is
                  (uvmdealloc-SizeIs p.pagetable p.sz sz' p.memory) in
              subst (Grows n p) (sym (growproc_down n p miss down))
                (shrunk n p (uvmdealloc end p.pagetable p.sz sz' p.memory) h)
        ]
  ]

  returned :
      (n : ℕ) (p : Caller) (o : Option (Bool × Caller))
      → Grows n p o
      → Resizes n p
          (elim o [ none ↦ none | some (ok, p') ↦ some (if ok then p.sz else 2 ^ 64 - 1, p') ])
  unfolding sys_memsize
  returned n p none h = tt
  returned n p (some (ok, p')) h = elim h [
    | inl (e, sz) ↦ rw e (inl (refl, sz))
    | inr (e, sz) ↦ rw e (inr (refl, sz))
  ]

  -- `sys_sbrk` of a process smaller than 2 ^ 63 bytes. Where it returns, it has returned the old size and
  -- `sys_memsize` then gives the old size and the argument's sum, which is the old size again for an
  -- argument below its negative; or -1, and the size is the old one.
  pub sys_sbrk-Resizes :
      (p : Caller) → p.sz < 2 ^ 63 → Resizes (p.trapframe.a0 % 2 ^ 32) p (sys_sbrk end p)
  unfolding sys_sbrk argint argraw
  sys_sbrk-Resizes p small =
      let n = p.trapframe.a0 % 2 ^ 32 in
      returned n p (growproc end n p) (growproc-Grows n p (omega arith) small)
