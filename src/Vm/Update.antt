-- ===== src/Vm/Update.antt =====
-- What a run of `mappages` of kernel/vm.c leaves of an address space, page by page.
use assignment.Common.{
  ℕ, suc, ◌+◌, ◌-◌, ◌*◌, ◌/◌, ◌%◌, ◌<◌, ◌≤◌, ◌≡◌, ◌⊎◌, inl, inr, ◌==◌, Bool, true, false, ◌∙◌, ap,
  refl, subst, Option, none, some, List, [], ltb, within, if◌then◌else◌, Bool-cases, ℕ_discrete,
  arith,
}
use assignment.Kalloc.{Kmem, page_size}
use assignment.Vm.{is_valid, make_pte, maxva}
use assignment.Vm.Tree.{Owner}
use assignment.Vm.Space.{view, IsSpace}

-- The entries of a range of c pages from a on, mapped to the frames from pa on.
abbrev pub map_range : (a c pa perm : ℕ) → (ℕ → ℕ) → ℕ → ℕ
map_range a c pa perm v w =
    if within a (a + c * page_size) w
    then make_pte (pa + (w / page_size * page_size - a)) perm
    else v w

-- A page mapped before a range is the range of one page more.
map_range-suc :
    (a c pa perm : ℕ) (v : ℕ → ℕ) (w : ℕ)
    → a % page_size ≡ 0
    → map_range
        (a + page_size)
        c
        (pa + page_size)
        perm
        (λ x. if x / 4096 == a / 4096 then make_pte pa perm else v x)
        w
      ≡ map_range a (suc c) pa perm v w
map_range-suc a c pa perm v w al = elim (ℕ_discrete (w / 4096) (a / 4096)) [
  | yes e ↦
      let hit : (w / 4096 == a / 4096) ≡ true = ground arith in
      let out : within (a + page_size) (a + page_size + c * page_size) w ≡ false = ground arith in
      let in' : within a (a + suc c * page_size) w ≡ true = ground arith in
      let ep : pa ≡ pa + (w / page_size * page_size - a) = omega arith in
      rw (hit, out, in') (ap (λ x. make_pte x perm) ep)
  | no ne ↦
      let miss : (w / 4096 == a / 4096) ≡ false = ground arith in
      elim (Bool-cases (within (a + page_size) (a + page_size + c * page_size) w)) [
        | inl in' ↦
            let in₂ : within a (a + suc c * page_size) w ≡ true = ground arith in
            let ep : pa + page_size + (w / page_size * page_size - (a + page_size))
                ≡ pa + (w / page_size * page_size - a) =
              ground arith in
            rw (in', in₂) (ap (λ x. make_pte x perm) ep)
        | inr out ↦
            let out₂ : within a (a + suc c * page_size) w ≡ false = ground arith in
            rw (miss, out, out₂) refl
      ]
]

-- What a run of `mappages` over the pages a, ..., a + m * 4096 leaves. With 0 all of them are mapped;
-- with -1 the first c of them, and no page is free.
pub record Maps (end root a m pa perm : ℕ) (k : Kmem) (ok : Bool) (k' : Kmem) : Type 0 where
  pub own' : Owner
  pub xs' : List ℕ
  pub space : IsSpace end root own' xs' k'
  pub count : ℕ
  pub count_le : count ≤ suc m
  pub full : ok ≡ true → count ≡ suc m
  pub short : ok ≡ false → xs' ≡ []
  pub mapped : (w : ℕ) → w < maxva → view root k' w ≡ map_range a count pa perm (view root k) w

-- A panic has a page past MAXVA or one that is mapped already.
abbrev pub MapsOrPanics : (end root a m pa perm : ℕ) → Kmem → Option (Bool × Kmem) → Type 0
MapsOrPanics end root a m pa perm k none =
    (j : ℕ) × (j ≤ m)
    × ((maxva ≤ a + j * page_size) ⊎ (is_valid (view root k (a + j * page_size)) ≡ true))
MapsOrPanics end root a m pa perm k (some (ok, k')) = Maps end root a m pa perm k ok k'

module _ (end root : ℕ) where
  -- Where `mappages` stops before its first page: no page was free.
  pub stopped :
      (a m pa perm : ℕ) (own : Owner) (k k' : Kmem)
      → IsSpace end root own [] k'
      → ((w : ℕ) → w < maxva → view root k' w ≡ view root k w)
      → Maps end root a m pa perm k false k'
  stopped a m pa perm own k k' s same = record {
    own' = own;
    xs' = [];
    space = s;
    count = 0;
    count_le = omega arith;
    full = λ e. absurd (cc);
    short = λ e. refl;
    mapped = λ w lt.
        (let out : within a (a + 0 * page_size) w ≡ false = ground arith in rw out (same w lt));
  }

  -- What is said of the pages after the first, in the memory that the first left.
  pub further :
      (a m pa perm : ℕ) (k k₁ : Kmem)
      → a % page_size ≡ 0
      → ((w : ℕ)
          → w < maxva
          → view root k₁ w ≡ (if w / 4096 == a / 4096 then make_pte pa perm else view root k w))
      → (r : Option (Bool × Kmem))
      → MapsOrPanics end root (a + page_size) m (pa + page_size) perm k₁ r
      → MapsOrPanics end root a (suc m) pa perm k r
  further a m pa perm k k₁ al one none (j, le, why) =
      elim (Bool-cases (ltb (a + suc j * page_size) maxva)) [
        | inr far ↦ (suc j, omega arith, inl (ground arith))
        | inl near ↦
            let w = a + page_size + j * page_size in
            let ew : w ≡ a + suc j * page_size = omega arith in
            let miss : (w / 4096 == a / 4096) ≡ false = ground arith in
            elim why [
              | inl far ↦ (suc j, omega arith, inl (omega arith))
              | inr ok ↦
                  let e : view root k₁ w ≡ view root k w = one w (ground arith) ∙ (rw miss refl) in
                  (
                    suc j,
                    omega arith,
                    inr (
                        subst (λ x. is_valid (view root k x) ≡ true) ew
                          (subst (λ x. is_valid x ≡ true) e ok)),
                  )
            ]
      ]
  further a m pa perm k k₁ al one (some (ok, k')) r = record {
    own' = r.own';
    xs' = r.xs';
    space = r.space;
    count = suc r.count;
    count_le = let le = r.count_le in omega arith;
    full = λ e. ap suc (r.full e);
    short = r.short;
    mapped = λ w lt.
        r.mapped w lt
        ∙ ap
            (λ x.
              if within (a + page_size) (a + page_size + r.count * page_size) w
              then make_pte (pa + page_size + (w / page_size * page_size - (a + page_size))) perm
              else x)
            (one w lt)
        ∙ map_range-suc a r.count pa perm (view root k) w al;
  }

  -- A run of one page.
  pub single :
      (a pa perm : ℕ) (own : Owner) (xs : List ℕ) (k k₁ : Kmem)
      → a % page_size ≡ 0
      → IsSpace end root own xs k₁
      → ((w : ℕ)
          → w < maxva
          → view root k₁ w ≡ (if w / 4096 == a / 4096 then make_pte pa perm else view root k w))
      → Maps end root a 0 pa perm k true k₁
  single a pa perm own xs k k₁ al s one = record {
    own' = own;
    xs' = xs;
    space = s;
    count = 1;
    count_le = omega arith;
    full = λ e. refl;
    short = λ e. absurd (cc);
    mapped = λ w lt.
        one w lt
        ∙ (let z : within (a + page_size) (a + page_size + 0 * page_size) w ≡ false =
              ground arith in
            (rw z refl) ∙ map_range-suc a 0 pa perm (view root k) w al);
  }
