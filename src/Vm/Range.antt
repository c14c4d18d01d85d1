-- ===== src/Vm/Range.antt =====
-- `mappages` of kernel/vm.c as an update of a range of the map.
use assignment.Common.{
  ℕ, zero, suc, ◌+◌, ◌-◌, ◌*◌, ◌/◌, ◌%◌, ◌^◌, ◌<◌, ◌≤◌, ◌≡◌, ◌⊎◌, inl, inr, ◌==◌, Bool, true, false,
  ◌∙◌, ap, sym, refl, subst, Option, none, some, List, [], leb, if◌then◌else◌, update, Bool-cases,
  arith,
}
use assignment.Kalloc.{Kmem, page_size}
use assignment.Vm.{
  px, is_valid, make_pte, maxva, walk_from, walk, map_from, mappages, pg_round_down,
}
use assignment.Vm.Tree.{prefix, Owner, reach}
use assignment.Vm.Map.{walk_from-Walks}
use assignment.Vm.Space.{view, IsSpace, view-store, store-IsSpace, entry-view}
use assignment.Vm.Update.{MapsOrPanics, stopped, further, single}

module _ (end root : ℕ) where
  -- One walk of the space.
  record Found (va : ℕ) (k : Kmem) (pte : ℕ) (k' : Kmem) : Type 0 where
    own' : Owner
    xs' : List ℕ
    space : IsSpace end root own' xs' k'
    same : (w : ℕ) → w < maxva → view root k' w ≡ view root k w
    entry :
        ((pte ≡ 0) × (xs' ≡ []))
        ⊎ ((q : ℕ) × (own' q ≡ some (0, prefix 0 va))
            × (pte ≡ q + 8 * px 0 va)
            × (reach 2 root va k'.mem ≡ pte))

  walk-Found :
      (va : ℕ) (own : Owner) (xs : List ℕ) (k : Kmem)
      → va < maxva
      → IsSpace end root own xs k
      → Found va k (walk_from 2 true root va k).0 (walk_from 2 true root va k).1
  walk-Found va own xs k lt s =
      let top : (w : ℕ) → w < maxva → own root ≡ some (2, prefix 2 w) =
        λ w lt'. (let z : prefix 2 w ≡ 0 = omega arith in rw z s.top) in
      let r = walk_from-Walks end 2 root va own xs k (omega arith) s.tables (top va lt) in
      record {
        own' = r.own';
        xs' = r.xs';
        space = record { tables = r.tables; top = r.grows root 2 0 s.top };
        same = λ w lt'. r.same 2 root w (omega arith) (top w lt');
        entry = r.entry;
      }

  -- What follows the walk in a round of `mappages`.
  abbrev round : (n a last pa perm pte : ℕ) → Kmem → Option (Bool × Kmem)
  round n a last pa perm pte k' = elim (pte == 0) [
    | true ↦ some (false, k')
    | false ↦ elim (is_valid (k'.mem pte)) [
      | true ↦ none
      | false ↦
          let done = record k' { mem = update k'.mem pte (make_pte pa perm) } in
          elim (a == last) [
            | true ↦ some (true, done)
            | false ↦ map_from n root (a + page_size) last (pa + page_size) perm done
          ]
    ]
  ]

  map_from-round :
      (n a last pa perm : ℕ) (k : Kmem)
      → a < maxva
      → map_from (suc n) root a last pa perm k
        ≡ round n a last pa perm (walk_from 2 true root a k).0 (walk_from 2 true root a k).1
  unfolding map_from walk
  map_from-round n a last pa perm k lt =
      let near : leb maxva a ≡ false = ground arith in rw (near, map_from) refl

  map_from_far :
      (n a last pa perm : ℕ) (k : Kmem) → maxva ≤ a → map_from (suc n) root a last pa perm k ≡ none
  unfolding map_from walk
  map_from_far n a last pa perm k le =
      let far : leb maxva a ≡ true = ground arith in rw (far, map_from) refl

  -- A round whose walk found the entry `q + 8 * px 0 a`.
  round-Maps :
      (m n a pa perm q : ℕ) (own : Owner) (xs : List ℕ) (k k' : Kmem)
      → a % page_size ≡ 0
      → m < suc n
      → a < maxva
      → IsSpace end root own xs k'
      → ((w : ℕ) → w < maxva → view root k' w ≡ view root k w)
      → own q ≡ some (0, prefix 0 a)
      → reach 2 root a k'.mem ≡ q + 8 * px 0 a
      → ((m' a' pa' : ℕ) (k₁ : Kmem)
          → a' % page_size ≡ 0
          → m' < n
          → IsSpace end root own xs k₁
          → MapsOrPanics end root a' m' pa' perm k₁
              (map_from n root a' (a' + m' * page_size) pa' perm k₁))
      → MapsOrPanics end root a m pa perm k
          (round n a (a + m * page_size) pa perm (q + 8 * px 0 a) k')
  round-Maps m n a pa perm q own xs k k' al lt lt' s same at re rec =
      let pte = q + 8 * px 0 a in
      let pos : 0 < q = s.tables.tree.nonzero q 0 (prefix 0 a) at in
      let nz : (pte == 0) ≡ false = ground arith in
      let v = make_pte pa perm in
      let ev : k'.mem pte ≡ view root k a =
        entry-view end root own xs k' s a q v lt' at re ∙ same a lt' in
      let done = record k' { mem = update k'.mem pte v } in
      let one : (w : ℕ)
          → w < maxva
          → view root done w ≡ (if w / 4096 == a / 4096 then v else view root k w) =
        λ w lw.
          view-store end root own xs k' s a q v lt' at re w lw
          ∙ ap (λ x. if w / 4096 == a / 4096 then v else x) (same w lw) in
      let s' = store-IsSpace end root own xs k' s a q v lt' at re in
      elim (Bool-cases (is_valid (k'.mem pte))) [
        | inl ok ↦
            let e₀ : a + 0 * page_size ≡ a = omega arith in
            rw (nz, ok, round) (0, omega arith, inr (rw e₀ (ap is_valid (sym ev) ∙ ok)))
        | inr new ↦
            rw (nz, new, round)
              (elim m
                  as (λ m.
                    m < suc n
                    → MapsOrPanics end root a m pa perm k (elim (a == a + m * page_size) [
                      | true ↦ some (true, done)
                      | false ↦
                          map_from n root (a + page_size) (a + m * page_size) (pa + page_size) perm
                            done
                    ])) [
                      | zero ↦ λ lt.
                          (let hit : (a == a + 0 * page_size) ≡ true = ground arith in
                            rw hit (single end root a pa perm own xs k done al s' one))
                      | suc m ↦ λ lt.
                          (let miss : (a == a + suc m * page_size) ≡ false = ground arith in
                            let el : a + page_size + m * page_size ≡ a + suc m * page_size =
                              omega arith in
                            rw miss (
                              further end root a m pa perm k done al one
                                (map_from n root (a + page_size) (a + suc m * page_size)
                                  (pa + page_size) perm done)
                                (subst
                                  (λ x.
                                    MapsOrPanics end root (a + page_size) m (pa + page_size) perm
                                      done
                                      (map_from n root (a + page_size) x (pa + page_size) perm
                                        done))
                                  el
                                  (rec m (a + page_size) (pa + page_size) done (omega arith)
                                    (omega arith) s'))))
                    ]
                lt)
      ]

  pub map_from-Maps :
      (m n a pa perm : ℕ) (own : Owner) (xs : List ℕ) (k : Kmem)
      → a % page_size ≡ 0
      → m < n
      → IsSpace end root own xs k
      → MapsOrPanics end root a m pa perm k (map_from n root a (a + m * page_size) pa perm k)
  map_from-Maps m zero a pa perm own xs k al lt s = absurd (omega arith)
  map_from-Maps m (suc n) a pa perm own xs k al lt s =
      let P : Option (Bool × Kmem) → Type 0 = MapsOrPanics end root a m pa perm k in
      elim (Bool-cases (leb maxva a)) [
        | inl far ↦
            subst P (sym (map_from_far n a (a + m * page_size) pa perm k (ground arith)))
              (0, omega arith, (let le : maxva ≤ a + 0 * page_size = ground arith in inl le))
        | inr near ↦
            let lt' : a < maxva = ground arith in
            let found = walk-Found a own xs k lt' s in
            let r = walk_from 2 true root a k in
            subst P (sym (map_from-round n a (a + m * page_size) pa perm k lt')) (elim found.entry [
              | inl (z, full) ↦
                  subst (λ x. P (round n a (a + m * page_size) pa perm x r.1)) (sym z)
                    (stopped end root a m pa perm found.own' k r.1
                      (subst (λ ys. IsSpace end root found.own' ys r.1) full found.space)
                      found.same)
              | inr (q, at, addr, re) ↦
                  subst (λ x. P (round n a (a + m * page_size) pa perm x r.1)) (sym addr)
                    (round-Maps m n a pa perm q found.own' found.xs' k r.1 al lt lt' found.space
                      found.same at (re ∙ addr)
                      (λ m' a' pa' k₁ al' lm s'.
                        map_from-Maps m' n a' pa' perm found.own' found.xs' k₁ al' lm s'))
            ])
      ]

  -- `mappages` of m + 1 whole pages from a page boundary below 2 ^ 63, in an address space. With 0
  -- it has mapped exactly these, to consecutive frames with the permission given, and with -1 the
  -- first c of them and there is no free page; all other addresses are mapped as before, and the
  -- tables still are a tree apart from the free pages. It panics only for a page past MAXVA or one
  -- that was mapped.
  pub mappages-Maps :
      (m va pa perm : ℕ) (own : Owner) (xs : List ℕ) (k : Kmem)
      → va % page_size ≡ 0
      → m ≤ maxva / page_size
      → va < 2 ^ 63
      → IsSpace end root own xs k
      → MapsOrPanics end root va m pa perm k (mappages root va (suc m * page_size) pa perm k)
  unfolding mappages
  mappages-Maps m va pa perm own xs k al le small s =
      let first : pg_round_down va ≡ va = omega arith in
      let last : pg_round_down ((va + suc m * page_size - 1) % 2 ^ 64) ≡ va + m * page_size =
        omega arith in
      let some' : (suc m * page_size == 0) ≡ false = ground arith in
      rw (some', first, last, mappages)
        (map_from-Maps m (maxva / page_size + 1) va pa perm own xs k al (omega arith) s)
