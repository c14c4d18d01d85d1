-- ===== src/Vm/View.antt =====
-- The entries that the addresses of a page table have, when kernel/vm.c stores an entry at the lowest
-- level or hangs a new table below an invalid one.
use assignment.Common.{
  ℕ, zero, suc, ◌+◌, ◌*◌, ◌%◌, ◌<◌, ◌≡◌, ◌≢◌, inl, inr, ◌==◌, true, false, ◌∙◌, ap, sym, refl,
  subst, Option, none, some, within, if◌then◌else◌, update, update_ne, Bool-cases, ℕ_discrete,
  arith,
}
use assignment.Kalloc.{page_size}
use assignment.Vm.{px, pte2pa, is_valid, make_pte}
use assignment.Vm.Tree.{prefix, Owner, IsTree, reach, lookup, same_entry, px-lt, down}

-- A store of v to entry j of a table q at level 0.
module _ (own : Owner) (mem : ℕ → ℕ) (tree : IsTree own mem) (q pre j v : ℕ)
    (leaf : own q ≡ some (0, pre)) (lt : j < 512) where
  abbrev stored : ℕ → ℕ
  stored = update mem (q + 8 * j) v

  above : (t l p i : ℕ) → own t ≡ some (suc l, p) → i < 512 → stored (t + 8 * i) ≡ mem (t + 8 * i)
  above t l p i e lt' = update_ne mem (q + 8 * j) (t + 8 * i) v (λ same.
      let both =
        same_entry q j t i (tree.aligned q 0 pre leaf) (tree.aligned t (suc l) p e) lt lt' same in
      let e' : own q ≡ some (suc l, p) = ap own both.0 ∙ e in absurd (cc))

  pub store-IsTree : IsTree own stored
  store-IsTree = record {
    aligned = tree.aligned;
    nonzero = tree.nonzero;
    leads = λ t l p i e lt' ok.
        let same = above t l p i e lt' in
        ap (λ x. own (pte2pa x)) same ∙ tree.leads t l p i e lt' (ap is_valid (sym same) ∙ ok);
  }

  pub reach-store :
      (l pt va : ℕ)
      → l < 3
      → own pt ≡ some (l, prefix l va)
      → reach l pt va stored ≡ reach l pt va mem
  reach-store zero pt va small e = refl
  reach-store (suc l) pt va small e =
      let a = pt + 8 * px (suc l) va in
      let same : stored a ≡ mem a =
        above pt l (prefix (suc l) va) (px (suc l) va) e (px-lt (suc l) va) in
      elim (Bool-cases (is_valid (mem a))) [
        | inr no' ↦ rw (same, no')
        | inl ok ↦
            rw (same, ok)
              (reach-store l (pte2pa (mem a)) va (omega arith)
                (down own mem tree l pt va (omega arith) e ok))
      ]

  pub lookup-store :
      (l pt va : ℕ)
      → l < 3
      → own pt ≡ some (l, prefix l va)
      → lookup l pt va stored ≡ (if reach l pt va mem == q + 8 * j then v else lookup l pt va mem)
  lookup-store zero pt va small e = ground arith
  lookup-store (suc l) pt va small e =
      let a = pt + 8 * px (suc l) va in
      let same : stored a ≡ mem a =
        above pt l (prefix (suc l) va) (px (suc l) va) e (px-lt (suc l) va) in
      elim (Bool-cases (is_valid (mem a))) [
        | inr no' ↦ rw (same, no') (let pos = tree.nonzero q 0 pre leaf in ground arith)
        | inl ok ↦
            rw (same, ok)
              (lookup-store l (pte2pa (mem a)) va (omega arith)
                (down own mem tree l pt va (omega arith) e ok))
      ]

-- A new table `page` behind entry i of the table t at level l + 1; the entry was not valid. All of
-- the page is zero.
module _ (own : Owner) (mem mem' : ℕ → ℕ) (tree : IsTree own mem) (t l pre i page : ℕ)
    (above' : own t ≡ some (suc l, pre)) (lt : i < 512) (gone : is_valid (mem (t + 8 * i)) ≡ false)
    (fresh : own page ≡ none) (whole : page % page_size ≡ 0) (pos : 0 < page)
    (zeroed : (a : ℕ) → within page (page + page_size) a ≡ true → t + 8 * i ≢ a → mem' a ≡ 0)
    (hung : mem' (t + 8 * i) ≡ make_pte page 0)
    (others : (a : ℕ)
      → within page (page + page_size) a ≡ false
      → t + 8 * i ≢ a
      → mem' a ≡ mem a) where
  abbrev pub grown : Owner
  grown p = if page == p then some (l, pre * 512 + i) else own p

  not_new : (q n p : ℕ) → own q ≡ some (n, p) → page ≢ q
  not_new q n p e same = let e' : own page ≡ some (n, p) = ap own same ∙ e in absurd (cc)

  pub grown_old : (q n p : ℕ) → own q ≡ some (n, p) → grown q ≡ some (n, p)
  grown_old q n p e =
      let miss : (page == q) ≡ false = (let ne = not_new q n p e in ground arith) in rw miss e

  pub grown_new : grown page ≡ some (l, pre * 512 + i)
  grown_new = let hit : (page == page) ≡ true = ground arith in rw hit

  -- The entries of the old tables, but for the one of the new table.
  old_entry :
      (q n p j : ℕ)
      → own q ≡ some (n, p)
      → j < 512
      → t + 8 * i ≢ q + 8 * j
      → mem' (q + 8 * j) ≡ mem (q + 8 * j)
  old_entry q n p j e lt' ne =
      let apart = not_new q n p e in
      let al = tree.aligned q n p e in others (q + 8 * j) (ground arith) ne

  -- Those of the new one.
  new_entry : (j : ℕ) → j < 512 → mem' (page + 8 * j) ≡ 0
  new_entry j lt' = zeroed (page + 8 * j) (ground arith) (λ same.
      let both = same_entry t i page j (tree.aligned t (suc l) pre above') whole lt lt' same in
      absurd (not_new t (suc l) pre above' (sym both.0)))

  pub new_page : pte2pa (make_pte page 0) ≡ page
  new_page = omega arith

  hang_leads :
      (q n p j : ℕ)
      → grown q ≡ some (suc n, p)
      → j < 512
      → is_valid (mem' (q + 8 * j)) ≡ true
      → grown (pte2pa (mem' (q + 8 * j))) ≡ some (n, p * 512 + j)
  hang_leads q n p j e lt' ok = elim (Bool-cases (page == q)) [
    | inl hit ↦
        let same : page ≡ q = ground arith in
        let z : mem' (q + 8 * j) ≡ 0 = subst (λ x. mem' (x + 8 * j) ≡ 0) same (new_entry j lt') in
        absurd (cc (ap is_valid z))
    | inr miss ↦
        let e' : own q ≡ some (suc n, p) = rw miss at e in
        elim (ℕ_discrete (t + 8 * i) (q + 8 * j)) [
          | no ne ↦
              let old = old_entry q (suc n) p j e' lt' ne in
              ap (λ x. grown (pte2pa x)) old
              ∙ grown_old (pte2pa (mem (q + 8 * j))) n (p * 512 + j)
                  (tree.leads q n p j e' lt' (ap is_valid (sym old) ∙ ok))
          | yes same ↦
              let both =
                same_entry t i q j (tree.aligned t (suc l) pre above') (tree.aligned q (suc n) p e')
                  lt lt' same in
              let pair : ◌≡◌ {A = Option (ℕ × ℕ)} (some (suc l, pre)) (some (suc n, p)) =
                sym above' ∙ ap own both.0 ∙ e' in
              let el : l ≡ n = cc in
              let ep : pre ≡ p = cc in
              ap (λ x. grown (pte2pa (mem' x))) (sym same)
              ∙ ap (λ x. grown (pte2pa x)) hung
              ∙ ap grown new_page
              ∙ grown_new
              ∙ (λ k. some (el k, ep k * 512 + both.1 k))
        ]
  ]

  pub hang-IsTree : IsTree grown mem'
  hang-IsTree = record {
    aligned = λ q n p e. elim (Bool-cases (page == q)) [
      | inl hit ↦ let same : page ≡ q = ground arith in subst (λ x. x % page_size ≡ 0) same whole
      | inr miss ↦ tree.aligned q n p (rw miss at e)
    ];
    nonzero = λ q n p e. elim (Bool-cases (page == q)) [
      | inl hit ↦ let same : page ≡ q = ground arith in subst (λ x. 0 < x) same pos
      | inr miss ↦ tree.nonzero q n p (rw miss at e)
    ];
    leads = hang_leads;
  }

  -- A valid entry of an old table stays.
  pub hang_keeps :
      (q n p j : ℕ)
      → own q ≡ some (suc n, p)
      → j < 512
      → is_valid (mem (q + 8 * j)) ≡ true
      → mem' (q + 8 * j) ≡ mem (q + 8 * j)
  hang_keeps q n p j e lt' ok = old_entry q (suc n) p j e lt' (λ same.
      let old : is_valid (mem (q + 8 * j)) ≡ false = ap (λ x. is_valid (mem x)) (sym same) ∙ gone in
      absurd (cc))

  lookup_new : (n va : ℕ) → lookup n page va mem' ≡ 0
  lookup_new zero va = new_entry (px 0 va) (px-lt 0 va)
  lookup_new (suc n) va = rw (new_entry (px (suc n) va) (px-lt (suc n) va))

  pub lookup-hang :
      (n q va : ℕ) → n < 3 → own q ≡ some (n, prefix n va) → lookup n q va mem' ≡ lookup n q va mem
  lookup-hang zero q va small e = old_entry q 0 (prefix 0 va) (px 0 va) e (px-lt 0 va) (λ same.
      let both =
        same_entry t i q (px 0 va) (tree.aligned t (suc l) pre above')
          (tree.aligned q 0 (prefix 0 va) e) lt (px-lt 0 va) same in
      let e' : own q ≡ some (suc l, pre) = ap own (sym both.0) ∙ above' in absurd (cc))
  lookup-hang (suc n) q va small e = elim (ℕ_discrete (t + 8 * i) (q + 8 * px (suc n) va)) [
    | yes same ↦
        let new : mem' (q + 8 * px (suc n) va) ≡ make_pte page 0 = ap mem' (sym same) ∙ hung in
        let valid : is_valid (make_pte page 0) ≡ true = ground arith in
        let old : is_valid (mem (q + 8 * px (suc n) va)) ≡ false =
          ap (λ x. is_valid (mem x)) (sym same) ∙ gone in
        rw (new, valid, old, new_page) (lookup_new n va)
    | no ne ↦
        let a = q + 8 * px (suc n) va in
        let oe = old_entry q (suc n) (prefix (suc n) va) (px (suc n) va) e (px-lt (suc n) va) ne in
        elim (Bool-cases (is_valid (mem a))) [
          | inr no' ↦ rw (oe, no')
          | inl ok ↦
              rw (oe, ok)
                (lookup-hang n (pte2pa (mem a)) va (omega arith)
                  (down own mem tree n q va (omega arith) e ok))
        ]
  ]
