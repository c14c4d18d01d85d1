-- ===== src/Vm/Map.antt =====
-- `walk` of kernel/vm.c with allocation: it gives the address of an entry, and no address is mapped
-- otherwise than before.
use assignment.Common.{
  ℕ, zero, suc, ◌+◌, ◌*◌, ◌%◌, ◌<◌, ◌≡◌, ◌≢◌, ◌⊎◌, inl, inr, ◌==◌, true, false, ◌∙◌, ap, sym, refl,
  subst, none, some, List, [], ◌∷◌, within, if◌then◌else◌, update_self, update_ne, Bool-cases,
  arith,
}
use assignment.Kalloc.{Kmem, page_size, fill, kalloc}
use assignment.Kalloc.Pages.{NotIn, Holds, frame, kalloc_lem}
use assignment.Vm.{px, pte2pa, is_valid, make_pte, hang, walk_from}
use assignment.Vm.Tree.{prefix, Owner, IsTree, reach, lookup, px-lt, prefix-px, down}
use assignment.Vm.View.{grown_old, hang-IsTree, hang_keeps, lookup-hang}

abbrev pub AllUnowned : Owner → List ℕ → Type 0
AllUnowned own [] = Unit {0}
AllUnowned own (x ∷ xs) = (own x ≡ none) × AllUnowned own xs

-- The tables and the free pages of a memory; no page is both.
pub record Tables (end : ℕ) (own : Owner) (xs : List ℕ) (k : Kmem) : Type 0 where
  pub tree : IsTree own k.mem
  pub free : Holds end k xs
  pub unowned : AllUnowned own xs

pub owned-NotIn :
    (own : Owner) (xs : List ℕ) (q n p : ℕ) → AllUnowned own xs → own q ≡ some (n, p) → NotIn q xs
owned-NotIn own [] q n p u e = tt
owned-NotIn own (x ∷ xs) q n p u e = (
  λ same. let e' : own q ≡ none = ap own same ∙ u.0 in absurd (cc),
  owned-NotIn own xs q n p u.1 e,
)

AllUnowned-grown :
    (own : Owner) (xs : List ℕ) (page : ℕ) (x : ℕ × ℕ)
    → AllUnowned own xs
    → NotIn page xs
    → AllUnowned (λ p. if page == p then some x else own p) xs
AllUnowned-grown own [] page x u out = tt
AllUnowned-grown own (y ∷ ys) page x u out =
    let miss : (page == y) ≡ false = (let ne = out.0 in ground arith) in
    (rw miss u.0, AllUnowned-grown own ys page x u.1 out.1)

module _ (end : ℕ) where
  -- What kalloc gives from a list that is not empty.
  pub record Fresh (own : Owner) (xs : List ℕ) (k k' : Kmem) (page : ℕ) : Type 0 where
    pub whole : page % page_size ≡ 0
    pub pos : 0 < page
    pub out : NotIn page xs
    pub unowned : own page ≡ none
    pub free : Holds end k' xs
    pub same : (a : ℕ) → within page (page + page_size) a ≡ false → k'.mem a ≡ k.mem a

  kalloc-Fresh :
      (own : Owner) (x : ℕ) (xs : List ℕ) (k : Kmem)
      → Tables end own (x ∷ xs) k
      → Fresh own xs k (kalloc k).1 (kalloc k).0
  kalloc-Fresh own x xs k t =
      let (e, page, free, mem) = kalloc_lem end k x xs t.free in
      record {
        whole = page.0;
        pos = page.3;
        out = subst (λ y. NotIn y xs) (sym e) t.free.2;
        unowned = ap own e ∙ t.unowned.0;
        free = free;
        same = λ a away.
            mem a
            ∙ (let away' : within x (x + page_size) a ≡ false =
                  subst (λ y. within y (y + page_size) a ≡ false) e away in
                rw away');
      }

  kalloc-empty : (own : Owner) (k : Kmem) → Tables end own [] k → kalloc k ≡ (0, k)
  unfolding kalloc
  kalloc-empty own k t =
      let e : (k.freelist == 0) ≡ true = (let z : k.freelist ≡ 0 = t.free in ground arith) in rw e

  -- What `walk` leaves: more tables at most, every address mapped as before, and an entry for va,
  -- unless the free pages ran out.
  pub record Walks (l pt va : ℕ) (own : Owner) (k : Kmem) (r : ℕ × Kmem) : Type 0 where
    pub own' : Owner
    pub xs' : List ℕ
    pub tables : Tables end own' xs' r.1
    pub grows : (q n p : ℕ) → own q ≡ some (n, p) → own' q ≡ some (n, p)
    pub same :
        (n q v : ℕ)
        → n < 3
        → own q ≡ some (n, prefix n v)
        → lookup n q v r.1.mem ≡ lookup n q v k.mem
    pub keeps :
        (q n p j : ℕ)
        → own q ≡ some (suc n, p)
        → j < 512
        → is_valid (k.mem (q + 8 * j)) ≡ true
        → r.1.mem (q + 8 * j) ≡ k.mem (q + 8 * j)
    pub entry :
        ((r.0 ≡ 0) × (xs' ≡ []))
        ⊎ ((q : ℕ) × (own' q ≡ some (0, prefix 0 va))
            × (r.0 ≡ q + 8 * px 0 va)
            × (reach l pt va r.1.mem ≡ r.0))

  -- A fresh page hung behind an invalid entry.
  module _ (own : Owner) (xs : List ℕ) (k k₁ : Kmem) (page : ℕ) (tree : IsTree own k.mem)
      (none' : AllUnowned own xs) (new : Fresh own xs k k₁ page) (t l pre i : ℕ)
      (at : own t ≡ some (suc l, pre)) (lt : i < 512)
      (gone : is_valid (k.mem (t + 8 * i)) ≡ false) where
    abbrev a : ℕ
    a = t + 8 * i

    abbrev k₂ : Kmem
    k₂ = hang a page k₁

    zeroed : (b : ℕ) → within page (page + page_size) b ≡ true → a ≢ b → k₂.mem b ≡ 0
    unfolding fill
    zeroed b in' ne = let miss : (a == b) ≡ false = ground arith in rw (miss, in')

    hung : k₂.mem a ≡ make_pte page 0
    hung = update_self (fill page 0 k₁.mem) a (make_pte page 0)

    others : (b : ℕ) → within page (page + page_size) b ≡ false → a ≢ b → k₂.mem b ≡ k.mem b
    unfolding fill
    others b out ne = let miss : (a == b) ≡ false = ground arith in rw (miss, out) (new.same b out)

    still : (b : ℕ) → within page (page + page_size) b ≡ false → fill page 0 k₁.mem b ≡ k₁.mem b
    unfolding fill
    still b out = rw out

    still' : (b : ℕ) → within t (t + page_size) b ≡ false → k₂.mem b ≡ fill page 0 k₁.mem b
    still' b out = update_ne (fill page 0 k₁.mem) a b (make_pte page 0) (λ e. absurd (ground arith))

    hung-Holds : Holds end k₂ xs
    hung-Holds =
        frame end (fill page 0 k₁.mem) k₂.mem t k₁.freelist xs (tree.aligned t (suc l) pre at)
          still' (owned-NotIn own xs t (suc l) pre none' at)
          (frame end k₁.mem (fill page 0 k₁.mem) page k₁.freelist xs new.whole still new.out
            new.free)

    abbrev own₂ : Owner
    own₂ p = if page == p then some (l, pre * 512 + i) else own p

    old : (q n p : ℕ) → own q ≡ some (n, p) → own₂ q ≡ some (n, p)
    old q n p e =
        grown_old own k.mem k₂.mem tree t l pre i page at lt gone new.unowned new.whole new.pos
          zeroed hung others q n p e

    hung-Tables : Tables end own₂ xs k₂
    hung-Tables = record {
      tree =
          hang-IsTree own k.mem k₂.mem tree t l pre i page at lt gone new.unowned new.whole new.pos
            zeroed hung others;
      free = hung-Holds;
      unowned = AllUnowned-grown own xs page (l, pre * 512 + i) none' new.out;
    }

    -- A walk that goes on from the new table.
    hung-Walks :
        (va : ℕ) (r : ℕ × Kmem)
        → i ≡ px (suc l) va
        → Walks l page va own₂ k₂ r
        → Walks (suc l) t va own k r
    hung-Walks va r ei w =
        let valid : is_valid (make_pte page 0) ≡ true = ground arith in
        let kept : r.1.mem a ≡ make_pte page 0 =
          w.keeps t l pre i (old t (suc l) pre at) lt (ap is_valid hung ∙ valid) ∙ hung in
        let back : pte2pa (make_pte page 0) ≡ page = (let al = new.whole in omega arith) in
        record {
          own' = w.own';
          xs' = w.xs';
          tables = w.tables;
          grows = λ q n p e. w.grows q n p (old q n p e);
          same = λ n q v lt' e.
              w.same n q v lt' (old q n (prefix n v) e)
              ∙ lookup-hang own k.mem k₂.mem tree t l pre i page at lt gone new.unowned new.whole
                  new.pos zeroed hung others n q v lt' e;
          keeps = λ q n p j e lt' ok.
              let hk =
                hang_keeps own k.mem k₂.mem tree t l pre i page at lt gone new.unowned new.whole
                  new.pos zeroed hung others q n p j e lt' ok in
              w.keeps q n p j (old q (suc n) p e) lt' (ap is_valid hk ∙ ok) ∙ hk;
          entry = elim w.entry [
            | inl full ↦ inl full
            | inr (q, at', addr, re) ↦
                let kept' : r.1.mem (t + 8 * px (suc l) va) ≡ make_pte page 0 =
                  ap (λ x. r.1.mem (t + 8 * x)) (sym ei) ∙ kept in
                inr (q, at', addr, rw (kept', valid, back) re)
          ];
        }

  -- The branch of `walk` that allocates.
  allocate :
      (l pt va : ℕ) (own : Owner) (ys : List ℕ) (k : Kmem)
      → l < 2
      → ((page : ℕ) (own₂ : Owner) (k₂ : Kmem) (zs : List ℕ)
          → Tables end own₂ zs k₂
          → own₂ page ≡ some (l, prefix l va)
          → Walks l page va own₂ k₂ (walk_from l true page va k₂))
      → Tables end own ys k
      → own pt ≡ some (suc l, prefix (suc l) va)
      → is_valid (k.mem (pt + 8 * px (suc l) va)) ≡ false
      → Walks (suc l) pt va own k (
          let r = kalloc k in
          elim (r.0 == 0) [
            | true ↦ (0, r.1)
            | false ↦ walk_from l true r.0 va (hang (pt + 8 * px (suc l) va) r.0 r.1)
          ])
  allocate l pt va own [] k small rec t e gone =
      subst
        (λ (r : ℕ × Kmem). Walks (suc l) pt va own k (elim (r.0 == 0) [
          | true ↦ (0, r.1)
          | false ↦ walk_from l true r.0 va (hang (pt + 8 * px (suc l) va) r.0 r.1)
        ]))
        (sym (kalloc-empty own k t))
        (record {
          own' = own;
          xs' = [];
          tables = t;
          grows = λ q n p h. h;
          same = λ n q v lt h. refl;
          keeps = λ q n p j h lt ok. refl;
          entry = inl (refl, refl);
        })
  allocate l pt va own (y ∷ ys) k small rec t e gone =
      let page = (kalloc k).0 in
      let k₁ = (kalloc k).1 in
      let new = kalloc-Fresh own y ys k t in
      let nz : (page == 0) ≡ false = (let pos = new.pos in ground arith) in
      let pre = prefix (suc l) va in
      let i = px (suc l) va in
      let lt = px-lt (suc l) va in
      let own₂ : Owner = λ p. if page == p then some (l, pre * 512 + i) else own p in
      let hit : (page == page) ≡ true = ground arith in
      let here : own₂ page ≡ some (l, prefix l va) =
        rw hit (ap (λ x. some (l, x)) (prefix-px l va (omega arith))) in
      let t₂ = hung-Tables own ys k k₁ page t.tree t.unowned.1 new pt l pre i e lt gone in
      rw nz (
        hung-Walks own ys k k₁ page t.tree t.unowned.1 new pt l pre i e lt gone va
          (walk_from l true page va (hang (pt + 8 * i) page k₁)) refl
          (rec page own₂ (hang (pt + 8 * i) page k₁) ys t₂ here))

  pub walk_from-Walks :
      (l pt va : ℕ) (own : Owner) (xs : List ℕ) (k : Kmem)
      → l < 3
      → Tables end own xs k
      → own pt ≡ some (l, prefix l va)
      → Walks l pt va own k (walk_from l true pt va k)
  unfolding walk_from
  walk_from-Walks zero pt va own xs k small t e = record {
    own' = own;
    xs' = xs;
    tables = t;
    grows = λ q n p h. h;
    same = λ n q v lt h. refl;
    keeps = λ q n p j h lt ok. refl;
    entry = inr (pt, e, refl, refl);
  }
  walk_from-Walks (suc l) pt va own xs k small t e =
      elim (Bool-cases (is_valid (k.mem (pt + 8 * px (suc l) va)))) [
        | inl ok ↦
            let down' = down own k.mem t.tree l pt va (omega arith) e ok in
            let next = pte2pa (k.mem (pt + 8 * px (suc l) va)) in
            let w = walk_from-Walks l next va own xs k (omega arith) t down' in
            let kept = w.keeps pt l (prefix (suc l) va) (px (suc l) va) e (px-lt (suc l) va) ok in
            rw (ok, walk_from)
              (record {
                own' = w.own';
                xs' = w.xs';
                tables = w.tables;
                grows = w.grows;
                same = w.same;
                keeps = w.keeps;
                entry = elim w.entry [
                  | inl full ↦ inl full
                  | inr (q, at, addr, re) ↦ inr (q, at, addr, rw (kept, ok) re)
                ];
              })
        | inr gone ↦
            rw (gone, walk_from)
              (allocate l pt va own xs k (omega arith)
                (λ page own₂ k₂ zs t₂ at. walk_from-Walks l page va own₂ zs k₂ (omega arith) t₂ at)
                t e gone)
      ]
