-- ===== src/Vm/Space.antt =====
-- An address space of kernel/vm.c as a map from pages to entries, and mappages as an update of it.
use assignment.Common.{
  ℕ, zero, suc, ◌+◌, ◌*◌, ◌/◌, ◌<◌, ◌≡◌, ◌≢◌, inl, inr, ◌==◌, ◌∙◌, ap, sym, refl, Option, some,
  List, if◌then◌else◌, update, update_ne, Bool-cases, ℕ_discrete, arith,
}
use assignment.Kalloc.{Kmem}
use assignment.Kalloc.Pages.{frame}
use assignment.Vm.{px, pte2pa, is_valid, maxva}
use assignment.Vm.Tree.{prefix, Owner, IsTree, reach, lookup, px-lt, down, same_entry}
use assignment.Vm.View.{store-IsTree, lookup-store}
use assignment.Vm.Map.{Tables, owned-NotIn}

-- The entry of an address; 0 where no table leads to one.
abbrev pub view : (root : ℕ) → Kmem → (va : ℕ) → ℕ
view root k va = lookup 2 root va k.mem

-- The tables of the space and the free pages.
pub record IsSpace (end root : ℕ) (own : Owner) (xs : List ℕ) (k : Kmem) : Type 0 where
  pub tables : Tables end own xs k
  pub top : own root ≡ some (2, 0)

pub lookup-reach :
    (l pt va : ℕ) (mem : ℕ → ℕ)
    → reach l pt va mem ≢ 0
    → lookup l pt va mem ≡ mem (reach l pt va mem)
lookup-reach zero pt va mem ne = refl
lookup-reach (suc l) pt va mem ne = elim (Bool-cases (is_valid (mem (pt + 8 * px (suc l) va)))) [
  | inl ok ↦
      let ne' : reach l (pte2pa (mem (pt + 8 * px (suc l) va))) va mem ≢ 0 = rw ok at ne in
      rw ok (lookup-reach l (pte2pa (mem (pt + 8 * px (suc l) va))) va mem ne')
  | inr no' ↦ let ne' : 0 ≢ 0 = rw no' at ne in absurd (ne' refl)
]

pub reach_table :
    (own : Owner) (mem : ℕ → ℕ) (tree : IsTree own mem) (l pt va : ℕ)
    → l < 3
    → own pt ≡ some (l, prefix l va)
    → reach l pt va mem ≢ 0
    → (q : ℕ) × (own q ≡ some (0, prefix 0 va)) × (reach l pt va mem ≡ q + 8 * px 0 va)
reach_table own mem tree zero pt va lt e ne = (pt, e, refl)
reach_table own mem tree (suc l) pt va lt e ne =
    let next = pte2pa (mem (pt + 8 * px (suc l) va)) in
    elim (Bool-cases (is_valid (mem (pt + 8 * px (suc l) va)))) [
      | inl ok ↦
          let ne' : reach l next va mem ≢ 0 = rw ok at ne in
          rw ok (
            reach_table own mem tree l next va (omega arith)
              (down own mem tree l pt va (omega arith) e ok) ne')
      | inr no' ↦ let ne' : 0 ≢ 0 = rw no' at ne in absurd (ne' refl)
    ]

pub px_page : (l va v : ℕ) → l < 3 → va / 4096 ≡ v / 4096 → px l va ≡ px l v
px_page zero va v lt e = omega arith
px_page (suc zero) va v lt e = omega arith
px_page (suc (suc zero)) va v lt e = omega arith
px_page (suc (suc (suc l))) va v lt e = absurd (omega arith)

reach_page :
    (l pt va v : ℕ) (mem : ℕ → ℕ)
    → l < 3
    → va / 4096 ≡ v / 4096
    → reach l pt va mem ≡ reach l pt v mem
reach_page zero pt va v mem lt e = ap (λ x. pt + 8 * x) (px_page 0 va v lt e)
reach_page (suc l) pt va v mem lt e = rw (px_page (suc l) va v lt e) (
    let next = pte2pa (mem (pt + 8 * px (suc l) v)) in
    ap (λ x. if is_valid (mem (pt + 8 * px (suc l) v)) then x else 0)
      (reach_page l next va v mem (omega arith) e))

module _ (end root : ℕ) (own : Owner) (xs : List ℕ) (k : Kmem) (s : IsSpace end root own xs k) where
  pub top_at : (va : ℕ) → va < maxva → own root ≡ some (2, prefix 2 va)
  top_at va lt = let z : prefix 2 va ≡ 0 = omega arith in rw z s.top

  -- A store to the entry of va changes the entries of its page and no other.
  module _ (va q v : ℕ) (lt : va < maxva) (at : own q ≡ some (0, prefix 0 va))
      (re : reach 2 root va k.mem ≡ q + 8 * px 0 va) where
    abbrev done : Kmem
    done = record k { mem = update k.mem (q + 8 * px 0 va) v }

    same_page :
        (w : ℕ) → w < maxva → (reach 2 root w k.mem == q + 8 * px 0 va) ≡ (w / 4096 == va / 4096)
    same_page w lt' = elim (ℕ_discrete (w / 4096) (va / 4096)) [
      | yes e ↦ let e' = reach_page 2 root w va k.mem (omega arith) e ∙ re in ground arith
      | no ne ↦ elim (ℕ_discrete (reach 2 root w k.mem) (q + 8 * px 0 va)) [
        | no ne' ↦ ground arith
        | yes e ↦
            let pos : 0 < q = s.tables.tree.nonzero q 0 (prefix 0 va) at in
            let nz : reach 2 root w k.mem ≢ 0 = λ z. absurd (omega arith) in
            let (q', at', e') =
              reach_table own k.mem s.tables.tree 2 root w (omega arith) (top_at w lt') nz in
            let both =
              same_entry q' (px 0 w) q (px 0 va) (s.tables.tree.aligned q' 0 (prefix 0 w) at')
                (s.tables.tree.aligned q 0 (prefix 0 va) at) (px-lt 0 w) (px-lt 0 va)
                (sym e' ∙ e) in
            let pair : ◌≡◌ {A = Option (ℕ × ℕ)} (some (0, prefix 0 w)) (some (0, prefix 0 va)) =
              sym at' ∙ ap own both.0 ∙ at in
            let ep : prefix 0 w ≡ prefix 0 va = cc in
            let ex : px 0 w ≡ px 0 va = both.1 in absurd (ne (omega arith))
      ]
    ]

    pub view-store :
        (w : ℕ)
        → w < maxva
        → view root done w ≡ (if w / 4096 == va / 4096 then v else view root k w)
    view-store w lt' =
        lookup-store own k.mem s.tables.tree q (prefix 0 va) (px 0 va) v at (px-lt 0 va) 2 root w
          (omega arith) (top_at w lt')
        ∙ ap (λ b. if b then v else view root k w) (same_page w lt')

    pub store-IsSpace : IsSpace end root own xs done
    store-IsSpace = record {
      tables = record {
        tree = store-IsTree own k.mem s.tables.tree q (prefix 0 va) (px 0 va) v at (px-lt 0 va);
        free =
            frame end k.mem done.mem q k.freelist xs (s.tables.tree.aligned q 0 (prefix 0 va) at)
              (λ a out.
                update_ne k.mem (q + 8 * px 0 va) a v
                  (λ e. let small = px-lt 0 va in absurd (ground arith)))
              (owned-NotIn own xs q 0 (prefix 0 va) s.tables.unowned at) s.tables.free;
        unowned = s.tables.unowned;
      };
      top = s.top;
    }

    pub entry-view : k.mem (q + 8 * px 0 va) ≡ view root k va
    entry-view =
        let pos : 0 < q = s.tables.tree.nonzero q 0 (prefix 0 va) at in
        let nz : reach 2 root va k.mem ≢ 0 = λ z. absurd (omega arith) in
        sym (lookup-reach 2 root va k.mem nz ∙ ap k.mem re)
