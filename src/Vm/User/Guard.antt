-- ===== src/Vm/User/Guard.antt =====
-- `walkaddr` and `uvmclear` of kernel/vm.c on an address space: what the user can reach.
use assignment.Common.{
  ℕ, zero, suc, ◌+◌, ◌*◌, ◌/◌, ◌<◌, ◌≡◌, ◌≢◌, inl, inr, ◌==◌, Bool, true, false, ◌&&◌, ◌∙◌, ap, sym,
  refl, subst, Option, none, some, List, ltb, leb, if◌then◌else◌, update, Bool-cases, ℕ_discrete,
  arith,
}
use assignment.Kalloc.{Kmem}
use assignment.Vm.{px, pte2pa, is_valid, is_user, maxva, walk_from, walk, user_page, walkaddr}
use assignment.Vm.Tree.{prefix, Owner, IsTree, reach, lookup, down}
use assignment.Vm.Space.{
  view, px_page, IsSpace, lookup-reach, reach_table, top_at, view-store, store-IsSpace, entry-view,
}
use assignment.Vm.User.{clear_user, uvmclear}

-- A walk that does not allocate follows the entries and changes nothing.
walk_from-reach : (l pt va : ℕ) (k : Kmem) → walk_from l false pt va k ≡ (reach l pt va k.mem, k)
unfolding walk_from
walk_from-reach zero pt va k = refl
walk_from-reach (suc l) pt va k =
    let pte = k.mem (pt + 8 * px (suc l) va) in
    elim (Bool-cases (is_valid pte)) [
      | inl ok ↦ rw (ok, walk_from) (walk_from-reach l (pte2pa pte) va k)
      | inr no' ↦ rw (no', walk_from) refl
    ]

-- An entry that a user may use.
abbrev pub open_to_user : ℕ → Bool
open_to_user pte = is_valid pte && is_user pte

-- Where a walk finds no entry there is no table for the address.
reach-zero :
    (own : Owner) (mem : ℕ → ℕ) (tree : IsTree own mem) (l pt va : ℕ)
    → l < 3
    → own pt ≡ some (l, prefix l va)
    → reach l pt va mem ≡ 0
    → lookup l pt va mem ≡ 0
reach-zero own mem tree zero pt va lt e z =
    let pos : 0 < pt = tree.nonzero pt 0 (prefix 0 va) e in absurd (omega arith)
reach-zero own mem tree (suc l) pt va lt e z =
    let next = pte2pa (mem (pt + 8 * px (suc l) va)) in
    elim (Bool-cases (is_valid (mem (pt + 8 * px (suc l) va)))) [
      | inl ok ↦
          let z' : reach l next va mem ≡ 0 = rw ok at z in
          rw ok (
            reach-zero own mem tree l next va (omega arith)
              (down own mem tree l pt va (omega arith) e ok) z')
      | inr no' ↦ rw no' refl
    ]

-- The tests of `walkaddr` on an entry.
user_page_open :
    (pte : ℕ) (k : Kmem)
    → pte ≢ 0
    → user_page pte k ≡ (if open_to_user (k.mem pte) then pte2pa (k.mem pte) else 0)
user_page_open pte k ne =
    let nz : (pte == 0) ≡ false = ground arith in
    elim (Bool-cases (is_valid (k.mem pte))) [
      | inr no' ↦ rw (nz, no') refl
      | inl ok ↦ elim (Bool-cases (is_user (k.mem pte))) [
        | inr no' ↦ rw (nz, ok, no') refl
        | inl user ↦ rw (nz, ok, user) refl
      ]
    ]

clear_user_closed : (pte : ℕ) → open_to_user (clear_user pte) ≡ false
clear_user_closed pte = ground arith

module _ (end root : ℕ) (own : Owner) (xs : List ℕ) (k : Kmem) (s : IsSpace end root own xs k) where
  -- In an address space `walkaddr` gives the frame of a page that is mapped for the user, and 0 for
  -- every other address.
  pub walkaddr-view :
      (va : ℕ)
      → walkaddr root va k
        ≡ (if ltb va maxva && open_to_user (view root k va) then pte2pa (view root k va) else 0)
  unfolding walkaddr
  walkaddr-view va = elim (Bool-cases (leb maxva va)) [
    | inl far ↦ let off : ltb va maxva ≡ false = ground arith in rw (far, off) refl
    | inr near ↦
        let on : ltb va maxva ≡ true = ground arith in
        let top = top_at end root own xs k s va (ground arith) in
        let e : user_page (walk_from 2 false root va k).0 k ≡ user_page (reach 2 root va k.mem) k =
          ap (λ r. user_page r.0 k) (walk_from-reach 2 root va k) in
        rw (near, on)
          (e ∙ elim (ℕ_discrete (reach 2 root va k.mem) 0) [
            | yes z ↦
                ap (λ p. user_page p k) z
                ∙ sym (
                    ap (λ v. if open_to_user v then pte2pa v else 0)
                      (reach-zero own k.mem s.tables.tree 2 root va (omega arith) top z))
            | no nz ↦
                user_page_open (reach 2 root va k.mem) k nz
                ∙ ap (λ v. if open_to_user v then pte2pa v else 0)
                    (sym (lookup-reach 2 root va k.mem nz))
          ])
  ]

-- What `uvmclear` leaves: panic where no tables lead from the root to an entry of va, which `reach`
-- finds by the valid entries alone. Else there is an entry; the page of va is closed to the user, and
-- nothing else is changed.
abbrev pub ClearsOrPanics :
    (end root va : ℕ) (own : Owner) (xs : List ℕ) → Kmem → Option Kmem → Type 0
ClearsOrPanics end root va own xs k none = reach 2 root va k.mem ≡ 0
ClearsOrPanics end root va own xs k (some k') =
    (reach 2 root va k.mem ≢ 0)
    × IsSpace end root own xs k'
    × ((w : ℕ)
        → w < maxva
        → view root k' w
          ≡ (if w / 4096 == va / 4096 then clear_user (view root k w) else view root k w))
    × ((w : ℕ) → w / 4096 ≡ va / 4096 → walkaddr root w k' ≡ 0)

-- The branches of `uvmclear`.
uvmclear-reach :
    (root va : ℕ) (k : Kmem)
    → va < maxva
    → uvmclear root va k ≡ (
        let pte = reach 2 root va k.mem in
        if pte == 0
        then none
        else some (record k { mem = update k.mem pte (clear_user (k.mem pte)) }))
unfolding uvmclear walk
uvmclear-reach root va k lt =
    let near : leb maxva va ≡ false = ground arith in
    rw (near, uvmclear)
      (ap
        (λ (r : ℕ × Kmem).
          if r.0 == 0
          then none
          else some (record r.1 { mem = update r.1.mem r.0 (clear_user (r.1.mem r.0)) }))
        (walk_from-reach 2 root va k))

view_page :
    (l pt v w : ℕ) (mem : ℕ → ℕ)
    → l < 3
    → v / 4096 ≡ w / 4096
    → lookup l pt v mem ≡ lookup l pt w mem
view_page zero pt v w mem lt e = ap (λ x. mem (pt + 8 * x)) (px_page 0 v w lt e)
view_page (suc l) pt v w mem lt e = rw (px_page (suc l) v w lt e) (
    let next = pte2pa (mem (pt + 8 * px (suc l) w)) in
    ap (λ x. if is_valid (mem (pt + 8 * px (suc l) w)) then x else 0)
      (view_page l next v w mem (omega arith) e))

module _ (end root : ℕ) (own : Owner) (xs : List ℕ) (k : Kmem) (s : IsSpace end root own xs k) where
  cleared :
      (va q : ℕ)
      → va < maxva
      → own q ≡ some (0, prefix 0 va)
      → reach 2 root va k.mem ≡ q + 8 * px 0 va
      → reach 2 root va k.mem ≢ 0
      → ClearsOrPanics end root va own xs k (
          let pte = q + 8 * px 0 va in
          some (record k { mem = update k.mem pte (clear_user (k.mem pte)) }))
  cleared va q lt at re nz =
      let v = clear_user (k.mem (q + 8 * px 0 va)) in
      let k' = record k { mem = update k.mem (q + 8 * px 0 va) v } in
      let s' = store-IsSpace end root own xs k s va q v lt at re in
      let ev = entry-view end root own xs k s va q v lt at re in
      let stored = view-store end root own xs k s va q v lt at re in
      (
        nz,
        s',
        λ w lw. stored w lw ∙ elim (ℕ_discrete (w / 4096) (va / 4096)) [
          | no ne ↦ (let miss : (w / 4096 == va / 4096) ≡ false = ground arith in rw miss refl)
          | yes e ↦
              (let hit : (w / 4096 == va / 4096) ≡ true = ground arith in
                rw hit (ap clear_user (ev ∙ view_page 2 root va w k.mem (omega arith) (sym e))))
        ],
        λ w e.
            (let hit : (w / 4096 == va / 4096) ≡ true = ground arith in
              let on : ltb w maxva ≡ true = ground arith in
              let is : view root k' w ≡ v = stored w (omega arith) ∙ (rw hit refl) in
              let closed = clear_user_closed (k.mem (q + 8 * px 0 va)) in
              walkaddr-view end root own xs k' s' w
              ∙ ap (λ x. if ltb w maxva && open_to_user x then pte2pa x else 0) is
              ∙ (rw (on, closed) refl)),
      )

  -- `uvmclear` of an address below MAXVA, in an address space: it panics exactly if the valid entries
  -- lead from the root to no table with an entry for the address, whatever a last entry holds. Else
  -- it takes the user bit from the page's entry and changes no other, and `walkaddr` then refuses
  -- every address of the page.
  pub uvmclear-Clears :
      (va : ℕ) → va < maxva → ClearsOrPanics end root va own xs k (uvmclear root va k)
  uvmclear-Clears va lt =
      let top = top_at end root own xs k s va lt in
      let P = ClearsOrPanics end root va own xs k in
      subst P (sym (uvmclear-reach root va k lt)) (elim (ℕ_discrete (reach 2 root va k.mem) 0) [
        | yes z ↦
            let hit : (reach 2 root va k.mem == 0) ≡ true = ground arith in
            subst
              (λ b. P (
                if b
                then none
                else some (record k {
                  mem =
                      update k.mem (reach 2 root va k.mem)
                        (clear_user (k.mem (reach 2 root va k.mem)));
                })))
              (sym hit) z
        | no nz ↦
            let miss : (reach 2 root va k.mem == 0) ≡ false = ground arith in
            let (q, at, re) = reach_table own k.mem s.tables.tree 2 root va (omega arith) top nz in
            subst
              (λ b. P (
                if b
                then none
                else some (record k {
                  mem =
                      update k.mem (reach 2 root va k.mem)
                        (clear_user (k.mem (reach 2 root va k.mem)));
                })))
              (sym miss)
              (subst (λ p. P (some (record k { mem = update k.mem p (clear_user (k.mem p)) })))
                (sym re) (cleared va q lt at re nz))
      ])
