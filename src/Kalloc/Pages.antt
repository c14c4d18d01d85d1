-- ===== src/Kalloc/Pages.antt =====
-- The free list of kernel/kalloc.c as a list of distinct pages.
use assignment.Common.{
  ℕ, ◌+◌, ◌%◌, ◌≤◌, ◌<◌, ◌==◌, ◌≡◌, ◌≢◌, ◌⊎◌, inl, inr, refl, ap, true, false, not, ◌||◌, none,
  some, List, [], ◌∷◌, ltb, leb, within, if◌then◌else◌, update, Bool-cases, ℕ_discrete, dec_le,
  arith,
}
use assignment.Kalloc.{Kmem, page_size, phystop, fill, freed_junk, alloc_junk, kfree, kalloc}

-- A page that the allocator may hold.
abbrev pub IsPage : ℕ → ℕ → Type 0
IsPage end p = (p % page_size ≡ 0) × (end ≤ p) × (p < phystop) × (0 < p)

abbrev pub NotIn : ℕ → List ℕ → Type 0
NotIn p [] = Unit {0}
NotIn p (x ∷ xs) = (p ≢ x) × NotIn p xs

-- From `p` the words at the pages' starts lead through the distinct pages `xs` to 0.
abbrev pub FreeList : ℕ → (ℕ → ℕ) → ℕ → List ℕ → Type 0
FreeList end mem p [] = p ≡ 0
FreeList end mem p (x ∷ xs) = (p ≡ x) × IsPage end x × NotIn x xs × FreeList end mem (mem x) xs

abbrev pub Holds : ℕ → Kmem → List ℕ → Type 0
Holds end k xs = FreeList end k.mem k.freelist xs

module _ (end : ℕ) where
  -- A change inside a page that is not on the list does not touch the list.
  pub frame :
      (mem mem' : ℕ → ℕ) (q : ℕ) (p : ℕ) (xs : List ℕ)
      → q % page_size ≡ 0
      → ((a : ℕ) → within q (q + page_size) a ≡ false → mem' a ≡ mem a)
      → NotIn q xs
      → FreeList end mem p xs
      → FreeList end mem' p xs
  frame mem mem' q p [] hq same out l = l
  frame mem mem' q p (x ∷ xs) hq same out (e, page, fresh, rest) =
      let away : within q (q + page_size) x ≡ false = ground (arith, out.0, page.0) in
      (e, page, fresh, rw (same x away) (frame mem mem' q (mem x) xs hq same out.1 rest))

  -- `kfree` of a page that is not on the list puts it in front; it panics exactly on an address that
  -- is not aligned, below the kernel's end, or past the top of memory.
  pub kfree_lem :
      (pa : ℕ) (k : Kmem) (xs : List ℕ)
      → 0 < end
      → Holds end k xs
      → NotIn pa xs
      → ((k' : Kmem) × (kfree end pa k ≡ some k') × Holds end k' (pa ∷ xs) × IsPage end pa)
        ⊎ ((kfree end pa k ≡ none) × ((pa % page_size ≢ 0) ⊎ ((pa < end) ⊎ (phystop ≤ pa))))
  unfolding kfree
  kfree_lem pa k xs pos l out =
      elim (Bool-cases (not (pa % page_size == 0) || ltb pa end || leb phystop pa)) [
        | inl bad ↦ inr (rw (bad, kfree), why bad)
        | inr good ↦
            let page : IsPage end pa = ground arith in
            inl (
              record { mem = update (fill pa freed_junk k.mem) pa k.freelist; freelist = pa },
              rw (good, kfree),
              (
                refl,
                page,
                out,
                frame k.mem (update (fill pa freed_junk k.mem) pa k.freelist) pa
                    (update (fill pa freed_junk k.mem) pa k.freelist pa) xs page.0
                    (λ a away. ground arith) out (rw (here k) l),
              ),
              page,
            )
      ]
    where
      why :
          (not (pa % page_size == 0) || ltb pa end || leb phystop pa) ≡ true
          → (pa % page_size ≢ 0) ⊎ ((pa < end) ⊎ (phystop ≤ pa))
      why bad = elim (ℕ_discrete (pa % page_size) 0) [
        | no ne ↦ inl ne
        | yes e ↦ elim (dec_le phystop pa) [ yes h ↦ inr (inr h) | no h ↦ inr (inl (ground arith)) ]
      ]

      here : (k : Kmem) → update (fill pa freed_junk k.mem) pa k.freelist pa ≡ k.freelist
      here k = ground arith

  -- `kalloc` takes the first page off the list and fills it with junk, every word of it; the other
  -- pages stay on the list and no word outside the page changes. On an empty list it answers 0 and
  -- changes nothing.
  pub kalloc_lem :
      (k : Kmem) (x : ℕ) (xs : List ℕ)
      → Holds end k (x ∷ xs)
      → let (r, k') = kalloc k in
        (r ≡ x)
        × IsPage end r
        × Holds end k' xs
        × ((a : ℕ) → k'.mem a ≡ (if within x (x + page_size) a then alloc_junk else k.mem a))
  unfolding kalloc
  kalloc_lem k x xs (e, page, fresh, rest) =
      let some' : (k.freelist == 0) ≡ false = ground arith in
      let next : k.mem k.freelist ≡ k.mem x = ap k.mem e in
      rw (some', kalloc)
        (
          e,
          rw e page,
          frame k.mem (fill k.freelist alloc_junk k.mem) x (k.mem k.freelist) xs page.0
              (λ a away. ground (arith, e)) fresh (rw next rest),
          λ a. ground (arith, e),
        )
