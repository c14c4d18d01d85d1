-- ===== src/Vm/Tree.antt =====
-- The page tables of kernel/vm.c as a tree: which pages are tables, and for which addresses.
use assignment.Common.{
  ℕ, zero, suc, ◌+◌, ◌*◌, ◌/◌, ◌%◌, ◌^◌, ◌<◌, ◌≡◌, true, ◌∙◌, ap, Option, some, if◌then◌else◌,
  arith,
}
use assignment.Kalloc.{page_size}
use assignment.Vm.{px, pte2pa, is_valid}

-- The part of an address that the tables above level l have used up.
abbrev pub prefix : (l va : ℕ) → ℕ
prefix l va = va / 2 ^ (12 + 9 * suc l)

-- The level of a table and the prefix of its addresses, by its page.
abbrev pub Owner : Type 0
Owner = ℕ → Option (ℕ × ℕ)

-- Tables are pages, and a valid entry of one above level 0 leads to the table of the next level for
-- the longer prefix.
pub record IsTree (own : Owner) (mem : ℕ → ℕ) : Type 0 where
  pub aligned : (q l pre : ℕ) → own q ≡ some (l, pre) → q % page_size ≡ 0
  pub nonzero : (q l pre : ℕ) → own q ≡ some (l, pre) → 0 < q
  pub leads :
      (q l pre i : ℕ)
      → own q ≡ some (suc l, pre)
      → i < 512
      → is_valid (mem (q + 8 * i)) ≡ true
      → own (pte2pa (mem (q + 8 * i))) ≡ some (l, pre * 512 + i)

-- The address of the entry for va below a table of level l, and 0 where there is none; and the entry.
abbrev pub reach : (l pt va : ℕ) → (ℕ → ℕ) → ℕ
reach zero pt va mem = pt + 8 * px 0 va
reach (suc l) pt va mem =
    let pte = mem (pt + 8 * px (suc l) va) in
    if is_valid pte then reach l (pte2pa pte) va mem else 0

abbrev pub lookup : (l pt va : ℕ) → (ℕ → ℕ) → ℕ
lookup zero pt va mem = mem (pt + 8 * px 0 va)
lookup (suc l) pt va mem =
    let pte = mem (pt + 8 * px (suc l) va) in
    if is_valid pte then lookup l (pte2pa pte) va mem else 0

-- Entries of aligned tables do not overlap.
pub same_entry :
    (q i q' i' : ℕ)
    → q % page_size ≡ 0
    → q' % page_size ≡ 0
    → i < 512
    → i' < 512
    → q + 8 * i ≡ q' + 8 * i'
    → (q ≡ q') × (i ≡ i')
same_entry q i q' i' al al' lt lt' e = omega arith

pub px-lt : (l va : ℕ) → px l va < 512
px-lt l va = omega arith

-- The prefix grows by the index.
pub prefix-px : (l va : ℕ) → l < 3 → prefix (suc l) va * 512 + px (suc l) va ≡ prefix l va
prefix-px zero va lt = omega arith
prefix-px (suc zero) va lt = omega arith
prefix-px (suc (suc zero)) va lt = omega arith
prefix-px (suc (suc (suc l))) va lt = absurd (omega arith)

module _ (own : Owner) (mem : ℕ → ℕ) (tree : IsTree own mem) where
  -- One step down a tree.
  pub down :
      (l pt va : ℕ)
      → l < 2
      → own pt ≡ some (suc l, prefix (suc l) va)
      → is_valid (mem (pt + 8 * px (suc l) va)) ≡ true
      → own (pte2pa (mem (pt + 8 * px (suc l) va))) ≡ some (l, prefix l va)
  down l pt va lt e ok =
      tree.leads pt l (prefix (suc l) va) (px (suc l) va) e (px-lt (suc l) va) ok
      ∙ ap (λ x. some (l, x)) (prefix-px l va (omega arith))
