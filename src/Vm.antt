-- ===== src/Vm.antt =====
-- kernel/vm.c: three-level page tables in the memory of kernel/kalloc.c. A page table is the address
-- of its page, entry i of it the word at that address plus 8 * i; an entry is a number of 64 bits.
pub mod User
pub mod Copy
pub mod Tree
pub mod View
pub mod Map
pub mod Space
pub mod Update
pub mod Range
mod Tests
use assignment.Common.{
  ℕ, zero, suc, ◌+◌, ◌-◌, ◌*◌, ◌/◌, ◌%◌, ◌^◌, ◌==◌, Bool, true, false, not, ◌&&◌, ◌||◌, Option,
  none, some, ltb, leb, if◌then◌else◌, update,
}
use assignment.Kalloc.{Kmem, page_size, fill, kfree, kalloc}

-- `MAXVA`
abbrev pub maxva : ℕ
maxva = 2 ^ 38

-- `PX(level, va)`
abbrev pub px : (level va : ℕ) → ℕ
px level va = va / 2 ^ (12 + 9 * level) % 512

-- `PTE2PA`, `PA2PTE`, and the bits PTE_V and PTE_U.
abbrev pub pte2pa : ℕ → ℕ
pte2pa pte = pte / 1024 * 4096

abbrev pub pa2pte : ℕ → ℕ
pa2pte pa = pa / 4096 * 1024

abbrev pub is_valid : ℕ → Bool
is_valid pte = pte % 2 == 1

abbrev pub is_user : ℕ → Bool
is_user pte = pte / 16 % 2 == 1

-- `PTE_FLAGS`
abbrev pub pte_flags : ℕ → ℕ
pte_flags pte = pte % 1024

-- `PA2PTE(pa) | perm | PTE_V`, for a perm of 10 bits.
abbrev pub make_pte : (pa perm : ℕ) → ℕ
make_pte pa perm = pa2pte pa + (perm / 2 * 2 + 1)

-- `PGROUNDDOWN`
abbrev pub pg_round_down : ℕ → ℕ
pg_round_down a = a / page_size * page_size

-- A new page, zeroed, behind the entry at `pte`.
abbrev pub hang : (pte page : ℕ) → Kmem → Kmem
hang pte page k = record k { mem = update (fill page 0 k.mem) pte (make_pte page 0) }

-- The loop of `walk` from a level down: the address of the entry, or 0.
unfoldable pub walk_from : (level : ℕ) (alloc : Bool) (pagetable va : ℕ) → Kmem → ℕ × Kmem
walk_from zero alloc pagetable va k = (pagetable + 8 * px 0 va, k)
walk_from (suc l) alloc pagetable va k =
    let pte = pagetable + 8 * px (suc l) va in
    elim (is_valid (k.mem pte)) [
      | true ↦ walk_from l alloc (pte2pa (k.mem pte)) va k
      | false ↦ elim alloc [
        | false ↦ (0, k)
        | true ↦
            let r = kalloc k in
            elim (r.0 == 0) [ true ↦ (0, r.1) | false ↦ walk_from l true r.0 va (hang pte r.0 r.1) ]
      ]
    ]

-- None is the panic.
unfoldable pub walk : (pagetable va : ℕ) (alloc : Bool) → Kmem → Option (ℕ × Kmem)
walk pagetable va alloc k = if leb maxva va then none else some (walk_from 2 alloc pagetable va k)

-- The tests of `walkaddr` on the entry at `pte`.
abbrev pub user_page : (pte : ℕ) → Kmem → ℕ
user_page pte k =
    if pte == 0
    then 0
    else if not (is_valid (k.mem pte))
    then 0
    else if not (is_user (k.mem pte))
    then 0
    else pte2pa (k.mem pte)

-- A walk that does not allocate leaves the memory as it is.
unfoldable pub walkaddr : (pagetable va : ℕ) → Kmem → ℕ
unfolding walk_from
walkaddr pagetable va k =
    if leb maxva va then 0 else user_page (walk_from 2 false pagetable va k).0 k

-- The loop of `mappages`: true is 0, false is -1, none a panic. It ends at `last`, or by the panic of
-- `walk` at MAXVA.
unfoldable pub map_from : (rounds pagetable a last pa perm : ℕ) → Kmem → Option (Bool × Kmem)
map_from zero pagetable a last pa perm k = none
map_from (suc n) pagetable a last pa perm k = elim (walk pagetable a true k) [
  | none ↦ none
  | some (pte, k') ↦ elim (pte == 0) [
    | true ↦ some (false, k')
    | false ↦ elim (is_valid (k'.mem pte)) [
      | true ↦ none
      | false ↦
          let done = record k' { mem = update k'.mem pte (make_pte pa perm) } in
          elim (a == last) [
            | true ↦ some (true, done)
            | false ↦ map_from n pagetable (a + page_size) last (pa + page_size) perm done
          ]
    ]
  ]
]

-- `va + size - 1` is a `uint64`.
unfoldable pub mappages : (pagetable va size pa perm : ℕ) → Kmem → Option (Bool × Kmem)
unfolding map_from
mappages pagetable va size pa perm k =
    if size == 0
    then none
    else map_from (maxva / page_size + 1) pagetable (pg_round_down va)
        (pg_round_down ((va + size - 1) % 2 ^ 64)) pa perm k

-- `kvmmap`: none is its panic, and those of `mappages`.
unfoldable pub kvmmap : (kpgtbl va pa sz perm : ℕ) → Kmem → Option Kmem
unfolding mappages
kvmmap kpgtbl va pa sz perm k = elim (mappages kpgtbl va sz pa perm k) [
  | none ↦ none
  | some (ok, k') ↦ if ok then some k' else none
]

-- `end` is the first address after the kernel, as in kernel/kalloc.c.
module _ (end : ℕ) where
  -- The loop of `uvmunmap` from `a` on.
  unfoldable pub unmap_from : (npages pagetable a : ℕ) (do_free : Bool) → Kmem → Option Kmem
  unmap_from zero pagetable a do_free k = some k
  unmap_from (suc n) pagetable a do_free k = elim (walk pagetable a false k) [
    | none ↦ none
    | some (pte, k') ↦
        if pte == 0 || not (is_valid (k'.mem pte)) || (pte_flags (k'.mem pte) == 1)
        then none
        else (elim (if do_free then kfree end (pte2pa (k'.mem pte)) k' else some k') [
          | none ↦ none
          | some k'' ↦
              unmap_from n pagetable (a + page_size) do_free
                (record k'' { mem = update k''.mem pte 0 })
        ])
  ]

  unfoldable pub uvmunmap : (pagetable va npages : ℕ) (do_free : Bool) → Kmem → Option Kmem
  unfolding unmap_from
  uvmunmap pagetable va npages do_free k =
      if not (va % page_size == 0) then none else unmap_from npages pagetable va do_free k
