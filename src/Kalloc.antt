-- ===== src/Kalloc.antt =====
-- kernel/kalloc.c: the allocator of physical pages. Memory is its 64-bit words by their address; the
-- free pages form a list through the word at the start of each.
pub mod Pages
mod Tests
use assignment.Common.{
  ℕ, zero, suc, ◌+◌, ◌-◌, ◌*◌, ◌/◌, ◌%◌, ◌==◌, Bool, true, false, not, ◌||◌, Option, none, some,
  ltb, leb, within, if◌then◌else◌, update,
}

abbrev pub page_size : ℕ
page_size = 4096

-- memlayout.h
abbrev pub phystop : ℕ
phystop = 0x8000_0000 + 128 * 1024 * 1024

-- The memory, and `kmem.freelist`.
pub record Kmem : Type 0 where
  pub mem : ℕ → ℕ
  pub freelist : ℕ

-- `memset(pa, c, PGSIZE)`, by words: eight bytes `c` make the word `w`.
unfoldable pub fill : (pa w : ℕ) → (ℕ → ℕ) → ℕ → ℕ
fill pa w mem a = if within pa (pa + page_size) a then w else mem a

-- Eight bytes 1 and eight bytes 5.
abbrev pub freed_junk : ℕ
freed_junk = 0x0101_0101_0101_0101

abbrev pub alloc_junk : ℕ
alloc_junk = 0x0505_0505_0505_0505

-- `end` is the first address after the kernel, which the linker script sets.
module _ (end : ℕ) where
  -- None is a panic.
  unfoldable pub kfree : ℕ → Kmem → Option Kmem
  unfolding fill
  kfree pa k =
      if not (pa % page_size == 0) || ltb pa end || leb phystop pa
      then none
      else some (record { mem = update (fill pa freed_junk k.mem) pa k.freelist; freelist = pa })

  -- The loop of `freerange` from `p` on, for at most `fuel` pages.
  unfoldable pub freerange_from : (fuel p pa_end : ℕ) → Kmem → Option Kmem
  freerange_from zero p pa_end k = some k
  freerange_from (suc n) p pa_end k = elim (leb (p + page_size) pa_end) [
    | false ↦ some k
    | true ↦ elim (kfree p k) [ none ↦ none | some k' ↦ freerange_from n (p + page_size) pa_end k' ]
  ]

  -- `PGROUNDUP`
  abbrev pub pg_round_up : ℕ → ℕ
  pg_round_up a = (a + page_size - 1) / page_size * page_size

  unfoldable pub freerange : (pa_start pa_end : ℕ) → Kmem → Option Kmem
  unfolding freerange_from kfree
  freerange pa_start pa_end k = freerange_from (pa_end / page_size) (pg_round_up pa_start) pa_end k

  unfoldable pub kinit : (ℕ → ℕ) → Option Kmem
  unfolding freerange
  kinit mem = freerange end phystop (record { mem = mem; freelist = 0 })

-- The page, or 0.
unfoldable pub kalloc : Kmem → ℕ × Kmem
unfolding fill
kalloc k = if k.freelist == 0 then (0, k) else (
  k.freelist,
  record { mem = fill k.freelist alloc_junk k.mem; freelist = k.mem k.freelist },
)
