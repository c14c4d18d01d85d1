-- ===== src/Kalloc/Tests.antt =====
-- Two free pages, and the theorems about kernel/kalloc.c at them.
use assignment.Common.{ℕ, refl, [], ◌∷◌, arith}
use assignment.Kalloc.{Kmem}
use assignment.Kalloc.Pages.{Holds}

abbrev kernel_end : ℕ
kernel_end = 0x8000_0000

abbrev page_a : ℕ
page_a = 0x8000_1000

abbrev page_b : ℕ
page_b = 0x8000_2000

abbrev one_free : Kmem
one_free = record { mem = λ _. 0; freelist = page_a }

one_free-Holds : Holds kernel_end one_free (page_a ∷ [])
one_free-Holds = (refl, omega arith, tt, refl)
