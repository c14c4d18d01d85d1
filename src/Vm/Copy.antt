-- ===== src/Vm/Copy.antt =====
-- `copyin`, `copyout` and `copyinstr` of kernel/vm.c. The kernel's end of a copy is an array of bytes
-- outside the pages that are mapped for the user and their tables.
pub mod Laws
pub mod Chunk
pub mod Strings
use assignment.Common.{
  ℕ, zero, suc, ◌+◌, ◌-◌, ◌*◌, ◌/◌, ◌%◌, ◌^◌, ◌==◌, Bool, true, false, not, ◌&&◌, ◌||◌, ltb, leb,
  within, if◌then◌else◌, update,
}
use assignment.Kalloc.{Kmem, page_size}
use assignment.Str.{Bytes}
use assignment.Vm.{pg_round_down, walkaddr}

-- The bytes of a memory of words, least significant first.
abbrev pub byte_of : (ℕ → ℕ) → Bytes
byte_of mem x = mem (x / 8 * 8) / 256 ^ (x % 8) % 256

abbrev pub word_of : Bytes → ℕ → ℕ
word_of b a =
    b a
    + 256 * b (a + 1)
    + 256 ^ 2 * b (a + 2)
    + 256 ^ 3 * b (a + 3)
    + 256 ^ 4 * b (a + 4)
    + 256 ^ 5 * b (a + 5)
    + 256 ^ 6 * b (a + 6)
    + 256 ^ 7 * b (a + 7)

-- What `memmove` does between arrays that are distinct.
unfoldable pub move : (dst : ℕ) (src : Bytes) (at n : ℕ) → Bytes → Bytes
move dst src at n mem x = if within dst (dst + n) x then src (at + (x - dst)) else mem x

-- `PGSIZE - (va - va0)`, at most `most`.
abbrev pub chunk : (va most : ℕ) → ℕ
chunk va most = let n = page_size - (va - pg_round_down va) in if ltb most n then most else n

-- The address in the memory of `va` on a page that `walkaddr` found at pa0.
abbrev pub in_page : (pa0 va : ℕ) → ℕ
in_page pa0 va = pa0 + (va - pg_round_down va)

-- The loop of `copyout`; true is 0 and false is -1.
unfoldable pub copyout_from :
    (rounds pagetable dstva : ℕ) (src : Bytes) (at len : ℕ) → Kmem → Bool × Kmem
copyout_from zero pagetable dstva src at len k = (len == 0, k)
copyout_from (suc r) pagetable dstva src at len k =
    let va0 = pg_round_down dstva in
    let pa0 = walkaddr pagetable va0 k in
    let n = chunk dstva len in
    elim (len == 0) [
      | true ↦ (true, k)
      | false ↦ elim (pa0 == 0) [
        | true ↦ (false, k)
        | false ↦
            copyout_from r pagetable (va0 + page_size) src (at + n) (len - n)
              (record k { mem = word_of (move (in_page pa0 dstva) src at n (byte_of k.mem)) })
      ]
    ]

unfoldable pub copyout : (pagetable dstva : ℕ) (src : Bytes) (len : ℕ) → Kmem → Bool × Kmem
unfolding copyout_from
copyout pagetable dstva src len k = copyout_from len pagetable dstva src 0 len k

-- The loop of `copyin`.
unfoldable pub copyin_from : (rounds pagetable at srcva len : ℕ) → Kmem → Bytes → Bool × Bytes
copyin_from zero pagetable at srcva len k dst = (len == 0, dst)
copyin_from (suc r) pagetable at srcva len k dst =
    let va0 = pg_round_down srcva in
    let pa0 = walkaddr pagetable va0 k in
    let n = chunk srcva len in
    elim (len == 0) [
      | true ↦ (true, dst)
      | false ↦ elim (pa0 == 0) [
        | true ↦ (false, dst)
        | false ↦
            copyin_from r pagetable (at + n) (va0 + page_size) (len - n) k
              (move at (byte_of k.mem) (in_page pa0 srcva) n dst)
      ]
    ]

unfoldable pub copyin : (pagetable srcva len : ℕ) → Kmem → Bytes → Bool × Bytes
unfolding copyin_from
copyin pagetable srcva len k dst = copyin_from len pagetable 0 srcva len k dst

-- The state of `copyinstr`: whether it met a NUL, how many bytes are left, how many it has
-- written, and the destination.
pub record StrCopy : Type 0 where
  pub got_null : Bool
  pub max : ℕ
  pub at : ℕ
  pub dst : Bytes

-- `while(n > 0)`
unfoldable pub copy_bytes : (n p : ℕ) (mem : Bytes) → StrCopy → StrCopy
copy_bytes zero p mem s = s
copy_bytes (suc n) p mem s = elim (mem p == 0) [
  | true ↦ record s { got_null = true; dst = update s.dst s.at 0 }
  | false ↦
      copy_bytes n (p + 1) mem
        (record s { max = s.max - 1; at = s.at + 1; dst = update s.dst s.at (mem p) })
]

-- `while(got_null == 0 && max > 0)`
unfoldable pub copyinstr_from : (rounds pagetable srcva : ℕ) → Kmem → StrCopy → Bool × Bytes
unfolding copy_bytes
copyinstr_from zero pagetable srcva k s = (s.got_null, s.dst)
copyinstr_from (suc r) pagetable srcva k s =
    let va0 = pg_round_down srcva in
    let pa0 = walkaddr pagetable va0 k in
    elim (s.got_null || (s.max == 0)) [
      | true ↦ (s.got_null, s.dst)
      | false ↦ elim (pa0 == 0) [
        | true ↦ (false, s.dst)
        | false ↦
            copyinstr_from r pagetable (va0 + page_size) k
              (copy_bytes (chunk srcva s.max) (in_page pa0 srcva) (byte_of k.mem) s)
      ]
    ]

unfoldable pub copyinstr : (pagetable srcva max : ℕ) → Kmem → Bytes → Bool × Bytes
unfolding copyinstr_from
copyinstr pagetable srcva max k dst =
    copyinstr_from (max + 1) pagetable srcva k
      (record { got_null = false; max = max; at = 0; dst = dst })
