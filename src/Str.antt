-- ===== src/Str.antt =====
-- kernel/string.c. `memset` and `memmove` act on a memory of bytes by address; the other functions
-- walk arrays that the C standard wants distinct, so each array is its bytes by their index. A
-- pointer that a loop moves is the index that it has reached.
pub mod Copy
pub mod Compare
mod Tests
use assignment.Common.{
  ℕ, zero, suc, ◌+◌, ◌-◌, ◌%◌, ◌^◌, ◌==◌, Bool, true, false, not, ◌&&◌, ◌||◌, ltb, leb,
  if◌then◌else◌, update,
}
use assignment.Common.Int.{ℤ, sub_ℕ}

-- Bytes by address, or by index.
abbrev pub Bytes : Type 0
Bytes = ℕ → ℕ

-- `for(i = 0; i < n; i++) cdst[i] = c`, from i on: a `char` keeps the low byte of `c`.
unfoldable pub memset_from : (rounds i dst c : ℕ) → Bytes → Bytes
memset_from zero i dst c mem = mem
memset_from (suc k) i dst c mem = memset_from k (i + 1) dst c (update mem (dst + i) (c % 2 ^ 8))

unfoldable pub memset : (dst c n : ℕ) → Bytes → Bytes
unfolding memset_from
memset dst c n mem = memset_from n 0 dst c mem

-- `while(n-- > 0) *--d = *--s`
unfoldable pub move_down : (n d s : ℕ) → Bytes → Bytes
move_down zero d s mem = mem
move_down (suc n) d s mem = move_down n (d - 1) (s - 1) (update mem (d - 1) (mem (s - 1)))

-- `while(n-- > 0) *d++ = *s++`
unfoldable pub move_up : (n d s : ℕ) → Bytes → Bytes
move_up zero d s mem = mem
move_up (suc n) d s mem = move_up n (d + 1) (s + 1) (update mem d (mem s))

unfoldable pub memmove : (dst src n : ℕ) → Bytes → Bytes
unfolding move_down move_up
memmove dst src n mem =
    if n == 0
    then mem
    else if ltb src dst && ltb dst (src + n)
    then move_down n (dst + n) (src + n) mem
    else move_up n dst src mem

-- The bytes are `uchar`s.
unfoldable pub memcmp_from : (n i : ℕ) → (s₁ s₂ : Bytes) → ℤ
memcmp_from zero i s₁ s₂ = sub_ℕ 0 0
memcmp_from (suc n) i s₁ s₂ =
    if s₁ i == s₂ i then memcmp_from n (i + 1) s₁ s₂ else sub_ℕ (s₁ i) (s₂ i)

unfoldable pub memcmp : (v₁ v₂ : Bytes) → ℕ → ℤ
unfolding memcmp_from
memcmp v₁ v₂ n = memcmp_from n 0 v₁ v₂

unfoldable pub strncmp_from : (n i : ℕ) → (p q : Bytes) → ℤ
strncmp_from zero i p q = sub_ℕ 0 0
strncmp_from (suc n) i p q =
    if not (p i == 0) && (p i == q i) then strncmp_from n (i + 1) p q else sub_ℕ (p i) (q i)

unfoldable pub strncmp : (p q : Bytes) → ℕ → ℤ
unfolding strncmp_from
strncmp p q n = strncmp_from n 0 p q

-- `while(n-- > 0) *s++ = 0`
unfoldable pub pad : (n i : ℕ) → Bytes → Bytes
pad zero i s = s
pad (suc n) i s = pad n (i + 1) (update s i 0)

-- `while(n-- > 0 && (*s++ = *t++) != 0)`, and the padding behind it.
unfoldable pub strncpy_from : (n i : ℕ) → (s t : Bytes) → Bytes
unfolding pad
strncpy_from zero i s t = s
strncpy_from (suc n) i s t =
    let s' = update s i (t i) in
    let rest = strncpy_from n (i + 1) s' t in if t i == 0 then pad n (i + 1) s' else rest

unfoldable pub strncpy : (s t : Bytes) → ℕ → Bytes
unfolding strncpy_from
strncpy s t n = strncpy_from n 0 s t

-- `while(--n > 0 && (*s++ = *t++) != 0)` with n - 1 rounds left, and `*s = 0`.
unfoldable pub safestrcpy_from : (rounds i : ℕ) → (s t : Bytes) → Bytes
safestrcpy_from zero i s t = update s i 0
safestrcpy_from (suc k) i s t =
    let s' = update s i (t i) in
    let rest = safestrcpy_from k (i + 1) s' t in if t i == 0 then update s' (i + 1) 0 else rest

unfoldable pub safestrcpy : (s t : Bytes) → ℕ → Bytes
unfolding safestrcpy_from
safestrcpy s t n = if n == 0 then s else safestrcpy_from (n - 1) 0 s t

-- `for(n = 0; s[n]; n++)` for at most `fuel` rounds.
unfoldable pub strlen_from : (fuel n : ℕ) → Bytes → ℕ
strlen_from zero n s = n
strlen_from (suc k) n s = let rest = strlen_from k (n + 1) s in if s n == 0 then n else rest
