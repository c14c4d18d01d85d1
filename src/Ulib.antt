-- ===== src/Ulib.antt =====
-- user/ulib.c. A C string is the list of its bytes before the NUL; an array that a function writes is
-- its bytes by their index. A `char` is unsigned on this machine.
pub mod Laws
mod Tests
use assignment.Common.{
  ℕ, zero, suc, ◌+◌, ◌-◌, ◌*◌, ◌%◌, ◌^◌, ◌==◌, Bool, true, false, not, ◌&&◌, ◌||◌, Option, none,
  some, List, [], ◌∷◌, ltb, leb, if◌then◌else◌, update,
}
use assignment.Common.Int.{ℤ, sub_ℕ, signed}
use assignment.Str.{Bytes, move_up, move_down}

abbrev pub CString : Type 0
CString = List ℕ

-- The byte that a pointer to a string reads.
abbrev pub first : CString → ℕ
first [] = 0
first (c ∷ _) = c

-- `while((*s++ = *t++) != 0)` from index i of s on.
unfoldable pub strcpy_from : (t : CString) (i : ℕ) → Bytes → Bytes
strcpy_from [] i s = update s i 0
strcpy_from (c ∷ t) i s = strcpy_from t (i + 1) (update s i c)

unfoldable pub strcpy : Bytes → CString → Bytes
unfolding strcpy_from
strcpy s t = strcpy_from t 0 s

unfoldable pub strcmp : CString → CString → ℤ
strcmp [] q = sub_ℕ 0 (first q)
strcmp (c ∷ p) [] = sub_ℕ c 0
strcmp (c ∷ p) (d ∷ q) = if c == d then strcmp p q else sub_ℕ c d

-- `for(n = 0; s[n]; n++)`
unfoldable pub strlen_from : (n : ℕ) → CString → ℕ
strlen_from n [] = n
strlen_from n (_ ∷ s) = strlen_from (n + 1) s

unfoldable pub strlen : CString → ℕ
unfolding strlen_from
strlen s = strlen_from 0 s

-- The string from the byte on; none is the null pointer.
unfoldable pub strchr : CString → ℕ → Option CString
strchr [] c = none
strchr (d ∷ s) c = if d == c then some (d ∷ s) else strchr s c

-- `'\n'` and `'\r'`
abbrev pub ends_line : ℕ → Bool
ends_line c = (c == 10) || (c == 13)

-- The loop of `gets` with max - 1 - i rounds left; the bytes that `read` will deliver one by one are a
-- list, and an empty one is the end of the file. It gives the index reached.
unfoldable pub gets_from : (rounds i : ℕ) (input : List ℕ) → Bytes → ℕ × (List ℕ × Bytes)
gets_from zero i input buf = (i, (input, buf))
gets_from (suc n) i [] buf = (i, ([], buf))
gets_from (suc n) i (c ∷ input) buf =
    let buf' = update buf i c in
    let rest = gets_from n (i + 1) input buf' in
    if ends_line c then (i + 1, (input, buf')) else rest

unfoldable pub gets : (max : ℕ) (input : List ℕ) → Bytes → List ℕ × Bytes
unfolding gets_from
gets max input buf = let r = gets_from (max - 1) 0 input buf in (r.1.0, update r.1.1 r.0 0)

abbrev pub is_digit : ℕ → Bool
is_digit c = leb 48 c && leb c 57

-- The loop of `atoi`, in 32 bits.
unfoldable pub atoi_from : (n : ℕ) → CString → ℕ
atoi_from n [] = n
atoi_from n (c ∷ s) =
    let rest = atoi_from ((n * 10 + c + 2 ^ 32 - 48) % 2 ^ 32) s in if is_digit c then rest else n

unfoldable pub atoi : CString → ℤ
unfolding atoi_from
atoi s = signed 31 (atoi_from 0 s)

-- Its loops are those of the kernel's, under another test.
unfoldable pub memmove : (vdst vsrc n : ℕ) → Bytes → Bytes
unfolding move_up move_down
memmove vdst vsrc n mem =
    if ltb vdst vsrc then move_up n vdst vsrc mem else move_down n (vdst + n) (vsrc + n) mem

unfoldable pub memcmp_from : (n i : ℕ) → (s₁ s₂ : Bytes) → ℤ
memcmp_from zero i s₁ s₂ = sub_ℕ 0 0
memcmp_from (suc n) i s₁ s₂ =
    let rest = memcmp_from n (i + 1) s₁ s₂ in
    if not (s₁ i == s₂ i) then sub_ℕ (s₁ i) (s₂ i) else rest

unfoldable pub memcmp : (s₁ s₂ : Bytes) → ℕ → ℤ
unfolding memcmp_from
memcmp s₁ s₂ n = memcmp_from n 0 s₁ s₂

unfoldable pub memcpy : (dst src n : ℕ) → Bytes → Bytes
unfolding memmove
memcpy dst src n mem = memmove dst src n mem
