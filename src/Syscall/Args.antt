-- ===== src/Syscall/Args.antt =====
-- What `fetchaddr` and `fetchstr` of kernel/syscall.c accept.
use assignment.Common.{
  ℕ, zero, suc, ◌+◌, ◌-◌, ◌%◌, ◌^◌, ◌<◌, ◌≤◌, ◌≡◌, ◌≢◌, ◌⊎◌, inl, inr, ◌==◌, true, false, ◌||◌, ◌∙◌,
  ap, sym, refl, subst, ltb, leb, within, Bool-cases, arith,
}
use assignment.Common.Int.{pos, negsuc}
use assignment.Str.{Bytes, strlen_from}
use assignment.Vm.Copy.{copyinstr}
use assignment.Vm.Copy.Laws.{Copies, user_byte, copyin-Copies}
use assignment.Vm.Copy.Chunk.{written}
use assignment.Vm.Copy.Strings.{Terminated, Unterminated, copyinstr-StrCopies}
use assignment.Syscall.{Caller, fetchaddr, fetchstr}

-- `fetchaddr`, of a process smaller than 2 ^ 63 bytes: an address whose eight bytes do not lie below the
-- process's size is refused, also where the sum overflows, and the buffer is not touched. Else it is
-- a copy of the eight bytes, which fails only where one is not mapped for the user.
pub fetchaddr-Copies :
    (addr : ℕ) (p : Caller) (ip : Bytes)
    → addr < 2 ^ 64
    → p.sz ≤ 2 ^ 63
    → ((addr + 8 ≤ p.sz) × Copies p.pagetable p.memory 0 addr 8 ip (fetchaddr addr p ip))
      ⊎ ((p.sz < addr + 8) × (fetchaddr addr p ip ≡ (false, ip)))
unfolding fetchaddr
fetchaddr-Copies addr p ip lt small =
    elim (Bool-cases (leb p.sz addr || ltb p.sz ((addr + 8) % 2 ^ 64))) [
      | inl out ↦ inr (ground arith, rw out refl)
      | inr in' ↦ inl (ground arith, rw in' (copyin-Copies p.pagetable p.memory addr 8 ip))
    ]

strlen_from_lem :
    (k n m : ℕ) (s : Bytes)
    → ((j : ℕ) → j < m → s (n + j) ≢ 0)
    → s (n + m) ≡ 0
    → m < k
    → strlen_from k n s ≡ n + m
unfolding strlen_from
strlen_from_lem zero n m s before nul lt = absurd (omega arith)
strlen_from_lem (suc k) n zero s before nul lt =
    let e : n + 0 ≡ n = omega arith in
    let hit : (s n == 0) ≡ true = (let z : s n ≡ 0 = subst (λ i. s i ≡ 0) e nul in ground arith) in
    rw hit (omega arith)
strlen_from_lem (suc k) n (suc m) s before nul lt =
    let e : n + 0 ≡ n = omega arith in
    let miss : (s n == 0) ≡ false =
      (let ne : s n ≢ 0 = subst (λ i. s i ≢ 0) e (before 0 (omega arith)) in ground arith) in
    let e' : n + suc m ≡ n + 1 + m = omega arith in
    rw miss (
      strlen_from_lem k (n + 1) m s
        (λ j lj.
          (let ej : n + suc j ≡ n + 1 + j = omega arith in
            subst (λ i. s i ≢ 0) ej (before (suc j) (omega arith))))
        (subst (λ i. s i ≡ 0) e' nul) (omega arith)
      ∙ (omega arith))

-- Inside the array that `copyinstr` wrote.
read_back : (m : ℕ) (f dst : Bytes) (x : ℕ) → x ≤ m → written 0 (suc m) f dst x ≡ f x
read_back m f dst x le =
    let in' : within 0 (0 + suc m) x ≡ true = ground arith in
    let e : x - 0 ≡ x = omega arith in rw (in', e) refl

-- `fetchstr` returns the length of the user's string, its NUL not counted, if the NUL is among the first
-- max bytes and they are mapped; buf then has the string. Else it returns -1.
pub fetchstr_lem :
    (addr : ℕ) (p : Caller) (buf : Bytes) (max : ℕ)
    → let r = fetchstr addr p buf max in
      ((t : Terminated p.pagetable p.memory 0 addr max buf (true, r.1)) × (r.0 ≡ pos t.length))
      ⊎ (Unterminated p.pagetable p.memory 0 addr max buf (false, r.1) × (r.0 ≡ negsuc 0))
unfolding fetchstr
fetchstr_lem addr p buf max =
    let r = copyinstr p.pagetable addr max p.memory buf in
    elim (copyinstr-StrCopies p.pagetable p.memory addr max buf) [
      | inl t ↦
          let ok = t.code in
          let t' : Terminated p.pagetable p.memory 0 addr max buf (true, r.1) = record {
            code = refl;
            length = t.length;
            short = t.short;
            mapped = t.mapped;
            before = t.before;
            nul = t.nul;
            bytes = t.bytes;
          } in
          let f : Bytes = λ j. user_byte p.pagetable p.memory (addr + j) in
          let len : strlen_from max 0 r.1 ≡ t.length =
            strlen_from_lem max 0 t.length r.1
              (λ j lj.
                (let e₀ : 0 + j ≡ j = omega arith in
                  subst (λ i. r.1 i ≢ 0) (sym e₀)
                    (λ z.
                      t.before j lj
                        (sym (read_back t.length f buf j (omega arith)) ∙ sym (t.bytes j) ∙ z))))
              (let e₀ : 0 + t.length ≡ t.length = omega arith in
                subst (λ i. r.1 i ≡ 0) (sym e₀)
                  (t.bytes t.length ∙ read_back t.length f buf t.length (omega arith) ∙ t.nul))
              t.short
            ∙ (omega arith) in
          rw ok (inl (t', ap pos len))
      | inr u ↦
          let bad = u.code in
          let u' : Unterminated p.pagetable p.memory 0 addr max buf (false, r.1) = record {
            code = refl;
            length = u.length;
            short = u.short;
            mapped = u.mapped;
            before = u.before;
            why = u.why;
            bytes = u.bytes;
          } in
          rw bad (inr (u', refl))
    ]
