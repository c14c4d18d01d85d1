-- ===== src/Console/Line.antt =====
-- What the interrupt handler of kernel/console.c may do to the input, and what a read takes of it.
use assignment.Common.{
  ℕ, zero, suc, ◌+◌, ◌%◌, ◌^◌, ◌<◌, ◌≤◌, ◌≡◌, ◌≢◌, ◌⊎◌, inl, inr, ◌==◌, Bool, true, Option, ◌∙◌,
  refl, ltb, Bool-cases, Option-cases, arith,
}
use assignment.Console.{
  input_buf_size, ctrl, Cons, sub_uint, next_uint, ReadEnd, failed, read, asleep, read_from,
  consoleread,
}

-- The bytes of whole lines, and those with the line being edited.
abbrev pub committed : Cons → ℕ
committed c = sub_uint c.w c.r

abbrev pub pending : Cons → ℕ
pending c = sub_uint c.e c.r

pub record IsEditing (c : Cons) : Type 0 where
  pub read_fits : c.r < 2 ^ 32
  pub write_fits : c.w < 2 ^ 32
  pub edit_fits : c.e < 2 ^ 32
  pub ordered : committed c ≤ pending c
  pub bounded : pending c ≤ input_buf_size

-- The handler leaves the committed bytes where they are, and commits the whole line or nothing.
pub record Edits (c c' : Cons) : Type 0 where
  pub still : c'.r ≡ c.r
  pub kept :
      (j : ℕ)
      → j < committed c
      → c'.buf ((c.r + j) % input_buf_size) ≡ c.buf ((c.r + j) % input_buf_size)
  pub commits : (c'.w ≡ c.w) ⊎ (c'.w ≡ c'.e)

-- What a run of `consoleread` that wants n bytes of `target` took, and how it stopped.
abbrev pub Stops : (killed : Bool) (target n taken left : ℕ) → ReadEnd → Type 0
Stops killed target n taken left failed = (killed ≡ true) × (left ≡ 0)
Stops killed target n taken left (asleep n' dst) = (taken + n' ≡ n) × (1 ≤ n') × (left ≡ 0)
Stops killed target n taken left (read m) =
    (m ≤ target) × (target ≤ m + n) × (target + taken ≤ m + n + 1) × (m + n ≤ target + taken)

abbrev pub Takes :
    {M : Type 0} (killed : Bool) (target n : ℕ) (c : Cons) → Cons × M × ReadEnd → Type 0
Takes killed target n c (c', m, end) =
    (taken : ℕ) × IsEditing c'
    × (committed c ≡ taken + committed c')
    × (c'.r ≡ (c.r + taken) % 2 ^ 32)
    × (c'.buf ≡ c.buf)
    × (c'.w ≡ c.w)
    × (c'.e ≡ c.e)
    × Stops killed target n taken (committed c') end

module _ (M : Type 0) (copyout : ℕ → ℕ → M → Option M) (killed : Bool) (target : ℕ) where
  Stops-suc :
      (n taken left : ℕ) (end : ReadEnd)
      → Stops killed target n taken left end
      → Stops killed target (suc n) (1 + taken) left end
  Stops-suc n taken left failed h = h
  Stops-suc n taken left (asleep n' dst) h = (omega (arith, h.0), h.1, h.2)
  Stops-suc n taken left (read m) h = omega arith

  read_from-Takes :
      (n dst : ℕ) (c : Cons) (m : M)
      → IsEditing c
      → n ≤ target
      → Takes killed target n c (read_from M copyout killed target n dst c m)
  unfolding read_from
  read_from-Takes zero dst c m v le =
      (0, v, omega arith, omega (arith, v.read_fits), refl, refl, refl, omega arith)
  read_from-Takes (suc k) dst c m v le = elim (Bool-cases (c.r == c.w)) [
    | inl dry ↦ elim (Bool-cases killed) [
      | inl dead ↦
          rw (dry, dead, read_from)
            (0, v, omega arith, omega (arith, v.read_fits), refl, refl, refl, (refl, ground arith))
      | inr live ↦
          rw (dry, live, read_from)
            (
              0,
              v,
              omega arith,
              omega (arith, v.read_fits),
              refl,
              refl,
              refl,
              (omega arith, omega arith, ground arith),
            )
    ]
    | inr more ↦
        let b = c.buf (c.r % input_buf_size) in
        let next : Cons = record c { r = next_uint c.r } in
        let ne : c.r ≢ c.w = ground arith in
        let less : committed c ≡ 1 + committed next = omega (arith, v.read_fits, v.write_fits) in
        let less' : pending c ≡ 1 + pending next =
          omega (arith, less, v.ordered, v.read_fits, v.edit_fits) in
        let v' : IsEditing next = record {
          read_fits = omega arith;
          write_fits = v.write_fits;
          edit_fits = v.edit_fits;
          ordered = omega (arith, less, less', v.ordered);
          bounded = omega (arith, less', v.bounded);
        } in
        elim (Bool-cases (b == ctrl 68)) [
          | inl eof ↦ elim (Bool-cases (ltb (suc k) target)) [
            | inl later ↦
                rw (more, eof, later, read_from)
                  (0, v, omega arith, omega (arith, v.read_fits), refl, refl, refl, omega arith)
            | inr first ↦
                let e : suc k ≡ target = ground arith in
                rw (more, eof, first, read_from) (1, v', less, refl, refl, refl, refl, omega arith)
          ]
          | inr other ↦ elim (Option-cases (copyout dst b m)) [
            | inl fault ↦
                rw (more, other, fault, read_from)
                  (1, v', less, refl, refl, refl, refl, omega arith)
            | inr (m', copied) ↦ elim (Bool-cases (b == 10)) [
              | inl line ↦
                  rw (more, other, copied, line, read_from)
                    (1, v', less, refl, refl, refl, refl, omega arith)
              | inr on ↦
                  let rest = read_from-Takes k (dst + 1) next m' v' (omega arith) in
                  rw (more, other, copied, on, read_from)
                    (
                      1 + rest.0,
                      rest.1,
                      omega (arith, less, rest.2),
                      rest.3 ∙ omega arith,
                      rest.4,
                      rest.5,
                      rest.6,
                      Stops-suc k rest.0
                          (committed (read_from M copyout killed target k (dst + 1) next m').0)
                          (read_from M copyout killed target k (dst + 1) next m').2 rest.7,
                    )
            ]
          ]
        ]
  ]

  -- `consoleread` takes bytes off the committed lines only, and changes nothing else of the input: it
  -- returns no more than was asked for and, but for an end of file or a fault, a byte for each taken.
  -- It sleeps, or fails because the process was killed, only when no committed byte is left.
  pub consoleread_lem :
      (dst : ℕ) (c : Cons) (m : M)
      → IsEditing c
      → Takes killed target target c (consoleread M copyout killed target dst c m)
  unfolding consoleread
  consoleread_lem dst c m v = read_from-Takes target dst c m v (omega arith)
