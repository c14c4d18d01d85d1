-- ===== src/Pipe/Ring.antt =====
-- The bytes that a pipe of kernel/pipe.c holds, as a queue.
use assignment.Common.{
  ℕ, zero, suc, ◌+◌, ◌-◌, ◌%◌, ◌^◌, ◌≤◌, ◌<◌, ◌==◌, ◌≡◌, ◌≢◌, ◌∙◌, refl, ap, List, [], ◌∷◌, ◌++◌,
  length, update, arith,
}
use assignment.Pipe.{Pipe, pipe_size, add_uint, put, advance, next_byte}

-- `n` bytes from counter r on.
abbrev pub window : (ℕ → ℕ) → ℕ → ℕ → List ℕ
window d r zero = []
window d r (suc n) = d (r % pipe_size) ∷ window d (add_uint r 1) n

-- `nwrite - nread` in 32 bits.
abbrev pub held : Pipe → ℕ
held pi = (pi.nwrite + 2 ^ 32 - pi.nread) % 2 ^ 32

abbrev pub contents : Pipe → List ℕ
contents pi = window pi.data' pi.nread (held pi)

pub record IsValid (pi : Pipe) : Type 0 where
  pub read_fits : pi.nread < 2 ^ 32
  pub write_fits : pi.nwrite < 2 ^ 32
  pub bounded : held pi ≤ pipe_size

pub length-window : (d : ℕ → ℕ) (r n : ℕ) → length (window d r n) ≡ n
length-window d r zero = refl
length-window d r (suc n) = ap suc (length-window d (add_uint r 1) n)

-- A write just past a window extends it.
window-extend :
    (d : ℕ → ℕ) (r n ch : ℕ)
    → r < 2 ^ 32
    → n < pipe_size
    → window (update d ((r + n) % 2 ^ 32 % pipe_size) ch) r (suc n) ≡ window d r n ++ (ch ∷ [])
window-extend d r zero ch hr hn =
    let here : (r + 0) % 2 ^ 32 % pipe_size ≡ r % pipe_size = omega arith in ground (arith, here)
window-extend d r (suc n) ch hr hn =
    let apart : (r + suc n) % 2 ^ 32 % pipe_size ≢ r % pipe_size = omega arith in
    let shift : (r + suc n) % 2 ^ 32 % pipe_size ≡ (add_uint r 1 + n) % 2 ^ 32 % pipe_size =
      omega arith in
    let rest : window (update d ((r + suc n) % 2 ^ 32 % pipe_size) ch) (add_uint r 1) (suc n)
        ≡ window d (add_uint r 1) n ++ (ch ∷ []) =
      ap (λ x. window (update d x ch) (add_uint r 1) (suc n)) shift
      ∙ window-extend d (add_uint r 1) n ch (omega arith) (omega arith) in
    ap (λ x. x ∷ window (update d ((r + suc n) % 2 ^ 32 % pipe_size) ch) (add_uint r 1) (suc n))
      (ground (arith, apart))
    ∙ ap (λ l. d (r % pipe_size) ∷ l) rest

module _ (pi : Pipe) (v : IsValid pi) where
  -- The test of `pipewrite` for a full pipe is exact, wrapped counters included.
  pub full_iff : (pi.nwrite == add_uint pi.nread pipe_size) ≡ (held pi == pipe_size)
  full_iff = ground (arith, v.read_fits, v.write_fits)

  -- So is that of `piperead` for an empty one.
  pub empty_iff : (pi.nread == pi.nwrite) ≡ (held pi == 0)
  empty_iff = ground (arith, v.read_fits, v.write_fits)

  -- Storing a byte in a pipe that is not full appends it.
  pub put_lem :
      (ch : ℕ)
      → held pi < pipe_size
      → IsValid (put ch pi) × (contents (put ch pi) ≡ contents pi ++ (ch ∷ []))
  unfolding put
  put_lem ch room =
      let more : held (put ch pi) ≡ suc (held pi) = omega (arith, v.read_fits, v.write_fits) in
      let at : pi.nwrite % pipe_size ≡ (pi.nread + held pi) % 2 ^ 32 % pipe_size =
        omega (arith, v.read_fits, v.write_fits) in
      (
        record { read_fits = v.read_fits; write_fits = omega arith; bounded = omega (arith, more) },
        ap (window (put ch pi).data' pi.nread) more
            ∙ ap (λ x. window (update pi.data' x ch) pi.nread (suc (held pi))) at
            ∙ window-extend pi.data' pi.nread (held pi) ch v.read_fits room,
      )

  -- Reading takes the first byte.
  pub advance_lem :
      held pi ≢ 0 → IsValid (advance pi) × (contents pi ≡ next_byte pi ∷ contents (advance pi))
  unfolding advance
  advance_lem some' =
      let less : held pi ≡ suc (held (advance pi)) = omega (arith, v.read_fits, v.write_fits) in
      (
        record {
          read_fits = omega arith;
          write_fits = v.write_fits;
          bounded = omega (arith, v.bounded, less);
        },
        ap (window pi.data' pi.nread) less,
      )
