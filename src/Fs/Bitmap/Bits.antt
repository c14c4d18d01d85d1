-- ===== src/Fs/Bitmap/Bits.antt =====
-- One bit of a byte set or cleared, and the bits of a bitmap block of kernel/fs.c.
use assignment.Common.{
  ℕ, zero, suc, ◌+◌, ◌-◌, ◌/◌, ◌%◌, ◌^◌, ◌<◌, ◌≡◌, ◌≢◌, inl, inr, ◌==◌, true, false, update,
  Bool-cases, arith,
}
use assignment.Fs.Types.{Block}
use assignment.Fs.Bitmap.{is_free, set_bit, clear_bit}

abbrev AllBits : (ℕ → Type 0) → Type 0
AllBits P = P 0 × P 1 × P 2 × P 3 × P 4 × P 5 × P 6 × P 7

all_bits : (P : ℕ → Type 0) → AllBits P → (k : ℕ) → k < 8 → P k
all_bits P h zero lt = h.0
all_bits P h (suc zero) lt = h.1
all_bits P h (suc (suc zero)) lt = h.2
all_bits P h (suc (suc (suc zero))) lt = h.3
all_bits P h (suc (suc (suc (suc zero)))) lt = h.4
all_bits P h (suc (suc (suc (suc (suc zero))))) lt = h.5
all_bits P h (suc (suc (suc (suc (suc (suc zero)))))) lt = h.6
all_bits P h (suc (suc (suc (suc (suc (suc (suc zero))))))) lt = h.7
all_bits P h (suc (suc (suc (suc (suc (suc (suc (suc k)))))))) lt = absurd (omega arith)

abbrev Adds : ℕ → Type 0
Adds k =
    (v : ℕ)
    → v / 2 ^ k % 2 ≡ 0
    → ((v + 2 ^ k) / 2 ^ k % 2 ≡ 1) × AllBits (λ l. l ≢ k → (v + 2 ^ k) / 2 ^ l % 2 ≡ v / 2 ^ l % 2)

add_bits : (k : ℕ) → k < 8 → Adds k
add_bits = all_bits Adds (
  (λ v e. ground arith),
  (λ v e. ground arith),
  (λ v e. ground arith),
  (λ v e. ground arith),
  (λ v e. ground arith),
  (λ v e. ground arith),
  (λ v e. ground arith),
  (λ v e. ground arith),
)

abbrev Subtracts : ℕ → Type 0
Subtracts k =
    (v : ℕ)
    → v / 2 ^ k % 2 ≡ 1
    → ((v - 2 ^ k) / 2 ^ k % 2 ≡ 0) × AllBits (λ l. l ≢ k → (v - 2 ^ k) / 2 ^ l % 2 ≡ v / 2 ^ l % 2)

subtract_bits : (k : ℕ) → k < 8 → Subtracts k
subtract_bits = all_bits Subtracts (
  (λ v e. ground arith),
  (λ v e. ground arith),
  (λ v e. ground arith),
  (λ v e. ground arith),
  (λ v e. ground arith),
  (λ v e. ground arith),
  (λ v e. ground arith),
  (λ v e. ground arith),
)

lt_mod : (i : ℕ) → i % 8 < 8
lt_mod i = omega arith

-- A byte changed so that bit k is as asked and the others are as before.
module _ (d : Block) (i w c : ℕ) (at : w / 2 ^ (i % 8) % 2 ≡ c)
    (others : (l : ℕ) → l < 8 → l ≢ i % 8 → w / 2 ^ l % 2 ≡ d (i / 8) / 2 ^ l % 2) where
  is_free-update_self : is_free (update d (i / 8) w) i ≡ (c == 0)
  is_free-update_self = let hit : (i / 8 == i / 8) ≡ true = ground arith in rw (hit, at)

  is_free-update_ne : (j : ℕ) → i ≢ j → is_free (update d (i / 8) w) j ≡ is_free d j
  is_free-update_ne j ne = elim (Bool-cases (i / 8 == j / 8)) [
    | inr miss ↦ rw miss
    | inl hit ↦
        let e : i / 8 ≡ j / 8 = ground arith in
        let ne' : j % 8 ≢ i % 8 = λ x. ne (omega arith) in
        rw (hit, others (j % 8) (lt_mod j) ne', e)
  ]

-- Allocation sets the bit of a free block and no other.
pub is_free-set_bit_self :
    (d : Block) (i : ℕ) → is_free d i ≡ true → is_free (set_bit d i) i ≡ false
is_free-set_bit_self d i free =
    let e : d (i / 8) / 2 ^ (i % 8) % 2 ≡ 0 = ground arith in
    let r = add_bits (i % 8) (lt_mod i) (d (i / 8)) e in
    is_free-update_self d i (d (i / 8) + 2 ^ (i % 8)) 1 r.0 (all_bits _ r.1)

pub is_free-set_bit_ne :
    (d : Block) (i j : ℕ) → is_free d i ≡ true → i ≢ j → is_free (set_bit d i) j ≡ is_free d j
is_free-set_bit_ne d i j free ne =
    let e : d (i / 8) / 2 ^ (i % 8) % 2 ≡ 0 = ground arith in
    let r = add_bits (i % 8) (lt_mod i) (d (i / 8)) e in
    is_free-update_ne d i (d (i / 8) + 2 ^ (i % 8)) 1 r.0 (all_bits _ r.1) j ne

-- Freeing clears the bit of a block in use and no other.
pub is_free-clear_bit_self :
    (d : Block) (i : ℕ) → is_free d i ≡ false → is_free (clear_bit d i) i ≡ true
is_free-clear_bit_self d i used =
    let e : d (i / 8) / 2 ^ (i % 8) % 2 ≡ 1 = ground arith in
    let r = subtract_bits (i % 8) (lt_mod i) (d (i / 8)) e in
    is_free-update_self d i (d (i / 8) - 2 ^ (i % 8)) 0 r.0 (all_bits _ r.1)

pub is_free-clear_bit_ne :
    (d : Block) (i j : ℕ) → is_free d i ≡ false → i ≢ j → is_free (clear_bit d i) j ≡ is_free d j
is_free-clear_bit_ne d i j used ne =
    let e : d (i / 8) / 2 ^ (i % 8) % 2 ≡ 1 = ground arith in
    let r = subtract_bits (i % 8) (lt_mod i) (d (i / 8)) e in
    is_free-update_ne d i (d (i / 8) - 2 ^ (i % 8)) 0 r.0 (all_bits _ r.1) j ne
