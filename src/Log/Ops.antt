-- ===== src/Log/Ops.antt =====
-- The running operations of kernel/log.c, each as the list of the different blocks it has logged.
use assignment.Common.{
  ℕ, ◌+◌, ◌-◌, ◌*◌, ◌≤◌, ◌==◌, ◌||◌, ◌≡◌, ◌≢◌, inl, inr, Bool, true, false, List, [], ◌∷◌, ◌++◌,
  if◌then◌else◌, length, Bool-cases, arith,
}
use assignment.Log.{max_op_blocks}

abbrev pub mem : ℕ → List ℕ → Bool
mem b [] = false
mem b (x ∷ xs) = (x == b) || mem b xs

-- The blocks that an operation has logged, after it logs b.
abbrev pub note : ℕ → List ℕ → List ℕ
note b op = if mem b op then op else b ∷ op

-- Some running operation has logged the block.
abbrev pub noted : ℕ → List (List ℕ) → Bool
noted c [] = false
noted c (op ∷ ops) = mem c op || noted c ops

-- How many blocks the running operations may still add.
abbrev pub total : List (List ℕ) → ℕ
total [] = 0
total (op ∷ ops) = (max_op_blocks - length op) + total ops

-- No operation has logged more blocks than it reserved.
abbrev pub Within : List (List ℕ) → Type 0
Within [] = Unit {0}
Within (op ∷ ops) = (length op ≤ max_op_blocks) × Within ops

pub total-le : (ops : List (List ℕ)) → total ops ≤ max_op_blocks * length ops
total-le [] = omega arith
total-le (op ∷ ops) = omega (arith, total-le ops)

pub Within-note :
    (xs ys : List (List ℕ)) (op op' : List ℕ)
    → length op' ≤ max_op_blocks
    → Within (xs ++ (op ∷ ys))
    → Within (xs ++ (op' ∷ ys))
Within-note [] ys op op' le w = (le, w.1)
Within-note (x ∷ xs) ys op op' le w = (w.0, Within-note xs ys op op' le w.1)

pub Within-drop :
    (xs ys : List (List ℕ)) (op : List ℕ) → Within (xs ++ (op ∷ ys)) → Within (xs ++ ys)
Within-drop [] ys op w = w.1
Within-drop (x ∷ xs) ys op w = (w.0, Within-drop xs ys op w.1)

pub total-append : (xs ys : List (List ℕ)) → total (xs ++ ys) ≡ total xs + total ys
total-append [] ys = omega arith
total-append (x ∷ xs) ys = omega (arith, total-append xs ys)

pub noted-here :
    (xs ys : List (List ℕ)) (op : List ℕ) (c : ℕ)
    → mem c op ≡ true
    → noted c (xs ++ (op ∷ ys)) ≡ true
noted-here [] ys op c h = ground arith
noted-here (x ∷ xs) ys op c h = ground (arith, noted-here xs ys op c h)

pub noted-note :
    (xs ys : List (List ℕ)) (op : List ℕ) (b c : ℕ)
    → noted c (xs ++ (note b op ∷ ys)) ≡ true
    → ((b == c) || noted c (xs ++ (op ∷ ys))) ≡ true
noted-note [] ys op b c h = elim (Bool-cases (mem b op)) [
  | inl old ↦ ground arith
  | inr new ↦ ground arith
]
noted-note (x ∷ xs) ys op b c h = elim (Bool-cases (mem c x)) [
  | inl first ↦ ground arith
  | inr later ↦ ground (arith, noted-note xs ys op b c)
]

pub noted-drop :
    (xs ys : List (List ℕ)) (op : List ℕ) (c : ℕ)
    → noted c (xs ++ ys) ≡ true
    → noted c (xs ++ (op ∷ ys)) ≡ true
noted-drop [] ys op c h = ground arith
noted-drop (x ∷ xs) ys op c h = elim (Bool-cases (mem c x)) [
  | inl first ↦ ground arith
  | inr later ↦ ground (arith, noted-drop xs ys op c)
]

pub noted-empty : (ops : List (List ℕ)) (c : ℕ) → length ops ≡ 0 → noted c ops ≢ true
noted-empty [] c e h = cc
noted-empty (op ∷ ops) c e h = absurd (omega arith)
