-- ===== src/Log/Reserve.antt =====
-- The space that `begin_op` reserves: operations that log at most MAXOPBLOCKS different blocks each,
-- any of them as often as they like, interleaved in any order.
use assignment.Common.{
  ℕ, ◌+◌, ◌-◌, ◌≤◌, ◌==◌, ◌||◌, ◌≡◌, ◌⊎◌, inl, inr, ◌∙◌, refl, sym, subst, true, false, List, [],
  ◌∷◌, ◌++◌, length, length-append, Bool-cases, ℕ_discrete, arith,
}
use assignment.Log.{
  Machine, Log, LogHeader, log_size, max_op_blocks, admitted, ok, begin_op, end_op, commit,
  log_write,
}
use assignment.Log.Crash.{logs}
use assignment.Log.Ops.{
  mem, note, noted, total, Within, total-le, Within-note, Within-drop, total-append, noted-here,
  noted-note, noted-drop, noted-empty,
}
use assignment.Log.Header.{Distinct, logged, n-logged, n-logged_again, logged-Distinct, logs-logged}

-- The log with its running operations, each with the different blocks it has logged.
pub record Sys : Type 0 where
  pub log : Log
  pub ops : List (List ℕ)

-- What the file system calls do to the log, one critical section at a time. An operation may log a
-- block again, and MAXOPBLOCKS different ones.
pub data Step : Sys → Sys → Type 0 where
  begin :
      (l l' : Log) (ops : List (List ℕ))
      → begin_op l ≡ admitted l'
      → Step (record { log = l; ops = ops }) (record { log = l'; ops = [] ∷ ops })
  write :
      (b : ℕ) (m m' : Machine) (l l' : Log) (xs ys : List (List ℕ)) (op : List ℕ)
      → log_write b l m ≡ ok (l', m')
      → length (note b op) ≤ max_op_blocks
      → Step
          (record { log = l; ops = xs ++ (op ∷ ys) })
          (record { log = l'; ops = xs ++ (note b op ∷ ys) })
  finish :
      (m m' : Machine) (l l' : Log) (xs ys : List (List ℕ)) (op : List ℕ)
      → end_op l m ≡ ok (l', m')
      → Step (record { log = l; ops = xs ++ (op ∷ ys) }) (record { log = l'; ops = xs ++ ys })

pub data Reach (s : Sys) : Sys → Type 0 where
  here : Reach s s
  next : {t u : Sys} → Reach s t → Step t u → Reach s u

-- What `log_write` relies on. Every block of a running operation is in the header, so that logging
-- it again takes no room.
pub record IsReserved (s : Sys) : Type 0 where
  pub idle : s.log.committing ≡ false
  pub counted : s.log.outstanding ≡ length s.ops
  pub room : s.log.lh.n + total s.ops ≤ log_size
  pub within : Within s.ops
  pub kept : (c : ℕ) → noted c s.ops ≡ true → logs s.log.lh s.log.lh.n c ≡ true
  pub distinct : Distinct s.log.lh

begin_same : (l l' : Log) → l.committing ≡ false → begin_op l ≡ admitted l' → l.lh ≡ l'.lh
unfolding begin_op
begin_same l l' idle e = ground arith

begin-IsReserved :
    (l l' : Log) (ops : List (List ℕ))
    → begin_op l ≡ admitted l'
    → IsReserved (record { log = l; ops = ops })
    → IsReserved (record { log = l'; ops = [] ∷ ops })
unfolding begin_op
begin-IsReserved l l' ops e v = record {
  idle = ground (arith, v.idle);
  counted = ground (arith, v.counted);
  room = ground (arith, v.idle, v.counted, total-le ops);
  within = (omega arith, v.within);
  kept = λ c h. subst (λ x. logs x x.n c ≡ true) (begin_same l l' v.idle e) (v.kept c h);
  distinct = subst Distinct (begin_same l l' v.idle e) v.distinct;
}

pub log_of_write :
    (b : ℕ) (m m' : Machine) (l l' : Log)
    → log_write b l m ≡ ok (l', m')
    → l' ≡ record l { lh = logged l.lh b }
unfolding log_write logged
log_of_write b m m' l l' e = ground arith

-- Logging a block of an operation takes what the operation then has less.
note-room :
    (lh : LogHeader) (b rest : ℕ) (op : List ℕ)
    → (mem b op ≡ true → logs lh lh.n b ≡ true)
    → length (note b op) ≤ max_op_blocks
    → (logged lh b).n + ((max_op_blocks - length (note b op)) + rest)
      ≤ lh.n + ((max_op_blocks - length op) + rest)
note-room lh b rest op old le = elim (Bool-cases (mem b op)) [
  | inl again ↦ rw again (omega (arith, n-logged_again lh b (old again)))
  | inr new ↦
      let le' : length (b ∷ op) ≤ max_op_blocks = ground arith in
      rw new (omega (arith, n-logged lh b))
]

write-IsReserved :
    (b : ℕ) (m m' : Machine) (l l' : Log) (xs ys : List (List ℕ)) (op : List ℕ)
    → log_write b l m ≡ ok (l', m')
    → length (note b op) ≤ max_op_blocks
    → IsReserved (record { log = l; ops = xs ++ (op ∷ ys) })
    → IsReserved (record { log = l'; ops = xs ++ (note b op ∷ ys) })
write-IsReserved b m m' l l' xs ys op e le v =
    subst (λ x. IsReserved (record { log = x; ops = xs ++ (note b op ∷ ys) }))
      (sym (log_of_write b m m' l l' e))
      (record {
        idle = v.idle;
        counted =
            omega (arith, v.counted, length-append xs (op ∷ ys), length-append xs (note b op ∷ ys));
        room = omega (
          arith,
          v.room,
          note-room l.lh b (total ys) op (λ h. v.kept b (noted-here xs ys op b h)) le,
          total-append xs (op ∷ ys),
          total-append xs (note b op ∷ ys),
        );
        within = Within-note xs ys op (note b op) le v.within;
        kept = λ c h. logs-logged l.lh b c ∙ still c (noted-note xs ys op b c h);
        distinct = logged-Distinct l.lh b v.distinct;
      })
  where
    still :
        (c : ℕ)
        → ((b == c) || noted c (xs ++ (op ∷ ys))) ≡ true
        → ((b == c) || logs l.lh l.lh.n c) ≡ true
    still c h = elim (Bool-cases (b == c)) [
      | inl same ↦ rw same refl
      | inr other ↦ rw other (v.kept c (rw other at h))
    ]

log_of_end :
    (m m' : Machine) (l l' : Log)
    → l.committing ≡ false
    → end_op l m ≡ ok (l', m')
    → ((l.outstanding - 1 ≡ 0) × (l'.lh.n ≡ 0) × (l'.committing ≡ false) × (l'.outstanding ≡ 0))
      ⊎ (l' ≡ record l { outstanding = l.outstanding - 1 })
unfolding end_op commit
log_of_end m m' l l' idle e = elim (ℕ_discrete (l.outstanding - 1) 0) [
  | yes z ↦ inl (ground arith)
  | no ne ↦ inr (ground arith)
]

finish-IsReserved :
    (m m' : Machine) (l l' : Log) (xs ys : List (List ℕ)) (op : List ℕ)
    → end_op l m ≡ ok (l', m')
    → IsReserved (record { log = l; ops = xs ++ (op ∷ ys) })
    → IsReserved (record { log = l'; ops = xs ++ ys })
finish-IsReserved m m' l l' xs ys op e v =
    let one = length-append xs (op ∷ ys) in
    let two = length-append xs ys in
    elim (log_of_end m m' l l' v.idle e) [
      | inl (last, empty, idle, none_left) ↦ record {
        idle = idle;
        counted = omega (arith, v.counted, one, two);
        room = omega (arith, v.counted, one, two, total-le (xs ++ ys));
        within = Within-drop xs ys op v.within;
        kept = λ c h. absurd (noted-empty (xs ++ ys) c (omega (arith, v.counted, one, two)) h);
        distinct = λ i j hi hj _. absurd (omega arith);
      }
      | inr same ↦
          subst (λ x. IsReserved (record { log = x; ops = xs ++ ys })) (sym same)
            (record {
              idle = v.idle;
              counted = omega (arith, v.counted, one, two);
              room = omega (arith, v.room, total-append xs (op ∷ ys), total-append xs ys);
              within = Within-drop xs ys op v.within;
              kept = λ c h. v.kept c (noted-drop xs ys op c h);
              distinct = v.distinct;
            })
    ]

pub Reach-IsReserved : {s t : Sys} → IsReserved s → Reach s t → IsReserved t
Reach-IsReserved v here = v
Reach-IsReserved v (next r (begin l l' ops e)) = begin-IsReserved l l' ops e (Reach-IsReserved v r)
Reach-IsReserved v (next r (write b m m' l l' xs ys op e le)) =
    write-IsReserved b m m' l l' xs ys op e le (Reach-IsReserved v r)
Reach-IsReserved v (next r (finish m m' l l' xs ys op e)) =
    finish-IsReserved m m' l l' xs ys op e (Reach-IsReserved v r)
