-- ===== src/Log/Room.antt =====
-- When `log_write` of kernel/log.c runs out of room in a running log.
use assignment.Common.{
  ℕ, ◌+◌, ◌-◌, ◌≤◌, ◌<◌, ◌==◌, ◌||◌, ◌≡◌, ◌⊎◌, inl, inr, ◌∙◌, refl, ap, true, List, [], ◌∷◌, ◌++◌,
  length, length-append, leb, Bool-cases, arith,
}
use assignment.Log.{
  Machine, Log, log_size, max_op_blocks, admitted, ok, panic, begin_op, end_op, commit, log_write,
  initlog, recover_from_log, read_head,
}
use assignment.Log.Crash.{logs}
use assignment.Log.Header.{logged, log_write_lem, logs-logged}
use assignment.Log.Ops.{total, total-append}
use assignment.Log.Reserve.{
  Sys, begin, write, finish, Reach, here, next, IsReserved, Reach-IsReserved, log_of_write,
}

-- The log that `initlog` leaves, with no operation running.
abbrev pub started : (logstart nlog : ℕ) → Machine → Sys
started logstart nlog m₀ = record { log = (initlog logstart nlog m₀).0; ops = [] }

started-IsReserved : (logstart nlog : ℕ) (m₀ : Machine) → IsReserved (started logstart nlog m₀)
unfolding initlog recover_from_log read_head
started-IsReserved logstart nlog m₀ = record {
  idle = refl;
  counted = refl;
  room = omega arith;
  within = tt;
  kept = λ c h. absurd (cc);
  distinct = λ i j hi. absurd (omega arith);
}

started-size : (logstart nlog : ℕ) (m₀ : Machine) → (started logstart nlog m₀).log.size ≡ nlog
unfolding initlog recover_from_log read_head
started-size logstart nlog m₀ = refl

begin-size : (l l' : Log) → begin_op l ≡ admitted l' → l'.size ≡ l.size
unfolding begin_op
begin-size l l' e = ground arith

commit-size : (l : Log) (m : Machine) → (commit l m).0.size ≡ l.size
unfolding commit
commit-size l m = ground arith

end-size : (m m' : Machine) (l l' : Log) → end_op l m ≡ ok (l', m') → l'.size ≡ l.size
unfolding end_op
end-size m m' l l' e =
    ground (arith, commit-size (record l { outstanding = l.outstanding - 1; committing = true }) m)

-- No step changes the size of the log.
Reach-size : {s t : Sys} → Reach s t → t.log.size ≡ s.log.size
Reach-size here = refl
Reach-size (next r (begin l l' ops e)) = begin-size l l' e ∙ Reach-size r
Reach-size (next r (write b m m' l l' xs ys op e le)) =
    ap (λ x. x.size) (log_of_write b m m' l l' e) ∙ Reach-size r
Reach-size (next r (finish m m' l l' xs ys op e)) = end-size m m' l l' e ∙ Reach-size r

log_write-panic : (b : ℕ) (l : Log) (m : Machine) → l.size ≤ l.lh.n + 1 → log_write b l m ≡ panic
unfolding log_write
log_write-panic b l m small = ground arith

-- A log of nlog blocks that `initlog` has started, after any steps, with an operation running that has
-- logged less than MAXOPBLOCKS different blocks. The header then has less than LOGSIZE blocks, so
-- that `log_write` of a block b by the operation never panics for LOGSIZE nor outside of an
-- operation. It panics exactly if the header's blocks and one more do not fit behind the header in the
-- log: in a log of more than LOGSIZE blocks never, and in one of LOGSIZE blocks at LOGSIZE - 1. Else
-- b joins the logged blocks.
pub log_write_room :
    (logstart nlog : ℕ) (m₀ : Machine) (t : Sys)
    → Reach (started logstart nlog m₀) t
    → (xs ys : List (List ℕ)) (op : List ℕ) → t.ops ≡ xs ++ (op ∷ ys)
    → length op < max_op_blocks
    → (b : ℕ) (m : Machine)
    → (t.log.lh.n < log_size)
      × (((nlog ≤ t.log.lh.n + 1) × (log_write b t.log m ≡ panic))
          ⊎ ((t.log.lh.n + 1 < nlog)
              × ((l' : Log) × (m' : Machine) × (log_write b t.log m ≡ ok (l', m'))
                  × ((c : ℕ) → logs l'.lh l'.lh.n c ≡ ((b == c) || logs t.log.lh t.log.lh.n c)))))
log_write_room logstart nlog m₀ t r xs ys op at more b m =
    let v = Reach-IsReserved (started-IsReserved logstart nlog m₀) r in
    let size : t.log.size ≡ nlog = Reach-size r ∙ started-size logstart nlog m₀ in
    let left = ap total at ∙ total-append xs (op ∷ ys) in
    let running = ap length at ∙ length-append xs (op ∷ ys) in
    let room : t.log.lh.n < log_size = omega (arith, v.room, left) in
    (
      room,
      elim (Bool-cases (leb nlog (t.log.lh.n + 1))) [
        | inl small ↦
            let le : nlog ≤ t.log.lh.n + 1 = ground arith in
            inl (le, log_write-panic b t.log m (omega (arith, size)))
        | inr big ↦
            let lt : t.log.lh.n + 1 < nlog = ground arith in
            let (m', e) =
              log_write_lem b t.log m room (omega (arith, size))
                (omega (arith, v.counted, running)) in
            inr (lt, (record t.log { lh = logged t.log.lh b }, m', e, logs-logged t.log.lh b))
      ],
    )
