-- ===== src/Log/Crash.antt =====
-- Crash safety of `commit` and `recover_from_log`: what the disk holds after a power failure at any
-- block write, and after any number of interrupted recoveries.
use assignment.Common.{
  ℕ, zero, suc, ◌+◌, ◌*◌, ◌≤◌, ◌<◌, ◌==◌, ◌≡◌, ◌≢◌, inl, inr, ◌∙◌, refl, sym, ap, subst, Bool, true,
  false, ◌||◌, ltb, if◌then◌else◌, List, [], ◌∷◌, lt→ltb, ltb-not-lt, dec_lt, ℕ_discrete, arith,
}
use assignment.Log.{
  Block, Machine, Log, LogHeader, no_blocks, copy_head, write_head, install_loop, write_loop,
  initlog, commit, reboot,
}
use assignment.Log.Install.{Apart, install_loop-Installs, write_loop-Writes}
use assignment.Log.Phases.{
  Outside, Clean, Pending, Safe, finish, copy_head-block, head_spent, head_other, head_unread,
  head_frozen, head_count, head_blocks,
}

-- A restart with `q` block writes of power, and the log that the superblock describes.
abbrev pub boot : Log → ℕ → Machine → Machine
boot l q m = (initlog l.start l.size (reboot q m)).1

-- Restarts in order, each cut short when its power runs out.
abbrev pub boots : Log → List ℕ → Machine → Machine
boots l [] m = m
boots l (q ∷ qs) m = boots l qs (boot l q m)

module _ (l : Log) (n : ℕ) (v : ℕ → Block) (apart : Apart l n) where
  module _ (q : ℕ) (m : Machine) where
    -- The log as recovery reads it back.
    abbrev recovered : Log
    recovered = record {
      start = l.start;
      size = l.size;
      outstanding = 0;
      committing = false;
      lh = record {
        n = m.disk l.start 0;
        block = copy_head (m.disk l.start) (m.disk l.start 0) 0 (λ _. 0);
      };
    }

    abbrev restarted : Machine
    restarted = record { disk = m.disk; cache = m.disk; pin = λ _. 0; power = q }

    boot_lem :
        (k : ℕ)
        → m.disk l.start 0 ≡ k
        → boot l q m ≡ write_head (no_blocks recovered) (install_loop true recovered k 0 restarted)
    unfolding initlog reboot
    boot_lem k e =
        ap (λ i. write_head (no_blocks recovered) (install_loop true recovered i 0 restarted)) e

    boot-Clean : Clean l n v m → Clean l n v (boot l q m)
    unfolding install_loop
    boot-Clean c = subst (Clean l n v) (sym (boot_lem 0 c.clear)) (record {
      clear = elim (ℕ_discrete q 0) [
        | yes z ↦ ap (λ d. d 0) (head_frozen (no_blocks recovered) restarted z _) ∙ c.clear
        | no ne ↦ head_count (no_blocks recovered) restarted (omega arith)
      ];
      home = λ b out.
          head_other (no_blocks recovered) restarted b
            (λ e. out 0 (omega arith) (omega (arith, sym e)))
          ∙ c.home b out;
    })

    module _ (p : Pending l n v m) where
      same_blocks : (j : ℕ) → j < n → recovered.lh.block j ≡ l.lh.block j
      same_blocks j h =
          copy_head-block (m.disk l.start) (m.disk l.start 0) 0 j _ (omega arith)
            (omega (arith, p.count))
          ∙ p.blocks j h

      recovered-Pending : Pending recovered n v restarted
      recovered-Pending = record {
        count = p.count;
        blocks = λ j h. p.blocks j h ∙ sym (same_blocks j h);
        stored = λ j h. p.stored j h ∙ ap v (sym (same_blocks j h));
        home = λ b out un. p.home b out (λ j h e. un j h (same_blocks j h ∙ e));
      }

      recovered-Apart : Apart recovered n
      recovered-Apart j i hj hi e = apart j i hj hi (sym (same_blocks j hj) ∙ e)

      same_Safe : {m' : Machine} → Safe recovered n v m' → Safe l n v m'
      same_Safe (inr c) = inr (record { clear = c.clear; home = c.home })
      same_Safe (inl p') = inl (record {
        count = p'.count;
        blocks = λ j h. p'.blocks j h ∙ same_blocks j h;
        stored = λ j h. p'.stored j h ∙ ap v (same_blocks j h);
        home = λ b out un. p'.home b out (λ j h e. un j h (sym (same_blocks j h) ∙ e));
      })

      boot-Pending : Safe l n v (boot l q m) × (n + 1 ≤ q → Clean l n v (boot l q m))
      boot-Pending =
          let done =
            finish recovered n v recovered-Apart true restarted recovered-Pending
              (recovered-Pending.stored) in
          (
            subst (Safe l n v) (sym (boot_lem n p.count)) (same_Safe done.0),
            λ h.
                let c = done.1 h in
                subst (Clean l n v) (sym (boot_lem n p.count))
                  (record { clear = c.clear; home = c.home }),
          )

    boot-Safe : Safe l n v m → Safe l n v (boot l q m)
    boot-Safe (inl p) = (boot-Pending p).0
    boot-Safe (inr c) = inr (boot-Clean c)

    recovery_completes : Safe l n v m → n + 1 ≤ q → Clean l n v (boot l q m)
    recovery_completes (inl p) h = (boot-Pending p).1 h
    recovery_completes (inr c) h = boot-Clean c

  boots-Safe : (qs : List ℕ) (m : Machine) → Safe l n v m → Safe l n v (boots l qs m)
  boots-Safe [] m s = s
  boots-Safe (q ∷ qs) m s = boots-Safe qs (boot l q m) (boot-Safe q m s)

-- Whether `b` is among the first `k` blocks of a header.
abbrev pub logs : LogHeader → ℕ → ℕ → Bool
logs lh zero b = false
logs lh (suc k) b = (lh.block k == b) || logs lh k b

pub logs_of_block : (lh : LogHeader) (k j : ℕ) → j < k → logs lh k (lh.block j) ≡ true
logs_of_block lh zero j h = absurd (omega arith)
logs_of_block lh (suc k) j h = elim (ℕ_discrete j k) [
  | yes e ↦ ground (arith, ap lh.block e)
  | no ne ↦ ground (arith, logs_of_block lh k j (omega arith))
]

pub logs_none :
    (lh : LogHeader) (k b : ℕ) → ((j : ℕ) → j < k → lh.block j ≢ b) → logs lh k b ≡ false
logs_none lh zero b all = refl
logs_none lh (suc k) b all =
    ground (arith, all k (omega arith), logs_none lh k b (λ j h. all j (omega arith)))

-- What a transaction makes of a block.
abbrev pub after : Log → Machine → ℕ → Block
after l m b = if logs l.lh l.lh.n b then m.cache b else m.disk b

module _ (l : Log) (m : Machine) (apart : Apart l l.lh.n) where
  abbrev n : ℕ
  n = l.lh.n

  abbrev logged_machine : Machine
  logged_machine = write_loop l n 0 m

  abbrev headed : Machine
  headed = write_head l logged_machine

  commit_lem : 0 < n → (commit l m).1 ≡ write_head (no_blocks l) (install_loop false l n 0 headed)
  unfolding commit
  commit_lem h = rw (lt→ltb 0 n h)

  after_block : (j : ℕ) → j < n → m.cache (l.lh.block j) ≡ after l m (l.lh.block j)
  after_block j h = rw (logs_of_block l.lh n j h)

  -- Too little power for the header: the disk outside the log is as before.
  commit_lost : 0 < n → m.disk l.start 0 ≡ 0 → m.power ≤ n → Clean l n m.disk (commit l m).1
  commit_lost pos clear low = subst (Clean l n m.disk) (sym (commit_lem pos)) (record {
    clear = ap (λ d. d 0) (frozen l.start (λ j h e. omega (arith, e))) ∙ clear;
    home = λ b out. frozen b (λ j h e. out (j + 1) (omega arith) (omega (arith, e)));
  })
    where
      frozen :
          (b : ℕ)
          → ((j : ℕ) → j < n → l.start + j + 1 ≢ b)
          → (write_head (no_blocks l) (install_loop false l n 0 headed)).disk b ≡ m.disk b
      frozen b away =
          let run = write_loop-Writes l m.cache n apart n 0 m (omega arith) (λ j h. refl) in
          let z : logged_machine.power ≡ 0 = omega (arith, run.spent) in
          let z' : headed.power ≡ 0 = omega (arith, head_spent l logged_machine) in
          let inst = install_loop-Installs l m.cache n apart false n 0 headed (omega arith) (λ j h.
            head_unread l logged_machine _ (λ e. omega (arith, e))
            ∙ run.cached j (omega arith) (omega arith)) in
          head_frozen (no_blocks l) _ (omega (arith, inst.spent)) b
          ∙ inst.frozen z' b
          ∙ head_frozen l logged_machine z b
          ∙ run.other b away

  commit_headed : m.disk l.start 0 ≡ 0 → n < m.power → Pending l n (after l m) headed
  commit_headed clear high =
      let run = write_loop-Writes l (after l m) n apart n 0 m (omega arith) after_block in
      let on : 1 ≤ logged_machine.power = omega (arith, run.spent) in
      record {
        count = head_count l logged_machine on;
        blocks = head_blocks l logged_machine on;
        stored = λ j h.
            head_other l logged_machine _ (λ e. omega (arith, e))
            ∙ run.written (omega arith) j (omega arith) (omega arith);
        home = λ b out un.
            head_other l logged_machine b (λ e. out 0 (omega arith) (omega (arith, sym e)))
            ∙ run.other b (λ j h e. out (j + 1) (omega arith) (omega (arith, sym e)))
            ∙ rw (logs_none l.lh n b un);
      }

  commit_kept : 0 < n → m.disk l.start 0 ≡ 0 → n < m.power → Safe l n (after l m) (commit l m).1
  commit_kept pos clear high =
      let run = write_loop-Writes l (after l m) n apart n 0 m (omega arith) after_block in
      subst (Safe l n (after l m)) (sym (commit_lem pos))
        (finish l n (after l m) apart false headed (commit_headed clear high) (λ j h.
          head_unread l logged_machine _ (λ e. omega (arith, e))
          ∙ run.cached j (omega arith) (omega arith))).0

  -- A commit of n blocks that loses power after `m.power` block writes, then any restarts `qs` that
  -- lose power during recovery, then a restart that completes, leave every block outside the log
  -- with its committed contents if the header was written (n < m.power), and with its old contents
  -- if not. It needs that the header on disk was clear and that the logged blocks lie outside the
  -- log.
  pub commit_crash :
      0 < n
      → m.disk l.start 0 ≡ 0
      → (qs : List ℕ) (q : ℕ) → n + 1 ≤ q
      → (b : ℕ) → Outside l n b
      → (boot l q (boots l qs (commit l m).1)).disk b
        ≡ (if ltb n m.power then after l m b else m.disk b)
  commit_crash pos clear qs q hq b out = elim (dec_lt n m.power) [
    | yes high ↦ rw (lt→ltb n m.power high) (
        (recovery_completes l n (after l m) apart q _
            (boots-Safe l n (after l m) apart qs _ (commit_kept pos clear high)) hq).home
          b out)
    | no low ↦ rw (ltb-not-lt n m.power low) (
        (recovery_completes l n m.disk apart q _
            (boots-Safe l n m.disk apart qs _ (inr (commit_lost pos clear (omega arith)))) hq).home
          b out)
  ]

  -- Without a crash: with power for all 2n + 2 writes the commit itself leaves every block outside
  -- the log with its committed contents, and the header clear.
  pub commit_done :
      0 < n
      → m.disk l.start 0 ≡ 0
      → 2 * n + 2 ≤ m.power
      → (b : ℕ) → Outside l n b
      → ((commit l m).1.disk b ≡ after l m b) × ((commit l m).1.disk l.start 0 ≡ 0)
  commit_done pos clear hp b out =
      let run = write_loop-Writes l (after l m) n apart n 0 m (omega arith) after_block in
      let c =
        (finish l n (after l m) apart false headed (commit_headed clear (omega arith)) (λ j h.
            head_unread l logged_machine _ (λ e. omega (arith, e))
            ∙ run.cached j (omega arith) (omega arith))).1
          (omega (arith, run.spent, head_spent l logged_machine)) in
      (
        ap (λ m'. m'.disk b) (commit_lem pos) ∙ c.home b out,
        ap (λ m'. m'.disk l.start 0) (commit_lem pos) ∙ c.clear,
      )
