-- ===== src/Log/Phases.antt =====
-- The two phases in which a crash may find the disk, `Clean` and `Pending`, and what header writes
-- and installing do to them.
use assignment.Common.{
  ℕ, zero, suc, ◌+◌, ◌-◌, ◌≤◌, ◌<◌, ◌≡◌, ◌≢◌, ◌⊎◌, inl, inr, ◌∙◌, refl, sym, ap, subst, Bool,
  update, ℕ_discrete, arith,
}
use assignment.Log.{
  Block, Machine, Log, LogHeader, no_blocks, fill_head, copy_head, write_head, install_loop,
}
use assignment.Log.Install.{Apart, Logged, install_loop-Installs}

fill_head-zero : (lh : LogHeader) (k i : ℕ) (d : Block) → fill_head lh k i d 0 ≡ d 0
unfolding fill_head
fill_head-zero lh zero i d = refl
fill_head-zero lh (suc k) i d = fill_head-zero lh k (i + 1) _ ∙ ground arith

fill_head-below :
    (lh : LogHeader) (k i j : ℕ) (d : Block) → j < i → fill_head lh k i d (j + 1) ≡ d (j + 1)
unfolding fill_head
fill_head-below lh zero i j d h = refl
fill_head-below lh (suc k) i j d h = fill_head-below lh k (i + 1) j _ (omega arith) ∙ ground arith

fill_head-block :
    (lh : LogHeader) (k i j : ℕ) (d : Block)
    → i ≤ j
    → j < i + k
    → fill_head lh k i d (j + 1) ≡ lh.block j
unfolding fill_head
fill_head-block lh zero i j d lo hi = absurd (omega arith)
fill_head-block lh (suc k) i j d lo hi = elim (ℕ_discrete i j) [
  | yes e ↦ fill_head-below lh k (i + 1) j _ (omega arith) ∙ ground (arith, ap lh.block e)
  | no e ↦ fill_head-block lh k (i + 1) j _ (omega arith) (omega arith)
]

copy_head-below : (hb : Block) (k i j : ℕ) (f : ℕ → ℕ) → j < i → copy_head hb k i f j ≡ f j
unfolding copy_head
copy_head-below hb zero i j f h = refl
copy_head-below hb (suc k) i j f h = copy_head-below hb k (i + 1) j _ (omega arith) ∙ ground arith

pub copy_head-block :
    (hb : Block) (k i j : ℕ) (f : ℕ → ℕ) → i ≤ j → j < i + k → copy_head hb k i f j ≡ hb (j + 1)
unfolding copy_head
copy_head-block hb zero i j f lo hi = absurd (omega arith)
copy_head-block hb (suc k) i j f lo hi = elim (ℕ_discrete i j) [
  | yes e ↦ copy_head-below hb k (i + 1) j _ (omega arith) ∙ ground (arith, ap (λ a. hb (a + 1)) e)
  | no e ↦ copy_head-block hb k (i + 1) j _ (omega arith) (omega arith)
]

-- One write of the header.
module _ (l : Log) (m : Machine) where
  pub head_spent : (write_head l m).power ≡ m.power - 1
  unfolding write_head
  head_spent = ground arith

  pub head_other : (b : ℕ) → l.start ≢ b → (write_head l m).disk b ≡ m.disk b
  unfolding write_head
  head_other b h = ground arith

  pub head_unread : (b : ℕ) → l.start ≢ b → (write_head l m).cache b ≡ m.cache b
  unfolding write_head
  head_unread b h = ground arith

  pub head_frozen : m.power ≡ 0 → (b : ℕ) → (write_head l m).disk b ≡ m.disk b
  unfolding write_head
  head_frozen z b = ground arith

  head_data :
      1 ≤ m.power
      → (write_head l m).disk l.start ≡ fill_head l.lh l.lh.n 0 (update (m.cache l.start) 0 l.lh.n)
  unfolding write_head
  head_data h = ground arith

  pub head_count : 1 ≤ m.power → (write_head l m).disk l.start 0 ≡ l.lh.n
  head_count h = ap (λ d. d 0) (head_data h) ∙ fill_head-zero l.lh l.lh.n 0 _ ∙ ground arith

  pub head_blocks :
      1 ≤ m.power → (j : ℕ) → j < l.lh.n → (write_head l m).disk l.start (j + 1) ≡ l.lh.block j
  head_blocks h j hj =
      ap (λ d. d (j + 1)) (head_data h)
      ∙ fill_head-block l.lh l.lh.n 0 j _ (omega arith) (omega arith)

-- The blocks outside the log's header and its first `n` blocks.
abbrev pub Outside : Log → ℕ → ℕ → Type 0
Outside l n b = (i : ℕ) → i ≤ n → b ≢ l.start + i

module _ (l : Log) (n : ℕ) (v : ℕ → Block) where
  -- Nothing is committed, and the blocks outside the log hold `v`.
  pub record Clean (m : Machine) : Type 0 where
    pub clear : m.disk l.start 0 ≡ 0
    pub home : (b : ℕ) → Outside l n b → m.disk b ≡ v b

  -- The transaction is committed: its blocks stand in the log, and some may be installed.
  pub record Pending (m : Machine) : Type 0 where
    pub count : m.disk l.start 0 ≡ n
    pub blocks : (j : ℕ) → j < n → m.disk l.start (j + 1) ≡ l.lh.block j
    pub stored : Logged l v n m.disk
    pub home : (b : ℕ) → Outside l n b → ((j : ℕ) → j < n → l.lh.block j ≢ b) → m.disk b ≡ v b

  pub Pending-ext : {m m' : Machine} → Pending m → ((b : ℕ) → m'.disk b ≡ m.disk b) → Pending m'
  Pending-ext p same = record {
    count = ap (λ d. d 0) (same _) ∙ p.count;
    blocks = λ j h. ap (λ d. d (j + 1)) (same _) ∙ p.blocks j h;
    stored = λ j h. same _ ∙ p.stored j h;
    home = λ b out un. same b ∙ p.home b out un;
  }

  abbrev pub Safe : Machine → Type 0
  Safe m = Pending m ⊎ Clean m

  -- Either a block is one of the logged, or it is none of them.
  logged-cases :
      (k b : ℕ) → ((j : ℕ) × (j < k) × (l.lh.block j ≡ b)) ⊎ ((j : ℕ) → j < k → l.lh.block j ≢ b)
  logged-cases zero b = inr (λ j h. absurd (omega arith))
  logged-cases (suc k) b = elim (ℕ_discrete (l.lh.block k) b) [
    | yes e ↦ inl (k, omega arith, e)
    | no e ↦ elim (logged-cases k b) [
      | inl (j, h, e') ↦ inl (j, omega arith, e')
      | inr all ↦ inr (λ j h. elim (ℕ_discrete j k) [
        | yes q ↦ λ e'. e (ap l.lh.block (sym q) ∙ e')
        | no q ↦ all j (omega arith)
      ])
    ]
  ]

  -- Installing a committed transaction and clearing the header, at any power.
  module _ (apart : Apart l n) (recovering : Bool) (m : Machine) (p : Pending m)
      (src : Logged l v n m.cache) where
    abbrev pub installed : Machine
    installed = install_loop recovering l n 0 m

    abbrev pub finished : Machine
    finished = write_head (no_blocks l) installed

    unlogged : (b i : ℕ) → i ≤ n → b ≡ l.start + i → (j : ℕ) → j < n → l.lh.block j ≢ b
    unlogged b i hi e j hj e' = apart j i hj hi (e' ∙ e)

    installed-Pending : Pending installed
    installed-Pending =
        let run = install_loop-Installs l v n apart recovering n 0 m (omega arith) src in
        record {
          count = ap (λ d. d 0) (run.other _ (unlogged _ 0 (omega arith) (omega arith))) ∙ p.count;
          blocks = λ j h.
              ap (λ d. d (j + 1)) (run.other _ (unlogged _ 0 (omega arith) (omega arith)))
              ∙ p.blocks j h;
          stored =
              λ j h. run.other _ (unlogged _ (j + 1) (omega arith) (omega arith)) ∙ p.stored j h;
          home = λ b out un. run.other b un ∙ p.home b out un;
        }

    finished-Clean : installed.power ≢ 0 → Clean finished
    finished-Clean ne =
        let run = install_loop-Installs l v n apart recovering n 0 m (omega arith) src in
        record {
          clear = head_count (no_blocks l) installed (omega arith);
          home = λ b out.
              head_other (no_blocks l) installed b (λ e. out 0 (omega arith) (omega (arith, sym e)))
              ∙ elim (logged-cases n b) [
                | inl (j, h, e) ↦
                    subst (λ a. installed.disk a ≡ v a) e
                      (run.installed (omega (arith, run.spent)) j (omega arith) (omega arith))
                | inr all ↦ installed-Pending.home b out all
              ];
        }

    -- With power for all of it the transaction is in place, and without it is still committed.
    pub finish : Safe finished × (n + 1 ≤ m.power → Clean finished)
    finish =
        let run = install_loop-Installs l v n apart recovering n 0 m (omega arith) src in
        elim (ℕ_discrete installed.power 0) [
          | yes z ↦ (
            inl (Pending-ext installed-Pending (head_frozen (no_blocks l) installed z)),
            λ h. absurd (omega (arith, run.spent)),
          )
          | no ne ↦ (inr (finished-Clean ne), λ _. finished-Clean ne)
        ]
