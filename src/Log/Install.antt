-- ===== src/Log/Install.antt =====
-- What one round and a whole loop of `write_log` and `install_trans` do to the disk, for any amount
-- of power.
use assignment.Common.{
  ℕ, zero, suc, ◌+◌, ◌-◌, ◌≤◌, ◌<◌, ◌≡◌, ◌≢◌, ◌∙◌, refl, ap, subst, Bool, ℕ_discrete, arith,
}
use assignment.Log.{Block, Machine, Log, install_block, log_block, install_loop, write_loop}

-- The `n` logged blocks lie outside the log's own `n + 1` blocks.
abbrev pub Apart : Log → ℕ → Type 0
Apart l n = (j i : ℕ) → j < n → i ≤ n → l.lh.block j ≢ l.start + i

-- `v` gives what a committed block has to hold: the log blocks in the cache hold it.
abbrev pub Logged : Log → (ℕ → Block) → ℕ → (ℕ → Block) → Type 0
Logged l v n store = (j : ℕ) → j < n → store (l.start + j + 1) ≡ v (l.lh.block j)

module _ (l : Log) (v : ℕ → Block) (n : ℕ) (apart : Apart l n) where
  module _ (recovering : Bool) where
    -- What a run of the loop may be asked for.
    pub record Installs (k t : ℕ) (m m' : Machine) : Type 0 where
      pub source : Logged l v n m'.cache
      pub spent : m'.power ≡ m.power - k
      pub kept : (b : ℕ) → m.disk b ≡ v b → m'.disk b ≡ v b
      pub frozen : m.power ≡ 0 → (b : ℕ) → m'.disk b ≡ m.disk b
      pub other : (b : ℕ) → ((j : ℕ) → j < n → l.lh.block j ≢ b) → m'.disk b ≡ m.disk b
      pub unread : (b : ℕ) → ((j : ℕ) → j < n → l.lh.block j ≢ b) → m'.cache b ≡ m.cache b
      pub installed :
          k ≤ m.power → (j : ℕ) → t ≤ j → j < t + k → m'.disk (l.lh.block j) ≡ v (l.lh.block j)

    module _ (t : ℕ) (m : Machine) (ht : t < n) (src : Logged l v n m.cache) where
      block_source : Logged l v n (install_block recovering l t m).cache
      unfolding install_block
      block_source j hj = ground (arith, apart t (j + 1) ht, src j hj)

      block_spent : (install_block recovering l t m).power ≡ m.power - 1
      unfolding install_block
      block_spent = ground arith

      block_kept : (b : ℕ) → m.disk b ≡ v b → (install_block recovering l t m).disk b ≡ v b
      unfolding install_block
      block_kept b h = ground (arith, src t ht)

      block_frozen : m.power ≡ 0 → (b : ℕ) → (install_block recovering l t m).disk b ≡ m.disk b
      unfolding install_block
      block_frozen z b = ground arith

      block_other : (b : ℕ) → l.lh.block t ≢ b → (install_block recovering l t m).disk b ≡ m.disk b
      unfolding install_block
      block_other b h = ground arith

      block_unread :
          (b : ℕ) → l.lh.block t ≢ b → (install_block recovering l t m).cache b ≡ m.cache b
      unfolding install_block
      block_unread b h = ground arith

      block_installed :
          1 ≤ m.power → (install_block recovering l t m).disk (l.lh.block t) ≡ v (l.lh.block t)
      unfolding install_block
      block_installed h = ground (arith, src t ht)

    -- Every run of the loop inside the first `n` rounds, at any power.
    pub install_loop-Installs :
        (k t : ℕ) (m : Machine)
        → t + k ≤ n
        → Logged l v n m.cache
        → Installs k t m (install_loop recovering l k t m)
    unfolding install_loop
    install_loop-Installs zero t m h src = record {
      source = src;
      spent = omega arith;
      kept = λ b e. e;
      frozen = λ z b. refl;
      other = λ b e. refl;
      unread = λ b e. refl;
      installed = λ p j lo hi. absurd (omega arith);
    }
    install_loop-Installs (suc k) t m h src =
        let ht : t < n = omega arith in
        let m₁ = install_block recovering l t m in
        let rest = install_loop-Installs k (t + 1) m₁ (omega arith) (block_source t m ht src) in
        record {
          source = rest.source;
          spent = omega (arith, rest.spent, block_spent t m ht src);
          kept = λ b e. rest.kept b (block_kept t m ht src b e);
          frozen = λ z b.
              rest.frozen (omega (arith, block_spent t m ht src)) b ∙ block_frozen t m ht src z b;
          other = λ b e. rest.other b e ∙ block_other t m ht src b (e t ht);
          unread = λ b e. rest.unread b e ∙ block_unread t m ht src b (e t ht);
          installed = λ p j lo hi. elim (ℕ_discrete t j) [
            | yes e ↦
                subst
                  (λ i.
                    (install_loop recovering l k (t + 1) m₁).disk (l.lh.block i) ≡ v (l.lh.block i))
                  e (rest.kept _ (block_installed t m ht src (omega arith)))
            | no e ↦
                rest.installed (omega (arith, block_spent t m ht src)) j (omega arith) (omega arith)
          ];
        }

  -- `write_log` copies the cached blocks behind the header.
  pub record Writes (k t : ℕ) (m m' : Machine) : Type 0 where
    pub source : (j : ℕ) → j < n → m'.cache (l.lh.block j) ≡ v (l.lh.block j)
    pub spent : m'.power ≡ m.power - k
    pub other : (b : ℕ) → ((j : ℕ) → j < n → l.start + j + 1 ≢ b) → m'.disk b ≡ m.disk b
    pub unread : (b : ℕ) → ((j : ℕ) → j < n → l.start + j + 1 ≢ b) → m'.cache b ≡ m.cache b
    pub cached : (j : ℕ) → t ≤ j → j < t + k → m'.cache (l.start + j + 1) ≡ v (l.lh.block j)
    pub stays :
        (j : ℕ)
        → j < n
        → m.cache (l.start + j + 1) ≡ v (l.lh.block j)
        → m'.cache (l.start + j + 1) ≡ v (l.lh.block j)
    pub written :
        k ≤ m.power → (j : ℕ) → t ≤ j → j < t + k → m'.disk (l.start + j + 1) ≡ v (l.lh.block j)
    pub keeps :
        (j : ℕ)
        → j < n
        → m.disk (l.start + j + 1) ≡ v (l.lh.block j)
        → m'.disk (l.start + j + 1) ≡ v (l.lh.block j)

  abbrev pub Cached : Machine → Type 0
  Cached m = (j : ℕ) → j < n → m.cache (l.lh.block j) ≡ v (l.lh.block j)

  module _ (t : ℕ) (m : Machine) (ht : t < n) (src : Cached m) where
    log_source : Cached (log_block l t m)
    unfolding log_block
    log_source j hj = ground (arith, apart j (t + 1) hj, src j hj)

    log_spent : (log_block l t m).power ≡ m.power - 1
    unfolding log_block
    log_spent = ground arith

    log_other : (b : ℕ) → l.start + t + 1 ≢ b → (log_block l t m).disk b ≡ m.disk b
    unfolding log_block
    log_other b h = ground arith

    log_unread : (b : ℕ) → l.start + t + 1 ≢ b → (log_block l t m).cache b ≡ m.cache b
    unfolding log_block
    log_unread b h = ground arith

    log_cached : (log_block l t m).cache (l.start + t + 1) ≡ v (l.lh.block t)
    unfolding log_block
    log_cached = ground (arith, src t ht)

    log_stays :
        (j : ℕ)
        → m.cache (l.start + j + 1) ≡ v (l.lh.block j)
        → (log_block l t m).cache (l.start + j + 1) ≡ v (l.lh.block j)
    unfolding log_block
    log_stays j h = elim (ℕ_discrete t j) [
      | yes e ↦ ground (arith, src t ht, ap (λ i. v (l.lh.block i)) e)
      | no e ↦ ground arith
    ]

    log_written : 1 ≤ m.power → (log_block l t m).disk (l.start + t + 1) ≡ v (l.lh.block t)
    unfolding log_block
    log_written h = ground (arith, src t ht)

    log_keeps :
        (j : ℕ)
        → m.disk (l.start + j + 1) ≡ v (l.lh.block j)
        → (log_block l t m).disk (l.start + j + 1) ≡ v (l.lh.block j)
    unfolding log_block
    log_keeps j h = elim (ℕ_discrete t j) [
      | yes e ↦ ground (arith, src t ht, ap (λ i. v (l.lh.block i)) e)
      | no e ↦ ground arith
    ]

  pub write_loop-Writes :
      (k t : ℕ) (m : Machine) → t + k ≤ n → Cached m → Writes k t m (write_loop l k t m)
  unfolding write_loop
  write_loop-Writes zero t m h src = record {
    source = src;
    spent = omega arith;
    other = λ b e. refl;
    unread = λ b e. refl;
    cached = λ j lo hi. absurd (omega arith);
    stays = λ j hj e. e;
    written = λ p j lo hi. absurd (omega arith);
    keeps = λ j hj e. e;
  }
  write_loop-Writes (suc k) t m h src =
      let ht : t < n = omega arith in
      let m₁ = log_block l t m in
      let rest = write_loop-Writes k (t + 1) m₁ (omega arith) (log_source t m ht src) in
      record {
        source = rest.source;
        spent = omega (arith, rest.spent, log_spent t m ht src);
        other = λ b e. rest.other b e ∙ log_other t m ht src b (e t ht);
        unread = λ b e. rest.unread b e ∙ log_unread t m ht src b (e t ht);
        cached = λ j lo hi. elim (ℕ_discrete t j) [
          | yes e ↦
              subst (λ i. (write_loop l k (t + 1) m₁).cache (l.start + i + 1) ≡ v (l.lh.block i)) e
                (rest.stays t ht (log_cached t m ht src))
          | no e ↦ rest.cached j (omega arith) (omega arith)
        ];
        stays = λ j hj e. rest.stays j hj (log_stays t m ht src j e);
        written = λ p j lo hi. elim (ℕ_discrete t j) [
          | yes e ↦
              subst (λ i. (write_loop l k (t + 1) m₁).disk (l.start + i + 1) ≡ v (l.lh.block i)) e
                (rest.keeps t ht (log_written t m ht src (omega arith)))
          | no e ↦ rest.written (omega (arith, log_spent t m ht src)) j (omega arith) (omega arith)
        ];
        keeps = λ j hj e. rest.keeps j hj (log_keeps t m ht src j e);
      }
