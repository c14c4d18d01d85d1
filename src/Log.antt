-- ===== src/Log.antt =====
-- kernel/log.c: the redo log under the file system calls, on a disk that may lose power between two
-- block writes. The children prove what a crash leaves behind and that reservations hold.
--
-- A block is its 256 words. `bread` gives what the buffer cache holds for a block (`cache`), and
-- `bwrite` copies that to the disk as one step of virtio_disk_rw; a block that is not cached reads
-- as the disk has it, so `cache` and `disk` agree there. `power` counts the block writes that still
-- reach the disk: at 0 the machine has lost power and every later write is lost.
pub mod Install
pub mod Phases
pub mod Crash
pub mod Header
pub mod Ops
pub mod Reserve
pub mod Room
mod Tests
use assignment.Common.{
  ℕ, zero, suc, ◌+◌, ◌-◌, ◌*◌, ◌==◌, Bool, true, false, ltb, leb, if◌then◌else◌, update,
}

-- The words of a block, by their index.
abbrev pub Block : Type 0
Block = ℕ → ℕ

-- param.h
abbrev pub max_op_blocks : ℕ
max_op_blocks = 10

abbrev pub log_size : ℕ
log_size = max_op_blocks * 3

-- What survives a crash, and what the cache holds. `pin` is the part of the reference counts that
-- the log has taken by `bpin`.
pub record Machine : Type 0 where
  pub disk : ℕ → Block
  pub cache : ℕ → Block
  pub pin : ℕ → ℕ
  pub power : ℕ

-- `struct logheader`
pub record LogHeader : Type 0 where
  pub n : ℕ
  pub block : ℕ → ℕ

-- `struct log`
pub record Log : Type 0 where
  pub start : ℕ
  pub size : ℕ
  pub outstanding : ℕ
  pub committing : Bool
  pub lh : LogHeader

-- `memmove(buf->data, data, BSIZE)` on the buffer of block `b`
unfoldable pub set_data : ℕ → Block → Machine → Machine
set_data b v m = record m { cache = update m.cache b v }

-- `bwrite` of the buffer of block `b`
unfoldable pub bwrite : ℕ → Machine → Machine
bwrite b m =
    if m.power == 0 then m else record m { disk = update m.disk b (m.cache b); power = m.power - 1 }

unfoldable pub bpin : ℕ → Machine → Machine
bpin b m = record m { pin = update m.pin b (m.pin b + 1) }

unfoldable pub bunpin : ℕ → Machine → Machine
bunpin b m = record m { pin = update m.pin b (m.pin b - 1) }

-- One round of the loop of `install_trans`, and of `write_log`.
unfoldable pub install_block : Bool → Log → ℕ → Machine → Machine
unfolding set_data bwrite bunpin
install_block recovering l tail m =
    let dst = l.lh.block tail in
    let m' = bwrite dst (set_data dst (m.cache (l.start + tail + 1)) m) in
    if recovering then m' else bunpin dst m'

unfoldable pub log_block : Log → ℕ → Machine → Machine
unfolding set_data bwrite
log_block l tail m =
    let to = l.start + tail + 1 in bwrite to (set_data to (m.cache (l.lh.block tail)) m)

-- The loops `for (tail = i; tail < i + rounds; tail++)`.
unfoldable pub install_loop : Bool → Log → (rounds tail : ℕ) → Machine → Machine
install_loop recovering l zero tail m = m
install_loop recovering l (suc k) tail m =
    install_loop recovering l k (tail + 1) (install_block recovering l tail m)

unfoldable pub write_loop : Log → (rounds tail : ℕ) → Machine → Machine
write_loop l zero tail m = m
write_loop l (suc k) tail m = write_loop l k (tail + 1) (log_block l tail m)

unfoldable pub install_trans : Bool → Log → Machine → Machine
unfolding install_loop
install_trans recovering l m = install_loop recovering l l.lh.n 0 m

unfoldable pub write_log : Log → Machine → Machine
unfolding write_loop
write_log l m = write_loop l l.lh.n 0 m

-- `hb->block[i] = log.lh.block[i]` for i from `i`: word 0 of the header is `n`, word i + 1 is
-- `block[i]`.
unfoldable pub fill_head : LogHeader → (rounds i : ℕ) → Block → Block
fill_head lh zero i data' = data'
fill_head lh (suc k) i data' = fill_head lh k (i + 1) (update data' (i + 1) (lh.block i))

unfoldable pub write_head : Log → Machine → Machine
unfolding fill_head set_data bwrite
write_head l m =
    bwrite l.start
      (set_data l.start (fill_head l.lh l.lh.n 0 (update (m.cache l.start) 0 l.lh.n)) m)

unfoldable pub copy_head : Block → (rounds i : ℕ) → (ℕ → ℕ) → ℕ → ℕ
copy_head hb zero i block = block
copy_head hb (suc k) i block = copy_head hb k (i + 1) (update block i (hb (i + 1)))

unfoldable pub read_head : Log → Machine → Log
unfolding copy_head
read_head l m =
    let hb = m.cache l.start in
    record l { lh = record { n = hb 0; block = copy_head hb (hb 0) 0 l.lh.block } }

abbrev pub no_blocks : Log → Log
no_blocks l = record l { lh = record { n = 0; block = l.lh.block } }

unfoldable pub recover_from_log : Log → Machine → Log × Machine
unfolding read_head install_trans write_head
recover_from_log l m =
    let l' = read_head l m in
    let done = no_blocks l' in (done, write_head done (install_trans true l' m))

-- The superblock gives `start` and `size`; the rest of `struct log` starts at zero.
unfoldable pub initlog : (logstart nlog : ℕ) → Machine → Log × Machine
unfolding recover_from_log
initlog logstart nlog m =
    recover_from_log
      (record {
        start = logstart;
        size = nlog;
        outstanding = 0;
        committing = false;
        lh = record { n = 0; block = λ _. 0 };
      })
      m

unfoldable pub commit : Log → Machine → Log × Machine
unfolding write_log write_head install_trans
commit l m =
    if ltb 0 l.lh.n
    then (let done = no_blocks l in
        (done, write_head done (install_trans false l (write_head l (write_log l m)))))
    else (l, m)

-- `begin_op` up to its next `sleep`: `asleep` says that the caller sleeps on the log and runs this
-- again when it is woken.
pub data Begun : Type 0 where
  asleep : Begun
  admitted : Log → Begun

unfoldable pub begin_op : Log → Begun
begin_op l =
    if l.committing
    then asleep
    else if ltb log_size (l.lh.n + (l.outstanding + 1) * max_op_blocks)
    then asleep
    else admitted (record l { outstanding = l.outstanding + 1 })

pub data Result {ℓ} (A : Type ℓ) : Type ℓ where
  ok : A → Result A
  panic : Result A

-- `end_op`. The caller's own operation is one of `outstanding`; below 1 the subtraction would leave
-- the range in which the code calls it. `log.committing` is set while `commit` runs.
unfoldable pub end_op : Log → Machine → Result (Log × Machine)
unfolding commit
end_op l m =
    let out = l.outstanding - 1 in
    if l.committing
    then panic
    else if out == 0
    then (let (l', m') = commit (record l { outstanding = out; committing = true }) m in
        ok (record l' { committing = false }, m'))
    else ok (record l { outstanding = out }, m)

-- The loop of `log_write`: the first i < n with `block[i] == b`, or n.
unfoldable pub find_block : LogHeader → ℕ → (rounds i : ℕ) → ℕ
find_block lh b zero i = i
find_block lh b (suc k) i = if lh.block i == b then i else find_block lh b k (i + 1)

-- `log_write` of the buffer of block `b`
unfoldable pub log_write : ℕ → Log → Machine → Result (Log × Machine)
unfolding find_block bpin
log_write b l m =
    if leb log_size l.lh.n
    then panic
    else if leb (l.size - 1) l.lh.n
    then panic
    else if ltb l.outstanding 1
    then panic
    else let i = find_block l.lh b l.lh.n 0 in
      let block = update l.lh.block i b in
      if i == l.lh.n
      then ok (record l { lh = record { n = l.lh.n + 1; block = block } }, bpin b m)
      else ok (record l { lh = record { n = l.lh.n; block = block } }, m)

-- A crash and a restart: memory is lost, and the disk stays. `power` is what the next run has.
unfoldable pub reboot : ℕ → Machine → Machine
reboot power m = record { disk = m.disk; cache = m.disk; pin = λ _. 0; power = power }
