-- ===== src/Fs/Inode/Update.antt =====
-- What iupdate of kernel/fs.c writes to the disk is what ilock reads back.
use assignment.Common.{
  ℕ, zero, suc, ◌+◌, ◌*◌, ◌^◌, ◌<◌, ◌≤◌, ◌≡◌, ◌≢◌, ◌⊎◌, inl, inr, ◌==◌, ◌||◌, true, false, Option,
  some, ◌∙◌, ap, sym, refl, subst, if◌then◌else◌, ltb, update, update_self, get_elem?, set,
  get_elem?-set_self, lt-length_of_get_elem?, Bool-cases, arith,
}
use assignment.Fs.Types.{
  Block, Inode, Fs, ◌>>=◌, pure, get_inode, read_short, write_short, read_uint, write_uint,
  inode_block, inode_at,
}
use assignment.Fs.Inode.{
  load_addrs, store_addrs, load_inode, store_inode, iupdate, read_inode, ilock,
}

abbrev Outside : (p n j : ℕ) → Type 0
Outside p n j = (j < p) ⊎ (p + n ≤ j)

write_short_frame : (d : Block) (p v j : ℕ) → Outside p 2 j → write_short d p v j ≡ d j
write_short_frame d p v j out = ground arith

write_uint_frame : (d : Block) (p v j : ℕ) → Outside p 4 j → write_uint d p v j ≡ d j
write_uint_frame d p v j out = ground arith

read_short-write_short : (d : Block) (p v : ℕ) → v < 2 ^ 16 → read_short (write_short d p v) p ≡ v
read_short-write_short d p v lt = ground arith

read_uint-write_uint : (d : Block) (p v : ℕ) → v < 2 ^ 32 → read_uint (write_uint d p v) p ≡ v
read_uint-write_uint d p v lt = ground arith

-- A number is read from its own bytes only.
read_short_cong :
    (d d' : Block) (p : ℕ)
    → ((j : ℕ) → p ≤ j → j < p + 2 → d' j ≡ d j)
    → read_short d' p ≡ read_short d p
read_short_cong d d' p same =
    omega (arith, same p (omega arith) (omega arith), same (p + 1) (omega arith) (omega arith))

read_uint_cong :
    (d d' : Block) (p : ℕ)
    → ((j : ℕ) → p ≤ j → j < p + 4 → d' j ≡ d j)
    → read_uint d' p ≡ read_uint d p
read_uint_cong d d' p same = omega (
  arith,
  same p (omega arith) (omega arith),
  same (p + 1) (omega arith) (omega arith),
  same (p + 2) (omega arith) (omega arith),
  same (p + 3) (omega arith) (omega arith),
)

store_addrs_frame :
    (k j p : ℕ) (a : ℕ → ℕ) (d : Block) (i : ℕ)
    → Outside (p + 12 + 4 * j) (4 * k) i
    → store_addrs k j p a d i ≡ d i
unfolding store_addrs
store_addrs_frame zero j p a d i out = refl
store_addrs_frame (suc k) j p a d i out =
    store_addrs_frame k (j + 1) p a (write_uint d (p + 12 + 4 * j) (a j)) i (ground arith)
    ∙ write_uint_frame d (p + 12 + 4 * j) (a j) i (ground arith)

store_addrs_at :
    (k j p : ℕ) (a : ℕ → ℕ) (d : Block) (l : ℕ)
    → j ≤ l
    → l < j + k
    → a l < 2 ^ 32
    → read_uint (store_addrs k j p a d) (p + 12 + 4 * l) ≡ a l
unfolding store_addrs
store_addrs_at zero j p a d l lo hi lt = absurd (omega arith)
store_addrs_at (suc k) j p a d l lo hi lt = elim (Bool-cases (j == l)) [
  | inr later ↦
      store_addrs_at k (j + 1) p a (write_uint d (p + 12 + 4 * j) (a j)) l (ground arith)
        (omega arith) lt
  | inl here ↦
      let e : j ≡ l = ground arith in
      let d' = write_uint d (p + 12 + 4 * j) (a j) in
      let lt' : a j < 2 ^ 32 = subst (λ x. a x < 2 ^ 32) (sym e) lt in
      subst (λ x. read_uint (store_addrs k (j + 1) p a d') (p + 12 + 4 * x) ≡ a x) e
        (read_uint_cong d' (store_addrs k (j + 1) p a d') (p + 12 + 4 * j)
            (λ i lo' hi'. store_addrs_frame k (j + 1) p a d' i (inl (omega arith)))
          ∙ read_uint-write_uint d (p + 12 + 4 * j) (a j) lt')
]

load_addrs_at :
    (k j p : ℕ) (d : Block) (a : ℕ → ℕ) (l : ℕ)
    → l < j + k
    → load_addrs k j p d a l ≡ (if ltb l j then a l else read_uint d (p + 12 + 4 * l))
unfolding load_addrs
load_addrs_at zero j p d a l hi = ground arith
load_addrs_at (suc k) j p d a l hi =
    load_addrs_at k (j + 1) p d (update a j (read_uint d (p + 12 + 4 * j))) l (omega arith)
    ∙ elim (Bool-cases (j == l)) [
      | inl here ↦
          let e : j ≡ l = ground arith in ground (arith, ap (λ x. read_uint d (p + 12 + 4 * x)) e)
      | inr other ↦ ground arith
    ]

-- The fields fit their types.
pub record IsInRange (ip : Inode) : Type 0 where
  pub type_fits : ip.type < 2 ^ 16
  pub major_fits : ip.major < 2 ^ 16
  pub minor_fits : ip.minor < 2 ^ 16
  pub nlink_fits : ip.nlink < 2 ^ 16
  pub size_fits : ip.size < 2 ^ 32
  pub addrs_fit : (j : ℕ) → j < 13 → ip.addrs j < 2 ^ 32

-- The fields that are on disk.
abbrev pub SameFields : Inode → Inode → Type 0
SameFields x y =
    (x.type ≡ y.type)
    × (x.major ≡ y.major)
    × (x.minor ≡ y.minor)
    × (x.nlink ≡ y.nlink)
    × (x.size ≡ y.size)
    × ((j : ℕ) → j < 13 → x.addrs j ≡ y.addrs j)

-- A byte of the fields in front of the addresses.
module _ (p : ℕ) (d : Block) (ip : Inode) where
  header : Block
  header =
      write_uint
        (write_short
          (write_short (write_short (write_short d p ip.type) (p + 2) ip.major) (p + 4) ip.minor)
          (p + 6) ip.nlink)
        (p + 8) ip.size

  store_inode-header : (j : ℕ) → j < p + 12 → store_inode p ip d j ≡ header j
  unfolding store_inode header
  store_inode-header j lt = store_addrs_frame 13 0 p ip.addrs header j (inl (omega arith))

  store_inode_short :
      (q : ℕ) → q + 2 ≤ p + 12 → read_short (store_inode p ip d) q ≡ read_short header q
  store_inode_short q le =
      read_short_cong header (store_inode p ip d) q (λ j lo hi. store_inode-header j (omega arith))

  store_inode_size : read_uint (store_inode p ip d) (p + 8) ≡ read_uint header (p + 8)
  store_inode_size =
      read_uint_cong header (store_inode p ip d) (p + 8)
        (λ j lo hi. store_inode-header j (omega arith))

  store_inode_addrs :
      (j : ℕ)
      → j < 13
      → ip.addrs j < 2 ^ 32
      → read_uint (store_inode p ip d) (p + 12 + 4 * j) ≡ ip.addrs j
  unfolding store_inode header
  store_inode_addrs j lt fits =
      store_addrs_at 13 0 p ip.addrs header j (omega arith) (omega arith) fits

  -- The fields read back are the ones stored, whatever entry they are read into.
  pub load_inode-store_inode :
      IsInRange ip → (old : Inode) → SameFields (load_inode p (store_inode p ip d) old) ip
  unfolding load_inode header
  load_inode-store_inode fits old = (
    store_inode_short p (omega arith) ∙ ground arith,
    store_inode_short (p + 2) (omega arith) ∙ ground arith,
    store_inode_short (p + 4) (omega arith) ∙ ground arith,
    store_inode_short (p + 6) (omega arith) ∙ ground arith,
    store_inode_size ∙ ground arith,
    λ j lt.
        load_addrs_at 13 0 p (store_inode p ip d) old.addrs j (omega arith)
        ∙ (let in' : ltb j 0 ≡ false = ground arith in
            rw in' (store_inode_addrs j lt (fits.addrs_fit j lt))),
  )

load_inode_locked : (p : ℕ) (d : Block) (ip : Inode) → (load_inode p d ip).locked ≡ ip.locked
unfolding load_inode
load_inode_locked p d ip = refl

-- `read_inode` of an inode that has a type on the disk.
read_inode_lem :
    (k : ℕ) (s : Fs) (ip : Inode)
    → get_elem? s.itable k ≡ some ip
    → (let d = s.cache (inode_block s.sb ip.inum) in (load_inode (inode_at ip.inum) d ip).type ≢ 0)
    → read_inode k s
      ≡ some (
        tt,
        record s {
          itable =
              set s.itable k
                (record (load_inode (inode_at ip.inum) (s.cache (inode_block s.sb ip.inum)) ip) {
                  valid = true;
                });
        },
      )
unfolding read_inode
read_inode_lem k s ip at live =
    let d = s.cache (inode_block s.sb ip.inum) in
    let some_type : ((load_inode (inode_at ip.inum) d ip).type == 0) ≡ false = ground arith in
    rw (read_inode, ◌>>=◌, get_inode, at, some_type)

-- What `iupdate` of an entry leaves in the block of the inode.
iupdate_block :
    (s s' : Fs) (i : ℕ) (ip : Inode)
    → get_elem? s.itable i ≡ some ip
    → iupdate i s ≡ some (tt, s')
    → s'.cache (inode_block s.sb ip.inum)
      ≡ store_inode (inode_at ip.inum) ip (s.cache (inode_block s.sb ip.inum))
unfolding iupdate
iupdate_block s s' i ip at done =
    let b = inode_block s.sb ip.inum in
    let d = store_inode (inode_at ip.inum) ip (s.cache b) in
    let s₁ : Fs = record s { cache = update s.cache b d; logged = update s.logged b true } in
    let run : iupdate i s ≡ some (tt, s₁) = rw (iupdate, ◌>>=◌, get_inode, at) in
    let same : ◌≡◌ {A = Option (Unit {0} × Fs)} (some (tt, s₁)) (some (tt, s')) = sym run ∙ done in
    let e : s₁ ≡ s' = cc in ap (λ x. x.cache b) (sym e) ∙ update_self s.cache b d

-- After `iupdate` of an entry for an inode with a type, whose fields fit their types, let any time
-- pass in which the block of the inode does not change, and the entry may be given up and its inode
-- be got again. Then `ilock` of an entry for the inode that is in use, unlocked and not read yet
-- ends, and leaves the entry locked and valid, with the fields as `iupdate` found them.
pub ilock-iupdate :
    (s s' t : Fs) (i k : ℕ) (ip jp : Inode)
    → get_elem? s.itable i ≡ some ip
    → IsInRange ip
    → ip.type ≢ 0
    → iupdate i s ≡ some (tt, s')
    → t.sb ≡ s.sb
    → t.cache (inode_block s.sb ip.inum) ≡ s'.cache (inode_block s.sb ip.inum)
    → get_elem? t.itable k ≡ some jp
    → jp.inum ≡ ip.inum
    → 1 ≤ jp.ref
    → jp.locked ≡ false
    → jp.valid ≡ false
    → (t' : Fs) × (jp' : Inode) × (ilock k t ≡ some (tt, t'))
      × (get_elem? t'.itable k ≡ some jp')
      × SameFields jp' ip
      × (jp'.valid ≡ true)
      × (jp'.locked ≡ true)
unfolding ilock
ilock-iupdate s s' t i k ip jp at fits live done sb kept at' same used open' stale =
    let b = inode_block s.sb ip.inum in
    let d = store_inode (inode_at ip.inum) ip (s.cache b) in
    let held : Inode = record jp { locked = true } in
    let jp' : Inode =
      record (load_inode (inode_at jp.inum) (t.cache (inode_block t.sb jp.inum)) held) {
        valid = true;
      } in
    let table = set t.itable k held in
    let t' : Fs = record t { itable = set table k jp' } in
    let eq : t.cache (inode_block t.sb jp.inum) ≡ d =
      ap (λ x. t.cache (inode_block x jp.inum)) sb
      ∙ ap (λ x. t.cache (inode_block s.sb x)) same
      ∙ kept
      ∙ iupdate_block s s' i ip at done in
    let fields : SameFields jp' ip =
      subst (λ x. SameFields (load_inode (inode_at jp.inum) x held) ip) (sym eq)
        (subst (λ n. SameFields (load_inode (inode_at n) d held) ip) (sym same)
          (load_inode-store_inode (inode_at ip.inum) (s.cache b) ip fits held)) in
    let free' : (ltb jp.ref 1 || jp.locked) ≡ false = ground arith in
    let again : get_elem? table k ≡ some held =
      get_elem?-set_self t.itable k held (lt-length_of_get_elem? t.itable k at') in
    let some_type : jp'.type ≢ 0 = λ z. live (sym fields.0 ∙ z) in
    let t₁ : Fs = record t { itable = table } in
    let read : (if jp.valid then pure tt else read_inode k) t₁ ≡ some (tt, t') =
      ap (λ v. (if v then pure tt else read_inode k) t₁) stale
      ∙ read_inode_lem k t₁ held again some_type in
    (
      t',
      jp',
      rw (ilock, ◌>>=◌, get_inode, at', free') read,
      get_elem?-set_self table k jp' (lt-length_of_get_elem? table k again),
      fields,
      refl,
      load_inode_locked (inode_at jp.inum) (t.cache (inode_block t.sb jp.inum)) held,
    )
