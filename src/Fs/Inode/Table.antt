-- ===== src/Fs/Inode/Table.antt =====
-- The table of inodes of kernel/fs.c holds an inode once.
use assignment.Common.{
  ℕ, zero, suc, ◌+◌, ◌≤◌, ◌≡◌, ◌≢◌, ◌⊎◌, inl, inr, ◌==◌, ◌&&◌, Bool, true, false, Option, none,
  some, List, [], ◌∷◌, ◌∙◌, ap, sym, refl, subst, if◌then◌else◌, ltb, get_elem?, set,
  get_elem?-set_self, get_elem?-set_ne, lt-length_of_get_elem?, Bool-cases, arith,
}
use assignment.Fs.Types.{Inode, Fs, ◌>>=◌, get_inode}
use assignment.Fs.Inode.{Slot, cached, empty, full, find_slot, iget}

-- The entry is in use for the inode.
abbrev pub holds : (dev inum : ℕ) → Inode → Bool
holds dev inum ip = ltb 0 ip.ref && (ip.dev == dev) && (ip.inum == inum)

-- How many entries are.
abbrev pub entries : (dev inum : ℕ) → List Inode → ℕ
entries dev inum [] = 0
entries dev inum (ip ∷ t) = (if holds dev inum ip then 1 else 0) + entries dev inum t

abbrev pub IsSingle : List Inode → Type 0
IsSingle t = (dev inum : ℕ) → entries dev inum t ≤ 1

entries-set :
    (dev inum i : ℕ) (ip v : Inode) (t : List Inode)
    → get_elem? t i ≡ some ip
    → entries dev inum (set t i v) + (if holds dev inum ip then 1 else 0)
      ≡ entries dev inum t + (if holds dev inum v then 1 else 0)
entries-set dev inum i ip v [] e = absurd (cc)
entries-set dev inum zero ip v (x ∷ t) e =
    let same : x ≡ ip = cc in
    omega (arith, ap {B = ℕ} (λ y. if holds dev inum y then 1 else 0) same)
entries-set dev inum (suc i) ip v (x ∷ t) e = omega (arith, entries-set dev inum i ip v t e)

-- What the search from entry i on finds.
abbrev Finds : (dev inum i : ℕ) → Option ℕ → List Inode → Slot → Type 0
Finds dev inum i e t full =
    (e ≡ none)
    × (entries dev inum t ≡ 0)
    × ((j : ℕ) (ip : Inode) → get_elem? t j ≡ some ip → ip.ref ≢ 0)
Finds dev inum i e t (cached k) =
    (j : ℕ) × (ip : Inode) × (k ≡ i + j) × (get_elem? t j ≡ some ip) × (holds dev inum ip ≡ true)
Finds dev inum i e t (empty k) =
    (entries dev inum t ≡ 0)
    × ((e ≡ some k)
        ⊎ ((j : ℕ) × (ip : Inode) × (k ≡ i + j) × (get_elem? t j ≡ some ip) × (ip.ref ≡ 0)))

-- The search goes on behind an entry x that is not the inode's.
module _ (dev inum i : ℕ) (x : Inode) (t : List Inode) (miss : holds dev inum x ≡ false) where
  behind_found :
      (k : ℕ) (r : Slot) → Finds dev inum (i + 1) (some k) t r → Finds dev inum i (some k) (x ∷ t) r
  behind_found k full h = absurd (cc (h.0))
  behind_found k (cached n) (j, ip, at, e, hit) = (suc j, ip, omega arith, e, hit)
  behind_found k (empty n) (none', inl e) = (rw (miss, none'), inl e)
  behind_found k (empty n) (none', inr (j, ip, at, e, z)) =
      (rw (miss, none'), inr (suc j, ip, omega arith, e, z))

  behind_empty :
      x.ref ≡ 0 → (r : Slot) → Finds dev inum (i + 1) (some i) t r → Finds dev inum i none (x ∷ t) r
  behind_empty z full h = absurd (cc (h.0))
  behind_empty z (cached n) (j, ip, at, e, hit) = (suc j, ip, omega arith, e, hit)
  behind_empty z (empty n) (none', inl e) = (rw (miss, none'), inr (0, x, ground arith, refl, z))
  behind_empty z (empty n) (none', inr (j, ip, at, e, z')) =
      (rw (miss, none'), inr (suc j, ip, omega arith, e, z'))

  behind_busy :
      x.ref ≢ 0 → (r : Slot) → Finds dev inum (i + 1) none t r → Finds dev inum i none (x ∷ t) r
  behind_busy nz full (e, none', busy) = (e, rw (miss, none'), all)
    where
      all : (j : ℕ) (ip : Inode) → get_elem? (x ∷ t) j ≡ some ip → ip.ref ≢ 0
      all zero ip at = let same : x ≡ ip = cc in subst (λ y. y.ref ≢ 0) same nz
      all (suc j) ip at = busy j ip at
  behind_busy nz (cached n) (j, ip, at, e, hit) = (suc j, ip, omega arith, e, hit)
  behind_busy nz (empty n) (none', inl e) = absurd (cc)
  behind_busy nz (empty n) (none', inr (j, ip, at, e, z)) =
      (rw (miss, none'), inr (suc j, ip, omega arith, e, z))

find_slot-Finds :
    (dev inum i : ℕ) (e : Option ℕ) (t : List Inode)
    → Finds dev inum i e t (find_slot dev inum i e t)
unfolding find_slot
find_slot-Finds dev inum i none [] = (refl, refl, λ j ip e. absurd (cc))
find_slot-Finds dev inum i (some k) [] = (refl, inl refl)
find_slot-Finds dev inum i none (x ∷ t) = elim (Bool-cases (holds dev inum x)) [
  | inl hit ↦ rw hit (0, x, omega arith, refl, hit)
  | inr miss ↦ elim (Bool-cases (x.ref == 0)) [
    | inl z ↦
        rw (miss, z)
          (behind_empty dev inum i x t miss (ground arith) (find_slot dev inum (i + 1) (some i) t)
            (find_slot-Finds dev inum (i + 1) (some i) t))
    | inr nz ↦
        rw (miss, nz)
          (behind_busy dev inum i x t miss (ground arith) (find_slot dev inum (i + 1) none t)
            (find_slot-Finds dev inum (i + 1) none t))
  ]
]
find_slot-Finds dev inum i (some k) (x ∷ t) = elim (Bool-cases (holds dev inum x)) [
  | inl hit ↦ rw hit (0, x, omega arith, refl, hit)
  | inr miss ↦ rw miss (
      behind_found dev inum i x t miss k (find_slot dev inum (i + 1) (some k) t)
        (find_slot-Finds dev inum (i + 1) (some k) t))
]

-- A panic, or an entry for the inode.
abbrev pub IgetEnds : (dev inum : ℕ) → Fs → Type 0
IgetEnds dev inum s =
    ((iget dev inum s ≡ none)
      × (entries dev inum s.itable ≡ 0)
      × ((j : ℕ) (ip : Inode) → get_elem? s.itable j ≡ some ip → ip.ref ≢ 0))
    ⊎ ((k : ℕ) × (s' : Fs) × (iget dev inum s ≡ some (k, s'))
        × IsSingle s'.itable
        × (ip : Inode) × (get_elem? s'.itable k ≡ some ip)
        × (holds dev inum ip ≡ true)
        × ((n : ℕ) → k ≢ n → get_elem? s'.itable n ≡ get_elem? s.itable n))

-- `iget` answers with an entry in use for the inode, leaves every other entry as it is and never
-- makes a second entry for an inode; it panics only when the inode has no entry and no entry is
-- unused.
pub iget_lem : (dev inum : ℕ) (s : Fs) → IsSingle s.itable → IgetEnds dev inum s
unfolding iget
iget_lem dev inum s single =
    answer (find_slot dev inum 0 none s.itable) refl (find_slot-Finds dev inum 0 none s.itable)
  where
    t : List Inode
    t = s.itable

    taken : (k : ℕ) → Inode → Fs
    taken k v = record s { itable = set t k v }

    answer :
        (r : Slot)
        → find_slot dev inum 0 none t ≡ r
        → Finds dev inum 0 none t r
        → IgetEnds dev inum s
    answer full e (_, none', busy) = inl (rw (e, iget), none', busy)
    answer (cached k) e (j, ip, at, found, hit) =
        let v : Inode = record ip { ref = ip.ref + 1 } in
        let at' : k ≡ j = omega arith in
        let found' : get_elem? t k ≡ some ip =
          subst (λ x. get_elem? t x ≡ some ip) (sym at') found in
        inr (
          k,
          taken k v,
          rw (e, iget, ◌>>=◌, get_inode, found'),
          (λ d n. ground (arith, entries-set d n k ip v t found', single d n)),
          v,
          get_elem?-set_self t k v (lt-length_of_get_elem? t k found'),
          ground arith,
          λ n ne. get_elem?-set_ne t k n v ne,
        )
    answer (empty k) e (none', inl c) = absurd (cc)
    answer (empty k) e (none', inr (j, ip, at, found, z)) =
        let v : Inode = record ip { dev = dev; inum = inum; ref = 1; valid = false } in
        let at' : k ≡ j = omega arith in
        let found' : get_elem? t k ≡ some ip =
          subst (λ x. get_elem? t x ≡ some ip) (sym at') found in
        inr (
          k,
          taken k v,
          rw (e, iget, ◌>>=◌, get_inode, found'),
          (λ d n. elim (Bool-cases (dev == d && inum == n)) [
            | inl same ↦
                let e1 : dev ≡ d = ground arith in
                let e2 : inum ≡ n = ground arith in
                let e3 : entries d n t ≡ 0 =
                  ap (λ x. entries x n t) (sym e1) ∙ ap (λ x. entries dev x t) (sym e2) ∙ none' in
                ground (arith, entries-set d n k ip v t found')
            | inr other ↦ ground (arith, entries-set d n k ip v t found', single d n)
          ]),
          v,
          get_elem?-set_self t k v (lt-length_of_get_elem? t k found'),
          ground arith,
          λ n ne. get_elem?-set_ne t k n v ne,
        )
