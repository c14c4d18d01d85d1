-- ===== src/Fs/Content/Map.antt =====
-- The blocks that bmap of kernel/fs.c maps stay mapped.
use assignment.Common.{
  ℕ, ◌<◌, ◌==◌, ◌≡◌, ◌≢◌, ◌⊎◌, inl, inr, ◌∙◌, ap, sym, refl, subst, true, false, Option, none, some,
  ltb, update, update_self, get_elem?, set, get_elem?-set_self, lt-length_of_get_elem?, Bool-cases,
  Option-cases, arith,
}
use assignment.Fs.Types.{Inode, Fs, ◌>>=◌, get_inode, ndirect}
use assignment.Fs.Bitmap.{balloc}
use assignment.Fs.Content.{map_direct, bmap}

-- An address that is there is the answer, and nothing changes.
map_direct_there :
    (i bn : ℕ) (s : Fs) (ip : Inode)
    → get_elem? s.itable i ≡ some ip
    → (ip.addrs bn == 0) ≡ false
    → map_direct i bn s ≡ some (ip.addrs bn, s)
unfolding map_direct
map_direct_there i bn s ip at there = rw (map_direct, ◌>>=◌, get_inode, at, there)

-- The state after a block has been allocated and mapped.
abbrev pub mapped : (i bn r : ℕ) → Inode → Fs → Fs
mapped i bn r ip s = record s {
  itable = set s.itable i (record ip { addrs = update ip.addrs bn r });
}

-- The other ways to answer.
abbrev MapsNew : (i bn : ℕ) → Option (ℕ × Fs) → Type 0
MapsNew i bn none = Unit {0}
MapsNew i bn (some (a, s')) =
    (a ≡ 0)
    ⊎ ((s₁ : Fs) × (ip : Inode) × (get_elem? s₁.itable i ≡ some ip)
        × ((a == 0) ≡ false)
        × (s' ≡ mapped i bn a ip s₁))

map_direct-MapsNew :
    (i bn : ℕ) (s : Fs) (ip : Inode)
    → get_elem? s.itable i ≡ some ip
    → (ip.addrs bn == 0) ≡ true
    → MapsNew i bn (map_direct i bn s)
unfolding map_direct
map_direct-MapsNew i bn s ip at fresh = elim (Option-cases (balloc s)) [
  | inl fail ↦ rw (map_direct, ◌>>=◌, get_inode, at, fresh, fail) tt
  | inr ((r, s₁), got) ↦ elim (Option-cases (get_elem? s₁.itable i)) [
    | inl gone ↦ rw (map_direct, ◌>>=◌, get_inode, at, fresh, got, gone) tt
    | inr (ip₁, at₁) ↦ elim (Bool-cases (r == 0)) [
      | inl z ↦ rw (map_direct, ◌>>=◌, get_inode, at, fresh, got, at₁, z) (inl refl)
      | inr nz ↦
          rw (map_direct, ◌>>=◌, get_inode, at, fresh, got, at₁, nz) (inr (s₁, ip₁, at₁, nz, refl))
    ]
  ]
]

-- The block that `bmap` answers for one of the first 12 blocks of a file, if it is not 0, is the
-- answer again in the state that is left, and then nothing changes.
pub bmap-bmap :
    (i bn a : ℕ) (s s' : Fs)
    → bn < ndirect
    → bmap i bn s ≡ some (a, s')
    → a ≢ 0
    → bmap i bn s' ≡ some (a, s')
unfolding bmap
bmap-bmap i bn a s s' lt e ne =
    let direct : ltb bn ndirect ≡ true = ground arith in
    let first : map_direct i bn s ≡ some (a, s') = rw (direct, bmap) at e in
    rw direct (elim (Option-cases (get_elem? s.itable i)) [
      | inl gone ↦ absurd (cc (first, nowhere gone))
      | inr (ip, at) ↦ elim (Bool-cases (ip.addrs bn == 0)) [
        | inr there ↦
            let known = map_direct_there i bn s ip at there in
            let pair : ◌≡◌ {A = Option (ℕ × Fs)} (some (ip.addrs bn, s)) (some (a, s')) =
              sym known ∙ first in
            let same : s ≡ s' = cc in subst (λ x. map_direct i bn x ≡ some (a, s')) same first
        | inl fresh ↦ again (subst (MapsNew i bn) first (map_direct-MapsNew i bn s ip at fresh))
      ]
    ])
  where
    nowhere : get_elem? s.itable i ≡ none → map_direct i bn s ≡ none
    nowhere gone = rw (map_direct, ◌>>=◌, get_inode, gone)

    again : MapsNew i bn (some (a, s')) → map_direct i bn s' ≡ some (a, s')
    again (inl z) = absurd (ne z)
    again (inr (s₁, ip, at, nz, left)) =
        let ip' : Inode = record ip { addrs = update ip.addrs bn a } in
        let s₂ = mapped i bn a ip s₁ in
        let at' : get_elem? s₂.itable i ≡ some ip' =
          get_elem?-set_self s₁.itable i ip' (lt-length_of_get_elem? s₁.itable i at) in
        let addr : ip'.addrs bn ≡ a = update_self ip.addrs bn a in
        let there : (ip'.addrs bn == 0) ≡ false = subst (λ x. (x == 0) ≡ false) (sym addr) nz in
        subst (λ x. map_direct i bn x ≡ some (a, x)) (sym left)
          (map_direct_there i bn s₂ ip' at' there ∙ ap (λ x. some (x, s₂)) addr)
