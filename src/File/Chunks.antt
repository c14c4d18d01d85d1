-- ===== src/File/Chunks.antt =====
-- How the inode loop of `filewrite` of kernel/file.c ends, and what it returns.
use assignment.Common.{
  ℕ, zero, suc, ◌+◌, ◌-◌, ◌%◌, ◌^◌, ◌≤◌, ◌<◌, ◌==◌, ◌≡◌, ◌≢◌, ◌⊎◌, inl, inr, ◌∙◌, refl, ap, sym,
  subst, true, false, Option, none, some, ltb, Bool-cases, Option-cases, arith,
}
use assignment.File.{chunk, moved, write_chunks, filewrite_inode}

module _ (S : Type 0) (writei : (off i n : ℕ) → S → S × Option ℕ) where
  -- A call of writei for the bytes from j of n on, at offset o and in the state t, writes less than it
  -- was asked for, and leaves the state s' and the offset off'.
  abbrev pub Short : (n j o : ℕ) → S → S → ℕ → Type 0
  Short n j o t s' off' =
      let (t', r) = writei o j (chunk j n) t in
      (r ≢ some (chunk j n)) × (s' ≡ t') × (off' ≡ moved o r)

  -- How the loop ends that starts with i of n bytes written and the file's offset at off.
  abbrev pub Ends : (n i off : ℕ) → Option (S × ℕ × Option ℕ) → Type 0
  Ends n i off none = ⊥
  Ends n i off (some (s', off', r)) =
      ((r ≡ some n) × (off' ≡ (off + (n - i)) % 2 ^ 32))
      ⊎ ((r ≡ none)
          × ((j : ℕ) × (t : S) × (i ≤ j)
              × (j < n)
              × Short n j ((off + (j - i)) % 2 ^ 32) t s' off'))

  -- A round that wrote w bytes.
  Ends-add :
      (i w n off : ℕ) (x : Option (S × ℕ × Option ℕ))
      → i + w ≤ n
      → Ends n (i + w) ((off + w) % 2 ^ 32) x
      → Ends n i off x
  Ends-add i w n off none le h = h
  Ends-add i w n off (some (s', off', r)) le (inl (e, at)) = inl (e, omega arith)
  Ends-add i w n off (some (s', off', r)) le (inr (e, (j, t, lo, hi, short))) =
      let same : ((off + w) % 2 ^ 32 + (j - (i + w))) % 2 ^ 32 ≡ (off + (j - i)) % 2 ^ 32 =
        omega arith in
      inr (e, (j, t, omega arith, hi, subst (λ o. Short n j o t s' off') same short))

  write_chunks-Ends :
      (k i n off : ℕ) (s : S)
      → i ≤ n
      → n ≤ i + k
      → off < 2 ^ 32
      → Ends n i off (write_chunks S writei k i n off s)
  unfolding write_chunks
  write_chunks-Ends zero i n off s lo hi fits =
      let e : i ≡ n = omega arith in
      let t : (i == n) ≡ true = ground arith in
      let u : ltb i n ≡ false = ground arith in rw (u, t, write_chunks) (inl (refl, omega arith))
  write_chunks-Ends (suc k) i n off s lo hi fits = elim (Bool-cases (ltb i n)) [
    | inr done ↦
        let t : (i == n) ≡ true = ground arith in
        rw (done, t, write_chunks) (inl (refl, ground arith))
    | inl more ↦
        let before : (i == n) ≡ false = ground arith in
        let here : off ≡ (off + (i - i)) % 2 ^ 32 = omega arith in
        elim (Option-cases (writei off i (chunk i n) s).1) [
          | inl bad ↦
              let short : Short n i off s (writei off i (chunk i n) s).0 off =
                (λ e. (let f = sym bad ∙ e in cc), refl, ap (moved off) (sym bad)) in
              rw (more, bad, before, write_chunks)
                (inr (
                  refl,
                  (
                    i,
                    s,
                    omega arith,
                    ground arith,
                    subst (λ o. Short n i o s (writei off i (chunk i n) s).0 off) here short,
                  ),
                ))
          | inr (w, good) ↦ elim (Bool-cases (w == chunk i n)) [
            | inr less ↦
                let next = moved off (some w) in
                let short : Short n i off s (writei off i (chunk i n) s).0 next =
                  (λ e. (let f = sym good ∙ e in ground arith), refl, ap (moved off) (sym good)) in
                rw (more, good, less, before, write_chunks)
                  (inr (
                    refl,
                    (
                      i,
                      s,
                      omega arith,
                      ground arith,
                      subst (λ o. Short n i o s (writei off i (chunk i n) s).0 next) here short,
                    ),
                  ))
            | inl full ↦
                let pos₁ : 1 ≤ chunk i n = ground arith in
                let small : chunk i n ≤ n - i = ground arith in
                let e : w ≡ chunk i n = ground arith in
                let rest =
                  write_chunks-Ends k (i + w) n (moved off (some w)) (writei off i (chunk i n) s).0
                    (ground arith) (ground arith) (omega arith) in
                rw (more, good, full, write_chunks)
                  (Ends-add i w n off
                    (write_chunks S writei k (i + w) n (moved off (some w))
                      (writei off i (chunk i n) s).0)
                    (ground arith) rest)
          ]
        ]
  ]

  -- The inode loop of `filewrite`, with the file's offset a `uint`, ends within as many rounds as
  -- there are bytes to write. It returns n with the offset moved by n, or -1. With -1 it stopped
  -- after a call of writei, for the bytes from some j below n on and at the offset moved by j, that
  -- did not write all that it was asked for: at most `max` bytes and none past n. The state is what
  -- that call left, and the offset has moved by j and by what the call wrote.
  pub filewrite_inode_lem :
      (n off : ℕ) (s : S)
      → off < 2 ^ 32
      → (s' : S) × (off' : ℕ) × (r : Option ℕ) × (filewrite_inode S writei n off s
          ≡ some (s', off', r))
        × (((r ≡ some n) × (off' ≡ (off + n) % 2 ^ 32))
            ⊎ ((r ≡ none)
                × ((j : ℕ) × (t : S) × (j < n) × Short n j ((off + j) % 2 ^ 32) t s' off')))
  unfolding filewrite_inode
  filewrite_inode_lem n off s fits =
      let ends = write_chunks-Ends n 0 n off s (omega arith) (omega arith) fits in
      elim (Option-cases (write_chunks S writei n 0 n off s)) [
        | inl stuck ↦ absurd (subst (Ends n 0 off) stuck ends)
        | inr ((s', off', r), found) ↦ (
          s',
          off',
          r,
          found,
          elim (subst (Ends n 0 off) found ends) [
            | inl (e, at) ↦ inl (e, omega arith)
            | inr (e, (j, t, _, hi, short)) ↦ inr (
              e,
              (j, t, hi, subst (λ x. Short n j ((off + x) % 2 ^ 32) t s' off') (omega arith) short),
            )
          ],
        )
      ]
