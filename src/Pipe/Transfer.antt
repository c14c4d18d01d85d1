-- ===== src/Pipe/Transfer.antt =====
-- What `pipewrite` and `piperead` of kernel/pipe.c move, between the user's memory and the queue.
use assignment.Common.{
  ℕ, zero, suc, ◌+◌, ◌<◌, ◌==◌, ◌≡◌, ◌≢◌, ◌⊎◌, inl, inr, ◌∙◌, refl, sym, ap, subst, Bool, true,
  false, not, ◌&&◌, ◌||◌, Option, none, some, List, [], ◌∷◌, ◌++◌, append-nil, append_assoc,
  if◌then◌else◌, length, Bool-cases, Option-cases, arith,
}
use assignment.Pipe.{
  Pipe, pipe_size, add_addr, put, advance, next_byte, WriteEnd, failed, wrote, blocked, write_from,
  pipewrite, ReadEnd, read, waiting, read_from, piperead,
}
use assignment.Pipe.Ring.{
  window, held, contents, IsValid, length-window, full_iff, empty_iff, put_lem, advance_lem,
}

module _ (copyin : ℕ → Option ℕ) (killed : Bool) (addr : ℕ) where
  -- `bs` are the user's bytes from index i on.
  abbrev pub Taken : ℕ → List ℕ → Type 0
  Taken i [] = Unit {0}
  Taken i (b ∷ bs) = (copyin (add_addr addr i) ≡ some b) × Taken (i + 1) bs

  -- Where `pipewrite` may stop after the bytes up to index j, of `n`.
  abbrev pub Stops : (n j : ℕ) (pi : Pipe) → WriteEnd → Type 0
  Stops n j pi failed = (pi.readopen ≡ false) ⊎ (killed ≡ true)
  Stops n j pi (wrote i) = (i ≡ j) × ((j ≡ n) ⊎ (copyin (add_addr addr j) ≡ none))
  Stops n j pi (blocked i) = (i ≡ j) × (length (contents pi) ≡ pipe_size) × (j < n)

  abbrev Written : (n i : ℕ) (pi : Pipe) → Pipe × WriteEnd → Type 0
  Written n i pi (pi', end) =
      (bs : List ℕ) × Taken i bs
      × IsValid pi'
      × (contents pi' ≡ contents pi ++ bs)
      × Stops n (i + length bs) pi' end

  write_from-Written :
      (k i n : ℕ) (pi : Pipe)
      → i + k ≡ n
      → IsValid pi
      → Written n i pi (write_from copyin killed addr k i pi)
  unfolding write_from
  write_from-Written zero i n pi e v =
      ([], tt, v, sym (append-nil _), (omega arith, inl (omega arith)))
  write_from-Written (suc k) i n pi e v = elim (Bool-cases (not pi.readopen || killed)) [
    | inl stop ↦ rw (stop, write_from) ([], tt, v, sym (append-nil _), ground arith)
    | inr go ↦ elim (Bool-cases (held pi == pipe_size)) [
      | inl full ↦
          rw (go, full_iff pi v, full, write_from)
            (
              [],
              tt,
              v,
              sym (append-nil _),
              (omega arith, length-window pi.data' pi.nread (held pi) ∙ ground arith, omega arith),
            )
      | inr room ↦ elim (Option-cases (copyin (add_addr addr i))) [
        | inl none' ↦
            rw (go, full_iff pi v, room, none', write_from)
              (
                [],
                tt,
                v,
                sym (append-nil _),
                (omega arith, inr (ap (λ x. copyin (add_addr addr x)) (omega arith) ∙ none')),
              )
        | inr (ch, got) ↦
            let one = put_lem pi v ch (ground (arith, v.bounded)) in
            let (bs, taken, v', moved, stops) =
              write_from-Written k (i + 1) n (put ch pi) (omega arith) one.0 in
            rw (go, full_iff pi v, room, got, write_from)
              (
                ch ∷ bs,
                (got, taken),
                v',
                moved ∙ ap (λ l. l ++ bs) one.1 ∙ append_assoc (contents pi) (ch ∷ []) bs,
                subst
                    (λ j.
                      Stops n j (write_from copyin killed addr k (i + 1) (put ch pi)).0
                        (write_from copyin killed addr k (i + 1) (put ch pi)).1)
                    (omega arith) stops,
              )
      ]
    ]
  ]

  -- One run of `pipewrite` over a valid pipe appends to its queue the user's bytes that it took, in
  -- order, and keeps the pipe valid; it stops with a count when all `n` bytes are taken or the next
  -- one cannot be read, goes to sleep only on a full queue, and fails only when the read end is
  -- closed or the process killed.
  pub pipewrite_lem :
      (n : ℕ) (pi : Pipe)
      → IsValid pi
      → let (pi', end) = pipewrite copyin killed addr n pi in
        (bs : List ℕ) × Taken 0 bs
        × IsValid pi'
        × (contents pi' ≡ contents pi ++ bs)
        × Stops n (length bs) pi' end
  unfolding pipewrite
  pipewrite_lem n pi v =
      let (bs, taken, v', moved, stops) = write_from-Written n 0 n pi (omega arith) v in
      (
        bs,
        taken,
        v',
        moved,
        subst
            (λ j.
              Stops n j (write_from copyin killed addr n 0 pi).0
                (write_from copyin killed addr n 0 pi).1)
            (omega arith) stops,
      )

module _ (M : Type 0) (copyout : ℕ → ℕ → M → Option M) (killed : Bool) (addr : ℕ) where
  -- `copyout` stores `bs` from index i on, and `m` becomes `m'`.
  abbrev pub Delivered : ℕ → List ℕ → M → M → Type 0
  Delivered i [] m m' = m ≡ m'
  Delivered i (b ∷ bs) m m' =
      (m₁ : M) × (copyout (add_addr addr i) b m ≡ some m₁) × Delivered (i + 1) bs m₁ m'

  -- Why the reading loop stops after `bs`: all `n` bytes are read, or the queue is empty, or the
  -- next byte `lost` left the queue and could not be stored.
  abbrev pub Ends : (n j : ℕ) (pi' : Pipe) (m' : M) (lost : List ℕ) → Type 0
  Ends n j pi' m' [] = (j ≡ n) ⊎ (contents pi' ≡ [])
  Ends n j pi' m' (b ∷ lost) = (copyout (add_addr addr j) b m' ≡ none) × (lost ≡ [])

  abbrev Received : (n i : ℕ) (pi : Pipe) (m : M) → Pipe × M × ℕ → Type 0
  Received n i pi m (pi', m', r) =
      (bs : List ℕ) × (lost : List ℕ) × IsValid pi'
      × (contents pi ≡ bs ++ (lost ++ contents pi'))
      × Delivered i bs m m'
      × (r ≡ i + length bs)
      × Ends n (i + length bs) pi' m' lost

  held_zero : (pi : Pipe) → (held pi == 0) ≡ true → contents pi ≡ []
  held_zero pi e = ap (window pi.data' pi.nread) (let z : held pi ≡ 0 = ground arith in z)

  read_from-Received :
      (k i n : ℕ) (pi : Pipe) (m : M)
      → i + k ≡ n
      → IsValid pi
      → Received n i pi m (read_from M copyout killed addr k i pi m)
  unfolding read_from
  read_from-Received zero i n pi m e v = ([], [], v, refl, refl, omega arith, inl (omega arith))
  read_from-Received (suc k) i n pi m e v = elim (Bool-cases (held pi == 0)) [
    | inl empty ↦
        rw (empty_iff pi v, empty, read_from)
          ([], [], v, refl, refl, omega arith, inr (held_zero pi empty))
    | inr more ↦
        let one = advance_lem pi v (ground arith) in
        elim (Option-cases (copyout (add_addr addr i) (next_byte pi) m)) [
          | inl none' ↦
              rw (empty_iff pi v, more, none', read_from)
                (
                  [],
                  next_byte pi ∷ [],
                  one.0,
                  one.1,
                  refl,
                  omega arith,
                  (
                    ap (λ x. copyout (add_addr addr x) (next_byte pi) m) (omega arith) ∙ none',
                    refl,
                  ),
                )
          | inr (m₁, stored) ↦
              let (bs, lost, v', moved, delivered, count, ends) =
                read_from-Received k (i + 1) n (advance pi) m₁ (omega arith) one.0 in
              rw (empty_iff pi v, more, stored, read_from)
                (
                  next_byte pi ∷ bs,
                  lost,
                  v',
                  one.1 ∙ ap (λ l. next_byte pi ∷ l) moved,
                  (m₁, stored, delivered),
                  omega (arith, count),
                  subst
                      (λ j.
                        Ends n j (read_from M copyout killed addr k (i + 1) (advance pi) m₁).0
                          (read_from M copyout killed addr k (i + 1) (advance pi) m₁).1 lost)
                      (omega arith) ends,
                )
        ]
  ]

  -- One run of the copying loop of `piperead` over a valid pipe takes bytes from the front of its
  -- queue and stores them in order, and returns how many it stored. It stops when it has `n`, when
  -- the queue is empty, or at a byte that cannot be stored: that byte has left the queue.
  pub read_from_lem :
      (n : ℕ) (pi : Pipe) (m : M)
      → IsValid pi
      → let (pi', m', r) = read_from M copyout killed addr n 0 pi m in
        (bs : List ℕ) × (lost : List ℕ) × IsValid pi'
        × (contents pi ≡ bs ++ (lost ++ contents pi'))
        × Delivered 0 bs m m'
        × (r ≡ length bs)
        × Ends n (length bs) pi' m' lost
  read_from_lem n pi m v =
      let (bs, lost, v', moved, delivered, count, ends) =
        read_from-Received n 0 n pi m (omega arith) v in
      (
        bs,
        lost,
        v',
        moved,
        delivered,
        omega (arith, count),
        subst
            (λ j.
              Ends n j (read_from M copyout killed addr n 0 pi m).0
                (read_from M copyout killed addr n 0 pi m).1 lost)
            (omega arith) ends,
      )

  -- `piperead` blocks or fails only on an empty pipe that is still open for writing, and leaves it.
  pub piperead_blocks :
      (n : ℕ) (pi : Pipe) (m : M)
      → IsValid pi
      → let (pi', m', end) = piperead M copyout killed addr n pi m in
        ((contents pi ≡ [])
          × (pi.writeopen ≡ true)
          × (pi' ≡ pi)
          × (end ≡ (if killed then ReadEnd.failed else waiting)))
        ⊎ (((contents pi ≢ []) ⊎ (pi.writeopen ≡ false))
            × (pi' ≡ (read_from M copyout killed addr n 0 pi m).0)
            × (m' ≡ (read_from M copyout killed addr n 0 pi m).1)
            × (end ≡ read (read_from M copyout killed addr n 0 pi m).2))
  unfolding piperead
  piperead_blocks n pi m v = elim (Bool-cases (pi.nread == pi.nwrite && pi.writeopen)) [
    | inl wait ↦
        rw (wait, piperead)
          (inl (held_zero pi (sym (empty_iff pi v) ∙ ground arith), ground arith, refl, refl))
    | inr go ↦ rw (go, piperead) (inr (reason go, refl, refl, refl))
  ]
    where
      reason :
          (pi.nread == pi.nwrite && pi.writeopen) ≡ false
          → (contents pi ≢ []) ⊎ (pi.writeopen ≡ false)
      reason go = elim (Bool-cases (pi.nread == pi.nwrite)) [
        | inl empty ↦ inr (ground arith)
        | inr more ↦
            inl (λ e. let one = advance_lem pi v (ground (arith, empty_iff pi v)) in cc (one.1))
      ]
