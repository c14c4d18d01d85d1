-- ===== src/Vm/User.antt =====
-- The memory of a process: `uvmcreate` to `uvmclear` of kernel/vm.c. Sizes and addresses are below
-- 2 ^ 43, so a number of pages is an `int`.
pub mod Guard
use assignment.Common.{
  ℕ, zero, suc, ◌+◌, ◌-◌, ◌*◌, ◌/◌, ◌%◌, ◌^◌, ◌==◌, Bool, true, false, not, ◌&&◌, ◌||◌, Option,
  none, some, ltb, leb, within, if◌then◌else◌, update,
}
use assignment.Kalloc.{Kmem, page_size, fill, kfree, kalloc, pg_round_up}
use assignment.Str.{Bytes}
use assignment.Vm.{pte2pa, is_valid, is_user, pte_flags, walk, mappages, uvmunmap}
use assignment.Vm.Copy.{byte_of, word_of, move}

-- `memset(mem, 0, PGSIZE)`
abbrev pub zeroed : (page : ℕ) → Kmem → Kmem
zeroed page k = record k { mem = fill page 0 k.mem }

-- The page, or 0.
unfoldable pub uvmcreate : Kmem → ℕ × Kmem
uvmcreate k = let r = kalloc k in if r.0 == 0 then (0, r.1) else (r.0, zeroed r.0 r.1)

-- PTE_W | PTE_R | PTE_X | PTE_U
abbrev pub first_perm : ℕ
first_perm = 30

-- None is a panic, of `mappages` too; its result is not looked at. `src` is the initial code.
unfoldable pub uvmfirst : (pagetable : ℕ) (src : Bytes) (sz : ℕ) → Kmem → Option Kmem
uvmfirst pagetable src sz k =
    if leb page_size sz
    then none
    else (let r = kalloc k in
        elim (mappages pagetable 0 page_size r.0 first_perm (zeroed r.0 r.1)) [
          | none ↦ none
          | some (ok, k') ↦ some (record k' { mem = word_of (move r.0 src 0 sz (byte_of k'.mem)) })
        ])

-- `PTE_R | PTE_U | xperm`
abbrev pub user_perm : ℕ → ℕ
user_perm xperm = xperm / 32 * 32 + 16 + xperm / 4 % 4 * 4 + 2 + xperm % 2

-- `*pte &= ~PTE_U`
abbrev pub clear_user : ℕ → ℕ
clear_user pte = pte / 32 * 32 + pte % 16

-- None where there is no entry.
unfoldable pub uvmclear : (pagetable va : ℕ) → Kmem → Option Kmem
uvmclear pagetable va k = elim (walk pagetable va false k) [
  | none ↦ none
  | some (pte, k') ↦
      if pte == 0
      then none
      else some (record k' { mem = update k'.mem pte (clear_user (k'.mem pte)) })
]

module _ (end : ℕ) where
  unfoldable pub uvmdealloc : (pagetable oldsz newsz : ℕ) → Kmem → Option (ℕ × Kmem)
  uvmdealloc pagetable oldsz newsz k =
      if leb oldsz newsz
      then some (oldsz, k)
      else if ltb (pg_round_up end newsz) (pg_round_up end oldsz)
      then (elim (uvmunmap end pagetable (pg_round_up end newsz)
          ((pg_round_up end oldsz - pg_round_up end newsz) / page_size) true k) [
            | none ↦ none
            | some k' ↦ some (newsz, k')
          ])
      else some (newsz, k)

  -- The way out of `uvmalloc` on an error: 0, after what it had allocated is freed.
  unfoldable pub give_up : (pagetable a oldsz : ℕ) → Kmem → Option (ℕ × Kmem)
  unfolding uvmdealloc
  give_up pagetable a oldsz k = elim (uvmdealloc pagetable a oldsz k) [
    | none ↦ none
    | some (sz, k') ↦ some (0, k')
  ]

  -- The loop of `uvmalloc` from `a` on; none is a panic.
  unfoldable pub alloc_from : (rounds pagetable a oldsz newsz xperm : ℕ) → Kmem → Option (ℕ × Kmem)
  unfolding give_up
  alloc_from zero pagetable a oldsz newsz xperm k = some (newsz, k)
  alloc_from (suc n) pagetable a oldsz newsz xperm k =
      let r = kalloc k in
      let page = r.0 in
      elim (ltb a newsz) [
        | false ↦ some (newsz, k)
        | true ↦ elim (page == 0) [
          | true ↦ give_up pagetable a oldsz r.1
          | false ↦ elim (mappages pagetable a page_size page (user_perm xperm) (zeroed page r.1)) [
            | none ↦ none
            | some (ok, k') ↦ elim ok [
              | true ↦ alloc_from n pagetable (a + page_size) oldsz newsz xperm k'
              | false ↦ elim (kfree end page k') [
                | none ↦ none
                | some k'' ↦ give_up pagetable a oldsz k''
              ]
            ]
          ]
        ]
      ]

  -- A round for each page of the new size is enough.
  unfoldable pub uvmalloc : (pagetable oldsz newsz xperm : ℕ) → Kmem → Option (ℕ × Kmem)
  unfolding alloc_from
  uvmalloc pagetable oldsz newsz xperm k =
      let from = pg_round_up end oldsz in
      if ltb newsz oldsz
      then some (oldsz, k)
      else alloc_from (newsz / page_size + 1) pagetable from from newsz xperm k

  -- The loop of `freewalk` over the entries from i on, `free` its call on a child.
  unfoldable pub free_entries :
      (free : ℕ → Kmem → Option Kmem) (rounds pagetable i : ℕ) → Kmem → Option Kmem
  free_entries free zero pagetable i k = some k
  free_entries free (suc n) pagetable i k =
      let pte = k.mem (pagetable + 8 * i) in
      elim (is_valid pte) [
        | false ↦ free_entries free n pagetable (i + 1) k
        | true ↦ elim (pte / 2 % 8 == 0) [
          | false ↦ none
          | true ↦ elim (free (pte2pa pte) k) [
            | none ↦ none
            | some k' ↦
                free_entries free n pagetable (i + 1)
                  (record k' { mem = update k'.mem (pagetable + 8 * i) 0 })
          ]
        ]
      ]

  -- For tables of at most `levels` levels, 3 on this machine; none is a panic.
  unfoldable pub freewalk : (levels pagetable : ℕ) → Kmem → Option Kmem
  unfolding free_entries
  freewalk zero pagetable k = none
  freewalk (suc l) pagetable k =
      elim (free_entries (λ child k'. freewalk l child k') 512 pagetable 0 k) [
        | none ↦ none
        | some k' ↦ kfree end pagetable k'
      ]

  unfoldable pub uvmfree : (pagetable sz : ℕ) → Kmem → Option Kmem
  unfolding freewalk
  uvmfree pagetable sz k =
      elim (if sz == 0
        then some k
        else uvmunmap end pagetable 0 (pg_round_up end sz / page_size) true k) [
          | none ↦ none
          | some k' ↦ freewalk 3 pagetable k'
        ]

  -- The way out of `uvmcopy` on an error.
  unfoldable pub copy_failed : (new i : ℕ) → Kmem → Option (Bool × Kmem)
  copy_failed new i k = elim (uvmunmap end new 0 (i / page_size) true k) [
    | none ↦ none
    | some k' ↦ some (false, k')
  ]

  -- `memmove(mem, (char*)pa, PGSIZE)` of a whole page to another, by words.
  unfoldable pub copy_page : (page pa : ℕ) → Kmem → Kmem
  unfolding move
  copy_page page pa k = record k { mem = move page k.mem pa page_size k.mem }

  -- The loop of `uvmcopy` from i on: true is 0, false is -1, none a panic.
  unfoldable pub copy_from : (rounds old new i sz : ℕ) → Kmem → Option (Bool × Kmem)
  unfolding copy_failed copy_page
  copy_from zero old new i sz k = some (true, k)
  copy_from (suc n) old new i sz k = elim (ltb i sz) [
    | false ↦ some (true, k)
    | true ↦ elim (walk old i false k) [
      | none ↦ none
      | some (pte, k₁) ↦ elim ((pte == 0) || not (is_valid (k₁.mem pte))) [
        | true ↦ none
        | false ↦
            let r = kalloc k₁ in
            elim (r.0 == 0) [
              | true ↦ copy_failed new i r.1
              | false ↦
                  elim (mappages new i page_size r.0 (pte_flags (k₁.mem pte))
                    (copy_page r.0 (pte2pa (k₁.mem pte)) r.1)) [
                      | none ↦ none
                      | some (ok, k₂) ↦ elim ok [
                        | true ↦ copy_from n old new (i + page_size) sz k₂
                        | false ↦ elim (kfree end r.0 k₂) [
                          | none ↦ none
                          | some k₃ ↦ copy_failed new i k₃
                        ]
                      ]
                    ]
            ]
      ]
    ]
  ]

  unfoldable pub uvmcopy : (old new sz : ℕ) → Kmem → Option (Bool × Kmem)
  unfolding copy_from
  uvmcopy old new sz k = copy_from (sz / page_size + 1) old new 0 sz k
