-- ===== src/Vm/Tests.antt =====
-- An address space with one page, and the theorems about kernel/vm.c at it.
use assignment.Common.{
  ℕ, suc, ◌+◌, ◌*◌, ◌<◌, ◌≡◌, ◌⊎◌, inl, inr, ◌==◌, true, false, ◌&&◌, ◌∙◌, ap, sym, refl, subst,
  Option, none, some, [], ◌∷◌, ltb, if◌then◌else◌, ℕ_discrete, arith,
}
use assignment.Kalloc.{Kmem, page_size}
use assignment.Str.{Bytes}
use assignment.Vm.{make_pte, pte2pa, is_valid, maxva, mappages, walkaddr}
use assignment.Vm.Tree.{Owner}
use assignment.Vm.Space.{view, IsSpace}
use assignment.Vm.Update.{MapsOrPanics}
use assignment.Vm.Range.{mappages-Maps}
use assignment.Vm.Copy.{copyin, copyinstr}
use assignment.Vm.Copy.Laws.{Copies, copyin-Copies}
use assignment.Vm.Copy.Strings.{StrCopies, copyinstr-StrCopies}
use assignment.Vm.User.{uvmclear}
use assignment.Vm.User.Guard.{open_to_user, walkaddr-view, ClearsOrPanics, uvmclear-Clears}

abbrev kernel_end : ℕ
kernel_end = 0x8000_0000

abbrev root : ℕ
root = 8192

abbrev middle : ℕ
middle = 12288

abbrev leaf : ℕ
leaf = 16384

abbrev user_frame : ℕ
user_frame = 0x8000_3000

-- The text "hi" at the user's address 0.
abbrev words : ℕ → ℕ
words a =
    if a == root
    then make_pte middle 0
    else if a == middle
    then make_pte leaf 0
    else if a == leaf
    then make_pte user_frame 30
    else if a == user_frame
    then 0x6968
    else 0

abbrev owners : Owner
owners q =
    if q == root
    then some (2, 0)
    else if q == middle
    then some (1, 0)
    else if q == leaf
    then some (0, 0)
    else none

abbrev one_page : Kmem
one_page = record { mem = words; freelist = 0x8000_1000 }

abbrev level : Option (ℕ × ℕ) → ℕ
level none = 0
level (some x) = x.0

abbrev start : Option (ℕ × ℕ) → ℕ
start none = 0
start (some x) = x.1

-- Where the tables lie.
owners_cases :
    (q l pre : ℕ)
    → owners q ≡ some (l, pre)
    → ((q ≡ root) × (l ≡ 2) × (pre ≡ 0))
      ⊎ (((q ≡ middle) × (l ≡ 1) × (pre ≡ 0)) ⊎ ((q ≡ leaf) × (l ≡ 0) × (pre ≡ 0)))
owners_cases q l pre e = elim (ℕ_discrete q root) [
  | yes h ↦
      let e' : ◌≡◌ {A = Option (ℕ × ℕ)} (some (2, 0)) (some (l, pre)) = ap owners (sym h) ∙ e in
      inl (h, sym (ap level e'), sym (ap start e'))
  | no n ↦ elim (ℕ_discrete q middle) [
    | yes h ↦
        let e' : ◌≡◌ {A = Option (ℕ × ℕ)} (some (1, 0)) (some (l, pre)) = ap owners (sym h) ∙ e in
        inr (inl (h, sym (ap level e'), sym (ap start e')))
    | no n₁ ↦ elim (ℕ_discrete q leaf) [
      | yes h ↦
          let e' : ◌≡◌ {A = Option (ℕ × ℕ)} (some (0, 0)) (some (l, pre)) = ap owners (sym h) ∙ e in
          inr (inr (h, sym (ap level e'), sym (ap start e')))
      | no n₂ ↦
          let m : (q == root) ≡ false = ground arith in
          let m₁ : (q == middle) ≡ false = ground arith in
          let m₂ : (q == leaf) ≡ false = ground arith in
          let e' : ◌≡◌ {A = Option (ℕ × ℕ)} none (some (l, pre)) = rw (m, m₁, m₂) at e in
          absurd (cc)
    ]
  ]
]

words-root : (i : ℕ) → i < 512 → is_valid (words (root + 8 * i)) ≡ true → i ≡ 0
words-root i lt ok = elim (ℕ_discrete i 0) [ yes e ↦ e | no ne ↦ absurd (ground arith) ]

words-middle : (i : ℕ) → i < 512 → is_valid (words (middle + 8 * i)) ≡ true → i ≡ 0
words-middle i lt ok = elim (ℕ_discrete i 0) [ yes e ↦ e | no ne ↦ absurd (ground arith) ]

owners-leads :
    (q l pre i : ℕ)
    → owners q ≡ some (suc l, pre)
    → i < 512
    → is_valid (words (q + 8 * i)) ≡ true
    → owners (pte2pa (words (q + 8 * i))) ≡ some (l, pre * 512 + i)
owners-leads q l pre i e lt ok = elim (owners_cases q (suc l) pre e) [
  | inl (h, hl, hp) ↦
      let z = words-root i lt (subst (λ x. is_valid (words (x + 8 * i)) ≡ true) h ok) in
      let one : l ≡ 1 = omega arith in rw (h, one, hp, z) refl
  | inr (inl (h, hl, hp)) ↦
      let z = words-middle i lt (subst (λ x. is_valid (words (x + 8 * i)) ≡ true) h ok) in
      let none' : l ≡ 0 = omega arith in rw (h, none', hp, z) refl
  | inr (inr (h, hl, hp)) ↦ absurd (omega arith)
]

one_page-IsSpace : IsSpace kernel_end root owners (0x8000_1000 ∷ []) one_page
one_page-IsSpace = record {
  tables = record {
    tree = record {
      aligned = λ q l pre e. elim (owners_cases q l pre e) [
        | inl h ↦ rw (h.0) refl
        | inr (inl h) ↦ rw (h.0) refl
        | inr (inr h) ↦ rw (h.0) refl
      ];
      nonzero = λ q l pre e. elim (owners_cases q l pre e) [
        | inl h ↦ let e' = h.0 in omega arith
        | inr (inl h) ↦ let e' = h.0 in omega arith
        | inr (inr h) ↦ let e' = h.0 in omega arith
      ];
      leads = owners-leads;
    };
    free = (refl, omega arith, tt, refl);
    unowned = (refl, tt);
  };
  top = refl;
}

abbrev empty : Bytes
empty _ = 7

mappages-Maps_example :
    MapsOrPanics kernel_end root 4096 1 0x8000_5000 30 one_page
      (mappages root 4096 (2 * page_size) 0x8000_5000 30 one_page)
mappages-Maps_example =
    mappages-Maps kernel_end root 1 4096 0x8000_5000 30 owners (0x8000_1000 ∷ []) one_page
      (omega arith) (omega arith) (omega arith) one_page-IsSpace

copyin-Copies_example : Copies root one_page 0 0 3 empty (copyin root 0 3 one_page empty)
copyin-Copies_example = copyin-Copies root one_page 0 3 empty

copyinstr-StrCopies_example :
    StrCopies root one_page 0 0 10 empty (copyinstr root 0 10 one_page empty)
copyinstr-StrCopies_example = copyinstr-StrCopies root one_page 0 10 empty

uvmclear-Clears_example :
    ClearsOrPanics kernel_end root 5 owners (0x8000_1000 ∷ []) one_page (uvmclear root 5 one_page)
uvmclear-Clears_example =
    uvmclear-Clears kernel_end root owners (0x8000_1000 ∷ []) one_page one_page-IsSpace 5
      (omega arith)

walkaddr-view_example : walkaddr root 5 one_page ≡ (
    if ltb 5 maxva && open_to_user (view root one_page 5) then pte2pa (view root one_page 5) else 0)
walkaddr-view_example =
    walkaddr-view kernel_end root owners (0x8000_1000 ∷ []) one_page one_page-IsSpace 5

-- The runs themselves.
copyinstr_hi : (copyinstr root 0 10 one_page empty).0 ≡ true
unfolding copyinstr walkaddr
copyinstr_hi = refl

copyinstr_short : (copyinstr root 0 2 one_page empty).0 ≡ false
unfolding copyinstr walkaddr
copyinstr_short = refl

copyin_unmapped : (copyin root 4090 10 one_page empty).0 ≡ false
unfolding copyin walkaddr
copyin_unmapped = refl

walkaddr-one_page : walkaddr root 5 one_page ≡ user_frame
unfolding walkaddr
walkaddr-one_page = refl
