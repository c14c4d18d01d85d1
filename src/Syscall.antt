-- ===== src/Syscall.antt =====
-- kernel/syscall.c: the arguments of a system call and its dispatch, and the calls of kernel/sysproc.c
-- that concern the process alone. A buffer of the kernel is its bytes by their index.
pub mod Args
pub mod Size
mod Tests
use assignment.Common.{
  ℕ, zero, suc, ◌+◌, ◌-◌, ◌*◌, ◌/◌, ◌%◌, ◌^◌, ◌==◌, Bool, true, false, not, ◌&&◌, ◌||◌, Option,
  none, some, List, [], ◌∷◌, ltb, leb, if◌then◌else◌,
}
use assignment.Common.Int.{ℤ, pos, negsuc}
use assignment.Kalloc.{Kmem}
use assignment.Str.{Bytes, strlen_from}
use assignment.Vm.Copy.{copyin, copyinstr}
use assignment.Vm.User.{uvmalloc, uvmdealloc}

-- The registers of the trap frame that hold a call: a0 to a5, and a7.
pub record Trapframe : Type 0 where
  pub a0 : ℕ
  pub a1 : ℕ
  pub a2 : ℕ
  pub a3 : ℕ
  pub a4 : ℕ
  pub a5 : ℕ
  pub a7 : ℕ

-- What a system call sees of `myproc()`, with the memory that its page table is in.
pub record Caller : Type 0 where
  pub pid : ℕ
  pub sz : ℕ
  pub pagetable : ℕ
  pub trapframe : Trapframe
  pub memory : Kmem

-- 0 is true. The eight bytes at `ip` are an array; `addr + sizeof(uint64)` is a `uint64`.
unfoldable pub fetchaddr : (addr : ℕ) → Caller → Bytes → Bool × Bytes
fetchaddr addr p ip =
    if leb p.sz addr || ltb p.sz ((addr + 8) % 2 ^ 64)
    then (false, ip)
    else copyin p.pagetable addr 8 p.memory ip

-- The length or -1, and `buf`.
unfoldable pub fetchstr : (addr : ℕ) → Caller → Bytes → (max : ℕ) → ℤ × Bytes
fetchstr addr p buf max =
    let r = copyinstr p.pagetable addr max p.memory buf in
    if r.0 then (pos (strlen_from max 0 r.1), r.1) else (negsuc 0, r.1)

-- None is the panic.
unfoldable pub argraw : (n : ℕ) → Trapframe → Option ℕ
argraw n t =
    if n == 0
    then some t.a0
    else if n == 1
    then some t.a1
    else if n == 2
    then some t.a2
    else if n == 3
    then some t.a3
    else if n == 4
    then some t.a4
    else if n == 5
    then some t.a5
    else none

-- The low 32 bits, for the `int` that they are.
unfoldable pub argint : (n : ℕ) → Trapframe → Option ℕ
unfolding argraw
argint n t = elim (argraw n t) [ none ↦ none | some w ↦ some (w % 2 ^ 32) ]

unfoldable pub argaddr : (n : ℕ) → Trapframe → Option ℕ
unfolding argraw
argaddr n t = argraw n t

unfoldable pub argstr : (n : ℕ) → Caller → Bytes → (max : ℕ) → Option (ℤ × Bytes)
unfolding argaddr fetchstr
argstr n p buf max = elim (argaddr n p.trapframe) [
  | none ↦ none
  | some addr ↦ some (fetchstr addr p buf max)
]

-- The numbers of syscall.h with an entry in the table: SYS_fork to SYS_memsize.
abbrev pub sys_memsize_number : ℕ
sys_memsize_number = 22

-- `num > 0 && num < NELEM(syscalls) && syscalls[num]`, for the `int` with the low bits of a7.
unfoldable pub is_known : (a7 : ℕ) → Bool
is_known a7 = let num = a7 % 2 ^ 32 in leb 1 num && ltb num (sys_memsize_number + 1)

-- `run` is the table's function of a number; -1 is a word of ones.
unfoldable pub syscall : (run : ℕ → Caller → ℕ × Caller) → Caller → Caller
unfolding is_known
syscall run p = elim (is_known p.trapframe.a7) [
  | false ↦ record p { trapframe = record p.trapframe { a0 = 2 ^ 64 - 1 } }
  | true ↦
      let r = run (p.trapframe.a7 % 2 ^ 32) p in
      record r.1 { trapframe = record r.1.trapframe { a0 = r.0 } }
]

-- An `int` of 32 bits as a `uint64`: its sign is extended.
abbrev pub extended : ℕ → ℕ
extended n = if ltb n (2 ^ 31) then n else n + (2 ^ 64 - 2 ^ 32)

-- PTE_W
abbrev pub pte_w : ℕ
pte_w = 4

module _ (end : ℕ) where
  -- `growproc` of proc.c: true is 0, false is -1, none a panic; n is the 32 bits of an `int`.
  unfoldable pub growproc : (n : ℕ) → Caller → Option (Bool × Caller)
  growproc n p =
      let sz' = (p.sz + extended n) % 2 ^ 64 in
      if n == 0
      then some (true, p)
      else if ltb n (2 ^ 31)
      then (elim (uvmalloc end p.pagetable p.sz sz' pte_w p.memory) [
        | none ↦ none
        | some (sz, k) ↦
            if sz == 0
            then some (false, record p { memory = k })
            else some (true, record p { sz = sz; memory = k })
      ])
      else (elim (uvmdealloc end p.pagetable p.sz sz' p.memory) [
        | none ↦ none
        | some (sz, k) ↦ some (true, record p { sz = sz; memory = k })
      ])

  unfoldable pub sys_sbrk : Caller → Option (ℕ × Caller)
  unfolding argint growproc
  sys_sbrk p = elim (argint 0 p.trapframe) [
    | none ↦ none
    | some n ↦ elim (growproc n p) [
      | none ↦ none
      | some (ok, p') ↦ some (if ok then p.sz else 2 ^ 64 - 1, p')
    ]
  ]

unfoldable pub sys_memsize : Caller → ℕ × Caller
sys_memsize p = (p.sz, p)

unfoldable pub sys_getpid : Caller → ℕ × Caller
sys_getpid p = (p.pid, p)

-- The loop of `sys_sleep`: one element of the list for each turn of the loop, the ticks that it reads
-- and whether the process has been killed. None goes on sleeping, true is 0 and false is -1.
unfoldable pub sys_sleep_from : (ticks0 n : ℕ) (turns : List (ℕ × Bool)) → Option Bool
sys_sleep_from ticks0 n [] = none
sys_sleep_from ticks0 n ((ticks, killed) ∷ turns) =
    let rest = sys_sleep_from ticks0 n turns in
    if ltb ((ticks + 2 ^ 32 - ticks0) % 2 ^ 32) n
    then (if killed then some false else rest)
    else some true
