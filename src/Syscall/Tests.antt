-- ===== src/Syscall/Tests.antt =====
-- System calls of a process with one page, and the theorems about kernel/syscall.c at it.
use assignment.Common.{
  ℕ, ◌+◌, ◌-◌, ◌%◌, ◌^◌, ◌<◌, ◌≤◌, ◌≡◌, ◌⊎◌, refl, ◌==◌, true, false, if◌then◌else◌, arith,
}
use assignment.Common.Int.{pos, negsuc}
use assignment.Str.{Bytes, strlen_from}
use assignment.Vm.Copy.{copyinstr}
use assignment.Vm.{make_pte, walkaddr}
use assignment.Vm.Copy.Laws.{Copies}
use assignment.Vm.Copy.Strings.{Terminated, Unterminated}
use assignment.Syscall.{Caller, fetchaddr, fetchstr, sys_sbrk, syscall}
use assignment.Syscall.Args.{fetchaddr-Copies, fetchstr_lem}
use assignment.Syscall.Size.{Resizes, sys_sbrk-Resizes}

-- The text "hi" at the user's address 0.
abbrev words : ℕ → ℕ
words a =
    if a == 8192
    then make_pte 12288 0
    else if a == 12288
    then make_pte 16384 0
    else if a == 16384
    then make_pte 0x8000_3000 30
    else if a == 0x8000_3000
    then 0x6968
    else 0

-- It asks for 100 bytes less.
abbrev small : Caller
small = record {
  pid = 3;
  sz = 4096;
  pagetable = 8192;
  trapframe = record { a0 = 2 ^ 32 - 100; a1 = 0; a2 = 0; a3 = 0; a4 = 0; a5 = 0; a7 = 12 };
  memory = record { mem = words; freelist = 0 };
}

abbrev buffer : Bytes
buffer _ = 7

fetchaddr-Copies_example :
    ((2 ^ 64 - 4 + 8 ≤ small.sz)
      × Copies 8192 small.memory 0 (2 ^ 64 - 4) 8 buffer (fetchaddr (2 ^ 64 - 4) small buffer))
    ⊎ ((small.sz < 2 ^ 64 - 4 + 8) × (fetchaddr (2 ^ 64 - 4) small buffer ≡ (false, buffer)))
fetchaddr-Copies_example = fetchaddr-Copies (2 ^ 64 - 4) small buffer (omega arith) (omega arith)

fetchstr_lem_example :
    let r = fetchstr 0 small buffer 10 in
    ((t : Terminated 8192 small.memory 0 0 10 buffer (true, r.1)) × (r.0 ≡ pos t.length))
    ⊎ (Unterminated 8192 small.memory 0 0 10 buffer (false, r.1) × (r.0 ≡ negsuc 0))
fetchstr_lem_example = fetchstr_lem 0 small buffer 10

sys_sbrk-Resizes_example : Resizes (small.trapframe.a0 % 2 ^ 32) small (sys_sbrk 0x8000_0000 small)
sys_sbrk-Resizes_example = sys_sbrk-Resizes 0x8000_0000 small (omega arith)

-- The NUL is not counted.
fetchstr_hi : (fetchstr 0 small buffer 10).0 ≡ pos 2
unfolding fetchstr walkaddr copyinstr strlen_from
fetchstr_hi = refl

-- The number of SYS_set_ps_priority has no entry.
syscall_priority :
    (syscall
      (λ n p. (0, p))
      (record small { trapframe = record small.trapframe { a7 = 23 } })).trapframe.a0
    ≡ 2 ^ 64 - 1
unfolding syscall
syscall_priority = refl
