-- ===== src/Lib.antt =====
-- The xv6 kernel of this repository, its student scheduler and exit messages included, as a model
-- that runs and the theorems about it.
--
-- The kernel is C. A struct is a record, a pointer into a table is an index, an array or a memory is
-- a function of the index, and a `uint` keeps its wrap-around. A spin lock makes the section between
-- acquire and release one step, so each function is modelled over the state that its section sees;
-- where the code sleeps, a function stops with the state at that point, and the same function run on
-- the later state goes on. A panic is a result.
--
-- Common      what all parts share: tests, lists, arrays as functions, C's signed integers
-- Str         kernel/string.c: memset, memmove, memcmp, strncmp, strncpy, safestrcpy, strlen
-- Kalloc      kernel/kalloc.c: kinit, freerange, kfree, kalloc over the words of memory
-- Pipe        kernel/pipe.c: pipewrite, piperead, pipeclose; Pipe/Ring is the queue, Pipe/Transfer
--             the loops
-- Log         kernel/log.c: the redo log; Log/Install has one loop each, Log/Phases what a crash may
--             find, Log/Crash the recovery, Log/Header absorption, Log/Ops the blocks of the running
--             operations, Log/Reserve their reservations, Log/Room when log_write has no room
-- Bio         kernel/bio.c: binit, bget, bread, brelse over the list of buffers
-- Fs          kernel/fs.c over the bytes of the cached blocks: Fs/Bitmap balloc and bfree, Fs/Inode the
--             table of inodes, iupdate and ilock, Fs/Content bmap, itrunc, iput, readi and writei,
--             Fs/Dir dirlookup and dirlink, Fs/Path skipelem and namex
-- Vm          kernel/vm.c over the words of Kalloc, from walk to copyinstr: Vm/Tree and Vm/View the
--             page tables as a tree, Vm/Map what walk allocates, Vm/Space, Vm/Update and
--             Vm/Range mappages, Vm/User the memory of a process, Vm/Copy copyin and copyinstr
-- Syscall     kernel/syscall.c and the calls of kernel/sysproc.c about a process's size, over Vm
-- Sleeplock   kernel/sleeplock.c: the steps of the processes at one lock
-- Ulib        user/ulib.c; Printf user/printf.c and kernel/printf.c; Shell the parser of user/sh.c,
--             Shell/Words and Shell/Pipelines what it makes of pipelines
-- Spinlock    kernel/spinlock.c: acquire and release, interleaved by the steps of the CPUs
-- Console     kernel/console.c: consoleintr, consoleread, consolewrite; Console/Line the input ring
-- Grep        user/grep.c: match, matchhere, matchstar; Grep/Language the language of a pattern
-- File        kernel/file.c: filealloc, filedup, fileclose with File/Counts, and the loop of filewrite
--             over an inode with File/Chunks
-- Proc        kernel/proc.c: Proc/Types the table, Proc/Sched set_accumulator, scheduler and yield,
--             Proc/Sleep sleep, wakeup and kill, Proc/Life allocproc and fork, Proc/Exit reparent,
--             exit and wait
--
-- How they interact. fork and exit call the file and inode code, kalloc and the page tables; in Proc
-- what those calls return is an argument, and the calls are listed in `Kernel.calls`. wait, pipewrite
-- and piperead copy to and from user memory; vm.c's copyin and copyout are parameters there. Vm takes
-- its pages from kalloc and gives them back to kfree of Kalloc, in the one memory. The log
-- sees the buffer cache as the contents that bread returns, and the disk behind it; Bio has the list
-- of the buffers. Fs reads the same contents, and keeps beside them which blocks log_write was
-- called for; the panics of log_write are those of Log. A `struct inode *` is an index into the table.
-- Fs is the file system as one process sees it between two waits: a lock that is held is a panic there.
-- exit and fork use strncpy and safestrcpy of Str.
--
-- Bounds and fuel. Loops over a range recur on the rounds left, which the code's own bounds give.
-- freerange takes as many rounds as there are pages below its end. strlen in wait runs over the 32
-- bytes of exit_msg; a message that fills them without a NUL would read on in the source. A pid is a
-- natural number and does not overflow.
--
-- filewrite takes as many rounds as bytes to write, since a round that goes on has written one.
--
-- The loop of namex takes as many rounds as the path has bytes, and one; those of dirlookup and
-- dirlink as many as the directory has bytes; those of readi and writei as many as bytes to move, since
-- a round moves one at least; balloc as many as blocks of bits. kill_line takes e - w rounds.
--
-- walk has a round per level. mappages ends by the panic at MAXVA, so one round more than there are
-- pages below it is enough; uvmalloc and uvmcopy take one per page of the size, copyin, copyout and
-- copyinstr one per byte, and copyinstr one more; freewalk goes down three levels.
-- The parser of the shell takes four rounds for each byte and four, as a function that calls another
-- at the same place in the text calls one that stands nearer to parseblock; its loops take one round
-- per byte, and one. printint takes a round for each bit of the number.
-- The kernel's end of a copy is an array of its own, outside the user's pages and the tables.
--
-- Not modelled: exec.c, the kernel's own page table (kvmmake, kvminithart), sysfile.c, fsinit, the
-- rest of file.c, drivers, traps and boot, mkfs, umalloc.c, what the shell does with a command, and
-- the user programs but the matcher of grep. The saved context of a process is left out; swtch is an
-- argument of the scheduler's round.
pub mod Common
pub mod Console
pub mod Spinlock
pub mod Str
pub mod Vm
pub mod Kalloc
pub mod Pipe
pub mod Log
pub mod Proc
pub mod Bio
pub mod File
pub mod Grep
pub mod Fs
pub mod Ulib
pub mod Printf
pub mod Sleeplock
pub mod Syscall
pub mod Shell
