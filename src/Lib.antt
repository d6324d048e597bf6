-- ===== src/Lib.antt =====
-- Verification of the xv6 kernel for RISC-V: a teaching Unix kernel, here with copy-on-write fork,
-- alarms, tracing and several schedulers. The parts modelled, and how they interact:
--
-- * Store is what the buffer cache (kernel/bio.c: bread, bwrite, brelse, bpin, bunpin) promises the
--   layers above: a disk, the buffer of each block, its count of holders, and the disks that were
--   there before each write, which are what a crash can leave.
-- * Bio is kernel/bio.c itself: the list of buffers in the order of their use, with `bget`, `bread`,
--   `brelse`, `bpin` and `bunpin`. Bio/Scan is about the two scans of `bget`, Bio/Unique and
--   Bio/Steps about the buffers of a block.
-- * Log is kernel/log.c, over Store: `initlog` recovers at boot, system calls run between `begin_op`
--   and `end_op`, `log_write` collects blocks, and the last `end_op` calls `commit`. Log/Area says
--   when a disk can be recovered, and follows the install loop; Log/Recover is about recovery,
--   Log/Copy and Log/Commit about `commit`, Log/Write about `log_write`, and Log/Quota and
--   Log/Admission about the space that `begin_op` reserves.
-- * Pipe is kernel/pipe.c. Pipe/Ring reads the ring as a queue, Pipe/Transfer is about the loops of
--   `pipewrite` and `piperead`, Pipe/Traffic about histories of calls.
-- * Lock is kernel/spinlock.c and kernel/sleeplock.c. Lock/Nesting is about `push_off` and `pop_off`,
--   Lock/World and Lock/Exclusion about interleaved calls of the processors, Lock/Sleep about sleep
--   locks.
-- * Files is the table of open files of kernel/file.c, with `fileread` and `filewrite`. Files/Refs
--   compares the counts with the references that are held, Files/History is about histories of
--   calls, and Files/Chunks about the transactions of a write.
-- * Blocks is the bitmap of kernel/fs.c, with `balloc` and `bfree`: Blocks/Bits and Blocks/Bitmap are
--   about its bits, Blocks/Alloc about the loops of `balloc`, Blocks/Effects and Blocks/Undo about
--   the two functions. Bmap is `bmap` over it: Bmap/Refs has the blocks that a file refers to,
--   Bmap/Grow and Bmap/Entry are about one reference, and Bmap/Lookup about `bmap`.
-- * Inode is the table of inodes of kernel/fs.c, with the sleep locks of Lock. Inode/Search is about
--   the loop of `iget`, Inode/Unique and Inode/Steps about the entries, Inode/Get, Inode/History and
--   Inode/Pointers about histories of calls.
-- * Itrunc is `itrunc` over Blocks and Bmap. Itrunc/Frees and Itrunc/Loops are about its loops, and
--   Itrunc/Truncated about the whole.
-- * Console is the line editor of kernel/console.c. Console/Ring reads its buffer as two lists,
--   Console/Editing and Console/Typing are about `consoleintr`, Console/Reading and Console/Delivery
--   about `consoleread`.
-- * Grep is the matcher of user/grep.c. Grep/Language says what an expression means, and Grep/Sound
--   and Grep/Complete compare the matcher with it.
-- * Kalloc is kernel/kalloc.c, with the counting part of `uvmcopy` of kernel/vm.c. Kalloc/Chain reads
--   the free list, Kalloc/Ledger compares the counters with the references that are held, and
--   Kalloc/History is about histories of calls, and Kalloc/Boot about `kinit`.
-- * Vm is kernel/vm.c with the macros of kernel/riscv.h, over Kalloc: `walk` and `mappages`; Vm/User has the
--   operations on the memory of a process, Vm/Bytes `copyin`, `copyinstr` and `copyout`. Vm/Tree reads
--   the page tables as a tree; Vm/Bits, Vm/Grow, Vm/Hang and Vm/Leaf are about changes of it, Vm/Descend and
--   Vm/Walk about `walk`, Vm/Map, Vm/Range and Vm/One about `mappages`, Vm/Unmap about `uvmunmap`, and
--   Vm/Translate, Vm/Copyin, Vm/Copyinstr and Vm/Copyout about the copies. Vm/Kept has what leaves the tables alone, and
--   Vm/Space and Vm/Seen a small address space.
-- * Cow is `handleCOW` of kernel/trap.c, over Vm and Kalloc. Cow/Entry is about the bits of an entry,
--   Cow/Fault about the only holder of a page, Cow/Copied and Cow/Run about the copy, and Cow/Resolve about
--   the whole.
-- * Alarm is the alarm of a process: its part of `usertrap` in kernel/trap.c, with `sigalarm` and `sigreturn`
--   of kernel/sysproc.c. Alarm/Deliver is about the interrupt, and Alarm/Restore about `sigreturn`.
-- * Dirs has the paths and directories of kernel/fs.c: `skipelem`, `dirlookup` and `dirlink`.
--   Dirs/Elements is about paths, Dirs/Scan and Dirs/Link about the entries of a directory.
-- * Proc is the process table of kernel/proc.c and kernel/proc.h: `allocproc`, `freeproc`, `fork`,
--   `exit`, `reparent`, `wait`, `sleep`, `wakeup`, `kill` and `update_time`. Proc/Pids says when the
--   pids of a table are in order, Proc/Life and Proc/Family are about the operations, Proc/Reap about
--   `wait`, and Proc/Doom about `kill(0)`.
-- * Sched has the choices of RR and FCFS in `scheduler` of kernel/proc.c, over the table of Proc, and
--   the rows of the MLFQ queues with `queue_proc` and `dequeue_proc`. Sched/Earliest is about FCFS and
--   Sched/Queues about the rows.
-- * Strings is kernel/string.c, on memory as the byte at each address. Strings/Move is about `memmove`
--   and `memset`, Strings/Copy about `strncpy` and `safestrcpy`, Strings/Compare about the others.
-- * Base has the Boolean tests, lists, counts in a list, arrays as functions and counted loops that all of them share.
--   Each part's Tests has runs at concrete inputs.
--
-- Each function of the code is a function of the same name that takes the state it changes and
-- returns it. A panic is `none`; a function that may sleep says so in its result. A lock that is
-- held throughout a function makes it one step and is left out; `memref.lock` is kept, since the
-- allocator is called with it held. A `uint` wraps at 2^32. An `int` is its 32-bit word where it may
-- be negative, and a plain number where it cannot: the counters of a page stay below the number of
-- page table entries that the memory can hold. The array of a log header has no bound here; in the
-- code the panic of `log_write` keeps it.
--
-- Log/Quota lets a system call log nine different blocks, one less than MAXOPBLOCKS: the log that
-- mkfs/mkfs.c makes has LOGSIZE blocks with its header, one less than three calls of ten need.
--
-- Loops over the log, the table and a ring run by structural recursion. `freerange` has fuel 32769,
-- one more than the pages between KERNBASE and PHYSTOP. `strlen` has the bytes it may
-- look at as fuel; a range of bytes does not wrap around the address space.
--
-- The loops of `balloc` have as fuel the bits of a bitmap block and the blocks of the disk, and the loop
-- of `filewrite` the bytes of the write: each round does at least one. The loop of ^U has the bytes of
-- the buffer of the console.
--
-- `mappages`, `uvmalloc` and `uvmcopy` have more fuel than there are pages below MAXVA, where `walk` panics;
-- the copies have the bytes to copy, and `freewalk` the three levels of a tree. A page of memory is 512
-- words of eight bytes, so a page table is a page.
--
-- What `copyin`, `copyout`, `uvmcopy` and the allocator answer to a caller is an argument of that
-- caller, but in Vm, Cow and Alarm, and so is what pipes, devices and inodes answer to `fileread` and `filewrite`. Not modelled:
-- the choices of LOTTERY, PBS and MLFQ, the map of the kernel, traps but for `handleCOW` and the alarm, the bytes of files
-- above `bmap` and `itrunc`, `namex`, system call dispatch and devices, and the user programs but for the matcher; the parts
-- that set machine registers do input and output only.
pub mod Base
pub mod Lock
pub mod Store
pub mod Bio
pub mod Log
pub mod Pipe
pub mod Files
pub mod Blocks
pub mod Inode
pub mod Bmap
pub mod Itrunc
pub mod Dirs
pub mod Grep
pub mod Console
pub mod Kalloc
pub mod Vm
pub mod Cow
pub mod Alarm
pub mod Proc
pub mod Sched
pub mod Strings
