-- ===== src/Lib.antt =====
-- UT_OS: the kernel of an xv6 for x86 with the extensions of the operating systems course (a scheduler
-- of three queues, reentrant locks, a shared memo table of Fibonacci numbers), modelled from its C source.
--
-- The parts and their files.
--   Base          Numbers with Boolean tests, lists over them, 32-bit words, searches.
--   Strings       string.c over a byte memory, which is a function from addresses to bytes. Its children
--                 Fill, Move, Compare and Copy state what memset, memmove, strncmp and strncpy do.
--   Pipe          pipe.c. A call holds the lock of the pipe from its start to its end or to a sleep and is
--                 one step. Window has the ring buffer and its wrapping counters, Write and Read the two
--                 calls, Stream a writer and a reader taking turns, and its child Wakeups their sleep
--                 and wakeup.
--   Kalloc        kalloc.c. The free list is threaded through the memory of Strings. Chain relates it to a
--                 list of pages, Range is about freerange.
--   Spinlock      spinlock.c on one CPU (Nesting, Machine), and the accesses of many CPUs to one lock in
--                 any order (Exclusion).
--   Reentrant     sleeplock.c and reentrantlock.c. Exclusion has the accesses of many processes to one
--                 reentrant lock in any order, and Exclusive what they keep.
--   Fibonacci     fibonacci_number and _fib_init of proc.c, with the lock of Reentrant.
--   Proc          proc.h and the process table of proc.c, one record per slot of the table.
--     Table       wakeup1, wakeup and kill.
--     Alloc       allocproc, with kalloc of Kalloc, and fork.
--     Wait, Exit  wait and exit.
--     Queues      _aging, _RR_scheduler, _SJF_scheduler and _FCFS_scheduler.
--     Sched       scheduler, sched, _should_yield, yield, sleep, and the timer tick of trap.c. Pass is about
--                 one pass over the queues, Slice about the ticks a process keeps its CPU.
--     Stats       set_queue, set_sjf_info, get_most_invoked, the calls that report, and _log_syscall.
--   VirtualMemory vm.c over the pages of Kalloc, in the memory of Strings: the walk, mapping and unmapping.
--     Entry, Masks               mmu.h and memlayout.h, and what the ors of an entry are.
--     User, Kernel, Load         the pages of a process, the tables of the kernel and copyuvm, and loaduvm.
--     Shared                     the shared pages, and growproc of proc.c.
--     Space, Walk, Find, Change  a directory with its tables in memory, walkpgdir, and changes of entries.
--     Rounds, Mapping, Calls, Disjoint   mappages, unmappages and uva2ka, and directories side by side.
--     Frames, Freeing, Dealloc   deallocuvm, and the pages that a directory maps.
--     Growing, Growth, Undo, Alloc       allocuvm, and what it gives back when memory runs out.
--     Segments, Singles, Opening, Sharing, Closing   the table of shared pages, and who finds which page.
--   Syscall       syscall.c: the argument checks and the dispatch. The handlers are a parameter.
--   Log           log.c. Crash is about a crash during the writes of a commit, with the data of a block of
--                 any type and the disk as home blocks, slots of the log and the header's block numbers.
--   Files         file.c: the table of files, and in Io reading and writing; Chunks and Filewrite are about the
--                 transactions of filewrite.
--   Console       console.c: the line being typed, and consoleread. Editing is about typing in the middle of it.
--   Cipher        encode.c and decode.c, user programs of the course.
--   BufferCache   bio.c over the disk of memide.c, with the data of a block of any type. Ring relates the
--                 pointers to a sequence of buffers, Release is about binit and brelse, Lookup has bget against
--                 that sequence, Blocks that a block has one buffer.
--   FileSystem    fs.c. A block is the byte memory of its buffer, from bread to log_write and brelse.
--     Bits, Bitmap, Alloc        the bitmap, balloc and bfree.
--     Inode, Dinode, Metadata    the inode cache and the inodes on the disk.
--     Content                    bmap, itrunc, readi, writei and iput.
--     Owned, Map, Kept, Mapped   the blocks of a file, and that bmap keeps them and the content.
--     Stored, Round, Write, Writei, Readi, Roundtrip   what writei and readi do to the content as bytes.
--     Icache                     iget.
--     Names, Elements, Directory the path elements, directories and namex.
--
-- How the code corresponds. A C `int` or `uint` is its 32-bit pattern, with the wrap-around written out and
-- signed tests on the pattern plus 2 ^ 31. A pointer into a table is an index. A call that panics, or that
-- would wait for a lock for ever, has no result (`none`), or says which of the two it does (Spinlock). A
-- call that sleeps ends at the sleep and is entered again by the wakeup.
--
-- Bounds and fuel. The loops over the 64 slots of the table, over pages, bytes and strings are structural,
-- but for some with fuel: freerange needs no more rounds than there are pages below the end of the range, and
-- one, strlen as many as it has bytes to look at, and _SJF_scheduler at most 1e9 + 1, as the least burst time
-- that is left grows in every round. The scheduler's pass needs three rounds. balloc has a round for each block
-- of the disk and one more, readi and writei one for each byte and one more, bget's walks one more than there
-- are buffers, skipelem's and the cipher's loops one more than there are bytes before the NUL. The theorems on
-- these show that the fuel is enough. mappages and unmappages have a round for each page, and the other
-- loops over pages of vm.c two more than the pages below their end, for copyuvm and loaduvm without a theorem
-- yet; copyout has one more than its bytes. The loops over directories have a round for each byte and one
-- more, namex the rounds it is given, and create_palindrome and kill_line have fuel too, without theorems yet.
--
-- Not modelled. The switch of stacks, trap frames and hardware registers, and the descriptor tables of a
-- CPU in vm.c; the key handler of the console, and sysfile.c and exec.c above the parts that they call;
-- drivers, the start of the machine, and the other programs outside the kernel.
pub mod Base
pub mod Strings
pub mod Pipe
pub mod Kalloc
pub mod Spinlock
pub mod Reentrant
pub mod Fibonacci
pub mod Proc
pub mod Syscall
pub mod VirtualMemory
pub mod Log
pub mod Cipher
pub mod Console
pub mod BufferCache
pub mod FileSystem
pub mod Files
