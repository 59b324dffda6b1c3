-- ===== src/Lib.antt =====
-- Models of the xv6 kernel for RISC-V (kernel/) and of some of its user programs (user/), and theorems on them.
--
-- The parts, and the file that models each:
-- - Kernel/Panic.antt: the result of a kernel function, which returns or calls panic.
-- - Kernel/Disk.antt: the disk and the buffer cache as kernel/log.c sees them through bread, bwrite, bpin
--   and bunpin of kernel/bio.c. A Store holds the disk, what bread returns for each block, the pins, and
--   all contents that the disk has had: a loss of power leaves one of these. A write of a block is atomic.
-- - Kernel/Bio.antt: the buffer cache of kernel/bio.c itself, with reference counts and recycling; the list of its buffers
--   stands for the links. View.antt says what the cache holds for each block, Reads.antt is on bread, and Release.antt
--   on brelse. What bread returns there is what Kernel/Disk.antt takes it to be.
-- - Kernel/Log.antt: kernel/log.c, each function under its own name; loops are structural recursion on the
--   rounds that are left (install_from, write_log_from, find_slot). begin_op is one pass of the C loop.
--   Kernel/Log/Atomic.antt and Restart.antt are on crashes of commit and of recovery, Absorb.antt on
--   log_write, Reserve.antt on the space that begin_op reserves, over every interleaving of system calls
--   (the relation Reach). Header, States, Install, Commit and Recover hold their lemmas.
-- - Kernel/Kalloc.antt: kernel/kalloc.c. Memory gives the 64-bit words of each page, and the head of the
--   free list, which runs through the first words of the free pages. FreeList.antt is on kalloc and kfree,
--   Boot.antt on kinit. The address at which the kernel ends is a parameter: the linker sets it.
-- - Kernel/Vm.antt: walk, walkaddr, mappages and uvmunmap of kernel/vm.c, on the pages of Kernel/Kalloc.antt, with
--   the macros of kernel/riscv.h. Tree.antt says when a page table is a tree and which entries it holds,
--   Grow.antt and Walk.antt what walk does to them, Lookup.antt what walkaddr reads, Map.antt what one round of mappages does, and Range.antt and
--   Mappages.antt the whole.
-- - Kernel/File.antt: the reference counts of kernel/file.c.
-- - Kernel/Mmap.antt: sys_mmap and sys_munmap of kernel/sysfile.c, and the loops of fork and exit of kernel/proc.c
--   over the mappings of a process. What they call in other parts (filewrite, uvmunmap, the release of a pipe or an
--   inode by fileclose) is a list of calls. Layout.antt says that mappings do not overlap, Maps.antt and
--   Unmaps.antt are on mmap and munmap, Fork.antt and Exit.antt on the two loops.
-- - Kernel/Pipe.antt: kernel/pipe.c. The counters wrap round at 2 ^ 32. The user's memory is a parameter: what
--   copyin and copyout do with each address. Window.antt is on the bytes in the ring, Fifo.antt on pipewrite,
--   Read.antt on piperead and on sequences of calls.
-- - Kernel/Path.antt: skipelem of kernel/fs.c, and the names that the loop of namex takes from a path. Elements.antt says how
--   names spell a path, and is on that loop.
-- - Kernel/Strings.antt: kernel/string.c, on a memory that gives the byte at each address. Blocks.antt is on memset,
--   memmove and memcmp, Terminated.antt on strlen and safestrcpy, Compare.antt on strncmp.
-- - Kernel/Printf.antt and User/Printf.antt: printf of kernel/printf.c, and vprintf of user/printf.c. What they print
--   is a list of bytes; the arguments are a function of their number, and what stands at a string's address is a
--   parameter. User/Printf/Agrees.antt compares the two.
-- - User/Ulib.antt: strings, gets, atoi and memmove of user/ulib.c. Strings.antt joins atoi with printf.
-- - User/Sh.antt: the tokenizer and the parser of user/sh.c. Tokens.antt is on how much of the text the tokenizer
--   takes, Total.antt on the parser.
-- - Kernel/Spinlock.antt: kernel/spinlock.c. acquire and release are split at their accesses to the lock. Nesting.antt is
--   on push_off and pop_off; Steps.antt has the interleavings of all CPUs, and Exclusion.antt what holds of them.
-- - Kernel/Proc.antt: the process table of kernel/proc.c. Functions are split where they call sched (sleep and tidy), and
--   after their loops (allocproc_in, fork_into, wait_after), and fork is split where it releases a
--   lock (fork, fork_adopt, fork_start). What kalloc, proc_pagetable, uvmcopy and copyout return is an
--   argument. Wakeup.antt is on wakeup and reparent slot by slot, System.antt has the steps of all processes and the
--   invariant, Similar.antt, Start.antt, Adopt.antt, End.antt and Wait.antt show that each step keeps it, Always.antt joins them,
--   Branches.antt is on wait, and Reap.antt on a parent that waits for a child that exits.
-- - Kernel/Fs.antt: kernel/fs.c. Blocks.antt has the free map and balloc and bfree, with a block as its bytes; Bits.antt is
--   on the bits of the free map, Writes.antt on log_write, Search.antt and Choice.antt on the loops of balloc, Alloc.antt and
--   Free.antt on balloc and bfree. Words.antt is on the numbers in a block, Super.antt on the super block. Inode.antt has the
--   inodes, bmap and itrunc; Dinode.antt and Stored.antt are on inodes on the disk, Slots.antt has the agreement of an inode with the free map,
--   and Extend.antt, Growth.antt and Bmap.antt are on bmap. Content.antt has readi and writei; Data.antt, Bytes.antt, Write.antt, Stores.antt
--   and Writei.antt are on writei, Read.antt and Readi.antt on readi, and ReadBack.antt joins them. Table.antt has the table of
--   inodes in memory, and Table/Scan.antt and Table/Get.antt are on iget. Dir.antt has directories; Dir/Entries.antt says what an entry holds and when
--   it has a name, and Dir/Round.antt and Dir/Lookup.antt are on dirlookup.
-- - Kernel/FileWrite.antt: filewrite of kernel/file.c to an inode, over writei; FileWrite/Source.antt is on the copy
--   from the process, which is a parameter, and FileWrite/Chunks.antt on its loop.
-- - Kernel/Copy.antt: copyin, copyout and copyinstr of kernel/vm.c, with the result of walkaddr as an argument. Copy/In.antt is
--   on copyin.
-- - User/Wc.antt: the counting of user/wc.c, with what the calls of read give as a list. Counts.antt is on its results.
-- - User/Grep.antt: match, matchhere and matchstar of user/grep.c, on strings as lists of bytes.
--   User/Grep/Regex.antt says what a pattern means, and User/Grep/Decides.antt compares the two.
-- - Base.antt: the names of the libraries that the other files use, tests on numbers, and lists with
--   indices that are native numbers.
--
-- The parts meet in these places: log.c calls the buffer cache; vm.c takes its page-table pages from
-- kalloc.c; the errors of all kernel parts are those of Kernel/Panic.antt.
--
-- Bounds. The parser of user/sh.c runs on fuel, four for each byte of the text and four more, for its functions
-- call each other; strlen, strcpy, strcmp and strchr run on the number of bytes that they may look at, since a memory may
-- hold no NUL; the loop of namex runs on one round more than the path has bytes; the digits of a number are at most 32, for the base is at least 2; the loops of readi, writei, filewrite, copyin, copyout and
-- copyinstr run on as many rounds as there are bytes to copy, for each round copies one at least. Every other loop is a structural
-- recursion on a number of rounds that the code has computed before the loop, or on a string. The counters of log.c and the numbers of blocks are C ints that
-- stay small. Addresses are below 2 ^ 64.
--
-- Not modelled: but for Kernel/Spinlock.antt, locks are left out, and each critical section is one step; sleeping in log.c
-- and pipe.c is an outcome, and wakeups there leave no state. Memory is sequentially consistent. The rest of kernel/file.c and of
-- kernel/sysfile.c, namex of kernel/fs.c, traps, the console and the drivers, and the other user programs, are not modelled.
pub mod Base
pub mod Kernel
pub mod User
