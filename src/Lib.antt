-- ===== src/Lib.antt =====
-- SnapOS, a 64-bit x86 kernel in C: its parts, and this model of them.
--
-- Memory. The boot loader leaves the E820 map of the firmware. arch/x86_64/kernel/setup.c turns it
-- into raw regions, and mm/early_pmm.c adds the kernel's image, makes the regions disjoint and hands
-- out frames by a cursor. mm/pmm.c then builds a bitmap of frames with memory of the early allocator,
-- and replaces it.
--
--   Prelude       shared vocabulary. Prelude.Outcome: the result of kernel code (Exec), where panic()
--                 does not return and an access outside an object is a fault. Prelude.Words: widths
--                 and page arithmetic of include/paging.h and arch/x86_64/include/asm/paging.h.
--                 Prelude.Bits: the bits of a byte, `&`, `|` and `~` with a one bit mask.
--                 Prelude.Memory: an array as a function from its indices.
--   EarlyPmm      mm/early_pmm.c: sort_u64, pmm_sanitize_memory_map.
--     Sort, Unique, Classify, Sweep, Sanitize: its proofs, loop by loop.
--     Cursor      pa_next, pa_init and the two allocation functions; Alloc and Max prove them.
--     Init        arch_get_memory_map of arch/x86_64/kernel/setup.c, and early_pmm_init.
--   Pmm           mm/pmm.c: allocation and freeing of one frame, and of runs of frames.
--     Frames, Alloc, Contiguous, Free: the bitmap as a set of frames, and the operations on it.
--     Init        pmm_init and pmm_current_alloc_frame.
--
--   Paging        arch/x86_64/kernel/paging.c: page tables as a map from a table's physical address and an
--                 index to an entry. Translate: how the processor reads them, and when they form a tree
--                 (Agree, Enter, Reach: its lemmas). Walk, MapOne, Range, Ends prove the code.
--   Vmm           mm/vmm.c, on Paging; Pages proves it.
--
-- Tasks. kernel/sched.c keeps the tasks that can run in a circular list of include/list.h, and turns
-- it by one at each tick of the timer. A task that waits for something joins a wait queue of
-- kernel/wait.c, marks itself asleep and calls schedule, which takes it off the run queue;
-- wake_up_task puts it back.
--
--   Links         include/list.h on a heap of pointers; Ring: what each operation does to a list.
--   Sched         kernel/sched.c and arch_switch_to of arch/x86_64/kernel/process.c.
--     Next, Schedule, Turns, Wake: the functions; Reach: the states that they reach, as a step relation.
--   Wait          kernel/wait.c; Queue: a task's way into a wait queue and out of it; Wakeup: __wakeup.
--
-- Console. drivers/ps2/ps2.c hands scan codes to kernel/input.c, which turns them into characters and
-- pushes them to the terminal, kernel/tty.c. That echoes them on drivers/vga/vga.c and keeps them for
-- its readers, line by line.
--
--   Vga           drivers/vga/vga.c; Cursor: the cursor and the cells.
--   Tty           the ring buffer of kernel/tty.c; Text, Push, Read and Ghost prove it.
--   Input         kernel/input.c and ps2_irq; Keys and Letters prove it.
--   Strings       klibc/string.c; Compare and Copy prove it.
--
-- Files. fs/ext2 reads a file system from a block device, and gives fs/vfs.c its tables of functions.
--
--   Ext2          fs/ext2: the device and the allocator (fs/ext2/ext2.c and include/fs/ext2.h).
--     Super       fs/ext2/super.c; Probe and Mount prove it.
--     Inode       fs/ext2/inode.c; Place: where an inode is read from.
--     Dir         fs/ext2/dir.c; Search proves the search of a block.
--     File        fs/ext2/file.c; Contents says what a file holds, and Blocks, Loop and Read prove it.
--   Vfs           fs/vfs.c: names, directory entries and the lookup of paths. Path: a path as its names;
--                 Cache: what a lookup leaves behind.
--     File        open files and the system calls on them; Seek proves vfs_seek.
--     Mount       vfs_mount_root and vfs_scan_partitions, over the results of the drivers.
--   Block         block/block.c and block/partition.c; Entries, Settle and Scan prove partition_scan, by its
--                 loops.
--
-- State. The statics of a file are a record that the operations take and return: Pmm (bitmap, size),
-- Pa (the cursor), EarlyPmm, Frames. A function of the source has its name here; a loop is a function
-- of its own, whose first number counts the rounds left, with the loop's own variables behind it.
-- An address is its number, and the null pointer is 0; a pointer into an array is an index.
-- A negative error code is its absolute value, as the callers only compare it with 0.
--
-- Integers. uint64_t and size_t are natural numbers, and `word64` cuts a sum or a product that may
-- exceed them; theorems state the bounds below which nothing is cut (physical addresses up to 2^52).
--
-- Parameters. What the code reaches through a pointer to a function, or gets from a part that is not
-- modelled with it, is a record of the results of the coming calls: Mmu holds the frames that
-- pmm_current_alloc_frame() will return, and Ext2.Env what `read` of the device and the allocator will
-- answer. Nothing is assumed of them but in the hypotheses of a theorem.
--
-- Fuel. The loops over the map and the bitmap are structural. The search for a contiguous run and the
-- walk of the cursor are given rounds: one per frame of the bitmap, and one per region. The theorems
-- show that these suffice, since their result is `ok`. So do the loops of klibc/string.c that end at a
-- zero byte (the length of the string and one), and __wakeup (the number of waiters and one).
-- mmu_map_range has a round for each page of the range, and search_dir_block one for each byte of the
-- block. The loops over a path have one per character and one more, and the loop over the children of an
-- entry one per child and one more.
--
-- Not modelled: hardware registers, assembly, and several cores (the kernel runs on one). An interrupt
-- is a step between two calls: the functions that work on shared lists run with interrupts off. The
-- loops of kernel/tty.c that sleep and copy to user memory are left out, and with them the drivers of
-- disks. The TLB is a list of the addresses that were flushed.
pub mod Prelude
pub mod EarlyPmm
pub mod Pmm
pub mod Paging
pub mod Vmm
pub mod Links
pub mod Sched
pub mod Wait
pub mod Vga
pub mod Tty
pub mod Input
pub mod Strings
pub mod Vfs
pub mod Ext2
pub mod Block
