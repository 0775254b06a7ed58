-- ===== src/Lib.antt =====
-- K_OS: a teaching operating system for the 32-bit x86, verified component by component.
--
-- The program (paths from the repository's root):
-- * code/kernel/src/bitmap.c is the bit array from which the memory pools allocate. Bitmap models
--   it over the bytes in memory from its storage on; Bitmap/Bits has the effect of single writes
--   and runs of them, Bitmap/Search the loops of `bitmap_acquire`, Bitmap/Acquire and
--   Bitmap/Release the operations as a whole; Bitmap/Reference is a plain search to compare with.
-- * code/lib/src/list.c is the intrusive doubly linked list of the scheduler, the locks and the
--   heap. LinkedList models it over a memory of links in which NULL faults; LinkedList/Links says
--   what a list in memory stands for, LinkedList/Edit, LinkedList/Change and LinkedList/Ops
--   are about insertion and removal, LinkedList/Apart about two lists in one memory, LinkedList/Walk
--   about the loops.
-- * code/kernel/src/memory.c hands out physical frames and virtual pages from bitmaps, wires them
--   in page tables, and carves blocks out of pages. Memory/Pool, Memory/PageTable, Memory/Pages and
--   Memory/Init model the pages, each with its laws in child modules; Memory/Pages/RoundTrip is about
--   a release after an acquisition. Memory/Blocks models the block
--   heap on top: Sizes has its classes, Refill and Acquire are about `mem_acquire`, Release about
--   `mem_release`, RoundTrip and Malloc about both, from `sys_malloc` and `sys_free` down. A page
--   that the tables do not hold is not mapped.
-- * code/lib/src/string.c has the memory blocks and NUL-terminated strings that the rest uses.
--   CString models them over a memory of bytes; CString/Chars is about the functions that read,
--   CString/Copy about those that write, CString/Compare about the orders.
-- * code/lib/src/stdio.c is the formatted output behind `printk`. Stdio models `itoa` and
--   `vsprintf`; Stdio/Itoa is about numerals, Stdio/Format about whole formats. Printk models
--   `printk` of code/kernel/src/printk.c, and Printk/Overrun is about the bound of its buffer.
-- * code/kernel/src/sched.c and code/kernel/src/thread.c switch between kernel threads. Sched
--   models the ready list and the states of threads, on the lists of LinkedList; Sched/Ready has
--   the invariant, Sched/Switch the parts of a switch, Sched/RoundRobin and Sched/Sleep the
--   operations, Sched/Start and Sched/Exit the first and the last of a thread;
--   Sched/Create models the page that `kthread_create` sets up, Sched/Init the start of the first two
--   threads, with its lists and threads in child modules.
-- * code/kernel/src/lock.c has the spinlock, the mutex and the semaphore. Lock models them as a step
--   relation over threads that run in any order; Lock/Invariant has what a step keeps, Lock/Reached
--   that every step keeps it, Lock/Exclusion what follows of mutex and spinlock, and Lock/WakeUp is
--   about threads that block.
-- * code/kernel/src/timer.c counts ticks, takes the processor from a thread whose time slice is used
--   up, and lets threads sleep. Timer models it; Timer/Sleep is about the sleeping loops,
--   Timer/Conversion about the units.
-- * code/kernel/src/fs.c lays out a file system on a partition. FileSystem models `fs_format` as
--   the list of its writes to the disk, where it stays within its buffer; FileSystem/Layout is about the areas of the partition,
--   FileSystem/BlockBitmap about the bitmap of blocks; FileSystem/RootDir models the entries that
--   mounting and unmounting change in the root directory. FileSystem/Disk models sectors and the
--   super block in one, FileSystem/Startup `fs_mount` and `fs_init`, on the super blocks and bitmaps
--   that they read; of its child modules Bitmaps is about a mount, Entries and Full about the root
--   directory, Safety about what is written.
-- * code/kernel/src/interrupt.c fills the interrupt descriptor table and the table of handlers.
--   Interrupt models it, Interrupt/Gates says what the tables then hold, and Interrupt/Pic models
--   the set-up of the interrupt controllers, with what they make of it.
-- * code/kernel/src/syscall_sys.c, code/usr/src/syscall_usr.c and the entry in
--   code/kernel/src/kernel.s are the system calls. Syscall models them, Syscall/Dispatch says which
--   function a call reaches.
-- * code/kernel/src/ide.c drives the disks and finds their partitions. Ide models transfers as traces
--   of port accesses, with the answers of the drive as a parameter; Ide/Ports says what a trace asks
--   of the drive, Ide/Transfers what `ide_read` and `ide_write` move, Ide/Partition and its child are
--   about the scan of partition tables. Ide/Channels models the set-up of the channels and the
--   interrupt handler; Ide/Channels/Probe shows that the set-up goes through, Ide/Channels/Lines is
--   about the interrupt lines and what serves them, across Interrupt, Timer and Ide.
--
-- Conventions. A `uint32_t` is a natural number with the wrap-around written out (Base/Word); a
-- pointer is its address, NULL is 0, and an `int` result of -1 is `none`. A failed assertion (a
-- kernel panic), a fault at NULL, a write of `fs_format` outside of its buffer, a read of `sys_free` on a
-- page that is not mapped and spent fuel are `none` as well. A loop takes as fuel a bound on
-- its rounds; the theorems give the fuel that is enough, which for the loops of `bitmap_acquire` is
-- fixed in the definition: the number of bytes, of bits of a byte and of all bits, and one more.
--
-- Not modelled: the assembly of code/boot and, but for the entry of system calls, of
-- code/kernel/src, the screen, the translation buffer of the processor, and the test programs of
-- code/test. Of the block heap the contents of the blocks are left out. Of
-- semaphores the model has the use as a lock, not the signals of the disk interrupt; of `kthread_exit`
-- not that it gives its own page back. An operation of Memory or
-- Sched is one that nothing interrupts, as the source holds a lock or has interrupts off there.
pub mod Base
pub mod Bitmap
pub mod LinkedList
pub mod Memory
pub mod CString
pub mod Stdio
pub mod Printk
pub mod Sched
pub mod Lock
pub mod Timer
pub mod Interrupt
pub mod Ide
pub mod FileSystem
pub mod Syscall
