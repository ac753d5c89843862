-- ===== src/Lib.antt =====
-- Verification of three parts of the Pintos kernel: the file system of prj4, from the free-space
-- bitmap up, the priority scheduler of prj1 with its locks, and the virtual memory of prj3.
--
-- The file system, whose paths start at prj4/pintos/src; each layer is a client of the one before it:
--   lib/kernel/bitmap.c   Bitmap, with its words in Bits; Bitmap/View, Bitmap/Multiple, Bitmap/Scan
--   filesys/free-map.c    FreeMap, FreeMap/Laws
--   filesys/cache.c       Cache; Cache/View, Cache/Get, Cache/Flush
--   filesys/inode.c       Inode (types, byte_to_sector), Inode/Grow (inode_expand and its helpers, with
--                         Inode/Grow/Count and Inode/Grow/Capacity), Inode/Free (inode_dealloc),
--                         Inode/Table (open, close, the inode on disk), Inode/Read (inode_read_at)
--   filesys/file.c        File, File/Laws
--   filesys/directory.c   Directory, over the inodes as an interface; Directory/Laws (what is read),
--                         Directory/Change (dir_add), Directory/Remove (dir_remove)
--   filesys/filesys.c     Path (path names, with strtok_r of lib/string.c), Path/Laws
-- Sector is the 512 bytes of a sector and their words. Store is what inode.c asks of the layers below
-- it; Device is the free map and the disk as such a store. A function of the C code keeps its name.
--
-- The scheduler, whose paths start at prj1/pintos/src:
--   lib/kernel/list.c        Ordered (sorting and ordered insertion); Ordered/Merge, Ordered/Sort
--   threads/fixed-point.h    FixedPoint
--   threads/thread.c         Thread (the state), Thread/Schedule (ready list and switches),
--                            Thread/Donation, Thread/Mlfqs (feedback queue and timer tick),
--                            Thread/Create (new threads);
--                            Thread/Invariant, Thread/Switch, Thread/Frame, Thread/Donation/Laws,
--                            Thread/Donation/Back, Thread/Mlfqs/Laws, Thread/Create/Laws
--   threads/synch.c          Synch (semaphores and locks), Synch/Condition; Synch/Laws, Synch/Locks
-- The list of the threads that are ready is a sequence of numbers that stand for their addresses.
-- Each function runs without interruption up to the switch in it, also where the code has interrupts on
-- again (thread_super_yield restores them before it compares the priorities); what a caller does after
-- the switch is a function of its own (one round of sema_down, the parts of lock_acquire and of
-- cond_wait).
--
-- The virtual memory, whose paths start at prj3/pintos/src; it uses the model of the bitmap above,
-- whose source is the same there:
--   threads/palloc.c      Palloc (the two pools and the pages), Palloc/Laws
--   vm/swap.c             Swap, Swap/Laws
--   userprog/pagedir.c    Vm (with the types of vm/page.h and vm/frame.h)
--   vm/frame.c            Vm/Frame; Vm/Invariant (the well formed states and the bytes of a page),
--                         Vm/Save, Vm/Reuse, Vm/Evict, Vm/Fade, Vm/Alloc, Vm/Obtain
--   vm/page.c             Vm/Page (load_page and its parts, with install_page of userprog/process.c);
--                         Vm/Fill, Vm/Load, Vm/Demand
-- Entries of the supplemental page tables, threads and files are numbers that stand for their
-- addresses; pages are page numbers. Files enter as the interface Vm.Files, with the laws that the lemmas
-- on frames and pages assume for files that nobody denies writes to; Directory takes the inodes as such
-- an interface too. The results below rest on neither of them. A page's bytes are those of its frame
-- while it is in memory, and those of its swap slot or its file otherwise.
--
-- State is passed explicitly. `none` is a kernel panic, a failed ASSERT included. Numbers are natural
-- numbers; a size_t sum or difference that may wrap is taken modulo 2 ^ 32, and off_t values are not
-- negative. A loop over a fixed number of rounds takes this number as fuel: 4, 9 and 128 rounds for
-- the pointers of an inode, which the growth theorems show to be enough, one round more than the size
-- for a read, whose every round copies a byte at least, and two rounds for the clock
-- of cache_evict, which always finds a victim in the second.
--
-- list_sort takes one more pass than the length of the list at most, and a pass one round for each
-- element at most; Ordered/Sort shows that to be enough. The donation loop has nine rounds in the code.
--
-- The loops over the entries of a directory run on fuel, one round more than there are entries; those
-- over the tokens of a path have two rounds more than it has characters.
--
-- The loop of frame_alloc, which ends when a page was replaced, runs on fuel; Vm/Alloc shows that one
-- round is enough where some page of the frame table is not locked and was not accessed. Where there is
-- none, frame_evict ends without a return value, which is `none` here: what the C code does then is
-- undefined. malloc does not fail for an entry of the frame table.
--
-- Where an inode grows, block_write has its range check (Inode/Grow): the theorems on growth ask for free
-- sectors and for pointer blocks on the device, since on a full device the code writes to whatever sector
-- number the pointer held. Fixed-point numbers are integers; the theorems on them have the ranges in
-- which the C code does not overflow as hypotheses where it can.
--
-- Not modelled: inode_write_at; locks and the threads that write the cache back or read ahead;
-- the sectors of the free map file itself, so that bitmap_write is an argument that says how
-- many bytes were written; the range check of the block device elsewhere; the stacks, pages and names of
-- threads, and the lock of allocate_tid; sleeping; the start-up of the page allocator and of the
-- tables, the locks of the virtual memory, its page faults, stack growth and mapped files; the
-- file system calls on top of path names; processes and system calls.
pub mod Prelude
pub mod Bits
pub mod Bitmap
pub mod FreeMap
pub mod Sector
pub mod Store
pub mod Cache
pub mod Inode
pub mod File
pub mod Directory
pub mod Path
pub mod Device
pub mod FixedPoint
pub mod Ordered
pub mod Thread
pub mod Synch
pub mod Palloc
pub mod Swap
pub mod Vm
mod Tests
