-- ===== src/Lib.antt =====
-- A model of the teaching kernel Pintos as it stands in pintos_3/src, with the theorems that make
-- the modelled parts correct. The other trees of the repository (pintos, pintos-2_userprog,
-- pintos-3_vm) are earlier stages of the same kernel and are not modelled.
--
-- Parts, and where they are:
-- - Base: Booleans, tests and arrays over the native numbers, integers, assertions (Base/Panic).
-- - Bitmap: lib/kernel/bitmap.c. A bitmap is its bit count and its 32-bit elements; every operation
--   works on the elements, and Bitmap/Bits relates them to the view of a function from indices to
--   Booleans. Bitmap/Word has the laws of masks, Bitmap/Scan the searches, Bitmap/Alloc the
--   allocation of runs.
-- - KernelList: lib/kernel/list.c, on the sequence between head and tail. KernelList/Sort is
--   list_sort; KernelList/Sorted has the laws of runs and of their merge, KernelList/Passes those of
--   the passes.
-- - HashTable: lib/kernel/hash.c. HashTable/Buckets is about the elements that move to other buckets,
--   HashTable/Tables about a table as a set, HashTable/Inserts about finding and inserting,
--   HashTable/Counts about how often an element stands in a table, HashTable/Deletes about deleting and
--   HashTable/Replaces about replacing.
-- - Palloc: threads/palloc.c, two pools of pages, each with a bitmap. Palloc/Pages is about one
--   allocation, Palloc/Frees about a run of pages that is freed, Palloc/RoundTrip about both in turn,
--   Palloc/Init about the pools at the start.
-- - Intq: devices/intq.c, the byte queue between interrupt handlers and threads, with the threads of
--   Threads. Intq/Refine relates the circular buffer to a queue of bytes, Intq/Wake is about a thread
--   that waits.
-- - Strings: lib/string.c, on memory as a function from addresses to bytes. Strings/Move is about
--   copies of blocks, Strings/Blocks about memset, memcmp and memchr, Strings/Copy about strlen,
--   strlcpy and strlcat, Strings/Compare about strcmp. Strings/Tokens has strchr, strcspn and strtok_r,
--   Strings/Words what its loops find, Strings/Split one call of strtok_r, Strings/AllTokens all the
--   calls for a text, Strings/Spans strcspn.
-- - Directory: filesys/directory.c, the entries of a directory. Directory/Finds relates them to a map
--   from names to sectors, Directory/Adds, Directory/Removes and Directory/Updates are about changes
--   of the map, Directory/Reads about reading the names one by one.
-- - PathLookup: filesys/path.c, the walk along a path, which looks names up in directories.
--   PathLookup/Elements is about the names in a path, PathLookup/Walks about the walk,
--   PathLookup/Parents about the walk to the directory of the last name.
-- - FreeMap: filesys/free-map.c, the sectors in use, which are bits of a bitmap.
-- - Buffers: filesys/buffers.c, the cache of sectors. Buffers/Steps has the turns of the threads that
--   use it, in any order, Buffers/Search and Buffers/Turns are about what a turn finds and does,
--   Buffers/Invariant and Buffers/Moves about the invariant, Buffers/Acquires, Buffers/Loads,
--   Buffers/Transfers and Buffers/Releases about the turns that keep it, Buffers/Holds about what
--   an acquired buffer holds, Buffers/Coherence about any number of turns; Buffers/ReadAhead is the
--   queue of sectors to read ahead.
-- - Swap: vm/swap.c, the pages on the swap device; Swap/RoundTrip has the proofs.
-- - Files: filesys/file.c, the open inodes of filesys/inode.c, and in Files/Fd the descriptors of
--   filesys/filesys.c. Files/Descriptors, Files/Close, Files/OpenClose and
--   Files/Line hold the proofs.
-- - Inode: filesys/inode.c, from an offset in a file to its sector: Inode/Index the arithmetic of the
--   indices, Inode/Sector what is allocated on the way. The sectors come from FreeMap.
-- - FrameTable: vm/frametable.c, the frames and the clock over them. FrameTable/Clock is about the way of
--   the hand, FrameTable/Accessed about the accessed bits, FrameTable/Visits about one frame,
--   FrameTable/Rounds about the loop and FrameTable/Evicts about the choice, FrameTable/Adds about a new frame, FrameTable/Sizes about
--   the bytes of a file that a page has.
-- - GrowStack: vm/growstack.c, with its proofs in GrowStack/Access.
-- - Sleepers: the list of sleeping threads of threads/thread.c; Sleepers/Delta relates the list of
--   differences to the ticks that each thread has left.
-- - Threads: threads/thread.c and threads/synch.c. The record Kernel holds the variables of thread.c,
--   the threads by number, and the semaphores and locks by address. Threads/Sched has the ready list
--   and the switch, Threads/Priority the priorities and donation, Threads/Synch the semaphores and
--   locks, and Threads/Cond the condition variables; each calls the ones before it. The other
--   children hold proofs: Threads/Valid the invariant, Threads/Switch that the scheduler keeps it,
--   Threads/Raise and Threads/Donation what a donation does, Threads/Kept what a switch leaves alone,
--   Threads/Running, Threads/Locks, Threads/Wake, Threads/Waiting and Threads/Release about
--   priorities, semaphores and locks, Threads/Signal about condition
--   variables, Threads/TryAcquire about lock_try_acquire.
--
-- Modelling. A failed ASSERT is a value: `none`, or `panic` of Threads.Run. A call of the scheduler
-- either returns (`done`) or loses the processor inside (`switched`); what is left of a call that lost
-- it is the same call again for sema_down, and lock_acquire_resumed for lock_acquire. Interrupts are
-- off within each of these steps, so a step is atomic. Numbers of type size_t are numbers below 2 ^ 32,
-- and sums that can wrap are written modulo 2 ^ 32. Loops over a range recur on the rounds left, which
-- the bounds of the loop give. The donation loop recurs on PRI_MAX_DONATION_NESTING, its bound in the
-- code. What malloc and file_read return are arguments, and so is bitmap_write: whether it
-- succeeds and what it does to the words of the sectors. The passes of
-- list_sort recur on the length of the list, which bounds its runs, each pass on the length of the list
-- too, and the walk along a path on the length of the path. The clock hand's round recurs on
-- the number of frames. A loop to the end of a string recurs on
-- fuel, for which more than the length of the string is enough; the loops of strtok_r take one fuel
-- for themselves and one for strchr. A round of the loops of intq_getc and
-- intq_putc is one call; the loop goes on when its thread runs again. A turn of the buffer cache is what
-- a thread does between two releases of its lock, or its reading or writing of a
-- sector; the device is a function from sectors. The ends of the ring of sectors to read ahead are
-- ints that are only incremented; what C leaves undefined beyond INT_MAX is `none`.
--
-- Not modelled: boot, assembly, paging hardware, the drivers of devices, user programs, what
-- files hold, the kernel heap; thread creation and exit, and the multi-level feedback
-- scheduler. Of an inode the loops that read and write are left out, of hash.c the iterator, hash_clear,
-- hash_apply and the hashes of bytes, of buffers.c the counts of accesses and buffers_done,
-- of frametable.c what loads, unloads and writes frames, of string.c strrchr, strspn, strpbrk
-- and strstr, of bitmap.c what reads and writes a file.
pub mod Base
pub mod Bitmap
pub mod Buffers
pub mod Directory
pub mod Files
pub mod FrameTable
pub mod FreeMap
pub mod GrowStack
pub mod HashTable
pub mod Inode
pub mod Intq
pub mod KernelList
pub mod Palloc
pub mod PathLookup
pub mod Sleepers
pub mod Strings
pub mod Swap
pub mod Threads
