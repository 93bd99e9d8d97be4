-- ===== src/Lib.antt =====
-- Pintos, the teaching kernel in linuxpintos/src: its scheduler, its locks, the system calls of user
-- processes, how these are loaded and waited for, the file system, and the library routines that
-- these stand on. All paths are from linuxpintos/src.
--
-- The program's parts and the files that model them:
-- - Bitmap, for lib/kernel/bitmap.c: a bitmap is its size and a list of 32-bit elements; each operation
--   of the source is a function that returns the new bitmap. The kernel claims file descriptors,
--   pages and sectors with `bitmap_scan_and_flip`, here `scan_and_flip`.
-- - Division, for lib/arithmetic.c: the routines for 64-bit division that the compiler calls, down to
--   the DIVL instruction; words are numbers with their wrap written out.
-- - Thread, for threads/thread.c: the ready list, the running thread and the status of each thread are
--   the record Kernel. Interrupts are off in each function up to its switch, so one function is one
--   step. `switch_to` stands for `switch_threads` with the `schedule_tail` that runs behind it.
-- - Synch, for threads/synch.c: semaphores and locks over the scheduler. Synch.System is the step
--   relation of any number of threads that share a lock, with switches between any two stretches
--   of code that run with interrupts off; Synch.Mutex says what such a lock promises.
-- - Syscall, for userprog/syscall.c: the handler with its checks of pointers, and the table of open
--   files, which is a Bitmap and an array of files. The file system, the console, the memory of the
--   user and the other processes are the record Services, which the handler takes as a parameter.
-- - Strings, for lib/string.c: the functions on blocks of memory, over a memory that is a function
--   from addresses to bytes, and the length, the bounded copy, the comparison and the searches of
--   strings.
-- - Inode, for the transfers of filesys/inode.c: the disk is a map from sectors to their bytes, and
--   `inode_read_at` and `inode_write_at` go through the sectors of a file as the source does.
-- - FreeMap, for filesys/free-map.c: the sectors in use are a Bitmap.
-- - Inodes, for the rest of filesys/inode.c: the record Inodes is the list of open inodes, the free map
--   and the disk. The struct on the disk is written and read as the bytes of its sector.
-- - Files, for filesys/file.c: a file is the sector of its inode, its position and whether it denies
--   writing; the functions hand back the new file and the new state.
-- - Directory, for filesys/directory.c: the entries of a directory are the bytes of its file. `scan` is
--   the loop that both `lookup` and `dir_add` have. Directory.Map and Directory.Remove see a
--   directory as a finite map from names to sectors.
-- - Filesys, for filesys/filesys.c: the operations on names, which join Directory, FreeMap and Inodes.
-- - Intq, for devices/intq.c: one pass of each function over the queue and the scheduler.
-- - Process, for the segments of userprog/process.c: the pages of a process are a map from user pages
--   to their bytes; `load_phdr` is the case of `load` for a segment.
-- - Child, for `process_wait` and `process_exit` of userprog/process.c and `exit` of
--   userprog/syscall.c: the structs that parents and children share, on a heap that knows
--   which of them are freed.
-- - LinkedList, for lib/kernel/list.c: doubly linked lists on a heap of links; the comparison of elements is a
--   parameter. LinkedList.Sequence relates a list to the sequence of its elements, and the modules
--   beside it say what each operation does to the sequence; LinkedList.Sort is the merge sort.
-- - Hash, for lib/kernel/hash.c: a bucket is the sequence of its list, which the theorems of LinkedList
--   justify; hashing, comparing and the success of `malloc` are parameters.
-- - Stdio, for lib/stdio.c: the parser of conversions, the printing of integers and strings, and in
--   Stdio.Vprintf the loop of `__vprintf`. What is passed to `output` is the list that is returned.
-- - Stdlib, for `atoi` of lib/stdlib.c and the tests of lib/ctype.h.
-- - Timer, for the alarms of devices/timer.c, over Synch and Thread: `timer_sleep` is cut into the stretches
--   between which an interrupt may come.
-- - Base: C arrays, tests on numbers, chains of steps that may fail, bits of a word, lists of threads.
--
-- A failed ASSERT, which panics the kernel, is `none`, and so is an access out of bounds; in Syscall a
-- fault of the kernel is `fault`. Loops are recursions on the rounds that are left, which the source
-- fixes before the loop. The loop of `sema_down` has no bound: its rounds are steps of the system.
-- The loops over strings have fuel, and any fuel above the length of the string is enough. The loops
-- of the transfers have one round more than bytes asked for, as each round moves at least one byte;
-- those over the entries of a directory have one more than the file has bytes; that of `load_segment`
-- has one more than there are pages in 32 bits. The loops over a list have more rounds than it has
-- elements; the search of `rehash` for a power of 2 has more than the number it starts from, which is
-- below 2^32; the loops of `format_integer` have 64, for at most 22 digits of 64 bits in base 8 or more,
-- and for a buffer of 64. The theorems prove that this is enough.
-- A thread is the address of its page and a file of Syscall the address of its struct; an open inode is
-- its sector, since no sector is open twice. Whether an allocation of memory succeeds is a parameter,
-- and so is whether the free map could be written to its own file. In Directory it is one for each read of an
-- entry, by its offset, and one for the write; in Process one for all the reads of a segment. The driver
-- asserts that the number of a sector has 28 bits, and a Disk has no more sectors than that.
--
-- Not modelled: the creation of threads and their stacks, condition variables, the order of the
-- single instructions inside a stretch with interrupts off, the processor's registers and page tables,
-- the counters of ticks as 64-bit numbers, the headers of an executable and its arguments, the start
-- and the formatting of the file system, the devices, the allocators and the rest of the library: the
-- iterator and the destructors of hash tables, sorting and searching of arrays, `vsnprintf` and
-- `hex_dump`. The timer chip, its calibration and busy waiting are left out too.
-- Threads that use the file system at the same time are not interleaved: the kernel has no lock
-- there. Memory in Strings does not end, so that an address never wraps.
pub mod Base
pub mod Bitmap
pub mod Division
pub mod Thread
pub mod Synch
pub mod Syscall
pub mod Strings
pub mod Inode
pub mod FreeMap
pub mod Inodes
pub mod Files
pub mod Directory
pub mod Filesys
pub mod Intq
pub mod Process
pub mod Child
pub mod LinkedList
pub mod Hash
pub mod Stdlib
pub mod Stdio
pub mod Timer
