-- ===== src/Lib.antt =====
-- A model of the kernel's core logic. The C sources are translated function by function: static
-- variables are a record that is passed on, pointers are numbers, machine words are natural numbers
-- with their wrap-around written out, and failure is the value that the code returns.
--
-- The parts, and the files of the repository that they model:
--   Base       shared notation: tests on numbers, 32-bit words, bit operations, arrays, lists
--   Klog       src/kernel/core/klog.c, the log buffer (Contents: what it holds after a write)
--   Bootinfo   src/kernel/core/bootinfo.c, the memory map out of the boot loader's structure (Valid:
--              storing a range; Parse: the whole map; Terminates: the loops over tags and entries)
--   Pmm        src/kernel/core/pmm.c, the physical frames and their bitmap. pmm_init reads the map of
--              Bootinfo. Bytes, Frames and Count are about the bitmap; Alloc about taking and giving
--              back a frame; Region, Regions, Release and Boot about pmm_init; Clients about runs
--   Scheduler  src/kernel/core/scheduler.c, cooperative kernel threads (Ring: the list; Pick: the
--              choice; Create, Grow: new threads; System: the machine around it; Invariant, Reach,
--              Exited: what holds of every run)
--   Block      src/kernel/core/block.c, the list of block devices and their reads
--   Fat        src/kernel/fs/fat.c on top of Block: the allocation table (Table), mounting (Mount,
--              Layout), names (Name, Lfn, Path), directory entries (Dir), the cursor of an open file
--              (Cursor, Walk, Follows, Seek) and reading (Read, ReadBounds; Content, InPlace, Exact:
--              which bytes); the walks over directories (Chain, ChainWalk), paths (Lookup) and opening
--              (Open)
--   Heap       src/kernel/core/heap.c. Blocks, Calls and Integrity are the code; Linked is about doubly
--              linked lists, Tiling about the cells that a heap is seen as; FreeList, Insert, Splitting,
--              Cutting, Flags, Steps, Alloc, Taking and FirstFit lead to kmalloc, Live and Given say what
--              its callers get; Joining, Coalesce, Merged, Coalescing, Lookup and Freeing lead to kfree;
--              Start is heap_init, Cleared and Zeroed are about kcalloc, Reach any sequence of calls;
--              Sorted, Sound, Listing, Verdict, Accepted and Exact are about the integrity check
-- A module Tests beside each part runs its functions and applies its theorems at concrete states.
--
-- Names: a definition has its C function's name without the prefix of its file; a helper that stands
-- for a loop or for a part of a function says so in the comment above it.
--
-- Fuel and bounds: the loops of bootinfo_init run on fuel, and running out is a value; Terminates
-- gives the fuel that is enough. The loops over frames, tasks, sectors and directory entries count
-- rounds as the code does. The loop of fat_read_file has a round for each byte that is wanted, and each
-- round copies one at least, so that the fuel is never used up.
--
-- Memory: a heap's headers are a store of records from their addresses, and all other bytes a memory
-- apart from it. heap_zero_bytes writes to both; the clients' own writes are not modelled, nor what the
-- heap's writes do to other memory of the kernel.
--
-- Parameters: the memory that the boot loader's structure lies in; the heap's allocations and the
-- linker's addresses (Surroundings of Pmm, Request of Scheduler); the read function of a block device,
-- whose medium does not change during a call. boot/scheduler.asm, which switches contexts, is where a
-- function of the scheduler is cut in two.
--
-- Not modelled: what is printed or logged; paging, the driver model, PCI and the interrupt controllers;
-- the drivers and the shell.
pub mod Base
pub mod Klog
pub mod Bootinfo
pub mod Pmm
pub mod Scheduler
pub mod Block
pub mod Fat
pub mod Heap
