-- ===== src/Lib.antt =====
-- A model of Nachos as this repository builds it: a simulated MIPS machine, and the parts of a small
-- operating system kernel that runs on it.
--
-- Parts, and the files that model them:
--   * code/userprog/bitmap.h and bitmap.cc: BitMap.antt, with BitMap/Bit for single bits and
--     BitMap/Search for Find, NumClear and the constructor. The words of the array are numbers, and
--     Mark, Clear and Test take a signed index. A new array holds anything.
--   * code/userprog/memmanage.cc: MemManage.antt, physical pages over the bitmap.
--   * code/machine/machine.h and machine.cc: Machine.antt. A register is the pattern of an int, a
--     number below 2 ^ 32; memory is an array of bytes.
--   * code/machine/translate.cc: Machine/Translate.antt, with the theorems of Frames, Memory and
--     Registers below it. ReadMem and WriteMem return the value and the new machine, or the exception
--     that was raised with the machine in which the kernel's handler starts.
--   * code/machine/mipssim.h and mipssim.cc: Machine/Words.antt (arithmetic on patterns),
--     Machine/Mult.antt, Machine/Instruction.antt (Decode and its tables) and Machine/Execute.antt,
--     with the switch of OneInstruction in Machine/Execute/Switch.antt, one clause for each case.
--   * code/threads/list.h and list.cc: LinkedList.antt, over a store of list elements, and
--     LinkedList/Queue.antt, the sorted queue that a list stands for.
--   * code/threads/thread.h, thread.cc, scheduler.h and scheduler.cc: Threads.antt, with the registers
--     of user programs in Threads/UserState.antt, together with InitRegisters and RestoreState of
--     code/userprog/addrspace.cc. The parts of thread.cc that use semaphores are in Synch/Join.antt.
--   * code/threads/synch.h and synch.cc: Synch.antt for semaphores, locks and conditions,
--     Synch/Mailbox.antt and Synch/Whale.antt. Synch/Mutex.antt is the step relation of the threads
--     that use one lock; Synch/Mailbox/Delivery.antt has that of a mailbox.
--   * code/machine/interrupt.h, interrupt.cc and stats.h: Interrupt.antt for the data and Schedule, and
--     Interrupt/Clock.antt for the operations that run handlers.
--   * code/filesys/openfile.h and openfile.cc: OpenFile.antt.
--   * code/filesys/filesys.h and filesys.cc: FileSystem.antt; FileSystem/Layout.antt has FetchFrom and
--     WriteBack of the bitmap, the file header and the directory, byte by byte, and FileSystem/Words and
--     Entries take the bytes apart again. FileSystem/Mounted says when a disk is that of a file system,
--     FileSystem/Creation what Create leaves, and FileSystem/Removed what Remove leaves.
--   * code/filesys/filehdr.h and filehdr.cc: FileHeader.antt, sectors of a file over the bitmap.
--   * code/filesys/directory.h and directory.cc: Directory.antt, with Directory/Search for its loops and
--     Directory/Match for the comparison of names.
--   * code/threads/table.h and table.cc: Table.antt, the table of objects under its lock; Table/Slots for
--     what Alloc takes and Table/Full for a full table.
--   * code/machine/disk.h and disk.cc: Disk.antt, the timing of requests and their data.
--   * code/userprog/addrspace.cc and backingstore.cc: AddrSpace.antt, the clock of ClearPage and the
--     copying of pages to and from the backing file; AddrSpace/Program.antt, the header of a program file
--     (code/bin/noff.h) and the first load of a page; AddrSpace/Demand.antt, Initialize, demandpage and
--     ClearState. AddrSpace/Frames and Contents have what the proofs speak of: whose the frames are, and
--     the memory that a program sees, in frames and in the backing file.
-- Base.antt and its children hold what the parts share. Examples.antt and its children apply the
-- theorems to concrete inputs.
--
-- How the parts interact: OneInstruction fetches and accesses memory through ReadMem and WriteMem,
-- which translate through the page table; a fault calls RaiseException, which applies the pending
-- load and enters the kernel. The page manager and the file headers allocate from a bitmap each. The
-- ready list, the queues of the synchronisation primitives and the pending interrupts are sorted lists.
-- P, Acquire and Wait put the current thread on a queue and switch to another through the scheduler; V,
-- Release, Signal and Broadcast give threads back to it. Mailbox and Whale are monitors over a lock and
-- conditions. An open file reads and writes the sectors that its file header names. The file
-- system keeps the bitmap of free sectors and the directory in two such files, fetches them for each
-- operation and writes them back. A page fault ends in
-- demandpage, which gets a frame from the page manager, through ClearPage if need be, and fills it from the
-- program file or from the backing file.
--
-- Conventions. A failed ASSERT, an access outside an array and the use of a dead pointer are `none`,
-- or `aborted` for a whole instruction. `new` of a list element is a parameter: the operations take
-- the address that it returned, and the theorems ask that it is not NULL and not in the list. The
-- loops over an index recurse on the number of rounds left. The loop of SortedInsert follows pointers
-- and runs on fuel: fuel for each element of the list is shown to be enough. The clock of ClearPage
-- has no bound in the source and runs on fuel: two turns are shown to be enough if a page is in memory. A machine
-- division by zero is tested for in the source; the one quotient that does not fit traps the host and
-- is `aborted`. A right shift of an int copies the sign, as on the i386 host, and `char` is signed.
--
-- A call that may sleep is split where it calls Thread::Sleep: what runs up to there, with interrupts
-- off, is one function, whose outcome says whether the call has returned or sleeps, and what runs after
-- the thread has been dispatched again is another. A thread is BLOCKED from there on; the loop of Sleep
-- looks for another thread, on fuel, with Interrupt::Idle as a parameter: one turn is enough when a
-- thread is ready. The threads keep the level of interrupts, which ChangeLevel sets for SetLevel; SetLevel
-- itself, with its ASSERT and the tick of simulated time that it takes when it enables interrupts, is in
-- Interrupt/Clock.antt. The operations of Threads.antt and Synch.antt leave that tick out: they end where
-- it begins, and Yield says whether it comes. Interrupt handlers, the delayed load and
-- the Yield of the current thread are parameters there, and the theorems ask that handlers add to the
-- pending interrupts only such as are not due, as Schedule does; the loop of CheckIfDue runs on fuel, and
-- one turn for each interrupt that is due, and one more, is enough. A deleted thread stays in the table
-- and is noted as deleted. Counters and ticks are patterns of ints. In OpenFile.antt positions and
-- lengths are ints that are not negative, and a request whose end is not an int has no result; so has the
-- paging of a page whose place in the backing file is not an int; the synchronous disk is the bytes that it keeps. The structures of the file
-- system have the layout of the i386 host, and the memory that `new` gives for them holds anything.
--
-- Not modelled: the kernel's handlers, the synchronised list and the network; the lock of the synchronous
-- disk, List and Print of the file system; the stacks of threads and the switch of
-- registers of the host; the console, the timer, the host services and the command line are input and
-- output only. Debugging output is left out everywhere.
mod Base
pub mod BitMap
pub mod Machine
pub mod MemManage
pub mod LinkedList
pub mod FileHeader
pub mod Examples
pub mod Disk
pub mod Directory
pub mod FileSystem
pub mod AddrSpace
pub mod Threads
pub mod Synch
pub mod Table
pub mod Interrupt
pub mod OpenFile
