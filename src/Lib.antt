-- ===== src/Lib.antt =====
-- The kernel Alcor2OS, a 64-bit operating system in C: models of its core parts and what holds of them.
--
-- The parts and the files that model them. Each C function is a function of the same name that takes the
-- state it reads and returns the state it leaves; a loop that has no name in the source is a function
-- beside it. Numbers are natural numbers, and where C wraps the model writes the remainder out (`sub64`,
-- `add64`). An error number is the value `err e` of `Result`.
--   Base: the tests on numbers, lists as C arrays (`get_or`, `set`), words as bit masks (Base/Word) and
--   the window of a ring (Base/Ring).
--   Kstdlib: src/lib/kstdlib.c, the string functions. A C string is the list of its bytes.
--   Mm/Pmm: src/mm/pmm.c, the page allocator. Its static variables are the record `Pmm`.
--   Mm/Heap: src/mm/heap.c, the heap, on a memory of block headers at addresses. `Models` of
--   Mm/Heap/Layout is its invariant, with the list of blocks that the headers form. The loops over that
--   list run on the heap's size as fuel, which is above the number of blocks since each takes 32 bytes or
--   more.
--   Fs/Ext2: src/fs/ext2.c, the blocks of an ext2 volume. A state has the volume in memory, the sectors of
--   the drive and the number of calls of kmalloc and the drive so far; `Faults` says which of them fail.
--   `Counted` of Fs/Ext2/Counted is the invariant. Fs/Ext2/BlockMap: the block map of an
--   inode. Fs/Ext2/Inode: the inode tables; Fs/Ext2/InodeBits: the bitmaps of inodes.
--   Drivers/Keyboard: src/drivers/keyboard/keyboard.c, the ring of scancodes, which the interrupt handler
--   fills and a reader empties.
--   Fs/Calls: src/fs/vfs.c, the calls that reach a driver, which is the record `Driver` of callbacks on a
--   state of its own, and the tables of file system types and mounts (Fs/Calls/Registry).
--   Fs/Paths: src/fs/vfs.c, the normalisation of paths and the choice of a mount.
--   Fs/Files: src/fs/vfs.c, the open file entries and the descriptors of all processes, with the calls of
--   a process in Fs/Files and what happens to all its descriptors at fork, exec and exit in
--   Fs/Files/Lifetime. What a release closes in a pipe or a driver is a list of events.
--   Process: what the others use of include/alcor2/proc/proc.h; with src/kernel/process/proc.c: the
--   scheduler (Process/Sched), exit and the waits (Process/Wait). A wait that blocks ends at the scheduler,
--   and proc_waitpid_resume is what runs behind it.
--   Sys/Pipe: src/kernel/sys/pipe.c. A call that waits ends at the wait with the caller noted and blocked,
--   and `pipe_read_resume` and `pipe_write_resume` are what runs behind it. A history of calls by any
--   processes is the relation `Reach` of Sys/Pipe/Stream. The loop of a write runs on fuel; the fuel that
--   `fuel_for` gives is enough, since each round writes a byte or waits.
--   Sys/PipeCall: src/kernel/sys/pipe.c, sys_pipe and sys_pipe2 on the pipes and the descriptors together,
--   and the two tests of vfs_select in src/fs/vfs.c.
--   Sys/Signal: src/kernel/sys/signal.c with proc_get and proc_signal_broadcast of
--   src/kernel/process/proc.c and vmm_is_user_range of src/mm/vmm.c: the calls on masks and actions
--   (Sys/Signal), the sending (Sys/Signal/Send), the delivery and the return (Sys/Signal/Check). User
--   memory is the 8-byte word at each address.
--   Vega/Fntab: user/sdk/vega/fntab.c, the functions of the shell.
--
-- Not modelled: the RAM file system, the directories and files of ext2, page tables,
-- fork and exec, the other programs of user/, and the code that only moves bytes to devices.
pub mod Base
pub mod Kstdlib
pub mod Mm
pub mod Process
pub mod Fs
pub mod Sys
pub mod Drivers
pub mod Vega
