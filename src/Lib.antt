-- ===== src/Lib.antt =====
-- HSunix, a teaching kernel for RISC-V: a model of its core and what holds of it.
--
-- The program. A monolithic kernel (kernel/) with processes, a page and block allocator, a virtual
-- file system over a memory and a disk file system, devices and interprocess communication, and a
-- small user land (user/). This library models the parts with logic of their own.
--
--   Ring      kernel/lib/ringbuff.c: the character ring under pipes and the console. `Ring` is the
--             `ringbuf_t`, with one function per `kRingbuf_` routine.
--   Cstr      kernel/lib/string.c: `kmemset` to `kstrrchr` under the same names.
--   PathName  kernel/fs/virtual_fs/fs_path.c: the `path_` functions under the same names, above the
--             string routines of Cstr.
--   Proc      kernel/src/proc.c and kernel/src/pcb.c: the process states, the four process lists and
--             the `do_` and `proc_` operations.
--   Timer     kernel/src/timer.c: the list of timers; `timer_run` wakes processes through Proc.
--   Kmem      kernel/lib/phymem.c: `kalloc`, `kfree`, the pages, and `init_kmem`.
--   DiskCache  kernel/fs/disk_fs/dfs_iobuf.c: the `dbuf_` functions under the same names.
--   Blocks    kernel/fs/disk_fs/dfs_priv.c: the bitmap and `bmap`, on the buffers of DiskCache.
--   Inodes    kernel/fs/disk_fs/dfs_inode.c: the `dinode_` functions under the same names, on Blocks.
--   Entries   kernel/fs/disk_fs/dfs_dirent.c: the `ddir_` functions under the same names, on Inodes.
--   DiskPaths kernel/fs/disk_fs/dfs_priv.c, dfs_inode.c: names of paths, the super block, the walks
--             `dinode_parent` and `dinode_path`, and `dinode_release`, on Entries.
--   DiskFiles kernel/fs/disk_fs/dfs_fs.c: the `dfs_` functions under the same names, on DiskPaths.
--   RamFs     kernel/fs/ram_fs/fs_ramfs.c: the nodes and the walk along a path; Operations holds the
--             functions on the file system, Files those on an open file, under the same names.
--   CharDev   kernel/drv/char_dev.c: the reservation of device numbers; `register_region` for
--             `__register_chrdev_region`, the other functions under their names.
--   KobjMap   kernel/drv/kobj_map.c: the map of device numbers, all functions under their names.
--   Pipes     kernel/src/pipe.c: all functions under their names, on Ring; the loops are `read_loop`
--             and `write_loop`.
--   Console   kernel/src/console.c: the functions under their names with `_`, on Ring.
--   Kobjects  kernel/src/kobject.c and kernel/lib/kref.c: the functions under their names.
--   Interrupts  kernel/src/port.c: `k_port_disable_interrupt` for `kPortDisableInterrupt`, and so on.
--   Descriptors  kernel/fs/virtual_fs/fs_fd.c: the `fd_` functions under the same names.
--   Messages  kernel/src/msg.c: the message queues, which suspend and resume through Proc.
--   PageTable  kernel/arch/vm.c: the functions under the same names, `mmu` for `_mmu`; Ranges holds
--             those on entries and ranges, Copy the copies and `init_kvm`.
--   Base      the shared names: numbers, Boolean tests, lists, integers, options.
--
-- State is passed explicitly: an operation takes the record of its component and returns the new
-- one. `ErrPrint`, which does not come back, is `none` or an outcome of its own. A null pointer is 0
-- or `none`, as each file says. A read or write past the end of an object is `none`. What other code
-- does while a process is switched out is an argument. Whether the allocator finds room is an
-- argument of the path and string functions.
--
-- Bounds and fuel. Lengths and counts are natural numbers; no operation modelled here wraps an `int`
-- for the sizes that its callers pass; the reference counts of buffers and files and the end of a
-- region of device numbers wrap at 32 bits, and the number of an inode is negative from 32768 on.
-- `rounds` of PathName runs on the length of the path, and each round takes at least one byte of
-- it; `uvm_copyin`, `uvm_copyout`, `read_blocks` and `write_blocks` run on the number of bytes, of
-- which a round moves one at least; `alloc_from` on the number of blocks of the bitmap;
-- `scan_entries` and `free_entry` on one round for each entry of a directory and two more;
-- `walk_path` on the length of the path, of which a round takes a byte at least; `free_sublist` on
-- the depth of the tree; `release_from` and `kobject_put` on fuel that the caller gives;
-- `walk_rounds` on the length of the path and one more, which is enough, and `list_entries` on one
-- round for each entry of a directory and two more; `freepages` on the three levels of a table;
-- `phy_page_format` on one round for each page and one more; `register_pieces` and
-- `unregister_pieces` on one round for each number of the range and one more. `do_wait` takes the
-- number of its passes as fuel, and the loops of the pipes run on the passes that they are given.
-- Every other loop follows a list or a count.
--
-- Not modelled: registers and assembler (kernel/arch, kernel/boot), the disk driver, the virtual
-- file system, the rest of the device model, system calls, the third-party printf copies, and the
-- user land.
pub mod Base
pub mod Ring
pub mod Cstr
pub mod PathName
pub mod Proc
pub mod Timer
pub mod Kmem
pub mod DiskCache
pub mod Descriptors
pub mod Messages
pub mod PageTable
pub mod Blocks
pub mod Inodes
pub mod Entries
pub mod Interrupts
pub mod RamFs
pub mod CharDev
pub mod KobjMap
pub mod Pipes
pub mod DiskPaths
pub mod DiskFiles
pub mod Console
pub mod Kobjects
