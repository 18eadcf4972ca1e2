-- ===== src/Lib.antt =====
-- TRFS, a stackable file system for Linux that logs the calls that go through it to a trace file
-- (fs/trfs), and its two user programs (hw2): trctl, which says what is logged, and treplay, which
-- prints a trace file or makes its calls again.
--
-- How the parts interact. The VFS calls a handler of the module; the handler calls the lower file
-- system and then, if the call's bit is set in the superblock's mask, appends a record, one or two
-- paths, and for a write its content to the trace file. trctl changes the mask by a control call.
-- treplay reads the records back.
--
-- Which file models which part:
-- - Common: numbers, lists and tests; Int has C's `int` and `short`.
-- - Record: `struct trfs_trace_ds` of fs/trfs/trfs.h and hw2/treplay.h and its 28 bytes. Entry: a
--   record with what stands behind it, and what a log of them is.
-- - Kernel: the state of the module (`struct trfs_sb_info`, `trfs_file_info`, `trfs_dentry_info`) and
--   what it holds of the kernel's (blocks, references to lower dentries and to lower files, locks, open
--   trace files, the address limit).
--   Kernel.Interface: the kernel's own functions as a record of operations over an unknown world. A
--   handler is a function of the state that returns a result and a state, or that oopses. Errno: the
--   error codes.
-- - Trace: the block that the twelve handlers share, word for word but for what they log. Trace.Stages:
--   the block in three stages, which several handlers run at once.
-- - Lookup: trfs_iget, __trfs_interpose and trfs_interpose of fs/trfs/lookup.c. Lookup.Dentries: the
--   private data of dentries and fs/trfs/dentry.c. Lookup.Names: __trfs_lookup and trfs_lookup.
-- - File, Inode.Files, Inode.Directories: the twelve handlers of fs/trfs/file.c and fs/trfs/inode.c.
-- - File.Lower, Inode.Attributes, Inode.Xattr: the operations that are not traced, of fs/trfs/file.c,
--   fs/trfs/mmap.c and fs/trfs/inode.c, and trfs_statfs of fs/trfs/super.c.
-- - Ioctl: trfs_unlocked_ioctl of fs/trfs/file.c. Ctl: main of hw2/trctl.c. Ctl.Module:
--   the program over the module's handler.
-- - Session: the handlers as requests; Session.Balance, Session.Logged, Session.History and Session.Log
--   have the proofs about one request and about many. Session.Others: the untraced operations as requests.
--   Session.Switched: from trctl to the log. Session.Dentries and
--   Session.Held: the dentries that were looked up. Session.Infos: the private data of files.
--   Session.Lifetimes: open files from trfs_open to trfs_file_release, with Lifetimes.Live for what they
--   keep and Lifetimes.Closed from the mount to the unmount.
--   Session.Mounted, Session.Printed, Session.Unmounted: from the mount to the reader, to the printed
--   lines, and to the unmount.
-- - Replay: the loop of main of hw2/treplay.c; Replay.Call: replay_record; Replay.Print: print_record;
--   Replay.Program: the rest of main, with the options.
-- - Mount: trfs_mount of fs/trfs/main.c, up to mount_nodev. Mount.Super: trfs_read_super,
--   trfs_shutdown_super, trfs_put_super and trfs_remount_fs of fs/trfs/main.c and fs/trfs/super.c.
--   Mount.Operations: the other operations of the superblock, NFS handles among them.
--   Mount.Modules: loading and unloading the module.
-- - Icache: the inodes of the module, from trfs_alloc_inode to trfs_destroy_inode of fs/trfs/super.c, with
--   trfs_inode_test and trfs_inode_set of fs/trfs/lookup.c. Icache.Store is what the kernel's cache
--   shows of them, Icache.Laws what is relied on of it.
-- - Tracing: what is relied on of the kernel. Examples: a small kernel that satisfies it, and the
--   theorems at concrete data.
--
-- Bounds and fuel. The loop of treplay runs on fuel, the file's length and one more: every record takes
-- 28 bytes, so this is enough on every file. `short`, `int`, `unsigned int` and `unsigned long` wrap where
-- the code's do. Modes, flags and results fit their C types by hypothesis (Tracing, `Typed`). The results
-- about logs take paths of at most 255 characters, which fit the handlers' buffers, lower writes that
-- succeed, fewer than 2^31 requests, and files below 2 GB, where the offset of treplay, an `int`, ends.
--
-- Not modelled: printk, which is output only; races of whole handlers, but for those of the record id;
-- bytes of two handlers that mix in the trace file; the reference counts of the module's own
-- inodes, which the kernel keeps; the generated fs/trfs/trfs.mod.c. The full paths of replay_record
-- are one byte longer than their blocks: it is an argument (`slack`) whether a block has room for it. The
-- second `iput` where the root's dentry cannot be made is an effect on an inode that is gone.
pub mod Common
pub mod Record
pub mod Kernel
pub mod Entry
pub mod Errno
pub mod Lookup
pub mod File
pub mod Ioctl
pub mod Inode
pub mod Tracing
pub mod Trace
pub mod Icache
pub mod Session
pub mod Ctl
pub mod Replay
pub mod Mount
pub mod Examples
