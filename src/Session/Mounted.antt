-- ===== src/Session/Mounted.antt =====
-- From the mount to the reader: trfs_read_super of fs/trfs/main.c, any requests, and the loop of
-- hw2/treplay.c on the trace file.
use trfs_stackable_filesyste.Entry.{Entry}
use trfs_stackable_filesyste.Kernel.{Kernel}
use trfs_stackable_filesyste.Tracing.{Tracing}
