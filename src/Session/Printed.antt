-- ===== src/Session/Printed.antt =====
-- From the mount to the printed lines: trfs_read_super of fs/trfs/main.c, any requests, and `treplay -n`
-- of hw2/treplay.c on the trace file.
use trfs_stackable_filesyste.Entry.{Entry}
use trfs_stackable_filesyste.Kernel.{Kernel}
use trfs_stackable_filesyste.Tracing.{Tracing}
