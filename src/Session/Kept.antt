-- ===== src/Session/Kept.antt =====
-- What the requests of fs/trfs, traced or not, leave alone of the module's state.
use trfs_stackable_filesyste.Common.{◌≡◌, arith, ℤ}
use trfs_stackable_filesyste.Kernel.{Kernel, State, ok}
use trfs_stackable_filesyste.Lookup.Shape.{trfs_interpose_shape}
use trfs_stackable_filesyste.Trace.Shape.{trace_if_set_shape}
use trfs_stackable_filesyste.File.{trfs_open, trfs_read, trfs_write, trfs_file_release}
use trfs_stackable_filesyste.Inode.Files.{trfs_create, trfs_link, trfs_unlink, trfs_symlink}
use trfs_stackable_filesyste.Inode.Directories.{trfs_mkdir, trfs_rmdir, trfs_mknod, trfs_rename}
use trfs_stackable_filesyste.Session.{
  Request, open_file, read, write, release, create, link, unlink, symlink, mkdir, rmdir, mknod,
  rename, serve,
}

-- The private data of dentries, the root, and the hold on the lower superblock are as before.
abbrev pub IsKept : {W : Type 0} → State W → State W → Type 0
IsKept s s' = s' ≡ record s' {
  d_fsdata = s.d_fsdata;
  lower_path = s.lower_path;
  infos = s.infos;
  s_fs_info = s.s_fs_info;
  s_root = s.s_root;
  s_active = s.s_active;
}

module _ {W : Type 0} (k : Kernel W) (s s' : State W) (e : ℤ) where
  pub serve-IsKept : (r : Request) → serve k r s ≡ ok (e, s') → IsKept s s'
  unfolding trfs_open trfs_read trfs_write trfs_file_release trfs_create trfs_link trfs_unlink
      trfs_symlink trfs_mkdir trfs_rmdir trfs_mknod trfs_rename
  serve-IsKept (open_file node f) h = grind (arith, trace_if_set_shape k)
  serve-IsKept (release f) h = grind (arith, trace_if_set_shape k)
  serve-IsKept (read f n) h = grind (arith, trace_if_set_shape k)
  serve-IsKept (write f buf) h = grind (arith, trace_if_set_shape k)
  serve-IsKept (create dir d mode excl) h =
      grind (arith, trace_if_set_shape k, trfs_interpose_shape k)
  serve-IsKept (link old dir new) h = grind (arith, trace_if_set_shape k, trfs_interpose_shape k)
  serve-IsKept (unlink dir d) h = grind (arith, trace_if_set_shape k)
  serve-IsKept (symlink dir d name) h = grind (arith, trace_if_set_shape k, trfs_interpose_shape k)
  serve-IsKept (mkdir dir d mode) h = grind (arith, trace_if_set_shape k, trfs_interpose_shape k)
  serve-IsKept (rmdir dir d) h = grind (arith, trace_if_set_shape k)
  serve-IsKept (mknod dir d mode dev) h =
      grind (arith, trace_if_set_shape k, trfs_interpose_shape k)
  serve-IsKept (rename old_dir old new_dir new) h = grind (arith, trace_if_set_shape k)
