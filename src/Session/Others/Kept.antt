-- ===== src/Session/Others/Kept.antt =====
-- What the untraced requests of fs/trfs leave alone of the module's state.
use trfs_stackable_filesyste.Common.{◌≡◌, arith}
use trfs_stackable_filesyste.Kernel.{Kernel, State, ok}
use trfs_stackable_filesyste.File.Lower.{
  trfs_readdir, trfs_compat_ioctl, trfs_mmap, trfs_flush, trfs_fsync, trfs_fasync, trfs_file_llseek,
  trfs_read_iter, trfs_write_iter, trfs_fault, trfs_page_mkwrite, trfs_direct_io,
}
use trfs_stackable_filesyste.Inode.Attributes.{
  trfs_readlink, trfs_get_link, trfs_permission, trfs_setattr, trfs_getattr, trfs_statfs,
}
use trfs_stackable_filesyste.Inode.Attributes.Parts.{resize-resized, change_lower-changed}
use trfs_stackable_filesyste.Inode.Xattr.{
  trfs_setxattr, trfs_getxattr, trfs_listxattr, trfs_removexattr,
}
use trfs_stackable_filesyste.Lookup.Dentries.{trfs_d_revalidate}
use trfs_stackable_filesyste.Lookup.Inodes.{trfs_iget-got}
use trfs_stackable_filesyste.Mount.Operations.{
  trfs_evict_inode, trfs_umount_begin, trfs_nfs_get_inode,
}
use trfs_stackable_filesyste.Ioctl.{trfs_command, trfs_unlocked_ioctl}
use trfs_stackable_filesyste.Session.Kept.{IsKept}
use trfs_stackable_filesyste.Session.Others.{
  Other, readdir, unlocked_ioctl, compat_ioctl, mmap, flush, fsync, fasync, llseek, read_iter,
  write_iter, fault, page_mkwrite, direct_io, readlink, get_link, permission, setattr, getattr,
  statfs, setxattr, getxattr, listxattr, removexattr, revalidate, evict_inode, umount_begin,
  nfs_get_inode, Reply, serve_other,
}

module _ {W : Type 0} (k : Kernel W) (s s' : State W) (e : Reply) where
  pub serve_other-IsKept : (r : Other) → serve_other k r s ≡ ok (e, s') → IsKept s s'
  unfolding trfs_readdir trfs_compat_ioctl trfs_mmap trfs_flush trfs_fsync trfs_fasync
      trfs_file_llseek trfs_read_iter trfs_write_iter trfs_fault trfs_page_mkwrite trfs_direct_io
      trfs_readlink trfs_get_link trfs_permission trfs_setattr trfs_getattr trfs_statfs
      trfs_setxattr trfs_getxattr trfs_listxattr trfs_removexattr trfs_command trfs_unlocked_ioctl
      trfs_d_revalidate trfs_evict_inode trfs_umount_begin trfs_nfs_get_inode
  serve_other-IsKept (readdir f) h = grind arith
  serve_other-IsKept (unlocked_ioctl f cmd arg) h = grind arith
  serve_other-IsKept (compat_ioctl f cmd arg) h = grind arith
  serve_other-IsKept (mmap f vma willwrite) h = grind arith
  serve_other-IsKept (flush f id) h = grind arith
  serve_other-IsKept (fsync f a b datasync) h = grind arith
  serve_other-IsKept (fasync fd f flag) h = grind arith
  serve_other-IsKept (llseek f offset whence) h = grind arith
  serve_other-IsKept (read_iter f iocb) h = grind arith
  serve_other-IsKept (write_iter f iocb) h = grind arith
  serve_other-IsKept (fault f) h = grind arith
  serve_other-IsKept (page_mkwrite f) h = grind arith
  serve_other-IsKept (direct_io iocb iter offset) h = grind arith
  serve_other-IsKept (readlink d n) h = grind arith
  serve_other-IsKept (get_link d) h = grind arith
  serve_other-IsKept (permission i mask) h = grind arith
  serve_other-IsKept (setattr d ia) h = grind (arith, resize-resized k, change_lower-changed k)
  serve_other-IsKept (getattr d) h = grind arith
  serve_other-IsKept (revalidate d flags) h = grind arith
  serve_other-IsKept (evict_inode i) h = grind arith
  serve_other-IsKept umount_begin h = grind arith
  serve_other-IsKept (nfs_get_inode ino) h = grind (arith, trfs_iget-got k)
  serve_other-IsKept (statfs d) h = grind arith
  serve_other-IsKept (setxattr d name value flags) h = grind arith
  serve_other-IsKept (getxattr d name size) h = grind arith
  serve_other-IsKept (listxattr d size) h = grind arith
  serve_other-IsKept (removexattr d name) h = grind arith
