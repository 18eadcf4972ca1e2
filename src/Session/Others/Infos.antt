-- ===== src/Session/Others/Infos.antt =====
-- The untraced requests of fs/trfs leave the lower files of open files alone.
use trfs_stackable_filesyste.Common.{◌≡◌, arith}
use trfs_stackable_filesyste.Kernel.{File, Kernel, State, ok}
use trfs_stackable_filesyste.File.Lower.{
  trfs_readdir, trfs_compat_ioctl, trfs_mmap, trfs_flush, trfs_fsync, trfs_fasync, trfs_file_llseek,
  trfs_read_iter, trfs_write_iter, trfs_fault, trfs_page_mkwrite, trfs_direct_io,
}
use trfs_stackable_filesyste.Inode.Attributes.{
  trfs_readlink, trfs_get_link, trfs_permission, trfs_setattr, trfs_getattr, trfs_statfs,
}
use trfs_stackable_filesyste.Inode.Attributes.Parts.{resize-resized, change_lower-changed}
use trfs_stackable_filesyste.Inode.Xattr.{
  trfs_setxattr, trfs_getxattr, trfs_listxattr, trfs_removexattr,
}
use trfs_stackable_filesyste.Lookup.Dentries.{trfs_d_revalidate}
use trfs_stackable_filesyste.Lookup.Inodes.{trfs_iget-got}
use trfs_stackable_filesyste.Mount.Operations.{
  trfs_evict_inode, trfs_umount_begin, trfs_nfs_get_inode,
}
use trfs_stackable_filesyste.Ioctl.{trfs_command, trfs_unlocked_ioctl}
use trfs_stackable_filesyste.Session.Balance.{lower_of_info}
use trfs_stackable_filesyste.Session.Others.{
  Other, readdir, unlocked_ioctl, compat_ioctl, mmap, flush, fsync, fasync, llseek, read_iter,
  write_iter, fault, page_mkwrite, direct_io, readlink, get_link, permission, setattr, getattr,
  statfs, setxattr, getxattr, listxattr, removexattr, revalidate, evict_inode, umount_begin,
  nfs_get_inode, Reply, serve_other,
}

module _ {W : Type 0} (k : Kernel W) (s s' : State W) (e : Reply) where
  pub lower_of_info-serve_other :
      (r : Other) (g : File)
      → serve_other k r s ≡ ok (e, s')
      → lower_of_info (s'.file_info g) ≡ lower_of_info (s.file_info g)
  unfolding trfs_readdir trfs_compat_ioctl trfs_mmap trfs_flush trfs_fsync trfs_fasync
      trfs_file_llseek trfs_read_iter trfs_write_iter trfs_fault trfs_page_mkwrite trfs_direct_io
      trfs_readlink trfs_get_link trfs_permission trfs_setattr trfs_getattr trfs_statfs
      trfs_setxattr trfs_getxattr trfs_listxattr trfs_removexattr trfs_command trfs_unlocked_ioctl
      trfs_d_revalidate trfs_evict_inode trfs_umount_begin trfs_nfs_get_inode
  lower_of_info-serve_other (readdir f) g h = grind arith
  lower_of_info-serve_other (unlocked_ioctl f cmd arg) g h = grind arith
  lower_of_info-serve_other (compat_ioctl f cmd arg) g h = grind arith
  lower_of_info-serve_other (mmap f vma willwrite) g h = grind arith
  lower_of_info-serve_other (flush f id) g h = grind arith
  lower_of_info-serve_other (fsync f a b datasync) g h = grind arith
  lower_of_info-serve_other (fasync fd f flag) g h = grind arith
  lower_of_info-serve_other (llseek f offset whence) g h = grind arith
  lower_of_info-serve_other (read_iter f iocb) g h = grind arith
  lower_of_info-serve_other (write_iter f iocb) g h = grind arith
  lower_of_info-serve_other (fault f) g h = grind arith
  lower_of_info-serve_other (page_mkwrite f) g h = grind arith
  lower_of_info-serve_other (direct_io iocb iter offset) g h = grind arith
  lower_of_info-serve_other (readlink d n) g h = grind arith
  lower_of_info-serve_other (get_link d) g h = grind arith
  lower_of_info-serve_other (permission i mask) g h = grind arith
  lower_of_info-serve_other (setattr d ia) g h =
      grind (arith, resize-resized k, change_lower-changed k)
  lower_of_info-serve_other (getattr d) g h = grind arith
  lower_of_info-serve_other (revalidate d flags) g h = grind arith
  lower_of_info-serve_other (evict_inode i) g h = grind arith
  lower_of_info-serve_other umount_begin g h = grind arith
  lower_of_info-serve_other (nfs_get_inode ino) g h = grind (arith, trfs_iget-got k)
  lower_of_info-serve_other (statfs d) g h = grind arith
  lower_of_info-serve_other (setxattr d name value flags) g h = grind arith
  lower_of_info-serve_other (getxattr d name size) g h = grind arith
  lower_of_info-serve_other (listxattr d size) g h = grind arith
  lower_of_info-serve_other (removexattr d name) g h = grind arith
