-- ===== src/Session/Others.antt =====
-- The requests whose handlers log nothing: the other entries of the operation tables of fs/trfs/file.c,
-- fs/trfs/inode.c, fs/trfs/mmap.c, fs/trfs/super.c and fs/trfs/dentry.c.
pub mod Passed
pub mod Kept
pub mod Infos
pub mod Total
use trfs_stackable_filesyste.Common.{ℕ, Bool, List, ℤ}
use trfs_stackable_filesyste.Kernel.{
  Dentry, File, Inode, ErrPtr, Iattr, Kernel, M, pure, ◌>>=◌, ◌>>◌,
}
use trfs_stackable_filesyste.File.Lower.{
  trfs_readdir, trfs_compat_ioctl, trfs_mmap, trfs_flush, trfs_fsync, trfs_fasync, trfs_file_llseek,
  trfs_read_iter, trfs_write_iter, trfs_fault, trfs_page_mkwrite, trfs_direct_io,
}
use trfs_stackable_filesyste.Inode.Attributes.{
  trfs_readlink, trfs_get_link, trfs_permission, trfs_setattr, trfs_getattr, trfs_statfs,
}
use trfs_stackable_filesyste.Inode.Xattr.{
  trfs_setxattr, trfs_getxattr, trfs_listxattr, trfs_removexattr,
}
use trfs_stackable_filesyste.Lookup.Dentries.{trfs_d_revalidate}
use trfs_stackable_filesyste.Mount.Operations.{
  trfs_evict_inode, trfs_umount_begin, trfs_nfs_get_inode,
}
use trfs_stackable_filesyste.Ioctl.{trfs_unlocked_ioctl}

pub data Other : Type 0 where
  readdir : File → Other
  unlocked_ioctl compat_ioctl : File → ℕ → ℕ → Other
  mmap : File → ℕ → Bool → Other
  flush : File → ℕ → Other
  fsync : File → ℕ → ℕ → ℕ → Other
  fasync : ℕ → File → ℕ → Other
  llseek : File → ℤ → ℕ → Other
  read_iter write_iter : File → ℕ → Other
  fault page_mkwrite : File → Other
  direct_io : ℕ → ℕ → ℤ → Other
  readlink : Dentry → ℕ → Other
  get_link : Dentry → Other
  permission : Inode → ℕ → Other
  setattr : Dentry → Iattr → Other
  getattr statfs : Dentry → Other
  setxattr : Dentry → List ℕ → List ℕ → ℕ → Other
  getxattr : Dentry → List ℕ → ℕ → Other
  listxattr : Dentry → ℕ → Other
  removexattr : Dentry → List ℕ → Other
  revalidate : Dentry → ℕ → Other
  evict_inode : Inode → Other
  umount_begin : Other
  nfs_get_inode : ℕ → Other

-- What a handler returns: nothing, a number, or the link's text, an inode, or an error for it.
pub data Reply : Type 0 where
  number : ℤ → Reply
  text : ErrPtr → Reply
  found_inode : ErrPtr → Reply
  nothing_else : Reply

abbrev replying : {W : Type 0} → M W ℤ → M W Reply
replying m = do e ← m; pure (number e)

-- The function that the tables give for a request.
abbrev pub serve_other : {W : Type 0} → Kernel W → Other → M W Reply
serve_other k (readdir f) = replying (trfs_readdir k f)
serve_other k (unlocked_ioctl f cmd arg) = replying (trfs_unlocked_ioctl k f cmd arg)
serve_other k (compat_ioctl f cmd arg) = replying (trfs_compat_ioctl k f cmd arg)
serve_other k (mmap f vma willwrite) = replying (trfs_mmap k f vma willwrite)
serve_other k (flush f id) = replying (trfs_flush k f id)
serve_other k (fsync f a b datasync) = replying (trfs_fsync k f a b datasync)
serve_other k (fasync fd f flag) = replying (trfs_fasync k fd f flag)
serve_other k (llseek f offset whence) = replying (trfs_file_llseek k f offset whence)
serve_other k (read_iter f iocb) = replying (trfs_read_iter k f iocb)
serve_other k (write_iter f iocb) = replying (trfs_write_iter k f iocb)
serve_other k (fault f) = replying (trfs_fault k f)
serve_other k (page_mkwrite f) = replying (trfs_page_mkwrite k f)
serve_other k (direct_io iocb iter offset) = replying (trfs_direct_io iocb iter offset)
serve_other k (readlink d n) = replying (trfs_readlink k d n)
serve_other k (get_link d) = do r ← trfs_get_link k d; pure (text r)
serve_other k (permission i mask) = replying (trfs_permission k i mask)
serve_other k (setattr d ia) = replying (trfs_setattr k d ia)
serve_other k (getattr d) = replying (trfs_getattr k d)
serve_other k (statfs d) = replying (trfs_statfs k d)
serve_other k (setxattr d name value flags) = replying (trfs_setxattr k d name value flags)
serve_other k (getxattr d name size) = replying (trfs_getxattr k d name size)
serve_other k (listxattr d size) = replying (trfs_listxattr k d size)
serve_other k (removexattr d name) = replying (trfs_removexattr k d name)
serve_other k (revalidate d flags) = replying (trfs_d_revalidate k d flags)
serve_other k (evict_inode i) = do trfs_evict_inode k i; pure nothing_else
serve_other k umount_begin = do trfs_umount_begin k; pure nothing_else
serve_other k (nfs_get_inode ino) = do r ← trfs_nfs_get_inode k ino; pure (found_inode r)
