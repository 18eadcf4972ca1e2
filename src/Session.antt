-- ===== src/Session.antt =====
-- The twelve traced operations as requests of the VFS, by the operation tables of fs/trfs/file.c and
-- fs/trfs/inode.c.
pub mod Balance
pub mod Kept
pub mod Infos
pub mod Lifetimes
pub mod Switched
pub mod Returned
pub mod Fits
pub mod Logged
pub mod History
pub mod Log
pub mod Others
pub mod Mounted
pub mod Printed
pub mod Dentries
pub mod Held
pub mod Unmounted
use trfs_stackable_filesyste.Common.{ℕ, Bool, List, ℤ}
use trfs_stackable_filesyste.Record.{
  open_call, read_call, write_call, release_call, create_call, link_call, unlink_call, symlink_call,
  mkdir_call, rmdir_call, mknod_call, rename_call,
}
use trfs_stackable_filesyste.Kernel.{Dentry, File, Inode, inode, Kernel, M}
use trfs_stackable_filesyste.File.{trfs_open, trfs_read, trfs_write, trfs_file_release}
use trfs_stackable_filesyste.Inode.Files.{trfs_create, trfs_link, trfs_unlink, trfs_symlink}
use trfs_stackable_filesyste.Inode.Directories.{trfs_mkdir, trfs_rmdir, trfs_mknod, trfs_rename}

pub data Request : Type 0 where
  open_file : ℕ → File → Request
  read : File → ℕ → Request
  write : File → List ℕ → Request
  release : File → Request
  create : ℕ → Dentry → ℕ → Bool → Request
  link : Dentry → ℕ → Dentry → Request
  unlink : ℕ → Dentry → Request
  symlink : ℕ → Dentry → List ℕ → Request
  mkdir : ℕ → Dentry → ℕ → Request
  rmdir : ℕ → Dentry → Request
  mknod : ℕ → Dentry → ℕ → ℕ → Request
  rename : ℕ → Dentry → ℕ → Dentry → Request

abbrev pub call_number : Request → ℕ
call_number (open_file dir f) = open_call
call_number (read f n) = read_call
call_number (write f buf) = write_call
call_number (release f) = release_call
call_number (create dir d mode excl) = create_call
call_number (link old dir new) = link_call
call_number (unlink dir d) = unlink_call
call_number (symlink dir d name) = symlink_call
call_number (mkdir dir d mode) = mkdir_call
call_number (rmdir dir d) = rmdir_call
call_number (mknod dir d mode dev) = mknod_call
call_number (rename old_dir old new_dir new) = rename_call

-- The function that the tables give for a request.
abbrev pub serve : {W : Type 0} → Kernel W → Request → M W ℤ
serve k (open_file node f) = trfs_open k (inode node) f
serve k (read f n) = trfs_read k f n
serve k (write f buf) = trfs_write k f buf
serve k (release f) = trfs_file_release k f
serve k (create dir d mode excl) = trfs_create k (inode dir) d mode excl
serve k (link old dir new) = trfs_link k old (inode dir) new
serve k (unlink dir d) = trfs_unlink k (inode dir) d
serve k (symlink dir d name) = trfs_symlink k (inode dir) d name
serve k (mkdir dir d mode) = trfs_mkdir k (inode dir) d mode
serve k (rmdir dir d) = trfs_rmdir k (inode dir) d
serve k (mknod dir d mode dev) = trfs_mknod k (inode dir) d mode dev
serve k (rename old_dir old new_dir new) = trfs_rename k old_dir old new_dir new
