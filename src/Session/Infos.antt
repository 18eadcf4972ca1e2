-- ===== src/Session/Infos.antt =====
-- The private data of open files, through the requests of fs/trfs.
use trfs_stackable_filesyste.Common.{ℕ, ◌≡◌, ◌≢◌, arith, Bool, true, false, ℤ, is_error}
use trfs_stackable_filesyste.Session.Balance.{lower_of_info}
use trfs_stackable_filesyste.Kernel.{File, ptr, err_ptr, LowerPath, Kernel, State, ok}
use trfs_stackable_filesyste.Lookup.Shape.{trfs_interpose_shape}
use trfs_stackable_filesyste.Trace.Shape.{trace_if_set_shape}
use trfs_stackable_filesyste.File.{trfs_open, trfs_read, trfs_write, trfs_file_release}
use trfs_stackable_filesyste.Inode.Files.{trfs_create, trfs_link, trfs_unlink, trfs_symlink}
use trfs_stackable_filesyste.Inode.Directories.{trfs_mkdir, trfs_rmdir, trfs_mknod, trfs_rename}
use trfs_stackable_filesyste.Session.{
  Request, open_file, read, write, release, create, link, unlink, symlink, mkdir, rmdir, mknod,
  rename, serve,
}

-- Neither an open nor a release.
abbrev pub is_plain : Request → Bool
is_plain (open_file node f) = false
is_plain (release f) = false
is_plain _ = true

-- What `dentry_open` gives is not NULL, and its errors are not 0.
pub record Opens {W : Type 0} (k : Kernel W) : Type 0 where
  pub not_null : (p : LowerPath) (n q : ℕ) (w : W) → (k.dentry_open p n w).0 ≡ ptr q → q ≢ 0
  pub error :
      (p : LowerPath) (n : ℕ) (x : ℤ) (w : W)
      → (k.dentry_open p n w).0 ≡ err_ptr x
      → is_error x ≡ true

module _ {W : Type 0} (k : Kernel W) (s s' : State W) (e : ℤ) where
  pub serve-file_info :
      (r : Request) → is_plain r ≡ true → serve k r s ≡ ok (e, s') → s'.file_info ≡ s.file_info
  unfolding trfs_read trfs_write trfs_create trfs_link trfs_unlink trfs_symlink trfs_mkdir
      trfs_rmdir trfs_mknod trfs_rename
  serve-file_info (open_file node f) p h = cc
  serve-file_info (release f) p h = cc
  serve-file_info (read f n) p h = grind (arith, trace_if_set_shape k)
  serve-file_info (write f buf) p h = grind (arith, trace_if_set_shape k)
  serve-file_info (create dir d mode excl) p h =
      grind (arith, trace_if_set_shape k, trfs_interpose_shape k)
  serve-file_info (link old dir new) p h =
      grind (arith, trace_if_set_shape k, trfs_interpose_shape k)
  serve-file_info (unlink dir d) p h = grind (arith, trace_if_set_shape k)
  serve-file_info (symlink dir d name) p h =
      grind (arith, trace_if_set_shape k, trfs_interpose_shape k)
  serve-file_info (mkdir dir d mode) p h =
      grind (arith, trace_if_set_shape k, trfs_interpose_shape k)
  serve-file_info (rmdir dir d) p h = grind (arith, trace_if_set_shape k)
  serve-file_info (mknod dir d mode dev) p h =
      grind (arith, trace_if_set_shape k, trfs_interpose_shape k)
  serve-file_info (rename old_dir old new_dir new) p h = grind (arith, trace_if_set_shape k)

  -- An open gives its file private data with a lower file, or, if it fails, leaves none.
  pub trfs_open-file_info :
      (node : ℕ) (f g : File)
      → f ≢ g
      → serve k (open_file node f) s ≡ ok (e, s')
      → s'.file_info g ≡ s.file_info g
  unfolding trfs_open
  trfs_open-file_info node f g n h = grind (arith, trace_if_set_shape k)

  pub lower_of_info-trfs_open :
      (node : ℕ) (f : File)
      → Opens k
      → is_error e ≡ false
      → serve k (open_file node f) s ≡ ok (e, s')
      → lower_of_info (s'.file_info f) ≢ 0
  unfolding trfs_open
  lower_of_info-trfs_open node f o n h =
      λ z. grind (arith, o.not_null, o.error, trace_if_set_shape k)

  pub trfs_file_release-file_info :
      (f g : File) → f ≢ g → serve k (release f) s ≡ ok (e, s') → s'.file_info g ≡ s.file_info g
  unfolding trfs_file_release
  trfs_file_release-file_info f g n h = grind (arith, trace_if_set_shape k)
