-- ===== src/Session/Balance.antt =====
-- What the handlers of fs/trfs hold of the kernel after a request, against what they held before.
use trfs_stackable_filesyste.Common.{
  ℕ, ◌+◌, ◌-◌, ◌≡◌, arith, ℤ, is_error, if◌then◌else◌, Option, none, some, ◌==◌,
}
use trfs_stackable_filesyste.Kernel.{Kernel, State, ok, FileInfo}
use trfs_stackable_filesyste.Lookup.Shape.{trfs_interpose_shape}
use trfs_stackable_filesyste.Trace.Shape.{trace_if_set_shape}
use trfs_stackable_filesyste.File.{trfs_open, trfs_read, trfs_write, trfs_file_release}
use trfs_stackable_filesyste.Inode.Files.{trfs_create, trfs_link, trfs_unlink, trfs_symlink}
use trfs_stackable_filesyste.Inode.Directories.{trfs_mkdir, trfs_rmdir, trfs_mknod, trfs_rename}
use trfs_stackable_filesyste.Session.{
  Request, open_file, read, write, release, create, link, unlink, symlink, mkdir, rmdir, mknod,
  rename, serve,
}

-- The blocks from `kmalloc` that are in use after a request that returned `e`: an open that succeeds
-- keeps one, the private data of its file, and the release frees it.
abbrev pub live_after : Request → ℤ → ℕ → ℕ
live_after (open_file node f) e n = if is_error e then n else n + 1
live_after (release f) e n = n - 1
live_after _ e n = n

-- The lower file of private data; 0 is NULL, and also what is said where there are none.
abbrev pub lower_of_info : Option FileInfo → ℕ
lower_of_info none = 0
lower_of_info (some i) = i.lower_file

-- The references to lower files after it: an open that succeeds keeps one, which the release gives back,
-- if the file has it yet.
abbrev pub lower_files_after : {W : Type 0} → State W → Request → ℤ → ℕ
lower_files_after s (open_file node f) e = if is_error e then s.lower_files else s.lower_files + 1
lower_files_after s (release f) e =
    if lower_of_info (s.file_info f) == 0 then s.lower_files else s.lower_files - 1
lower_files_after s _ e = s.lower_files

pub record IsBalanced {W : Type 0} (n m : ℕ) (s s' : State W) : Type 0 where
  pub live : s'.live ≡ n
  pub lower_files : s'.lower_files ≡ m
  pub refs : s'.refs ≡ s.refs
  pub locks : s'.locks ≡ s.locks
  pub files : s'.files ≡ s.files
  pub kernel_ds : s'.kernel_ds ≡ s.kernel_ds
  pub sb : s'.sb ≡ record (s.sb) { record_id = s'.sb.record_id }

module _ {W : Type 0} (k : Kernel W) (s s' : State W) (e : ℤ) where
  -- Whatever the kernel does, if a request returns, its handler has given back every reference, lock,
  -- open trace file and address limit that it took, has as many blocks from `kmalloc` as before, but for
  -- the private data of a file, which a successful open keeps and a release frees, and as many references
  -- to lower files, but for that of the private data, and has changed nothing of the superblock but the
  -- record id.
  pub serve-IsBalanced :
      (r : Request)
      → serve k r s ≡ ok (e, s')
      → IsBalanced (live_after r e s.live) (lower_files_after s r e) s s'
  unfolding trfs_open trfs_read trfs_write trfs_file_release trfs_create trfs_link trfs_unlink
      trfs_symlink trfs_mkdir trfs_rmdir trfs_mknod trfs_rename
  serve-IsBalanced (open_file node f) h = record {
    live = grind (arith, trace_if_set_shape k);
    lower_files = grind (arith, trace_if_set_shape k);
    refs = grind (arith, trace_if_set_shape k);
    locks = grind (arith, trace_if_set_shape k);
    files = grind (arith, trace_if_set_shape k);
    kernel_ds = grind (arith, trace_if_set_shape k);
    sb = grind (arith, trace_if_set_shape k);
  }
  serve-IsBalanced (release f) h = grind (arith, trace_if_set_shape k)
  serve-IsBalanced (read f n) h = grind (arith, trace_if_set_shape k)
  serve-IsBalanced (write f buf) h = grind (arith, trace_if_set_shape k)
  serve-IsBalanced (create dir d mode excl) h =
      grind (arith, trace_if_set_shape k, trfs_interpose_shape k)
  serve-IsBalanced (link old dir new) h =
      grind (arith, trace_if_set_shape k, trfs_interpose_shape k)
  serve-IsBalanced (unlink dir d) h = grind (arith, trace_if_set_shape k)
  serve-IsBalanced (symlink dir d name) h =
      grind (arith, trace_if_set_shape k, trfs_interpose_shape k)
  serve-IsBalanced (mkdir dir d mode) h =
      grind (arith, trace_if_set_shape k, trfs_interpose_shape k)
  serve-IsBalanced (rmdir dir d) h = grind (arith, trace_if_set_shape k)
  serve-IsBalanced (mknod dir d mode dev) h =
      grind (arith, trace_if_set_shape k, trfs_interpose_shape k)
  serve-IsBalanced (rename old_dir old new_dir new) h = grind (arith, trace_if_set_shape k)
