-- ===== src/Session/History.antt =====
-- Requests served one after the other since the mount, and the log that they leave.
use trfs_stackable_filesyste.Common.{ℕ, ◌<◌, ◌^◌, ◌≡◌, ◌≢◌, true, some, ℤ, IsInt32, length}
use trfs_stackable_filesyste.Kernel.{Dentry, inode, vfs_write, FileInfo, Kernel, State, ok}
use trfs_stackable_filesyste.Tracing.{Tracing, Placing, Typed}
use trfs_stackable_filesyste.Trace.{Second, nothing, path, text, content}
use trfs_stackable_filesyste.Session.{
  Request, open_file, read, write, release, create, link, unlink, symlink, mkdir, rmdir, mknod,
  rename, serve, call_number,
}
use trfs_stackable_filesyste.Session.Logged.{Logged, PathFits, PartFits, Quiet}
use trfs_stackable_filesyste.Session.Logged.Handles.{trfs_open-Logged, trfs_file_release-Logged}
use trfs_stackable_filesyste.Session.Logged.Transfers.{trfs_read-Logged, trfs_write-Logged}
use trfs_stackable_filesyste.Session.Logged.Files.{trfs_create-Logged, trfs_unlink-Logged}
use trfs_stackable_filesyste.Session.Logged.Links.{trfs_link-Logged, trfs_symlink-Logged}
use trfs_stackable_filesyste.Session.Logged.Directories.{trfs_mkdir-Logged, trfs_rmdir-Logged}
use trfs_stackable_filesyste.Session.Logged.Nodes.{trfs_mknod-Logged, trfs_rename-Logged}

-- What a request's entry is about.
abbrev pub subject : {W : Type 0} → Kernel W → Request → Dentry
subject k (open_file node f) = k.f_dentry f
subject k (read f n) = k.f_dentry f
subject k (write f buf) = k.f_dentry f
subject k (release f) = k.f_dentry f
subject k (create dir d mode excl) = d
subject k (link old dir new) = old
subject k (unlink dir d) = d
subject k (symlink dir d name) = d
subject k (mkdir dir d mode) = d
subject k (rmdir dir d) = d
subject k (mknod dir d mode dev) = d
subject k (rename old_dir old new_dir new) = old

abbrev pub second_part : Request → Second
second_part (write f buf) = content buf
second_part (link old dir new) = path new
second_part (symlink dir d name) = text name
second_part (rename old_dir old new_dir new) = path new
second_part _ = nothing

abbrev pub HasInfo : {W : Type 0} → State W → ℕ → Type 0
HasInfo s f = (i : FileInfo) × (s.file_info f ≡ some i)

-- The file has private data with a lower file.
abbrev pub HasLower : {W : Type 0} → State W → ℕ → Type 0
HasLower s f = (i : FileInfo) × (s.file_info f ≡ some i) × (i.lower_file ≢ 0)

-- The dentry has private data.
abbrev pub HasPath : {W : Type 0} → State W → Dentry → Type 0
HasPath s d = s.d_fsdata d ≡ true

-- A request that the handlers can log: dentries and open files have their private data, paths and names
-- fit, modes and devices have their C types, a lower write succeeds with at most what it was given, and a
-- lower link makes its new dentry positive.
abbrev pub Ready : {W : Type 0} (k : Kernel W) (T : Tracing k) → State W → Request → Type 0
Ready k T s (open_file node f) = HasPath s (k.f_dentry f) × PathFits k T (k.f_dentry f)
Ready k T s (read f n) = HasLower s f × PathFits k T (k.f_dentry f)
Ready k T s (write f buf) =
    (i : FileInfo) × (s.file_info f ≡ some i)
    × (i.lower_file ≢ 0)
    × PathFits k T (k.f_dentry f)
    × PartFits k T (k.call (vfs_write i.lower_file buf) s.world).0 (content buf)
Ready k T s (release f) = HasInfo s f × PathFits k T (k.f_dentry f)
Ready k T s (create dir d mode excl) = HasPath s d × PathFits k T d × (mode < 2 ^ 16)
Ready {W} k T s (link old dir new) =
    HasPath s old
    × HasPath s new
    × PathFits k T old
    × PathFits k T new
    × ((w : W) → k.has_inode (s.lower_path new).dentry w ≡ true)
Ready k T s (unlink dir d) = HasPath s d × PathFits k T d
Ready k T s (symlink dir d name) = HasPath s d × PathFits k T d × (length name < 2 ^ 15)
Ready k T s (mkdir dir d mode) = HasPath s d × PathFits k T d × (mode < 2 ^ 16)
Ready k T s (rmdir dir d) = HasPath s d × PathFits k T d
Ready k T s (mknod dir d mode dev) = HasPath s d × PathFits k T d × (mode < 2 ^ 16) × (dev < 2 ^ 32)
Ready k T s (rename old_dir old new_dir new) =
    HasPath s old × HasPath s new × PathFits k T old × PathFits k T new

module _ {W : Type 0} (k : Kernel W) (T : Tracing k) (P : Placing T) (C : Typed k) where
  pub serve-Logged :
      (r : Request) (s s' : State W) (e : ℤ)
      → s.sb.tfile_path ≡ T.trace_path
      → Ready k T s r
      → IsInt32 s.sb.record_id
      → serve k r s ≡ ok (e, s')
      → Logged T s.sb.mask
          (Quiet s (call_number r) e)
          (call_number r)
          (subject k r)
          (second_part r)
          s.world
          e
          (T.tfile s.world)
          (T.tfile s'.world)
          s.sb.record_id
          s'.sb.record_id
  serve-Logged (open_file node f) s s' e tp (g, l) =
      trfs_open-Logged k T P C (inode node) f s s' e tp l
  serve-Logged (read f n) s s' e tp ((i, hi, g), l) = trfs_read-Logged k T P C f n i s s' e hi tp l
  serve-Logged (write f buf) s s' e tp (i, hi, g, l, p) =
      trfs_write-Logged k T P C f buf i s s' e hi tp l p
  serve-Logged (release f) s s' e tp ((i, hi), l) =
      trfs_file_release-Logged k T P C f i s s' e hi tp l
  serve-Logged (create dir d mode excl) s s' e tp (g, l, m) =
      trfs_create-Logged k T P C (inode dir) d mode excl s s' e tp l m
  serve-Logged (link old dir new) s s' e tp (g, g2, l, m, p) =
      trfs_link-Logged k T P C old (inode dir) new s s' e tp l m p
  serve-Logged (unlink dir d) s s' e tp (g, l) =
      trfs_unlink-Logged k T P C (inode dir) d s s' e tp l
  serve-Logged (symlink dir d name) s s' e tp (g, l, m) =
      trfs_symlink-Logged k T P C (inode dir) d name s s' e tp l m
  serve-Logged (mkdir dir d mode) s s' e tp (g, l, m) =
      trfs_mkdir-Logged k T P C (inode dir) d mode s s' e tp l m
  serve-Logged (rmdir dir d) s s' e tp (g, l) = trfs_rmdir-Logged k T P C (inode dir) d s s' e tp l
  serve-Logged (mknod dir d mode dev) s s' e tp (g, l, m, v) =
      trfs_mknod-Logged k T P C (inode dir) d mode dev s s' e tp l m v
  serve-Logged (rename old_dir old new_dir new) s s' e tp (g, g2, l, m) =
      trfs_rename-Logged k T P C old_dir old new_dir new s s' e tp l m
