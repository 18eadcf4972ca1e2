-- ===== src/Inode/Files.antt =====
-- `trfs_create`, `trfs_link`, `trfs_unlink`, `trfs_symlink` of fs/trfs/inode.c. Directories' inodes are given as pointers.
use trfs_stackable_filesyste.Common.{
  ℕ, Bool, not, ◌&&◌, ◌||◌, List, ℤ, pos, eqb_ℤ, is_error, if◌then◌else◌,
}
use trfs_stackable_filesyste.Record.{create_call, link_call, unlink_call, symlink_call}
use trfs_stackable_filesyste.Errno.{ebusy}
use trfs_stackable_filesyste.Kernel.{
  Dentry, LowerPath, Inode, d_inode, trfs_lower_inode, vfs_create, vfs_link, vfs_unlink,
  vfs_symlink, copy_attr_times, copy_inode_size, set_nlink, set_ctime, i_size_write, d_drop, Kernel,
  ok, M, branch, pure, ◌>>=◌, ◌>>◌, kfree, trfs_get_lower_path, put_ref, get_ref, call, effect,
  lock_parent, unlock_dir,
}
use trfs_stackable_filesyste.Lookup.{trfs_interpose}
use trfs_stackable_filesyste.Trace.{nothing, path, text, trace_if_set}

module _ {W : Type 0} (k : Kernel W) where
  abbrev i_opflags : Inode → M W ℕ
  i_opflags i s = ok (k.i_opflags i s.world, s)

  abbrev i_size_read : Inode → M W ℕ
  i_size_read i s = ok (k.i_size_read i s.world, s)

  abbrev has_inode : Dentry → M W Bool
  has_inode d s = ok (k.has_inode d s.world, s)

  abbrev nfs_renamed : Dentry → M W Bool
  nfs_renamed d s = ok (k.nfs_renamed d s.world, s)

  -- The call is traced whether it succeeded or not.
  unfoldable pub trfs_create : Inode → Dentry → ℕ → Bool → M W ℤ
  trfs_create dir dentry mode want_excl = do
    lower_path ← trfs_get_lower_path dentry
    lower_parent ← lock_parent k lower_path.dentry
    err ← call k (vfs_create (d_inode lower_parent) lower_path.dentry mode want_excl)
    open_flags ← i_opflags dir
    blocks ← trace_if_set k create_call open_flags mode err dentry nothing
    err ← branch (is_error err) (pure err) (do
      err ← trfs_interpose k dentry lower_path
      branch (is_error err) (pure err) (do
        effect k (copy_attr_times dir (trfs_lower_inode dir))
        effect k (copy_inode_size dir (d_inode lower_parent))
        pure err))
    unlock_dir
    put_ref
    kfree blocks
    pure err

  -- The other calls are traced only if they succeeded; they give the blocks to free, and the error.
  abbrev link_rest : Dentry → Inode → Dentry → LowerPath → ℕ → M W (ℕ × ℤ)
  link_rest old_dentry dir new_dentry lower_new size = do
    err ← trfs_interpose k new_dentry lower_new
    branch (is_error err) (pure (0, err)) (do
      blocks ← trace_if_set k link_call 0 0 err old_dentry (path new_dentry)
      effect k (copy_attr_times dir (d_inode lower_new.dentry))
      effect k (copy_inode_size dir (d_inode lower_new.dentry))
      effect k (set_nlink (d_inode old_dentry) (trfs_lower_inode (d_inode old_dentry)))
      effect k (i_size_write (d_inode new_dentry) size)
      pure (blocks, err))

  unfoldable pub trfs_link : Dentry → Inode → Dentry → M W ℤ
  trfs_link old_dentry dir new_dentry = do
    file_size_save ← i_size_read (d_inode old_dentry)
    lower_old ← trfs_get_lower_path old_dentry
    lower_new ← trfs_get_lower_path new_dentry
    lower_dir ← lock_parent k lower_new.dentry
    err ← call k (vfs_link lower_old.dentry (d_inode lower_dir) lower_new.dentry)
    positive ← has_inode lower_new.dentry
    (blocks, err) ←
        branch (is_error err || not positive) (pure (0, err))
          (link_rest old_dentry dir new_dentry lower_new file_size_save)
    unlock_dir
    put_ref
    put_ref
    kfree blocks
    pure err

  abbrev unlink_rest : Inode → Dentry → ℤ → M W (ℕ × ℤ)
  unlink_rest dir dentry err = do
    blocks ← trace_if_set k unlink_call 0 0 err dentry nothing
    effect k (copy_attr_times dir (trfs_lower_inode dir))
    effect k (copy_inode_size dir (trfs_lower_inode dir))
    effect k (set_nlink (d_inode dentry) (trfs_lower_inode (d_inode dentry)))
    effect k (set_ctime (d_inode dentry) dir)
    effect k (d_drop dentry)
    pure (blocks, err)

  unfoldable pub trfs_unlink : Inode → Dentry → M W ℤ
  trfs_unlink dir dentry = do
    lower_path ← trfs_get_lower_path dentry
    get_ref
    lower_dir ← lock_parent k lower_path.dentry
    err ← call k (vfs_unlink (trfs_lower_inode dir) lower_path.dentry)
    renamed ← nfs_renamed lower_path.dentry
    let err' = if eqb_ℤ err ebusy && renamed then pos 0 else err
    (blocks, err) ← branch (is_error err') (pure (0, err')) (unlink_rest dir dentry err')
    unlock_dir
    put_ref
    put_ref
    kfree blocks
    pure err

  abbrev symlink_rest : Inode → Dentry → List ℕ → LowerPath → Dentry → M W (ℕ × ℤ)
  symlink_rest dir dentry symname lower_path lower_parent = do
    err ← trfs_interpose k dentry lower_path
    branch (is_error err) (pure (0, err)) (do
      blocks ← trace_if_set k symlink_call 0 0 err dentry (text symname)
      effect k (copy_attr_times dir (trfs_lower_inode dir))
      effect k (copy_inode_size dir (d_inode lower_parent))
      pure (blocks, err))

  unfoldable pub trfs_symlink : Inode → Dentry → List ℕ → M W ℤ
  trfs_symlink dir dentry symname = do
    lower_path ← trfs_get_lower_path dentry
    lower_parent ← lock_parent k lower_path.dentry
    err ← call k (vfs_symlink (d_inode lower_parent) lower_path.dentry symname)
    (blocks, err) ←
        branch (is_error err) (pure (0, err))
          (symlink_rest dir dentry symname lower_path lower_parent)
    unlock_dir
    put_ref
    kfree blocks
    pure err
