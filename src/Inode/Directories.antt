-- ===== src/Inode/Directories.antt =====
-- `trfs_mkdir`, `trfs_rmdir`, `trfs_mknod`, `trfs_rename` of fs/trfs/inode.c.
use trfs_stackable_filesyste.Common.{ℕ, ◌+◌, ◌-◌, Bool, not, ℤ, is_error, ◌==◌}
use trfs_stackable_filesyste.Record.{mkdir_call, rmdir_call, mknod_call, rename_call}
use trfs_stackable_filesyste.Errno.{einval, enotempty}
use trfs_stackable_filesyste.Kernel.{
  Dentry, LowerPath, Inode, inode, d_inode, trfs_lower_inode, vfs_mkdir, vfs_rmdir, vfs_mknod,
  vfs_rename, copy_attr_times, copy_attr_all, copy_inode_size, set_nlink, clear_nlink, d_drop,
  Kernel, ok, M, branch, pure, ◌>>=◌, ◌>>◌, when, kfree, trfs_get_lower_path, put_ref, call, effect,
  lock_parent, unlock_dir, get_parent,
}
use trfs_stackable_filesyste.Lookup.{trfs_interpose}
use trfs_stackable_filesyste.Trace.{nothing, path, trace_if_set}

module _ {W : Type 0} (k : Kernel W) where
  abbrev i_opflags : Inode → M W ℕ
  i_opflags i s = ok (k.i_opflags i s.world, s)

  abbrev i_mode : Inode → M W ℕ
  i_mode i s = ok (k.i_mode i s.world, s)

  abbrev has_inode : Dentry → M W Bool
  has_inode d s = ok (k.has_inode d s.world, s)

  -- The new directory is traced before it is interposed.
  abbrev mkdir_rest : Inode → Dentry → ℕ → LowerPath → Dentry → ℤ → M W (ℕ × ℤ)
  mkdir_rest dir dentry mode lower_path lower_parent err = do
    open_flags ← i_opflags dir
    blocks ← trace_if_set k mkdir_call open_flags mode err dentry nothing
    err ← trfs_interpose k dentry lower_path
    branch (is_error err) (pure (blocks, err)) (do
      effect k (copy_attr_times dir (trfs_lower_inode dir))
      effect k (copy_inode_size dir (d_inode lower_parent))
      effect k (set_nlink dir (trfs_lower_inode dir))
      pure (blocks, err))

  unfoldable pub trfs_mkdir : Inode → Dentry → ℕ → M W ℤ
  trfs_mkdir dir dentry mode = do
    lower_path ← trfs_get_lower_path dentry
    lower_parent ← lock_parent k lower_path.dentry
    err ← call k (vfs_mkdir (d_inode lower_parent) lower_path.dentry mode)
    (blocks, err) ←
        branch (is_error err) (pure (0, err))
          (mkdir_rest dir dentry mode lower_path lower_parent err)
    unlock_dir
    put_ref
    kfree blocks
    pure err

  abbrev rmdir_rest : Inode → Dentry → Dentry → ℤ → M W (ℕ × ℤ)
  rmdir_rest dir dentry lower_dir err = do
    open_flags ← i_opflags dir
    perm_mode ← i_mode dir
    blocks ← trace_if_set k rmdir_call open_flags perm_mode err dentry nothing
    effect k (d_drop dentry)
    positive ← has_inode dentry
    when positive (effect k (clear_nlink (d_inode dentry)))
    effect k (copy_attr_times dir (d_inode lower_dir))
    effect k (copy_inode_size dir (d_inode lower_dir))
    effect k (set_nlink dir (d_inode lower_dir))
    pure (blocks, err)

  unfoldable pub trfs_rmdir : Inode → Dentry → M W ℤ
  trfs_rmdir dir dentry = do
    lower_path ← trfs_get_lower_path dentry
    lower_dir ← lock_parent k lower_path.dentry
    err ← call k (vfs_rmdir (d_inode lower_dir) lower_path.dentry)
    (blocks, err) ← branch (is_error err) (pure (0, err)) (rmdir_rest dir dentry lower_dir err)
    unlock_dir
    put_ref
    kfree blocks
    pure err

  -- The device number is logged in place of the flags.
  abbrev mknod_rest : Inode → Dentry → ℕ → ℕ → LowerPath → Dentry → M W (ℕ × ℤ)
  mknod_rest dir dentry mode dev lower_path lower_parent = do
    err ← trfs_interpose k dentry lower_path
    branch (is_error err) (pure (0, err)) (do
      blocks ← trace_if_set k mknod_call dev mode err dentry nothing
      effect k (copy_attr_times dir (trfs_lower_inode dir))
      effect k (copy_inode_size dir (d_inode lower_parent))
      pure (blocks, err))

  unfoldable pub trfs_mknod : Inode → Dentry → ℕ → ℕ → M W ℤ
  trfs_mknod dir dentry mode dev = do
    lower_path ← trfs_get_lower_path dentry
    lower_parent ← lock_parent k lower_path.dentry
    err ← call k (vfs_mknod (d_inode lower_parent) lower_path.dentry mode dev)
    (blocks, err) ←
        branch (is_error err) (pure (0, err))
          (mknod_rest dir dentry mode dev lower_path lower_parent)
    unlock_dir
    put_ref
    kfree blocks
    pure err

  -- `lock_rename` and `unlock_rename` of the two parents, as one lock.
  abbrev lock_rename : Dentry → Dentry → M W Dentry
  lock_rename a b s = ok (
    (k.lock_rename a b s.world).0,
    record s { locks = s.locks + 1; world = (k.lock_rename a b s.world).1 },
  )

  abbrev unlock_rename : M W (Unit {0})
  unlock_rename s = ok (tt, record s { locks = s.locks - 1 })

  abbrev rename_rest : ℕ → Dentry → ℕ → Dentry → Dentry → Dentry → ℤ → M W (ℕ × ℤ)
  rename_rest old_dir old_dentry new_dir new_dentry lower_old_dir lower_new_dir err = do
    blocks ← trace_if_set k rename_call 0 0 err old_dentry (path new_dentry)
    effect k (copy_attr_all (inode new_dir) (d_inode lower_new_dir))
    effect k (copy_inode_size (inode new_dir) (d_inode lower_new_dir))
    when (not (new_dir == old_dir)) (do
      effect k (copy_attr_all (inode old_dir) (d_inode lower_old_dir))
      effect k (copy_inode_size (inode old_dir) (d_inode lower_old_dir)))
    pure (blocks, err)

  -- From the comparison with the dentry that `lock_rename` returned.
  abbrev rename_locked :
      ℕ → Dentry → ℕ → Dentry → Dentry → Dentry → Dentry → Dentry → Dentry → M W (ℕ × ℤ)
  rename_locked old_dir old_dentry new_dir new_dentry lower_old lower_new lower_old_dir
        lower_new_dir trap =
      branch (trap == lower_old) (pure (0, einval)) (
        branch (trap == lower_new) (pure (0, enotempty)) (do
          err ←
              call k
                (vfs_rename (d_inode lower_old_dir) lower_old (d_inode lower_new_dir) lower_new)
          branch (is_error err) (pure (0, err))
              (rename_rest old_dir old_dentry new_dir new_dentry lower_old_dir lower_new_dir err)))

  unfoldable pub trfs_rename : ℕ → Dentry → ℕ → Dentry → M W ℤ
  trfs_rename old_dir old_dentry new_dir new_dentry = do
    lower_old ← trfs_get_lower_path old_dentry
    lower_new ← trfs_get_lower_path new_dentry
    lower_old_dir ← get_parent k lower_old.dentry
    lower_new_dir ← get_parent k lower_new.dentry
    trap ← lock_rename lower_old_dir lower_new_dir
    (blocks, err) ←
        rename_locked old_dir old_dentry new_dir new_dentry lower_old.dentry lower_new.dentry
          lower_old_dir lower_new_dir trap
    unlock_rename
    put_ref
    put_ref
    put_ref
    put_ref
    kfree blocks
    pure err
