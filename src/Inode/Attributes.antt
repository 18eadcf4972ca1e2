-- ===== src/Inode/Attributes.antt =====
-- The untraced operations on attributes and symbolic links of fs/trfs/inode.c: `trfs_readlink`,
-- `trfs_get_link`, `trfs_permission`, `trfs_setattr`, `trfs_getattr`; and `trfs_statfs` of
-- fs/trfs/super.c.
pub mod Parts
use trfs_stackable_filesyste.Common.{
  ℕ, ◌+◌, ◌-◌, Bool, true, false, not, ◌||◌, none, some, ℤ, pos, negsuc, ltb, is_negative, is_error,
  ◌==◌, if◌then◌else◌,
}
use trfs_stackable_filesyste.Errno.{echild, enomem, einval}
use trfs_stackable_filesyste.Kernel.{
  Dentry, Inode, d_inode, trfs_lower_inode, ErrPtr, ptr, err_ptr, Iattr, readlink_op, readlink,
  inode_permission, inode_change_ok, inode_newsize_ok, notify_change, vfs_getattr, vfs_statfs,
  copy_attr_atime, copy_attr_all, truncate_setsize, generic_fillattr, set_f_type, Kernel, ok, oops,
  M, branch, pure, ◌>>=◌, ◌>>◌, when, read_state, kfree, set_fs, trfs_get_lower_path, put_ref,
  trfs_lower_file, call, effect,
}

module _ {W : Type 0} (k : Kernel W) where
  unfoldable pub trfs_readlink : Dentry → ℕ → M W ℤ
  trfs_readlink dentry bufsiz = do
    lower_path ← trfs_get_lower_path dentry
    s ← read_state
    err ←
        branch
          (not (k.has_i_op lower_path.dentry s.world)
            || not (k.has_iop readlink_op lower_path.dentry s.world))
          (pure einval)
          (do
            err ← call k (readlink lower_path.dentry bufsiz)
            when (not (is_negative err))
                (effect k (copy_attr_atime (d_inode dentry) (d_inode lower_path.dentry)))
            pure err)
    put_ref
    pure err

  -- `kmalloc(PAGE_SIZE, GFP_KERNEL)`, and whether it gave a block, which is in use then.
  abbrev page : M W Bool
  page s = elim (k.kmalloc 4096 s.world).0 [
    | none ↦ ok (false, record s { world = (k.kmalloc 4096 s.world).1 })
    | some block ↦ ok (true, record s { live = s.live + 1; world = (k.kmalloc 4096 s.world).1 })
  ]

  -- `buf[err] = '\0'`: a write behind the block of a page counts as the use of an invalid pointer.
  abbrev terminate : ℤ → M W ErrPtr
  terminate (pos n) s = elim (ltb n 4096) [ true ↦ ok (ptr 1, s) | false ↦ oops ]
  terminate (negsuc n) s = oops

  abbrev with_page : Dentry → M W ErrPtr
  with_page dentry = do
    s ← read_state
    set_fs true
    err ← trfs_readlink dentry 4096
    set_fs s.kernel_ds
    branch (is_negative err) (do kfree 1; pure (err_ptr err)) (terminate err)

  -- A block that is returned, `ptr 1`, is freed by the delayed call. 0 is the NULL dentry.
  unfoldable pub trfs_get_link : Dentry → M W ErrPtr
  trfs_get_link dentry =
      branch (dentry == 0) (pure (err_ptr echild))
        (do block ← page; branch block (with_page dentry) (pure (err_ptr enomem)))

  unfoldable pub trfs_permission : Inode → ℕ → M W ℤ
  trfs_permission upper mask = call k (inode_permission (trfs_lower_inode upper) mask)

  -- `ia_file` is the lower file of the given one, if it is given.
  abbrev pub lower_iattr : Iattr → M W Iattr
  lower_iattr ia =
      branch ia.attr_file
        (do lower_file ← trfs_lower_file ia.ia_file; pure (record ia { ia_file = lower_file }))
        (pure ia)

  -- Set-user-id and set-group-id bits are cleared instead of a change of the mode.
  abbrev pub without_mode : Iattr → Iattr
  without_mode ia = if ia.kill_suid || ia.kill_sgid then record ia { attr_mode = false } else ia

  -- `inode_newsize_ok` and the truncation above.
  unfoldable pub resize : Inode → Iattr → M W ℤ
  resize upper ia =
      branch ia.attr_size
        (do
          err ← call k (inode_newsize_ok upper ia.ia_size)
          when (not (is_error err)) (effect k (truncate_setsize upper ia.ia_size))
          pure err)
        (pure (pos 0))

  abbrev inode_lock : M W (Unit {0})
  inode_lock s = ok (tt, record s { locks = s.locks + 1 })

  abbrev inode_unlock : M W (Unit {0})
  inode_unlock s = ok (tt, record s { locks = s.locks - 1 })

  unfoldable pub change_lower : Inode → Dentry → Iattr → M W ℤ
  change_lower upper lower_dentry ia = do
    inode_lock
    err ← call k (notify_change lower_dentry ia)
    inode_unlock
    when (not (is_error err)) (effect k (copy_attr_all upper (trfs_lower_inode upper)))
    pure err

  unfoldable pub trfs_setattr : Dentry → Iattr → M W ℤ
  trfs_setattr dentry ia = do
    let upper = d_inode dentry
    err ← call k (inode_change_ok upper ia)
    branch (is_error err) (pure err) (do
      lower_path ← trfs_get_lower_path dentry
      lower_ia ← lower_iattr ia
      err ← resize upper ia
      err ←
          branch (is_error err) (pure err)
            (change_lower upper lower_path.dentry (without_mode lower_ia))
      put_ref
      pure err)

  unfoldable pub trfs_getattr : Dentry → M W ℤ
  trfs_getattr dentry = do
    lower_path ← trfs_get_lower_path dentry
    err ← call k (vfs_getattr lower_path)
    when (not (is_error err)) (do
      effect k (copy_attr_all (d_inode dentry) (d_inode lower_path.dentry))
      effect k (generic_fillattr (d_inode dentry)))
    put_ref
    pure err

  unfoldable pub trfs_statfs : Dentry → M W ℤ
  trfs_statfs dentry = do
    lower_path ← trfs_get_lower_path dentry
    err ← call k (vfs_statfs lower_path)
    put_ref
    effect k set_f_type
    pure err
