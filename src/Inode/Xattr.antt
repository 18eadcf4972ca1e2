-- ===== src/Inode/Xattr.antt =====
-- The operations on extended attributes of fs/trfs/inode.c. A NULL `i_op` is dereferenced by all but
-- `trfs_removexattr`, which tests it.
use trfs_stackable_filesyste.Common.{ℕ, Bool, true, false, not, ◌||◌, List, ℤ, is_error}
use trfs_stackable_filesyste.Errno.{eopnotsupp, einval}
use trfs_stackable_filesyste.Kernel.{
  Dentry, d_inode, Iop, setxattr_op, getxattr_op, listxattr_op, removexattr_op, Call, vfs_setxattr,
  vfs_getxattr, vfs_listxattr, vfs_removexattr, Effect, copy_attr_atime, copy_attr_all, Kernel, ok,
  oops, M, branch, pure, ◌>>=◌, ◌>>◌, when, read_state, trfs_get_lower_path, put_ref, call, effect,
}

module _ {W : Type 0} (k : Kernel W) where
  -- `!d_inode(lower_dentry)->i_op->…`
  abbrev lacks : Iop → Dentry → M W Bool
  lacks op d s = elim (k.has_i_op d s.world) [
    | true ↦ ok (not (k.has_iop op d s.world), s)
    | false ↦ oops
  ]

  -- The lower call and, after a success, the copy of attributes.
  abbrev call_copying : Call → Effect → M W ℤ
  call_copying c copy_attr = do
    err ← call k c
    when (not (is_error err)) (effect k copy_attr)
    pure err

  unfoldable pub trfs_setxattr : Dentry → List ℕ → List ℕ → ℕ → M W ℤ
  trfs_setxattr dentry name value flags = do
    lower_path ← trfs_get_lower_path dentry
    missing ← lacks setxattr_op lower_path.dentry
    err ← branch missing (pure eopnotsupp) (
        call_copying (vfs_setxattr lower_path.dentry name value flags)
          (copy_attr_all (d_inode dentry) (d_inode lower_path.dentry)))
    put_ref
    pure err

  unfoldable pub trfs_getxattr : Dentry → List ℕ → ℕ → M W ℤ
  trfs_getxattr dentry name size = do
    lower_path ← trfs_get_lower_path dentry
    missing ← lacks getxattr_op lower_path.dentry
    err ← branch missing (pure eopnotsupp) (
        call_copying (vfs_getxattr lower_path.dentry name size)
          (copy_attr_atime (d_inode dentry) (d_inode lower_path.dentry)))
    put_ref
    pure err

  unfoldable pub trfs_listxattr : Dentry → ℕ → M W ℤ
  trfs_listxattr dentry size = do
    lower_path ← trfs_get_lower_path dentry
    missing ← lacks listxattr_op lower_path.dentry
    err ← branch missing (pure eopnotsupp) (
        call_copying (vfs_listxattr lower_path.dentry size)
          (copy_attr_atime (d_inode dentry) (d_inode lower_path.dentry)))
    put_ref
    pure err

  unfoldable pub trfs_removexattr : Dentry → List ℕ → M W ℤ
  trfs_removexattr dentry name = do
    lower_path ← trfs_get_lower_path dentry
    s ← read_state
    err ←
        branch
          (not (k.has_i_op lower_path.dentry s.world)
            || not (k.has_iop removexattr_op lower_path.dentry s.world))
          (pure einval)
          (call_copying (vfs_removexattr lower_path.dentry name)
            (copy_attr_all (d_inode dentry) (d_inode lower_path.dentry)))
    put_ref
    pure err
