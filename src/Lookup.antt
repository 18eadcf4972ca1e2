-- ===== src/Lookup.antt =====
-- Interposition, of fs/trfs/lookup.c: `trfs_iget`, `__trfs_interpose`, `trfs_interpose`.
pub mod Shape
pub mod Total
pub mod Inodes
pub mod Dentries
pub mod Names
pub mod Balance
pub mod Laws
use trfs_stackable_filesyste.Common.{
  ℕ, ◌/◌, ◌%◌, ◌^◌, Bool, true, false, ◌||◌, ℤ, negsuc, int32, ◌==◌, if◌then◌else◌,
}
use trfs_stackable_filesyste.Errno.{eacces, exdev, estale}
use trfs_stackable_filesyste.Kernel.{
  Dentry, LowerPath, Inode, inode, d_inode, ErrPtr, ptr, err_ptr, Iget, missing, cached, fresh, Ops,
  trfs_dir_iops, trfs_symlink_iops, trfs_main_iops, trfs_dir_fops, trfs_main_fops, Effect,
  copy_attr_all, copy_inode_size, iput, set_ino, set_lower_inode, bump_version, set_iop, set_fop,
  set_aops, zero_times, init_special_inode, unlock_new_inode, Kernel, State, ok, M, branch, pure,
  ◌>>=◌, ◌>>◌, when, effect, read_state,
}

-- `(mode & S_IFMT) == …`: the four bits above the lowest twelve.
abbrev file_type : ℕ → ℕ
file_type mode = mode / 2 ^ 12 % 2 ^ 4

abbrev s_isdir : ℕ → Bool
s_isdir mode = file_type mode == 4

abbrev s_islnk : ℕ → Bool
s_islnk mode = file_type mode == 10

-- Block and character devices, pipes and sockets.
abbrev is_special : ℕ → Bool
is_special mode =
    file_type mode == 6 || (file_type mode == 2 || (file_type mode == 1 || file_type mode == 12))

abbrev iops_for : ℕ → Ops
iops_for mode =
    if s_isdir mode
    then trfs_dir_iops
    else if s_islnk mode
    then trfs_symlink_iops
    else trfs_main_iops

abbrev fops_for : ℕ → Ops
fops_for mode = if s_isdir mode then trfs_dir_fops else trfs_main_fops

module _ {W : Type 0} (k : Kernel W) where
  abbrev iget5_locked : Inode → M W Iget
  iget5_locked i s =
      ok ((k.iget5_locked i s.world).0, record s { world = (k.iget5_locked i s.world).1 })

  abbrev igrab : Inode → M W Bool
  igrab i s = ok ((k.igrab i s.world).0, record s { world = (k.igrab i s.world).1 })

  abbrev i_mode : Inode → M W ℕ
  i_mode i s = ok (k.i_mode i s.world, s)

  abbrev d_splice_alias : ℕ → Dentry → M W ErrPtr
  d_splice_alias i d s =
      ok ((k.d_splice_alias i d s.world).0, record s { world = (k.d_splice_alias i d s.world).1 })

  -- The fields of a new inode, which is `upper` and stands over `lower`.
  unfoldable pub init_inode : Inode → Inode → M W (Unit {0})
  init_inode upper lower = do
    effect k (set_lower_inode upper lower)
    effect k (bump_version upper)
    mode ← i_mode lower
    effect k (set_iop upper (iops_for mode))
    effect k (set_fop upper (fops_for mode))
    effect k (set_aops upper)
    effect k (zero_times upper)
    when (is_special mode) (effect k (init_special_inode upper lower))
    effect k (copy_attr_all upper lower)
    effect k (copy_inode_size upper lower)
    effect k (unlock_new_inode upper)

  abbrev trfs_iget_found : Inode → Iget → M W ErrPtr
  trfs_iget_found lower missing = do effect k (iput lower); pure (err_ptr eacces)
  trfs_iget_found lower (cached i) = pure (ptr i)
  trfs_iget_found lower (fresh i) = do
    effect k (set_ino (inode i) lower)
    grabbed ← igrab lower
    branch grabbed (init_inode (inode i) lower >> pure (ptr i)) (pure (err_ptr estale))

  unfoldable pub trfs_iget : Inode → M W ErrPtr
  unfolding init_inode
  trfs_iget lower = do found ← iget5_locked lower; trfs_iget_found lower found

  abbrev splice : Dentry → ErrPtr → M W ErrPtr
  splice d (ptr i) = d_splice_alias i d
  splice d (err_ptr e) = pure (err_ptr e)

  -- `__trfs_interpose`
  pub interpose : Dentry → LowerPath → M W ErrPtr
  unfolding trfs_iget
  interpose d lower = do
    s ← read_state
    branch (k.i_sb (d_inode lower.dentry) s.world == s.sb.lower_sb)
        (trfs_iget (d_inode lower.dentry) >>= splice d) (pure (err_ptr exdev))

  -- `PTR_ERR` turns a pointer into a number as well.
  abbrev ptr_err : ErrPtr → ℤ
  ptr_err (ptr p) = int32 (p % 2 ^ 32)
  ptr_err (err_ptr e) = e

  pub trfs_interpose : Dentry → LowerPath → M W ℤ
  unfolding interpose
  trfs_interpose d lower = do ret ← interpose d lower; pure (ptr_err ret)
