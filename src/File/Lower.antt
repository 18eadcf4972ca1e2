-- ===== src/File/Lower.antt =====
-- The operations on open files of fs/trfs/file.c that are not traced: each is passed on to the lower
-- file. Three of them are of fs/trfs/mmap.c.
pub mod Laws
use trfs_stackable_filesyste.Common.{
  ℕ, Bool, not, ◌&&◌, ◌||◌, none, some, ℤ, pos, is_negative, is_error, eqb_ℤ, bits32, int32, ◌==◌,
}
use trfs_stackable_filesyste.Errno.{einval, enotty, eiocbqueued}
use trfs_stackable_filesyste.Kernel.{
  File, d_inode, file_inode, Fop, compat_ioctl_op, mmap_op, flush_op, fasync_op, read_iter_op,
  write_iter_op, compat_ioctl, iterate_dir, mmap, flush, generic_file_fsync, vfs_fsync_range,
  fasync, read_iter, write_iter, fault, page_mkwrite, copy_attr_atime, copy_attr_times,
  copy_inode_size, set_f_pos, filemap_write_and_wait, file_accessed, set_vm_ops, set_file_aops,
  set_ki_filp, Kernel, ok, oops, M, branch, pure, ◌>>=◌, ◌>>◌, when, read_state,
  trfs_get_lower_path, put_ref, get_lower_file, put_lower_file, trfs_lower_file, live_lower_file,
  call, effect,
}
use trfs_stackable_filesyste.File.{update}

module _ {W : Type 0} (k : Kernel W) where
  abbrev has_f_op : File → M W Bool
  has_f_op f s = ok (k.has_f_op f s.world, s)

  abbrev has_fop : Fop → File → M W Bool
  has_fop o f s = ok (k.has_fop o f s.world, s)

  unfoldable pub trfs_readdir : File → M W ℤ
  trfs_readdir file = do
    lower_file ← live_lower_file file
    err ← call k (iterate_dir lower_file)
    effect k (set_f_pos file lower_file)
    when (not (is_negative err))
        (effect k (copy_attr_atime (d_inode (k.f_dentry file)) (file_inode lower_file)))
    pure err

  unfoldable pub trfs_compat_ioctl : File → ℕ → ℕ → M W ℤ
  trfs_compat_ioctl file cmd arg = do
    lower_file ← trfs_lower_file file
    f_op ← has_f_op lower_file
    op ← has_fop compat_ioctl_op lower_file
    branch (not (lower_file == 0) && (f_op && op)) (call k (compat_ioctl lower_file cmd arg))
        (pure enotty)

  -- `TRFS_F(file)->lower_vm_ops`
  abbrev lower_vm_ops : File → M W ℕ
  lower_vm_ops file s = elim (s.file_info file) [ none ↦ oops | some i ↦ ok (i.lower_vm_ops, s) ]

  abbrev set_lower_vm_ops : File → ℕ → M W (Unit {0})
  set_lower_vm_ops file ops s = elim (s.file_info file) [
    | none ↦ oops
    | some i ↦ ok (
      tt,
      record s { file_info = update s.file_info file (some (record i { lower_vm_ops = ops })) },
    )
  ]

  -- `lower_file->f_op->mmap(…)`, which is not tested for NULL.
  abbrev lower_mmap : File → ℕ → M W ℤ
  lower_mmap lower_file vma = do
    op ← has_fop mmap_op lower_file
    branch (not (lower_file == 0) && op) (call k (mmap lower_file vma)) (λ s. oops)

  -- The three assignments at the end of a successful `trfs_mmap`.
  abbrev mmap_done : File → ℕ → M W (Unit {0})
  mmap_done file vma = do
    effect k (file_accessed file)
    effect k (set_vm_ops vma)
    effect k (set_file_aops file)

  -- `willwrite` says if `vma` is shared and writeable.
  unfoldable pub trfs_mmap : File → ℕ → Bool → M W ℤ
  trfs_mmap file vma willwrite = do
    lower_file ← trfs_lower_file file
    s ← read_state
    old_ops ← lower_vm_ops file
    when (willwrite && lower_file == 0) (λ s. oops)
    branch (willwrite && not (k.writepage lower_file s.world)) (pure einval) (
        branch (not (old_ops == 0)) (do mmap_done file vma; pure (pos 0))
          (do
            err ← lower_mmap lower_file vma
            s1 ← read_state
            branch (is_error err) (pure err)
                (do mmap_done file vma; set_lower_vm_ops file (k.vm_ops vma s1.world); pure err)))

  unfoldable pub trfs_flush : File → ℕ → M W ℤ
  trfs_flush file id = do
    lower_file ← trfs_lower_file file
    f_op ← has_f_op lower_file
    op ← has_fop flush_op lower_file
    branch (not (lower_file == 0) && (f_op && op))
        (do effect k (filemap_write_and_wait file); call k (flush lower_file id)) (pure (pos 0))

  unfoldable pub trfs_fsync : File → ℕ → ℕ → ℕ → M W ℤ
  trfs_fsync file start end datasync = do
    err ← call k (generic_file_fsync file start end datasync)
    branch (is_error err) (pure err) (do
      lower_file ← live_lower_file file
      lower_path ← trfs_get_lower_path (k.f_dentry file)
      err ← call k (vfs_fsync_range lower_file start end datasync)
      put_ref
      pure err)

  unfoldable pub trfs_fasync : ℕ → File → ℕ → M W ℤ
  trfs_fasync fd file flag = do
    lower_file ← live_lower_file file
    f_op ← has_f_op lower_file
    op ← has_fop fasync_op lower_file
    branch (f_op && op) (call k (fasync fd lower_file flag)) (pure (pos 0))

  -- `err = generic_file_llseek(…)`: a `loff_t` goes to an `int`.
  abbrev llseek : File → ℤ → ℕ → M W ℤ
  llseek file offset whence s = ok (
    int32 (bits32 (k.generic_file_llseek file offset whence s.world).0),
    record s { world = (k.generic_file_llseek file offset whence s.world).1 },
  )

  unfoldable pub trfs_file_llseek : File → ℤ → ℕ → M W ℤ
  trfs_file_llseek file offset whence = do
    err ← llseek file offset whence
    branch (is_negative err) (pure err)
        (do lower_file ← live_lower_file file; llseek lower_file offset whence)

  -- The reference to the lower file is taken and given back around the call.
  unfoldable pub trfs_read_iter : File → ℕ → M W ℤ
  trfs_read_iter file iocb = do
    lower_file ← live_lower_file file
    op ← has_fop read_iter_op lower_file
    branch (not op) (pure einval) (do
      get_lower_file k
      effect k (set_ki_filp iocb lower_file)
      err ← call k (read_iter lower_file iocb)
      effect k (set_ki_filp iocb file)
      put_lower_file k lower_file
      when (not (is_negative err) || eqb_ℤ err eiocbqueued)
          (effect k (copy_attr_atime (d_inode (k.f_dentry file)) (file_inode lower_file)))
      pure err)

  unfoldable pub trfs_write_iter : File → ℕ → M W ℤ
  trfs_write_iter file iocb = do
    lower_file ← live_lower_file file
    op ← has_fop write_iter_op lower_file
    branch (not op) (pure einval) (do
      get_lower_file k
      effect k (set_ki_filp iocb lower_file)
      err ← call k (write_iter lower_file iocb)
      effect k (set_ki_filp iocb file)
      put_lower_file k lower_file
      when (not (is_negative err) || eqb_ℤ err eiocbqueued) (do
        effect k (copy_inode_size (d_inode (k.f_dentry file)) (file_inode lower_file))
        effect k (copy_attr_times (d_inode (k.f_dentry file)) (file_inode lower_file)))
      pure err)

  -- `lower_vm_ops->fault(…)`, which is not tested for NULL.
  abbrev lower_fault : ℕ → File → M W ℤ
  lower_fault ops lower_file = do
    s ← read_state
    branch (k.has_fault ops s.world) (call k (fault ops lower_file)) (λ s. oops)

  -- `BUG_ON(!lower_vm_ops)` stops the task.
  unfoldable pub trfs_fault : File → M W ℤ
  trfs_fault file = do
    ops ← lower_vm_ops file
    lower_file ← trfs_lower_file file
    branch (ops == 0) (λ s. oops) (lower_fault ops lower_file)

  unfoldable pub trfs_page_mkwrite : File → M W ℤ
  trfs_page_mkwrite file = do
    ops ← lower_vm_ops file
    s ← read_state
    branch (ops == 0) (λ s. oops)
        (branch (not (k.has_page_mkwrite ops s.world)) (pure (pos 0))
          (do lower_file ← trfs_lower_file file; call k (page_mkwrite ops lower_file)))

-- An operation of the address space, which is there to be found, not to be called.
unfoldable pub trfs_direct_io : {W : Type 0} → ℕ → ℕ → ℤ → M W ℤ
trfs_direct_io iocb iter offset = pure einval
