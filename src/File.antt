-- ===== src/File.antt =====
-- The traced operations on open files, of fs/trfs/file.c.
pub mod Lower
use trfs_stackable_filesyste.Common.{
  ℕ, ◌+◌, ◌-◌, Bool, true, false, not, none, some, List, ℤ, pos, negsuc, is_negative, is_error,
  ◌==◌, if◌then◌else◌,
}
use trfs_stackable_filesyste.Errno.{enoent, enomem}
use trfs_stackable_filesyste.Record.{open_call, read_call, write_call, release_call}
use trfs_stackable_filesyste.Kernel.{
  File, LowerPath, Inode, d_inode, file_inode, trfs_lower_inode, ErrPtr, ptr, err_ptr, vfs_read,
  vfs_write, copy_attr_atime, copy_attr_times, copy_attr_all, copy_inode_size, fput, Kernel, ok,
  oops, M, branch, pure, ◌>>=◌, ◌>>◌, when, read_state, kfree, trfs_get_lower_path, put_ref,
  trfs_lower_file, live_lower_file, call, effect, put_lower_file,
}
use trfs_stackable_filesyste.Trace.{nothing, content, trace_if_set}

abbrev pub update : {A : Type 0} → (File → A) → File → A → File → A
update f p v q = if p == q then v else f q

-- What `IS_ERR` does not take for an error is a file, with a reference to it.
abbrev pub references : ErrPtr → ℕ
references (ptr lower_file) = 1
references (err_ptr e) = if is_error e then 0 else 1

module _ {W : Type 0} (k : Kernel W) where
  abbrev i_opflags : Inode → M W ℕ
  i_opflags i s = ok (k.i_opflags i s.world, s)

  abbrev i_mode : Inode → M W ℕ
  i_mode i s = ok (k.i_mode i s.world, s)

  -- `trfs_read`. The buffer that is read into is the caller's, and part of the kernel's world.
  unfoldable pub trfs_read : File → ℕ → M W ℤ
  trfs_read file count = do
    let dentry = k.f_dentry file
    lower_file ← live_lower_file file
    err ← call k (vfs_read lower_file count)
    when (not (is_negative err))
        (effect k (copy_attr_atime (d_inode dentry) (file_inode lower_file)))
    open_flags ← i_opflags (d_inode dentry)
    perm_mode ← i_mode (d_inode dentry)
    blocks ← trace_if_set k read_call open_flags perm_mode err dentry nothing
    kfree blocks
    pure err

  -- `trfs_write`, of the bytes `buf`.
  unfoldable pub trfs_write : File → List ℕ → M W ℤ
  trfs_write file buf = do
    let dentry = k.f_dentry file
    lower_file ← live_lower_file file
    err ← call k (vfs_write lower_file buf)
    open_flags ← i_opflags (d_inode dentry)
    perm_mode ← i_mode (d_inode dentry)
    blocks ← trace_if_set k write_call open_flags perm_mode err dentry (content buf)
    when (not (is_negative err)) (do
      effect k (copy_inode_size (d_inode dentry) (file_inode lower_file))
      effect k (copy_attr_times (d_inode dentry) (file_inode lower_file)))
    kfree blocks
    pure err

  -- `file->private_data = kzalloc(…)`: NULL, or a block of zeros. The test of the code is the result.
  abbrev alloc_file_info : File → M W Bool
  alloc_file_info file s = elim (k.kmalloc 16 s.world).0 [
    | none ↦ ok (
      false,
      record s { file_info = update s.file_info file none; world = (k.kmalloc 16 s.world).1 },
    )
    | some block ↦ ok (
      true,
      record s {
        file_info = update s.file_info file (some (record { lower_file = 0; lower_vm_ops = 0 }));
        live = s.live + 1;
        world = (k.kmalloc 16 s.world).1;
      },
    )
  ]

  -- `trfs_set_lower_file`
  abbrev trfs_set_lower_file : File → File → M W (Unit {0})
  trfs_set_lower_file file val s = elim (s.file_info file) [
    | none ↦ oops
    | some i ↦ ok (
      tt,
      record s { file_info = update s.file_info file (some (record i { lower_file = val })) },
    )
  ]

  -- `kfree(TRFS_F(file))`
  abbrev free_file_info : File → M W (Unit {0})
  free_file_info file s =
      ok (tt, record s { file_info = update s.file_info file none; live = s.live - 1 })

  abbrev dentry_open : LowerPath → ℕ → M W ErrPtr
  dentry_open p flags s =
      let answer = k.dentry_open p flags s.world in
      ok
        (answer.0, record s { lower_files = s.lower_files + references answer.0; world = answer.1 })

  -- What is done with the lower file, or with the error that came in its place.
  abbrev link_lower_file : File → ErrPtr → M W ℤ
  link_lower_file file (ptr lower_file) = do trfs_set_lower_file file lower_file; pure (pos 0)
  link_lower_file file (err_ptr e) = do
    lower_file ← trfs_lower_file file
    when (not (lower_file == 0)) (do trfs_set_lower_file file 0; put_lower_file k lower_file)
    pure e

  -- `trfs_open`, from the allocation on, for the inode `upper` and its file.
  unfoldable pub open_allocated : Inode → File → M W ℤ
  open_allocated upper file = do
    s ← read_state
    let dentry = k.f_dentry file
    lower_path ← trfs_get_lower_path dentry
    opened ← dentry_open lower_path (k.f_flags file s.world)
    put_ref
    err ← link_lower_file file opened
    s1 ← read_state
    perm_mode ← i_mode (d_inode dentry)
    blocks ← trace_if_set k open_call (k.f_flags file s1.world) perm_mode err dentry nothing
    branch (is_error err) (free_file_info file)
        (effect k (copy_attr_all upper (trfs_lower_inode upper)))
    kfree blocks
    pure err

  unfoldable pub trfs_open : Inode → File → M W ℤ
  unfolding open_allocated
  trfs_open upper file s =
      if k.d_unhashed (k.f_dentry file) s.world
      then ok (enoent, s)
      else (alloc_file_info file >>= λ allocated.
            branch allocated (open_allocated upper file) (pure enomem))
          s

  unfoldable pub trfs_file_release : File → M W ℤ
  trfs_file_release file = do
    lower_file ← trfs_lower_file file
    when (not (lower_file == 0)) (do trfs_set_lower_file file 0; put_lower_file k lower_file)
    blocks ← trace_if_set k release_call 0 0 (pos 0) (k.f_dentry file) nothing
    free_file_info file
    kfree blocks
    pure (pos 0)
