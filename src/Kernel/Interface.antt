-- ===== src/Kernel/Interface.antt =====
-- What the handlers of fs/trfs use of the Linux kernel, as a record of operations over an unknown
-- world.
use trfs_stackable_filesyste.Common.{ℕ, ◌≡◌, refl, ◌⊎◌, inl, inr, Bool, Option, List, ℤ}

-- Pointers. 0 is NULL.
abbrev pub Dentry : Type 0
Dentry = ℕ

abbrev pub File : Type 0
File = ℕ

-- `struct path`
pub record LowerPath : Type 0 where
  pub dentry : Dentry
  pub mnt : ℕ

-- How the code names an inode. It is evaluated where it is used, since `d_inode` of a dentry changes.
pub data Inode : Type 0 where
  inode : ℕ → Inode
  d_inode : Dentry → Inode
  file_inode : File → Inode
  trfs_lower_inode : Inode → Inode

-- A pointer or an `ERR_PTR`.
pub data ErrPtr : Type 0 where
  ptr : ℕ → ErrPtr
  err_ptr : ℤ → ErrPtr

pub ErrPtr-cases : (r : ErrPtr) → ((n : ℕ) × (r ≡ ptr n)) ⊎ ((e : ℤ) × (r ≡ err_ptr e))
ErrPtr-cases (ptr n) = inl (n, refl)
ErrPtr-cases (err_ptr e) = inr (e, refl)

-- What `iget5_locked` finds: nothing, an inode in the cache, or one that is new.
pub data Iget : Type 0 where
  missing : Iget
  cached : ℕ → Iget
  fresh : ℕ → Iget

-- What a lookup by path finds: a path, with a reference to it, or an error, which is not 0.
pub data Found : Type 0 where
  found : LowerPath → Found
  not_found : ℤ → Found

pub Found-cases : (r : Found) → ((p : LowerPath) × (r ≡ found p)) ⊎ ((e : ℤ) × (r ≡ not_found e))
Found-cases (found p) = inl (p, refl)
Found-cases (not_found e) = inr (e, refl)

-- `struct iattr`: the bits of `ia_valid` that the code tests, its other bits, and two values.
pub record Iattr : Type 0 where
  pub attr_mode : Bool
  pub attr_size : Bool
  pub attr_file : Bool
  pub kill_suid : Bool
  pub kill_sgid : Bool
  pub others : ℕ
  pub ia_size : ℕ
  pub ia_file : File

-- Operations of a lower inode or a lower file that may be missing.
pub data Iop : Type 0 where
  readlink_op setxattr_op getxattr_op listxattr_op removexattr_op : Iop

pub data Fop : Type 0 where
  compat_ioctl_op mmap_op flush_op fasync_op read_iter_op write_iter_op : Fop

-- Calls that return an `int`, or an `ssize_t` that fits one.
pub data Call : Type 0 where
  vfs_read : File → ℕ → Call
  vfs_write : File → List ℕ → Call
  vfs_create : Inode → Dentry → ℕ → Bool → Call
  vfs_link : Dentry → Inode → Dentry → Call
  vfs_unlink : Inode → Dentry → Call
  vfs_symlink : Inode → Dentry → List ℕ → Call
  vfs_mkdir : Inode → Dentry → ℕ → Call
  vfs_rmdir : Inode → Dentry → Call
  vfs_mknod : Inode → Dentry → ℕ → ℕ → Call
  vfs_rename : Inode → Dentry → Inode → Dentry → Call
  copy_to_user : ℕ → ℕ → Call
  unlocked_ioctl : File → ℕ → ℕ → Call
  compat_ioctl : File → ℕ → ℕ → Call
  readlink : Dentry → ℕ → Call
  inode_permission : Inode → ℕ → Call
  inode_change_ok : Inode → Iattr → Call
  inode_newsize_ok : Inode → ℕ → Call
  notify_change : Dentry → Iattr → Call
  vfs_getattr vfs_statfs : LowerPath → Call
  vfs_setxattr : Dentry → List ℕ → List ℕ → ℕ → Call
  vfs_getxattr : Dentry → List ℕ → ℕ → Call
  vfs_listxattr : Dentry → ℕ → Call
  vfs_removexattr : Dentry → List ℕ → Call
  iterate_dir : File → Call
  mmap : File → ℕ → Call
  flush : File → ℕ → Call
  generic_file_fsync vfs_fsync_range : File → ℕ → ℕ → ℕ → Call
  fasync : ℕ → File → ℕ → Call
  read_iter write_iter : File → ℕ → Call
  -- An operation of the lower mapping, called with the lower file.
  fault page_mkwrite : ℕ → File → Call
  d_revalidate : Dentry → ℕ → Call

-- The tables of operations that `trfs_iget` chooses from.
pub data Ops : Type 0 where
  trfs_dir_iops trfs_symlink_iops trfs_main_iops trfs_dir_fops trfs_main_fops : Ops

-- Calls and assignments that change kernel objects and return nothing that is used.
pub data Effect : Type 0 where
  copy_attr_atime copy_attr_times copy_attr_all copy_inode_size : Inode → Inode → Effect
  -- `set_nlink(a, b->i_nlink)`
  set_nlink : Inode → Inode → Effect
  clear_nlink : Inode → Effect
  -- `a->i_ctime = b->i_ctime`
  set_ctime : Inode → Inode → Effect
  i_size_write : Inode → ℕ → Effect
  d_drop : Dentry → Effect
  fput : File → Effect
  iput : Inode → Effect
  -- `inode->i_ino = lower_inode->i_ino`
  set_ino : Inode → Inode → Effect
  set_lower_inode : Inode → Inode → Effect
  bump_version : Inode → Effect
  set_iop set_fop : Inode → Ops → Effect
  set_aops : Inode → Effect
  zero_times : Inode → Effect
  -- `init_special_inode(inode, lower_inode->i_mode, lower_inode->i_rdev)`
  init_special_inode : Inode → Inode → Effect
  unlock_new_inode : Inode → Effect
  truncate_setsize : Inode → ℕ → Effect
  generic_fillattr : Inode → Effect
  -- `file->f_pos = lower_file->f_pos`
  set_f_pos : File → File → Effect
  filemap_write_and_wait file_accessed : File → Effect
  set_vm_ops : ℕ → Effect
  set_file_aops : File → Effect
  -- `iocb->ki_filp = file`
  set_ki_filp : ℕ → File → Effect
  -- `d_set_d_op(dentry, &trfs_dops)`
  set_d_op : Dentry → Effect
  -- `d_add(dentry, NULL)`
  d_add_negative : Dentry → Effect
  d_rehash : Dentry → Effect
  -- `s_maxbytes`, `s_time_gran`, `s_op` and `s_export_op` of the new superblock.
  init_super : ℕ → Effect
  -- `truncate_inode_pages(&inode->i_data, 0)`
  truncate_inode_pages clear_inode : Inode → Effect
  -- `trfs_set_lower_inode(inode, NULL)`
  clear_lower_inode : Inode → Effect
  umount_begin : ℕ → Effect
  -- The reference that `ilookup` takes.
  hold_inode : Inode → Effect
  -- `memset` of `struct trfs_inode_info` up to its `vfs_inode`, and `i->vfs_inode.i_version = 1`.
  clear_info set_version : Inode → Effect
  inode_init_once : Inode → Effect
  -- `buf->f_type = TRFS_SUPER_MAGIC`
  set_f_type : Effect

pub record Kernel (W : Type 0) : Type 0 where
  -- A block of uninitialised bytes, or NULL.
  pub kmalloc : ℕ → W → Option (List ℕ) × W
  -- The buffer with the path in it and the offset where it starts, or an `ERR_PTR`.
  pub dentry_path_raw : Dentry → List ℕ → W → Option (List ℕ × ℕ)
  -- The trace file, opened with `O_WRONLY|O_CREAT|O_APPEND`, or an `ERR_PTR`.
  pub filp_open : List ℕ → W → Option File × W
  pub filp_close : File → W → W
  -- `vfs_write` on the trace file: the buffer, and the count after its conversion.
  pub trace_write : File → List ℕ → ℤ → W → ℤ × W
  pub call : Call → W → ℤ × W
  pub effect : Effect → W → W
  pub f_dentry : File → Dentry
  pub f_flags : File → W → ℕ
  pub i_opflags : Inode → W → ℕ
  pub i_mode : Inode → W → ℕ
  pub i_size_read : Inode → W → ℕ
  pub i_sb : Inode → W → ℕ
  -- `d_inode(dentry) != NULL`
  pub has_inode : Dentry → W → Bool
  -- `dentry->d_flags & DCACHE_NFSFS_RENAMED`
  pub nfs_renamed : Dentry → W → Bool
  pub d_unhashed : Dentry → W → Bool
  pub dget_parent : Dentry → W → Dentry
  pub lock_rename : Dentry → Dentry → W → Dentry × W
  pub dentry_open : LowerPath → ℕ → W → ErrPtr × W
  -- `file->f_op` and `file->f_op->unlocked_ioctl`
  pub has_f_op : File → W → Bool
  pub has_ioctl : File → W → Bool
  -- `i_op` of a dentry's inode, and one of its operations.
  pub has_i_op : Dentry → W → Bool
  pub has_iop : Iop → Dentry → W → Bool
  pub has_fop : Fop → File → W → Bool
  pub writepage : File → W → Bool
  -- `vma->vm_ops`, and whether a table of mapping operations has `fault` and `page_mkwrite`.
  pub vm_ops : ℕ → W → ℕ
  pub has_fault : ℕ → W → Bool
  pub has_page_mkwrite : ℕ → W → Bool
  -- `lower_dentry->d_flags & DCACHE_OP_REVALIDATE`
  pub revalidates : Dentry → W → Bool
  -- The new offset, a `loff_t`, or an error.
  pub generic_file_llseek : File → ℤ → ℕ → W → ℤ × W
  pub iget5_locked : Inode → W → Iget × W
  pub igrab : Inode → W → Bool × W
  pub d_splice_alias : ℕ → Dentry → W → ErrPtr × W
  -- The inode that `trfs_lower_inode` gives now.
  pub lower_inode : Inode → W → ℕ
  -- `lower_sb->s_op && lower_sb->s_op->umount_begin`
  pub has_umount_begin : ℕ → W → Bool
  -- An inode of a superblock by its number, or NULL.
  pub ilookup : ℕ → ℕ → W → Option ℕ
  -- In the directory, the name of the dentry.
  pub vfs_path_lookup : LowerPath → Dentry → W → Found × W
  pub d_lookup : Dentry → Dentry → W → Option Dentry × W
  pub d_alloc : Dentry → Dentry → W → Option Dentry × W
  pub is_root : Dentry → W → Bool
  -- Whether `kmem_cache_zalloc` gives the private data of a dentry, and `kzalloc` those of a superblock.
  pub zalloc_dentry : W → Bool × W
  pub zalloc_sb : W → Bool × W
  pub kern_path : List ℕ → W → Found × W
  -- The trace file, opened with `O_WRONLY|O_CREAT|O_TRUNC`, or an `ERR_PTR`.
  pub filp_trunc : List ℕ → W → Option File × W
  -- `dentry->d_sb`
  pub d_sb : Dentry → W → ℕ
  pub d_make_root : ℕ → W → Option Dentry × W
