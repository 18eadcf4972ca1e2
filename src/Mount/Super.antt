-- ===== src/Mount/Super.antt =====
-- The superblock: `trfs_read_super` and `trfs_shutdown_super` of fs/trfs/main.c, `trfs_put_super` and
-- `trfs_remount_fs` of fs/trfs/super.c. `dput` of the root and `generic_shutdown_super` call back into
-- the module, so they are steps on its state.
use trfs_stackable_filesyste.Common.{
  ℕ, ◌+◌, ◌-◌, ◌*◌, ◌/◌, ◌%◌, Bool, true, false, Option, none, some, List, [], ℤ, pos, is_error,
  ◌==◌, if◌then◌else◌,
}
use trfs_stackable_filesyste.Errno.{enomem, einval}
use trfs_stackable_filesyste.Kernel.{
  Dentry, File, LowerPath, inode, d_inode, ErrPtr, ptr, err_ptr, Found, found, not_found, iput,
  set_d_op, d_rehash, init_super, Kernel, ok, oops, M, branch, pure, ◌>>=◌, ◌>>◌, when, read_state,
  kfree, put_ref, effect,
}
use trfs_stackable_filesyste.Lookup.{trfs_iget}
use trfs_stackable_filesyste.Lookup.Dentries.{
  update_fsdata, trfs_set_lower_path, new_dentry_private_data,
}
use trfs_stackable_filesyste.Lookup.Names.{refs_found}
use trfs_stackable_filesyste.Mount.{MountPath}

-- `flags & ~bit` for one bit.
abbrev without : ℕ → ℕ → ℕ
without flags bit = flags - flags / bit % 2 * bit

-- `MS_RDONLY`, `MS_MANDLOCK` and `MS_SILENT` are taken out.
unfoldable pub trfs_remount_fs : ℕ → ℤ
trfs_remount_fs flags = if without (without (without flags 1) 64) 32768 == 0 then pos 0 else einval

-- `BITMAP_MAX`
abbrev pub bitmap_max : ℕ
bitmap_max = 0xfff

module _ {W : Type 0} where
  abbrev pub trfs_set_lower_super : ℕ → List ℕ → ℤ → ℕ → M W (Unit {0})
  trfs_set_lower_super val tfile_path rec_id mask s = ok (
    tt,
    record s {
      sb = record { lower_sb = val; tfile_path = tfile_path; record_id = rec_id; mask = mask };
    },
  )

  abbrev inc_active : M W (Unit {0})
  inc_active s = ok (tt, record s { s_active = s.s_active + 1 })

  abbrev dec_active : M W (Unit {0})
  dec_active s = ok (tt, record s { s_active = s.s_active - 1 })

  abbrev set_fs_info : Bool → M W (Unit {0})
  set_fs_info b s = ok (tt, record s { s_fs_info = b })

  abbrev set_root : Dentry → M W (Unit {0})
  set_root d s = ok (tt, record s { s_root = d })

  -- The labels `out_sput` and `out_free`.
  abbrev out_sput : ℤ → M W ℤ
  out_sput err = do dec_active; kfree 1; set_fs_info false; put_ref; pure err

  -- A NULL mount path stands as an empty one.
  unfoldable pub trfs_put_super : M W (Unit {0})
  trfs_put_super = do
    s ← read_state
    when (s.s_fs_info)
        (do trfs_set_lower_super 0 [] (pos 0) 0; dec_active; kfree 1; set_fs_info false)

  -- The private data of the superblock are used without a test. The blocks of the mount path are those
  -- of `trfs_mount`, which are not NULL.
  unfoldable pub trfs_shutdown_super : M W (Unit {0}) → M W (Unit {0})
  trfs_shutdown_super generic_shutdown_super = do
    s ← read_state
    branch (s.s_fs_info) (do kfree 1; kfree 1; kfree 1; generic_shutdown_super) (λ s. oops)

module _ {W : Type 0} (k : Kernel W) (dput : Dentry → M W (Unit {0})) where
  abbrev kern_path : List ℕ → M W Found
  kern_path name s = ok (
    (k.kern_path name s.world).0,
    record s {
      refs = refs_found (k.kern_path name s.world).0 s.refs;
      world = (k.kern_path name s.world).1;
    },
  )

  abbrev kzalloc_sb : M W Bool
  kzalloc_sb s = elim (k.zalloc_sb s.world).0 [
    | true ↦
        ok (true, record s { live = s.live + 1; s_fs_info = true; world = (k.zalloc_sb s.world).1 })
    | false ↦ ok (false, record s { s_fs_info = false; world = (k.zalloc_sb s.world).1 })
  ]

  abbrev filp_trunc : List ℕ → M W (Option File)
  filp_trunc name s =
      ok ((k.filp_trunc name s.world).0, record s { world = (k.filp_trunc name s.world).1 })

  -- `filp_close` uses an `ERR_PTR` as a file.
  abbrev close : Option File → M W (Unit {0})
  close none s = oops
  close (some f) s = ok (tt, record s { world = k.filp_close f s.world })

  abbrev d_make_root : ℕ → M W (Option Dentry)
  d_make_root i s =
      ok ((k.d_make_root i s.world).0, record s { world = (k.d_make_root i s.world).1 })

  abbrev clear_fsdata : Dentry → M W (Unit {0})
  clear_fsdata d s = ok (tt, record s { d_fsdata = update_fsdata s.d_fsdata d false })

  -- After `d_make_root`.
  abbrev with_root : ℕ → LowerPath → Option Dentry → M W ℤ
  with_root i lower_path none = do set_root 0; effect k (iput (inode i)); out_sput enomem
  with_root i lower_path (some root) = do
    set_root root
    effect k (set_d_op root)
    clear_fsdata root
    err ← new_dentry_private_data k root
    branch (is_error err) (do dput root; effect k (iput (inode i)); out_sput err)
        (do trfs_set_lower_path root lower_path; effect k (d_rehash root); pure (pos 0))

  unfoldable pub make_root : LowerPath → ErrPtr → M W ℤ
  make_root lower_path (err_ptr e) = out_sput e
  make_root lower_path (ptr i) = d_make_root i >>= with_root i lower_path

  -- From `filp_open` of the trace file to `trfs_iget`.
  unfoldable pub fill_super : MountPath → LowerPath → M W ℤ
  fill_super mount_path lower_path = do
    file_op ← filp_trunc mount_path.tfile_path
    close file_op
    s ← read_state
    let lower_sb = k.d_sb lower_path.dentry s.world
    inc_active
    trfs_set_lower_super lower_sb mount_path.tfile_path (pos 0) bitmap_max
    effect k (init_super lower_sb)
    found_inode ← trfs_iget k (d_inode lower_path.dentry)
    make_root lower_path found_inode

  abbrev with_path : MountPath → Found → M W ℤ
  with_path mount_path (not_found e) = pure e
  with_path mount_path (found lower_path) = do
    allocated ← kzalloc_sb
    branch allocated (fill_super mount_path lower_path) (do put_ref; pure enomem)

  unfoldable pub trfs_read_super : Option MountPath → M W ℤ
  trfs_read_super none = pure einval
  trfs_read_super (some mount_path) = kern_path mount_path.device_path >>= with_path mount_path
