-- ===== src/Lookup/Names.antt =====
-- `__trfs_lookup` and `trfs_lookup` of fs/trfs/lookup.c.
use trfs_stackable_filesyste.Common.{
  ℕ, ◌+◌, Option, none, some, eqb_ℤ, is_error, ◌==◌, if◌then◌else◌,
}
use trfs_stackable_filesyste.Errno.{enoent, enomem}
use trfs_stackable_filesyste.Kernel.{
  Dentry, LowerPath, d_inode, trfs_lower_inode, ErrPtr, ptr, err_ptr, Found, found, not_found,
  copy_attr_atime, copy_attr_times, set_d_op, d_add_negative, Kernel, ok, M, branch, pure, ◌>>=◌,
  ◌>>◌, when, read_state, trfs_get_lower_path, get_parent, put_ref, effect,
}
use trfs_stackable_filesyste.Lookup.{interpose}
use trfs_stackable_filesyste.Lookup.Dentries.{
  trfs_set_lower_path, trfs_put_reset_lower_path, new_dentry_private_data,
}

-- A path that is found comes with a reference.
abbrev pub refs_found : Found → ℕ → ℕ
refs_found (found p) n = n + 1
refs_found (not_found e) n = n

-- So does a dentry.
abbrev pub refs_some : Option Dentry → ℕ → ℕ
refs_some none n = n
refs_some (some d) n = n + 1

module _ {W : Type 0} (k : Kernel W) where
  abbrev vfs_path_lookup : LowerPath → Dentry → M W Found
  vfs_path_lookup p d s = ok (
    (k.vfs_path_lookup p d s.world).0,
    record s {
      refs = refs_found (k.vfs_path_lookup p d s.world).0 s.refs;
      world = (k.vfs_path_lookup p d s.world).1;
    },
  )

  abbrev d_lookup : Dentry → Dentry → M W (Option Dentry)
  d_lookup p d s = ok (
    (k.d_lookup p d s.world).0,
    record s {
      refs = refs_some (k.d_lookup p d s.world).0 s.refs;
      world = (k.d_lookup p d s.world).1;
    },
  )

  abbrev d_alloc : Dentry → Dentry → M W (Option Dentry)
  d_alloc p d s = ok (
    (k.d_alloc p d s.world).0,
    record s {
      refs = refs_some (k.d_alloc p d s.world).0 s.refs;
      world = (k.d_alloc p d s.world).1;
    },
  )

  -- `IS_ERR`: the path is put and reset.
  abbrev interposed_or_reset : Dentry → ErrPtr → M W ErrPtr
  interposed_or_reset dentry (ptr p) = pure (ptr p)
  interposed_or_reset dentry (err_ptr e) = do trfs_put_reset_lower_path dentry; pure (err_ptr e)

  -- `d_add` of a new negative dentry, or nothing if there was no memory.
  abbrev added : Option Dentry → M W (Option Dentry)
  added none = pure none
  added (some lower_dentry) = do effect k (d_add_negative lower_dentry); pure (some lower_dentry)

  abbrev found_or_new : Dentry → Dentry → Option Dentry → M W (Option Dentry)
  found_or_new lower_dir dentry (some lower_dentry) = pure (some lower_dentry)
  found_or_new lower_dir dentry none = d_alloc lower_dir dentry >>= added

  -- The label `setup_lower`. The reference to a dentry counts for `mntget` of its mount too.
  abbrev setup_lower : Dentry → LowerPath → Option Dentry → M W ErrPtr
  setup_lower dentry lower_parent_path none = pure (err_ptr enomem)
  setup_lower dentry lower_parent_path (some lower_dentry) = do
    trfs_set_lower_path dentry (record { dentry = lower_dentry; mnt = lower_parent_path.mnt })
    pure (ptr 0)

  -- A positive dentry.
  unfoldable pub after_found : Dentry → LowerPath → M W ErrPtr
  after_found dentry lower_path = do
    trfs_set_lower_path dentry lower_path
    ret ← interpose k dentry lower_path
    interposed_or_reset dentry ret

  -- The error is `-ENOENT`: a negative dentry.
  unfoldable pub after_enoent : Dentry → LowerPath → M W ErrPtr
  after_enoent dentry lower_parent_path = do
    seen ← d_lookup lower_parent_path.dentry dentry
    lower_dentry ← found_or_new lower_parent_path.dentry dentry seen
    setup_lower dentry lower_parent_path lower_dentry

  -- The code after `vfs_path_lookup`. Behind the label `setup_lower` the error is always `-ENOENT`.
  abbrev pub after_path_lookup : Dentry → LowerPath → Found → M W ErrPtr
  after_path_lookup dentry lower_parent_path (found lower_path) = after_found dentry lower_path
  after_path_lookup dentry lower_parent_path (not_found e) =
      branch (eqb_ℤ e enoent) (after_enoent dentry lower_parent_path) (pure (err_ptr e))

  -- `__trfs_lookup`
  unfoldable pub lookup : Dentry → LowerPath → M W ErrPtr
  lookup dentry lower_parent_path = do
    effect k (set_d_op dentry)
    s ← read_state
    branch (k.is_root dentry s.world) (pure (ptr 0)) (do
      result ← vfs_path_lookup lower_parent_path dentry
      after_path_lookup dentry lower_parent_path result)

  -- `d_inode` of the dentry that a lookup returned, or else of its own.
  abbrev copy_times : Dentry → Dentry → ErrPtr → M W (Unit {0})
  copy_times dentry parent (err_ptr e) = pure tt
  copy_times dentry parent (ptr p) = do
    let dentry = if p == 0 then dentry else p
    s ← read_state
    when (k.has_inode dentry s.world)
        (effect k (copy_attr_times (d_inode dentry) (trfs_lower_inode (d_inode dentry))))
    effect k (copy_attr_atime (d_inode parent) (trfs_lower_inode (d_inode parent)))

  unfoldable pub trfs_lookup : Dentry → M W ErrPtr
  trfs_lookup dentry = do
    parent ← get_parent k dentry
    lower_parent_path ← trfs_get_lower_path parent
    err ← new_dentry_private_data k dentry
    ret ←
        branch (is_error err) (pure (err_ptr err))
          (do ret ← lookup dentry lower_parent_path; copy_times dentry parent ret; pure ret)
    put_ref
    put_ref
    pure ret
