-- ===== src/Lookup/Dentries.antt =====
-- The private data of a dentry, of fs/trfs/lookup.c and fs/trfs/trfs.h, and the dentry operations of
-- fs/trfs/dentry.c.
use trfs_stackable_filesyste.Common.{
  ℕ, ◌+◌, ◌-◌, ◌/◌, ◌%◌, Bool, true, false, not, ◌&&◌, ℤ, pos, ◌==◌, if◌then◌else◌,
}
use trfs_stackable_filesyste.Errno.{echild, enomem}
use trfs_stackable_filesyste.Kernel.{
  Dentry, LowerPath, d_revalidate, Kernel, ok, oops, M, branch, pure, ◌>>=◌, ◌>>◌, read_state,
  trfs_get_lower_path, put_ref, call,
}

-- A path of NULL pointers.
abbrev pub null_path : LowerPath
null_path = record { dentry = 0; mnt = 0 }

abbrev pub update_path : (Dentry → LowerPath) → Dentry → LowerPath → Dentry → LowerPath
update_path f d p c = if d == c then p else f c

abbrev pub update_fsdata : (Dentry → Bool) → Dentry → Bool → Dentry → Bool
update_fsdata f d b c = if d == c then b else f c

module _ {W : Type 0} where
  -- The private data are dereferenced.
  unfoldable pub trfs_set_lower_path : Dentry → LowerPath → M W (Unit {0})
  trfs_set_lower_path d p s = elim (s.d_fsdata d) [
    | true ↦ ok (tt, record s { lower_path = update_path s.lower_path d p })
    | false ↦ oops
  ]

  -- Nothing in the module calls it.
  unfoldable trfs_reset_lower_path : Dentry → M W (Unit {0})
  trfs_reset_lower_path d s = elim (s.d_fsdata d) [
    | true ↦ ok (tt, record s { lower_path = update_path s.lower_path d null_path })
    | false ↦ oops
  ]

  -- `path_put` of NULL pointers does nothing.
  unfoldable pub trfs_put_reset_lower_path : Dentry → M W (Unit {0})
  trfs_put_reset_lower_path d s = elim (s.d_fsdata d) [
    | true ↦ ok (
      tt,
      record s {
        lower_path = update_path s.lower_path d null_path;
        refs = if (s.lower_path d).dentry == 0 then s.refs else s.refs - 1;
      },
    )
    | false ↦ oops
  ]

  -- 0 is NULL.
  unfoldable pub free_dentry_private_data : Dentry → M W (Unit {0})
  free_dentry_private_data d s = elim (not (d == 0) && s.d_fsdata d) [
    | true ↦ ok (tt, record s { d_fsdata = update_fsdata s.d_fsdata d false; infos = s.infos - 1 })
    | false ↦ ok (tt, s)
  ]

  unfoldable pub trfs_d_release : Dentry → M W (Unit {0})
  trfs_d_release d = do trfs_put_reset_lower_path d; free_dentry_private_data d

module _ {W : Type 0} (k : Kernel W) where
  -- The lower path of new private data is one of NULL pointers.
  unfoldable pub new_dentry_private_data : Dentry → M W ℤ
  new_dentry_private_data d s = elim (k.zalloc_dentry s.world).0 [
    | true ↦ ok (
      pos 0,
      record s {
        d_fsdata = update_fsdata s.d_fsdata d true;
        lower_path = update_path s.lower_path d null_path;
        infos = s.infos + 1;
        world = (k.zalloc_dentry s.world).1;
      },
    )
    | false ↦ ok (enomem, record s { world = (k.zalloc_dentry s.world).1 })
  ]

  -- `flags & LOOKUP_RCU`: the bit 6.
  abbrev lookup_rcu : ℕ → Bool
  lookup_rcu flags = flags / 64 % 2 == 1

  unfoldable pub trfs_d_revalidate : Dentry → ℕ → M W ℤ
  trfs_d_revalidate dentry flags = branch (lookup_rcu flags) (pure echild) (do
    lower_path ← trfs_get_lower_path dentry
    s ← read_state
    err ←
        branch (k.revalidates lower_path.dentry s.world)
          (call k (d_revalidate lower_path.dentry flags)) (pure (pos 1))
    put_ref
    pure err)
