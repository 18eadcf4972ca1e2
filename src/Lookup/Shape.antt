-- ===== src/Lookup/Shape.antt =====
-- What trfs_interpose of fs/trfs/lookup.c does to the module's own state.
use trfs_stackable_filesyste.Common.{◌≡◌, arith, ℤ}
use trfs_stackable_filesyste.Kernel.{Dentry, LowerPath, Kernel, State, Outcome, oops, ok, world_of}
use trfs_stackable_filesyste.Lookup.{trfs_interpose}

module _ {W : Type 0} (k : Kernel W) where
  abbrev moved : State W → Outcome (ℤ × W) → Outcome (ℤ × State W)
  moved s oops = oops
  moved s (ok (e, w)) = ok (e, record s { world = w })

  pub trfs_interpose_shape :
      (d : Dentry) (lower : LowerPath) (s : State W)
      → trfs_interpose k d lower s ≡ moved s (world_of (trfs_interpose k d lower s))
  unfolding trfs_interpose world_of
  trfs_interpose_shape d lower s = ground arith
