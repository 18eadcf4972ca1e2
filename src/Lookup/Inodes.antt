-- ===== src/Lookup/Inodes.antt =====
-- The result and the world after trfs_iget of fs/trfs/lookup.c.
use trfs_stackable_filesyste.Common.{◌≡◌, arith, true, ℤ, is_error}
use trfs_stackable_filesyste.Kernel.{Inode, ErrPtr, ptr, err_ptr, Kernel, State, Outcome, ok, oops}
use trfs_stackable_filesyste.Tracing.{Tracing}
use trfs_stackable_filesyste.Lookup.{trfs_iget}

module _ {W : Type 0} (k : Kernel W) where
  abbrev error_or : W → Outcome (ErrPtr × State W) → ErrPtr × W
  error_or w oops = (ptr 0, w)
  error_or w (ok (e, s')) = (e, s'.world)

  -- The result and the world after trfs_iget.
  pub got : Inode → State W → ErrPtr × W
  got lower s = error_or s.world (trfs_iget k lower s)

  pub trfs_iget-got :
      (lower : Inode) (s : State W)
      → trfs_iget k lower s ≡ ok ((got lower s).0, record s { world = (got lower s).1 })
  unfolding trfs_iget got
  trfs_iget-got lower s = ground arith

  pub tfile-got :
      (T : Tracing k) (lower : Inode) (s : State W) → T.tfile (got lower s).1 ≡ T.tfile s.world
  unfolding trfs_iget got
  tfile-got T lower s = grind (arith, T.effect_tfile, T.iget5_locked_tfile, T.igrab_tfile)

  pub got-is_error :
      (lower : Inode) (s : State W) (e : ℤ) → (got lower s).0 ≡ err_ptr e → is_error e ≡ true
  unfolding trfs_iget got
  got-is_error lower s e h = ground arith
