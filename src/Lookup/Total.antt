-- ===== src/Lookup/Total.antt =====
-- The result and the world after trfs_interpose of fs/trfs/lookup.c.
use trfs_stackable_filesyste.Common.{ℕ, ◌≡◌, true, arith, ℤ, pos}
use trfs_stackable_filesyste.Common.Fits.{
  fits_int, IsInt32-fits_int, fits_int-small, fits_int-int32,
}
use trfs_stackable_filesyste.Kernel.{err_ptr, Dentry, LowerPath, Kernel, State, Outcome, oops, ok}
use trfs_stackable_filesyste.Tracing.{Tracing, Placing, Typed}
use trfs_stackable_filesyste.Lookup.{trfs_interpose}

module _ {W : Type 0} (k : Kernel W) where
  -- The result and the world after interposition.
  abbrev error_or : W → Outcome (ℤ × State W) → ℤ × W
  error_or w oops = (pos 0, w)
  error_or w (ok (e, s')) = (e, s'.world)

  pub interposed : Dentry → LowerPath → State W → ℤ × W
  interposed d lower s = error_or s.world (trfs_interpose k d lower s)

  -- Interposition returns on every kernel, and changes nothing of the module's own state.
  pub trfs_interpose-interposed :
      (d : Dentry) (lower : LowerPath) (s : State W)
      → trfs_interpose k d lower s
        ≡ ok ((interposed d lower s).0, record s { world = (interposed d lower s).1 })
  unfolding trfs_interpose interposed
  trfs_interpose-interposed d lower s = ground arith

  pub tfile-interposed :
      (T : Tracing k) (d : Dentry) (lower : LowerPath) (s : State W)
      → T.tfile (interposed d lower s).1 ≡ T.tfile s.world
  unfolding trfs_interpose interposed
  tfile-interposed T d lower s =
      grind (arith, T.effect_tfile, T.iget5_locked_tfile, T.igrab_tfile, T.d_splice_alias_tfile)

  pub path-interposed :
      {T : Tracing k} (P : Placing T) (c d : Dentry) (lower : LowerPath) (s : State W)
      → T.path c (interposed d lower s).1 ≡ T.path c s.world
  unfolding trfs_interpose interposed
  path-interposed P c d lower s =
      grind (arith, P.effect_path, P.iget5_locked_path, P.igrab_path, P.d_splice_alias_path)

  -- The result is a value of C's `int`.
  pub fits_int-interposed :
      (C : Typed k) (d : Dentry) (lower : LowerPath) (s : State W)
      → fits_int (interposed d lower s).0 ≡ true
  unfolding trfs_interpose interposed
  fits_int-interposed C d lower s =
      grind (arith, fits_int-int32, fits_int-small, d_splice_alias-fits)
    where
      d_splice_alias-fits :
          (i : ℕ) (w : W) (e : ℤ) → (k.d_splice_alias i d w).0 ≡ err_ptr e → fits_int e ≡ true
      d_splice_alias-fits i w e h = IsInt32-fits_int e (C.d_splice_alias_fits i d w e h)
