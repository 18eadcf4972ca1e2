-- ===== src/Inode/Attributes/Parts.antt =====
-- The two parts of trfs_setattr of fs/trfs/inode.c that call out: they return on every kernel, and
-- change nothing of the module's own state.
use trfs_stackable_filesyste.Common.{◌≡◌, true, arith, ℤ, pos}
use trfs_stackable_filesyste.Kernel.{Dentry, Inode, Iattr, Kernel, State, Outcome, oops, ok}
use trfs_stackable_filesyste.Tracing.{Tracing, Typed, fits_int-call}
use trfs_stackable_filesyste.Common.Fits.{fits_int, fits_int-zero, fits_int-small}
use trfs_stackable_filesyste.Inode.Attributes.{resize, change_lower}

module _ {W : Type 0} (k : Kernel W) where
  abbrev error_or : W → Outcome (ℤ × State W) → ℤ × W
  error_or w oops = (pos 0, w)
  error_or w (ok (e, s')) = (e, s'.world)

  pub resized : Inode → Iattr → State W → ℤ × W
  resized upper ia s = error_or s.world (resize k upper ia s)

  pub changed : Inode → Dentry → Iattr → State W → ℤ × W
  changed upper d ia s = error_or s.world (change_lower k upper d ia s)

  pub resize-resized :
      (upper : Inode) (ia : Iattr) (s : State W)
      → resize k upper ia s
        ≡ ok ((resized upper ia s).0, record s { world = (resized upper ia s).1 })
  unfolding resize resized
  resize-resized upper ia s = ground arith

  pub change_lower-changed :
      (upper : Inode) (d : Dentry) (ia : Iattr) (s : State W)
      → change_lower k upper d ia s
        ≡ ok ((changed upper d ia s).0, record s { world = (changed upper d ia s).1 })
  unfolding change_lower changed
  change_lower-changed upper d ia s = ground arith

  pub tfile-resized :
      (T : Tracing k) (upper : Inode) (ia : Iattr) (s : State W)
      → T.tfile (resized upper ia s).1 ≡ T.tfile s.world
  unfolding resize resized
  tfile-resized T upper ia s = grind (arith, T.call_tfile, T.effect_tfile)

  pub tfile-changed :
      (T : Tracing k) (upper : Inode) (d : Dentry) (ia : Iattr) (s : State W)
      → T.tfile (changed upper d ia s).1 ≡ T.tfile s.world
  unfolding change_lower changed
  tfile-changed T upper d ia s = grind (arith, T.call_tfile, T.effect_tfile)

  -- Their results are values of C's `int`.
  pub fits_int-resized :
      (C : Typed k) (upper : Inode) (ia : Iattr) (s : State W)
      → fits_int (resized upper ia s).0 ≡ true
  unfolding resize resized
  fits_int-resized C upper ia s = grind (arith, fits_int-call k C, fits_int-zero, fits_int-small)

  pub fits_int-changed :
      (C : Typed k) (upper : Inode) (d : Dentry) (ia : Iattr) (s : State W)
      → fits_int (changed upper d ia s).0 ≡ true
  unfolding change_lower changed
  fits_int-changed C upper d ia s = grind (arith, fits_int-call k C, fits_int-zero, fits_int-small)
