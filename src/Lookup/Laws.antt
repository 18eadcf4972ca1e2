-- ===== src/Lookup/Laws.antt =====
-- What trfs_lookup of fs/trfs/lookup.c answers, and what it does not touch.
use trfs_stackable_filesyste.Common.{◌+◌, ◌≡◌, arith, inl, inr}
use trfs_stackable_filesyste.Kernel.{
  Dentry, LowerPath, ErrPtr, Found-cases, set_d_op, Kernel, State, Outcome-cases, ok,
}
use trfs_stackable_filesyste.Tracing.{Tracing, Naming}
use trfs_stackable_filesyste.Lookup.Dentries.{
  update_path, trfs_set_lower_path, trfs_put_reset_lower_path, new_dentry_private_data,
}
use trfs_stackable_filesyste.Lookup.Names.{after_found, after_enoent, lookup, trfs_lookup}
use trfs_stackable_filesyste.Lookup.Balance.{looked_up_from, interpose-spliced, tfile-spliced}

module _ {W : Type 0} (k : Kernel W) where
  module _ (T : Tracing k) (N : Naming T) where
    tfile-after_found :
        (d : Dentry) (p : LowerPath) (u v : State W) (r : ErrPtr)
        → after_found k d p u ≡ ok (r, v)
        → T.tfile v.world ≡ T.tfile u.world
    unfolding after_found trfs_set_lower_path trfs_put_reset_lower_path
    tfile-after_found d p u v r b =
        let u' = record u { lower_path = update_path u.lower_path d p } in
        ground (arith, interpose-spliced k d p u', tfile-spliced k T d p u')

    tfile-after_enoent :
        (d : Dentry) (p : LowerPath) (u v : State W) (r : ErrPtr)
        → after_enoent k d p u ≡ ok (r, v)
        → T.tfile v.world ≡ T.tfile u.world
    unfolding after_enoent trfs_set_lower_path
    tfile-after_enoent d p u v r b =
        grind (arith, T.effect_tfile, N.d_lookup_tfile, N.d_alloc_tfile)

    tfile-lookup :
        (d : Dentry) (p : LowerPath) (u v : State W) (r : ErrPtr)
        → lookup k d p u ≡ ok (r, v)
        → T.tfile v.world ≡ T.tfile u.world
    unfolding lookup
    tfile-lookup d p u v r b =
        let w = k.effect (set_d_op d) u.world in
        let result = k.vfs_path_lookup p d w in
        elim (Found-cases result.0) [
          | inl (q, e) ↦ grind (
            arith,
            e,
            T.effect_tfile (set_d_op d) u.world,
            N.vfs_path_lookup_tfile p d w,
            tfile-after_found d q (record u { refs = u.refs + 1; world = result.1 }) v r,
          )
          | inr (x, e) ↦ grind (
            arith,
            e,
            T.effect_tfile (set_d_op d) u.world,
            N.vfs_path_lookup_tfile p d w,
            tfile-after_enoent d p (record u { world = result.1 }) v r,
          )
        ]

    pub tfile-trfs_lookup :
        (d : Dentry) (s v : State W) (r : ErrPtr)
        → trfs_lookup k d s ≡ ok (r, v)
        → T.tfile v.world ≡ T.tfile s.world
    unfolding trfs_lookup new_dentry_private_data
    tfile-trfs_lookup d s v r e =
        let u = looked_up_from k d s in
        let p = s.lower_path (k.dget_parent d s.world) in
        elim (Outcome-cases (lookup k d p u)) [
          | inl b ↦ ground (arith, b, N.zalloc_dentry_tfile s.world)
          | inr ((x, v'), b) ↦
              grind
                (arith, b, T.effect_tfile, N.zalloc_dentry_tfile s.world, tfile-lookup d p u v' x b)
        ]
