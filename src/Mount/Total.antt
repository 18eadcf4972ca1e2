-- ===== src/Mount/Total.antt =====
-- When a mount returns, and the trace file that it leaves: trfs_read_super of fs/trfs/main.c.
use trfs_stackable_filesyste.Common.{
  ℕ, ◌+◌, ◌≡◌, ◌≢◌, ◌∙◌, inl, inr, arith, Bool-cases, true, Option-cases, some, [], ℤ, pos,
  is_error,
}
use trfs_stackable_filesyste.Kernel.{
  Dentry, LowerPath, d_inode, ErrPtr-cases, ptr, err_ptr, Found-cases, Kernel, State, ok, M,
}
use trfs_stackable_filesyste.Tracing.{Finds, Tracing, Naming}
use trfs_stackable_filesyste.Lookup.Dentries.{
  trfs_d_release, trfs_set_lower_path, new_dentry_private_data,
}
use trfs_stackable_filesyste.Lookup.Inodes.{got, got-is_error, tfile-got}
use trfs_stackable_filesyste.Mount.{MountPath}
use trfs_stackable_filesyste.Mount.Super.{make_root, fill_super, trfs_read_super}
use trfs_stackable_filesyste.Mount.Balance.{before_iget, filled_by}

module _ {W : Type 0} (k : Kernel W) (dput : Dentry → M W (Unit {0})) where
  module _ (T : Tracing k) (N : Naming T) (released : dput ≡ trfs_d_release) (F : Finds k) where
    tfile-make_root :
        (lower : LowerPath) (n : ℕ) (u v : State W)
        → make_root k dput lower (ptr n) u ≡ ok (pos 0, v)
        → T.tfile v.world ≡ T.tfile u.world
    unfolding make_root new_dentry_private_data trfs_set_lower_path
    tfile-make_root lower n u v h =
        grind (arith, T.effect_tfile, N.d_make_root_tfile, N.zalloc_dentry_tfile)

    not_refused :
        (lower : LowerPath) (x : ℤ) (u v : State W)
        → is_error x ≡ true
        → make_root k dput lower (err_ptr x) u ≢ ok (pos 0, v)
    unfolding make_root
    not_refused lower x u v e = λ b. ground arith

    tfile-fill_super :
        (mp : MountPath) (lower : LowerPath) (u v : State W)
        → mp.tfile_path ≡ T.trace_path
        → fill_super k dput mp lower u ≡ ok (pos 0, v)
        → T.tfile v.world ≡ []
    unfolding fill_super
    tfile-fill_super mp lower u v tp h =
        elim (Option-cases (k.filp_trunc mp.tfile_path u.world).0) [
          | inl b ↦ absurd (ground (arith, b))
          | inr (f, b) ↦
              let u' = before_iget k mp lower f u in
              let g = got k (d_inode lower.dentry) u' in
              let m = filled_by k dput released F mp lower f u v (pos 0) b h in
              let empty : T.tfile u'.world ≡ [] =
                T.effect_tfile _ _ ∙ T.filp_close_tfile _ _ ∙ rw tp (N.filp_trunc_tfile u.world) in
              elim (ErrPtr-cases g.0) [
                | inl (n, c) ↦
                    tfile-make_root lower n (record u' { world = g.1 }) v (ground (arith, c, m))
                    ∙ tfile-got k T (d_inode lower.dentry) u'
                    ∙ empty
                | inr (x, c) ↦ absurd (
                    not_refused lower x (record u' { world = g.1 }) v
                      (got-is_error k (d_inode lower.dentry) u' x c) (ground (arith, c, m)))
              ]
        ]

    -- A successful mount leaves an empty trace file.
    pub tfile-trfs_read_super :
        (mp : MountPath) (s v : State W)
        → mp.tfile_path ≡ T.trace_path
        → trfs_read_super k dput (some mp) s ≡ ok (pos 0, v)
        → T.tfile v.world ≡ []
    unfolding trfs_read_super
    tfile-trfs_read_super mp s v tp h =
        let w = (k.kern_path mp.device_path s.world).1 in
        elim (Found-cases (k.kern_path mp.device_path s.world).0) [
          | inr (x, c) ↦ absurd (ground (arith, c, F.kern_path_error mp.device_path s.world x c))
          | inl (lower, c) ↦ elim (Bool-cases (k.zalloc_sb w).0) [
            | inr a ↦ absurd (ground (arith, c, a))
            | inl a ↦
                tfile-fill_super mp lower
                  (record s {
                    live = s.live + 1;
                    refs = s.refs + 1;
                    s_fs_info = true;
                    world = (k.zalloc_sb w).1;
                  })
                  v tp (ground (arith, c, a))
          ]
        ]
