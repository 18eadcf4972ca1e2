-- ===== src/Mount/Balance.antt =====
-- What a mount and an unmount hold of the kernel: trfs_read_super and trfs_shutdown_super of
-- fs/trfs/main.c, trfs_put_super of fs/trfs/super.c.
use trfs_stackable_filesyste.Common.{
  ℕ, ◌+◌, ◌-◌, ◌≡◌, ◌≢◌, ◌⊎◌, inl, inr, arith, Bool-cases, true, false, Option-cases, some, ℤ, pos,
  is_error,
}
use trfs_stackable_filesyste.Kernel.{
  Dentry, File, LowerPath, d_inode, ErrPtr-cases, ptr, err_ptr, Found-cases, init_super, Kernel,
  State, ok, M,
}
use trfs_stackable_filesyste.Tracing.{Finds}
use trfs_stackable_filesyste.Lookup.Inodes.{got, trfs_iget-got, got-is_error}
use trfs_stackable_filesyste.Lookup.Dentries.{
  trfs_set_lower_path, trfs_put_reset_lower_path, free_dentry_private_data, trfs_d_release,
  new_dentry_private_data,
}
use trfs_stackable_filesyste.Mount.{MountPath}
use trfs_stackable_filesyste.Mount.Super.{bitmap_max, make_root, fill_super, trfs_read_super}

module _ {W : Type 0} where
  -- A failed mount: nothing is held that was not held before.
  pub record IsRefused (s s' : State W) : Type 0 where
    pub live : s'.live ≡ s.live
    pub refs : s'.refs ≡ s.refs
    pub locks : s'.locks ≡ s.locks
    pub files : s'.files ≡ s.files
    pub lower_files : s'.lower_files ≡ s.lower_files
    pub kernel_ds : s'.kernel_ds ≡ s.kernel_ds
    pub infos : s'.infos ≡ s.infos
    pub s_active : s'.s_active ≡ s.s_active
    pub s_fs_info : s'.s_fs_info ≡ false

  -- A mount: the superblock has its private data, with the record id 0, all bits of the mask and the
  -- path of the trace file; the root stands over `lower`, to which it has the reference.
  pub record IsMounted (k : Kernel W) (mp : MountPath) (lower : LowerPath) (s s' : State W)
      : Type 0 where
    pub live : s'.live ≡ s.live + 1
    pub refs : s'.refs ≡ s.refs + 1
    pub locks : s'.locks ≡ s.locks
    pub files : s'.files ≡ s.files
    pub lower_files : s'.lower_files ≡ s.lower_files
    pub kernel_ds : s'.kernel_ds ≡ s.kernel_ds
    pub infos : s'.infos ≡ s.infos + 1
    pub s_active : s'.s_active ≡ s.s_active + 1
    pub s_fs_info : s'.s_fs_info ≡ true
    pub tfile_path : s'.sb.tfile_path ≡ mp.tfile_path
    pub record_id : s'.sb.record_id ≡ pos 0
    pub mask : s'.sb.mask ≡ bitmap_max
    pub d_fsdata : s'.d_fsdata s'.s_root ≡ true
    pub lower_path : s'.lower_path s'.s_root ≡ lower
    pub root_ne : s'.s_root ≢ 0

  -- What the steps from `d_make_root` on change where they succeed.
  pub record IsRooted (lower : LowerPath) (s s' : State W) : Type 0 where
    pub live : s'.live ≡ s.live
    pub refs : s'.refs ≡ s.refs
    pub locks : s'.locks ≡ s.locks
    pub files : s'.files ≡ s.files
    pub lower_files : s'.lower_files ≡ s.lower_files
    pub kernel_ds : s'.kernel_ds ≡ s.kernel_ds
    pub infos : s'.infos ≡ s.infos + 1
    pub s_active : s'.s_active ≡ s.s_active
    pub s_fs_info : s'.s_fs_info ≡ s.s_fs_info
    pub sb : s'.sb ≡ s.sb
    pub d_fsdata : s'.d_fsdata s'.s_root ≡ true
    pub lower_path : s'.lower_path s'.s_root ≡ lower
    pub root_ne : s'.s_root ≢ 0

  -- What a failed or a successful mount left.
  abbrev pub Mounted : Kernel W → MountPath → State W → ℤ → State W → Type 0
  Mounted k mp s e s' =
      ((is_error e ≡ true) × IsRefused s s')
      ⊎ ((e ≡ pos 0) × ((lower : LowerPath) × (lower.dentry ≢ 0) × IsMounted k mp lower s s'))

module _ {W : Type 0} (k : Kernel W) where
  -- The state in which make_root runs, without the steps before.
  abbrev pub undone : State W → State W
  undone s = record s {
    live = s.live - 1;
    refs = s.refs - 1;
    s_active = s.s_active - 1;
    s_fs_info = false;
  }

  -- The state in which trfs_iget is called, when the trace file was opened as `f`.
  abbrev pub before_iget : MountPath → LowerPath → File → State W → State W
  before_iget mp lower f u =
      let w = k.filp_close f (k.filp_trunc mp.tfile_path u.world).1 in
      record u {
        s_active = u.s_active + 1;
        sb = record {
          lower_sb = k.d_sb lower.dentry w;
          tfile_path = mp.tfile_path;
          record_id = pos 0;
          mask = bitmap_max;
        };
        world = k.effect (init_super (k.d_sb lower.dentry w)) w;
      }

  module _ (dput : Dentry → M W (Unit {0})) (released : dput ≡ trfs_d_release) (F : Finds k) where
    made :
        (lower : LowerPath) (n : ℕ) (u v : State W) (e : ℤ)
        → make_root k dput lower (ptr n) u ≡ ok (e, v)
        → ((is_error e ≡ true) × IsRefused (undone u) v) ⊎ ((e ≡ pos 0) × IsRooted lower u v)
    unfolding make_root new_dentry_private_data trfs_set_lower_path trfs_d_release
        trfs_put_reset_lower_path free_dentry_private_data
    made lower n u v e h = grind (arith, released, F.d_make_root_ne)

    refused :
        (lower : LowerPath) (x : ℤ) (u v : State W) (e : ℤ)
        → is_error x ≡ true
        → make_root k dput lower (err_ptr x) u ≡ ok (e, v)
        → (is_error e ≡ true) × IsRefused (undone u) v
    unfolding make_root
    refused lower x u v e h b = (ground arith, ground arith)

    pub filled_by :
        (mp : MountPath) (lower : LowerPath) (f : File) (u v : State W) (e : ℤ)
        → (k.filp_trunc mp.tfile_path u.world).0 ≡ some f
        → fill_super k dput mp lower u ≡ ok (e, v)
        → let u' = before_iget mp lower f u in
          let g = got k (d_inode lower.dentry) u' in
          make_root k dput lower g.0 (record u' { world = g.1 }) ≡ ok (e, v)
    unfolding fill_super
    filled_by mp lower f u v e h b =
        ground (arith, trfs_iget-got k (d_inode lower.dentry) (before_iget mp lower f u))

    -- A mount whose superblock has its private data, which are given back when it fails.
    filled :
        (mp : MountPath) (lower : LowerPath) (u v : State W) (e : ℤ)
        → fill_super k dput mp lower u ≡ ok (e, v)
        → ((is_error e ≡ true)
            × IsRefused (record u { live = u.live - 1; refs = u.refs - 1; s_fs_info = false }) v)
          ⊎ ((e ≡ pos 0)
              × ((f : File) × ((k.filp_trunc mp.tfile_path u.world).0 ≡ some f)
                  × ((w : W) × IsRooted lower (record (before_iget mp lower f u) { world = w }) v)))
    unfolding fill_super
    filled mp lower u v e h = elim (Option-cases (k.filp_trunc mp.tfile_path u.world).0) [
      | inl b ↦ absurd (ground (arith, b))
      | inr (f, b) ↦
          let u' = before_iget mp lower f u in
          let g = got k (d_inode lower.dentry) u' in
          let m = filled_by mp lower f u v e b h in
          elim (ErrPtr-cases g.0) [
            | inl (n, c) ↦
                elim (made lower n (record u' { world = g.1 }) v e (ground (arith, c, m))) [
                  | inl (x, q) ↦ inl (x, ground (arith, q))
                  | inr (x, q) ↦ inr (x, (f, b, (g.1, q)))
                ]
            | inr (x, c) ↦
                let q =
                  refused lower x (record u' { world = g.1 }) v e
                    (got-is_error k (d_inode lower.dentry) u' x c) (ground (arith, c, m)) in
                inl (q.0, ground (arith, q.1))
          ]
    ]

    -- A mount that returns has either failed and holds nothing more than before, on every path of
    -- errors, or it has succeeded, and the superblock and its root are set up.
    pub trfs_read_super-Mounted :
        (mp : MountPath) (s s' : State W) (e : ℤ)
        → s.s_fs_info ≡ false
        → trfs_read_super k dput (some mp) s ≡ ok (e, s')
        → Mounted k mp s e s'
    unfolding trfs_read_super
    trfs_read_super-Mounted mp s s' e h b =
        let w = (k.kern_path mp.device_path s.world).1 in
        elim (Found-cases (k.kern_path mp.device_path s.world).0) [
          | inr (x, c) ↦
              inl
                (ground (arith, c, F.kern_path_error mp.device_path s.world x c), ground (arith, c))
          | inl (lower, c) ↦ elim (Bool-cases (k.zalloc_sb w).0) [
            | inr a ↦ inl (ground (arith, c, a), ground (arith, c, a))
            | inl a ↦
                elim (filled mp lower
                  (record s {
                    live = s.live + 1;
                    refs = s.refs + 1;
                    s_fs_info = true;
                    world = (k.zalloc_sb w).1;
                  })
                  s' e (ground (arith, c, a))) [
                    | inl (x, q) ↦ inl (x, ground (arith, q))
                    | inr (x, (f, g, (v, q))) ↦ inr (
                      x,
                      (lower, F.kern_path_ne mp.device_path s.world lower c, ground (arith, q)),
                    )
                  ]
          ]
        ]
