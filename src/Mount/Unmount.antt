-- ===== src/Mount/Unmount.antt =====
-- Unmounting: trfs_shutdown_super of fs/trfs/main.c with trfs_put_super of fs/trfs/super.c, after a mount
-- that succeeded and after one that failed; and remounting.
use trfs_stackable_filesyste.Common.{
  ℕ, ◌+◌, ◌-◌, ◌*◌, ◌/◌, ◌%◌, ◌≤◌, ◌≡◌, ◌≢◌, inl, inr, arith, ◌↔◌, true, false, some, ℤ, pos,
  is_error,
}
use trfs_stackable_filesyste.Kernel.{
  Dentry, Kernel, State, Outcome-cases, ok, oops, M, ◌>>=◌, ◌>>◌, read_state,
}
use trfs_stackable_filesyste.Tracing.{Finds}
use trfs_stackable_filesyste.Lookup.Dentries.{
  trfs_put_reset_lower_path, free_dentry_private_data, trfs_d_release,
}
use trfs_stackable_filesyste.Mount.{MountPath}
use trfs_stackable_filesyste.Mount.Super.{
  trfs_remount_fs, trfs_put_super, trfs_shutdown_super, trfs_read_super,
}
use trfs_stackable_filesyste.Mount.Balance.{trfs_read_super-Mounted}

-- A remount is accepted exactly when its flags are some of the three that are known.
pub trfs_remount_fs-known :
    (flags : ℕ)
    → (trfs_remount_fs flags ≡ pos 0) ↔ (
        (a : ℕ) × (b : ℕ) × (c : ℕ) × (a ≤ 1)
        × (b ≤ 1)
        × (c ≤ 1)
        × (flags ≡ a + b * 64 + c * 32768))
unfolding trfs_remount_fs
trfs_remount_fs-known flags = (
  (λ h. (
    flags % 2,
    flags / 64 % 2,
    flags / 32768 % 2,
    omega arith,
    omega arith,
    omega arith,
    ground arith,
  )),
  (λ (a, b, c, ha, hb, hc, e). ground arith),
)

-- What `generic_shutdown_super` calls back, when all else is released: the root's dentry, then the
-- superblock.
abbrev pub callbacks : {W : Type 0} → M W (Unit {0})
callbacks = do s ← read_state; trfs_d_release s.s_root; trfs_put_super

module _ {W : Type 0} where
  -- From any mounted state.
  pub record IsUnmounted (s v : State W) : Type 0 where
    pub live : v.live ≡ s.live - 1
    pub refs : v.refs ≡ s.refs - 1
    pub infos : v.infos ≡ s.infos - 1
    pub s_active : v.s_active ≡ s.s_active - 1
    pub s_fs_info : v.s_fs_info ≡ false
    pub locks : v.locks ≡ s.locks
    pub files : v.files ≡ s.files
    pub lower_files : v.lower_files ≡ s.lower_files
    pub kernel_ds : v.kernel_ds ≡ s.kernel_ds

  pub callbacks-IsUnmounted :
      (s : State W)
      → s.s_fs_info ≡ true
      → s.d_fsdata s.s_root ≡ true
      → s.s_root ≢ 0
      → (s.lower_path s.s_root).dentry ≢ 0
      → (v : State W) × (callbacks s ≡ ok (tt, v)) × IsUnmounted s v
  unfolding trfs_put_super trfs_d_release trfs_put_reset_lower_path free_dentry_private_data
  callbacks-IsUnmounted s h d r l = elim (Outcome-cases (callbacks s)) [
    | inl b ↦ absurd (ground (arith, b))
    | inr ((t, v), b) ↦ (
      v,
      b,
      record {
        live = ground arith;
        refs = ground arith;
        infos = ground arith;
        s_active = ground arith;
        s_fs_info = ground arith;
        locks = ground arith;
        files = ground arith;
        lower_files = ground arith;
        kernel_ds = ground arith;
      },
    )
  ]

  -- The three blocks of the mount path are freed first.
  abbrev pub without_path : State W → State W
  without_path s = record s { live = s.live - 1 - 1 - 1 }

  pub trfs_shutdown_super-then :
      (generic : M W (Unit {0})) (s v : State W)
      → s.s_fs_info ≡ true
      → generic (without_path s) ≡ ok (tt, v)
      → trfs_shutdown_super generic s ≡ ok (tt, v)
  unfolding trfs_shutdown_super
  trfs_shutdown_super-then generic s v h e = ground (arith, e)

module _ {W : Type 0} (k : Kernel W) (dput : Dentry → M W (Unit {0}))
    (generic : M W (Unit {0})) where
  -- After a mount that failed, the superblock has no private data, and the function that is called to
  -- kill it uses them: the kernel stops.
  pub trfs_shutdown_super_refused :
      (released : dput ≡ trfs_d_release) (F : Finds k) (mp : MountPath) (s s' : State W) (e : ℤ)
      → s.s_fs_info ≡ false
      → trfs_read_super k dput (some mp) s ≡ ok (e, s')
      → is_error e ≡ true
      → trfs_shutdown_super generic s' ≡ oops
  unfolding trfs_shutdown_super
  trfs_shutdown_super_refused released F mp s s' e h b x =
      elim (trfs_read_super-Mounted k dput released F mp s s' e h b) [
        | inl (y, q) ↦ ground (arith, q.s_fs_info)
        | inr (y, q) ↦ absurd (ground (arith, x, y))
      ]

  -- A mount that succeeds and the unmount after it give back all that they took: the references, the
  -- private data of the superblock and of the root, the hold on the lower superblock, and the three
  -- blocks of the mount path that were made before.
  trfs_shutdown_super-trfs_read_super :
      (released : dput ≡ trfs_d_release) (F : Finds k) (mp : MountPath) (n : ℕ) (s s' : State W)
      → generic ≡ callbacks
      → s.s_fs_info ≡ false
      → s.live ≡ n + 3
      → trfs_read_super k dput (some mp) s ≡ ok (pos 0, s')
      → (v : State W) × (trfs_shutdown_super generic s' ≡ ok (tt, v))
        × (v.live ≡ n)
        × (v.refs ≡ s.refs)
        × (v.infos ≡ s.infos)
        × (v.s_active ≡ s.s_active)
        × (v.s_fs_info ≡ false)
  trfs_shutdown_super-trfs_read_super released F mp n s s' g h l b =
      elim (trfs_read_super-Mounted k dput released F mp s s' (pos 0) h b) [
        | inl (y, q) ↦ absurd (ground (arith, y))
        | inr (y, (lower, ne, q)) ↦
            let (v, e, u) =
              callbacks-IsUnmounted (without_path s') q.s_fs_info q.d_fsdata q.root_ne
                (rw q.lower_path ne) in
            (
              v,
              trfs_shutdown_super-then generic s' v q.s_fs_info (rw g e),
              ground (arith, q, u.live),
              ground (arith, q, u.refs),
              ground (arith, q, u.infos),
              ground (arith, q, u.s_active),
              u.s_fs_info,
            )
      ]
