-- ===== src/Session/Lifetimes/Closed.antt =====
-- From the mount of fs/trfs to the unmount, with the memory: every file that was opened is closed.
use trfs_stackable_filesyste.Common.{ℕ, ◌+◌, ◌≡◌, arith, false, some, List, [], pos, inl, inr}
use trfs_stackable_filesyste.Kernel.{Dentry, Kernel, State, ok, M, ◌>>◌}
use trfs_stackable_filesyste.Tracing.{Finds, Tracing}
use trfs_stackable_filesyste.Lookup.Dentries.{trfs_d_release}
use trfs_stackable_filesyste.Mount.{MountPath}
use trfs_stackable_filesyste.Mount.Super.{trfs_read_super, trfs_shutdown_super}
use trfs_stackable_filesyste.Mount.Balance.{trfs_read_super-Mounted}
use trfs_stackable_filesyste.Mount.Unmount.{callbacks}
use trfs_stackable_filesyste.Session.Infos.{Opens}
use trfs_stackable_filesyste.Session.Held.{release_all}
use trfs_stackable_filesyste.Session.Unmounted.{trfs_shutdown_super-Requests}
use trfs_stackable_filesyste.Session.Lifetimes.{Lifetimes, Requests-Lifetimes}
use trfs_stackable_filesyste.Session.Lifetimes.Live.{Lifetimes-live}

module _ {W : Type 0} (k : Kernel W) (T : Tracing k) (F : Finds k) (O : Opens k) where
  -- The mount has made one block, and the unmount frees it with the three of the mount path.
  live-trfs_read_super :
      (dput : Dentry → M W (Unit {0})) (mp : MountPath) (s u : State W)
      → dput ≡ trfs_d_release
      → s.s_fs_info ≡ false
      → trfs_read_super k dput (some mp) s ≡ ok (pos 0, u)
      → (u.live ≡ s.live + 1) × (u.lower_files ≡ s.lower_files)
  live-trfs_read_super dput mp s u d h e =
      elim (trfs_read_super-Mounted k dput d F mp s u (pos 0) h e) [
        | inl (y, q) ↦ absurd (ground (arith, y))
        | inr (y, (lower, ne, q)) ↦ (q.live, q.lower_files)
      ]

  -- From a successful mount, whose path takes three blocks, over requests in an order that the VFS keeps,
  -- to the unmount: if every file that was opened is closed and the text of every link that was read is
  -- freed, no block from `kmalloc` is left over, nor a reference to a lower dentry or a
  -- lower file, private data of a dentry, the hold on the lower superblock, a lock, a trace file or an
  -- address limit.
  pub trfs_shutdown_super-Lifetimes :
      (dput : Dentry → M W (Unit {0})) (generic : M W (Unit {0})) (mp : MountPath) (m : ℕ)
      (s u v : State W) (ds : List Dentry)
      → dput ≡ trfs_d_release
      → generic ≡ (release_all ds >> callbacks)
      → s.s_fs_info ≡ false
      → s.live ≡ m + 3
      → trfs_read_super k dput (some mp) s ≡ ok (pos 0, u)
      → Lifetimes k u ds [] 0 v
      → (w : State W) × (trfs_shutdown_super generic v ≡ ok (tt, w))
        × (w.live ≡ m)
        × (w.lower_files ≡ s.lower_files)
        × (w.refs ≡ s.refs)
        × (w.locks ≡ s.locks)
        × (w.files ≡ s.files)
        × (w.kernel_ds ≡ s.kernel_ds)
        × (w.infos ≡ s.infos)
        × (w.s_active ≡ s.s_active)
        × (w.s_fs_info ≡ false)
  trfs_shutdown_super-Lifetimes dput generic mp m s u v ds d g h l e p =
      let (w, r, live, opened, refs, locks, files, ds_kept, infos, active, sb) =
        trfs_shutdown_super-Requests k T F dput generic mp s u v ds d g h e
          (Requests-Lifetimes k u v ds [] 0 p) in
      let (others, counted, opened_since) = Lifetimes-live k T F O u v ds [] 0 p in
      let (made, none_yet) = live-trfs_read_super dput mp s u d h e in
      let freed : w.live ≡ m = omega (arith, live, counted, l, made) in
      let closed : w.lower_files ≡ s.lower_files = omega (arith, opened, opened_since, none_yet) in
      (w, r, freed, closed, refs, locks, files, ds_kept, infos, active, sb)
