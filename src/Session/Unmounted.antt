-- ===== src/Session/Unmounted.antt =====
-- From the mount to the unmount: trfs_read_super of fs/trfs/main.c, any requests, trfs_shutdown_super.
use trfs_stackable_filesyste.Common.{
  ◌-◌, ◌≡◌, ◌≢◌, sym, List, [], ◌∷◌, if◌then◌else◌, ◌∙◌, refl, arith, true, false, some, ℤ, pos,
  inl, inr,
}
use trfs_stackable_filesyste.Kernel.{Dentry, Kernel, State, ErrPtr, ok, M, ◌>>◌}
use trfs_stackable_filesyste.Tracing.{Finds, Tracing}
use trfs_stackable_filesyste.Lookup.Dentries.{trfs_d_release}
use trfs_stackable_filesyste.Mount.{MountPath}
use trfs_stackable_filesyste.Mount.Super.{trfs_read_super, trfs_shutdown_super}
use trfs_stackable_filesyste.Mount.Balance.{trfs_read_super-Mounted}
use trfs_stackable_filesyste.Mount.Unmount.{
  callbacks, callbacks-IsUnmounted, without_path, trfs_shutdown_super-then,
}
use trfs_stackable_filesyste.Session.{Request, serve}
use trfs_stackable_filesyste.Session.Balance.{serve-IsBalanced}
use trfs_stackable_filesyste.Session.Dentries.{Without}
use trfs_stackable_filesyste.Session.Held.{
  IsHeld, IsHeld-IsKept, IsHeld-trfs_lookup, IsHeld-trfs_d_release, release_all, release_all_lem,
  live-release_all, lower_files-release_all,
}
use trfs_stackable_filesyste.Lookup.Names.{trfs_lookup}
use trfs_stackable_filesyste.Session.Kept.{serve-IsKept}
use trfs_stackable_filesyste.Session.Others.{Other, Reply, serve_other}
use trfs_stackable_filesyste.Session.Others.Passed.{serve_other-IsPassed}
use trfs_stackable_filesyste.Session.Others.Kept.{serve_other-IsKept}

module _ {W : Type 0} (k : Kernel W) where
  -- Requests that were served one after the other, each with whatever result, lookups of new dentries
  -- and releases of dentries that were looked up; the list has those that are still there. Between them
  -- the rest of the kernel may change its world, and frees the text of a link that was read.
  pub data Requests (s : State W) : List Dentry → State W → Type 0 where
    begin : Requests s [] s
    traced :
        {ds : List Dentry} {u v : State W} (r : Request) (e : ℤ)
        → Requests s ds u
        → serve k r u ≡ ok (e, v)
        → Requests s ds v
    untraced :
        {ds : List Dentry} {u v : State W} (r : Other) (e : Reply)
        → Requests s ds u
        → serve_other k r u ≡ ok (e, v)
        → Requests s ds v
    looked_up :
        {ds : List Dentry} {u v : State W} (d : Dentry) (r : ErrPtr)
        → Requests s ds u
        → d ≢ 0
        → u.d_fsdata d ≡ false
        → trfs_lookup k d u ≡ ok (r, v)
        → Requests s (if v.d_fsdata d then d ∷ ds else ds) v
    released :
        {ds es : List Dentry} {u v : State W} (d : Dentry)
        → Requests s ds u
        → Without d ds es
        → trfs_d_release d u ≡ ok (tt, v)
        → Requests s es v
    world_moves :
        {ds : List Dentry} {u : State W} (w : W)
        → Requests s ds u
        → Requests s ds (record u { world = w })
    text_freed :
        {ds : List Dentry} {u : State W}
        → Requests s ds u
        → Requests s ds (record u { live = u.live - 1 })

  Requests-IsHeld :
      (T : Tracing k) (F : Finds k) (s v : State W) (ds : List Dentry)
      → s.d_fsdata s.s_root ≡ true
      → Requests s ds v
      → IsHeld s ds v
  Requests-IsHeld T F s v ds h begin = record {
    refs = omega arith;
    infos = omega arith;
    locks = refl;
    files = refl;
    kernel_ds = refl;
    s_fs_info = refl;
    s_root = refl;
    s_active = refl;
    root_data = h;
    root_path = refl;
    live = tt;
  }
  Requests-IsHeld T F s v ds h (traced {u} r e p x) =
      let b = serve-IsBalanced k u v e r x in
      IsHeld-IsKept s u v ds (Requests-IsHeld T F s u ds h p) (serve-IsKept k u v e r x) b.refs
        b.locks b.files b.kernel_ds
  Requests-IsHeld T F s v ds h (untraced {u} r e p x) =
      let b = serve_other-IsPassed k T u v e r x in
      IsHeld-IsKept s u v ds (Requests-IsHeld T F s u ds h p) (serve_other-IsKept k u v e r x)
        b.refs b.locks b.files b.kernel_ds
  Requests-IsHeld T F s v ds h (looked_up {ds = es} {u = u} d r p n f x) =
      IsHeld-trfs_lookup k F d s u v es r n f (Requests-IsHeld T F s u es h p) x
  Requests-IsHeld T F s v ds h (released {ds = cs} {u = u} d p w x) =
      IsHeld-trfs_d_release d s u v cs ds w (Requests-IsHeld T F s u cs h p) x
  Requests-IsHeld T F s v ds h (world_moves {u} w p) =
      IsHeld-IsKept s u v ds (Requests-IsHeld T F s u ds h p) refl refl refl refl refl
  Requests-IsHeld T F s v ds h (text_freed {u} p) =
      IsHeld-IsKept s u v ds (Requests-IsHeld T F s u ds h p) refl refl refl refl refl

  -- After a successful mount and any requests, traced and untraced, that returned with whatever result,
  -- lookups of new dentries and releases of these, the unmount, which releases the dentries that are
  -- still there, gives back all that the mount and they took: the references to lower dentries, the
  -- private data of the dentries, the hold on the lower superblock and the superblock's own data; and no
  -- lock, trace file or address limit is left over. Four blocks from `kmalloc` are freed, and
  -- the references to lower files are as the requests left them.
  pub trfs_shutdown_super-Requests :
      (T : Tracing k) (F : Finds k) (dput : Dentry → M W (Unit {0})) (generic : M W (Unit {0}))
      (mp : MountPath) (s u v : State W) (ds : List Dentry)
      → dput ≡ trfs_d_release
      → generic ≡ (release_all ds >> callbacks)
      → s.s_fs_info ≡ false
      → trfs_read_super k dput (some mp) s ≡ ok (pos 0, u)
      → Requests u ds v
      → (w : State W) × (trfs_shutdown_super generic v ≡ ok (tt, w))
        × (w.live ≡ v.live - 4)
        × (w.lower_files ≡ v.lower_files)
        × (w.refs ≡ s.refs)
        × (w.locks ≡ s.locks)
        × (w.files ≡ s.files)
        × (w.kernel_ds ≡ s.kernel_ds)
        × (w.infos ≡ s.infos)
        × (w.s_active ≡ s.s_active)
        × (w.s_fs_info ≡ false)
  trfs_shutdown_super-Requests T F dput generic mp s u v ds dp g h e p =
      elim (trfs_read_super-Mounted k dput dp F mp s u (pos 0) h e) [
        | inl (y, q) ↦ absurd (ground (arith, y))
        | inr (y, (lower, ne, q)) ↦
            let b = Requests-IsHeld T F u v ds q.d_fsdata p in
            let v1 = without_path v in
            let b1 = IsHeld-IsKept u v v1 ds b refl refl refl refl refl in
            let (r, er, c) = release_all_lem u v1 ds b1 in
            let (w, ew, x) =
              callbacks-IsUnmounted r (c.s_fs_info ∙ q.s_fs_info) (rw c.s_root c.root_data)
                (λ n. q.root_ne (sym c.s_root ∙ n))
                (λ n. ne (ground (arith, c.s_root, c.root_path, q.lower_path, n))) in
            (
              w,
              trfs_shutdown_super-then generic v w (b.s_fs_info ∙ q.s_fs_info)
                  (rw g (ground (arith, er, ew))),
              omega (arith, x.live, live-release_all v1 r ds er),
              x.lower_files ∙ lower_files-release_all v1 r ds er,
              ground (arith, x.refs, c.refs, q.refs),
              x.locks ∙ c.locks ∙ q.locks,
              x.files ∙ c.files ∙ q.files,
              x.kernel_ds ∙ c.kernel_ds ∙ q.kernel_ds,
              ground (arith, x.infos, c.infos, q.infos),
              ground (arith, x.s_active, c.s_active, q.s_active),
              x.s_fs_info,
            )
      ]
