-- ===== src/Session/Logged/Directories.antt =====
-- What trfs_mkdir and trfs_rmdir of fs/trfs/inode.c add to the trace file.
use trfs_stackable_filesyste.Common.{
  ℕ, ◌+◌, ◌<◌, ◌^◌, ◌≡◌, ◌≢◌, refl, sym, arith, ℤ, IsInt32, inl, inr, is_error, Bool-cases, true,
}
use trfs_stackable_filesyste.Record.{mkdir_call, rmdir_call}
use trfs_stackable_filesyste.Kernel.{
  Dentry, Inode, d_inode, vfs_mkdir, vfs_rmdir, Kernel, State, ok, oops,
}
use trfs_stackable_filesyste.Lookup.Total.{trfs_interpose-interposed, tfile-interposed}
use trfs_stackable_filesyste.Tracing.{Tracing, Placing, Typed}
use trfs_stackable_filesyste.Trace.{nothing}
use trfs_stackable_filesyste.Inode.Directories.{trfs_mkdir, trfs_rmdir}
use trfs_stackable_filesyste.Session.Returned.{logged_before}
use trfs_stackable_filesyste.Session.Logged.{
  Logged, silent, Logged-moved, PathFits, trace_if_set-traced, traced-Logged, Quiet,
  fits_of_success,
}

module _ {W : Type 0} (k : Kernel W) (T : Tracing k) (P : Placing T) (C : Typed k) where
  pub trfs_mkdir-ne-oops :
      (dir : Inode) (d : Dentry) (mode : ℕ) (s : State W)
      → s.sb.tfile_path ≡ T.trace_path
      → s.d_fsdata d ≡ true
      → PathFits k T d
      → mode < 2 ^ 16
      → trfs_mkdir k dir d mode s ≢ oops
  unfolding trfs_mkdir
  trfs_mkdir-ne-oops dir d mode s tp g l hm =
      λ h. grind (arith, trace_if_set-traced k T, trfs_interpose-interposed k)

  pub trfs_mkdir-Logged :
      (dir : Inode) (d : Dentry) (mode : ℕ) (s s' : State W) (e : ℤ)
      → s.sb.tfile_path ≡ T.trace_path
      → PathFits k T d
      → mode < 2 ^ 16
      → IsInt32 s.sb.record_id
      → trfs_mkdir k dir d mode s ≡ ok (e, s')
      → Logged T s.sb.mask
          (Quiet s mkdir_call e)
          mkdir_call
          d
          nothing
          s.world
          e
          (T.tfile s.world)
          (T.tfile s'.world)
          s.sb.record_id
          s'.sb.record_id
  unfolding trfs_mkdir
  trfs_mkdir-Logged dir d mode s s' e tp l hm hi h =
      let lower = (s.lower_path d).dentry in
      let c = vfs_mkdir (d_inode (k.dget_parent lower s.world)) lower mode in
      let w1 = (k.call c s.world).1 in
      let err = (k.call c s.world).0 in
      let s1 = record s { refs = s.refs + 1 + 1; locks = s.locks + 1; world = w1 } in
      elim (Bool-cases (is_error err)) [
        | inl bad ↦
            silent (inr (grind arith))
              (grind (
                arith,
                trace_if_set-traced k T,
                trfs_interpose-interposed k,
                tfile-interposed k T,
                T.effect_tfile,
                T.call_tfile,
                T.lock_rename_tfile,
              ))
              (grind (arith, trace_if_set-traced k T, trfs_interpose-interposed k))
        | inr good ↦
            Logged-moved T
              (traced-Logged k T mkdir_call (k.i_opflags dir w1) mode err d nothing s1 (omega arith)
                (C.i_opflags_fits dir w1) hm (fits_of_success err good) hi tp l tt)
              inl (sym (T.call_tfile c s.world)) (λ x. P.call_path x c s.world)
              (grind (
                arith,
                trace_if_set-traced k T,
                trfs_interpose-interposed k,
                tfile-interposed k T,
                T.effect_tfile,
                T.call_tfile,
                T.lock_rename_tfile,
              ))
              (grind (arith, trace_if_set-traced k T, trfs_interpose-interposed k))
              (logged_before mkdir_call e err (inr refl)
                (λ bad. absurd (ground (arith, good, bad))))
      ]

  pub trfs_rmdir-ne-oops :
      (dir : Inode) (d : Dentry) (s : State W)
      → s.sb.tfile_path ≡ T.trace_path
      → s.d_fsdata d ≡ true
      → PathFits k T d
      → trfs_rmdir k dir d s ≢ oops
  unfolding trfs_rmdir
  trfs_rmdir-ne-oops dir d s tp g l =
      λ h. grind (arith, trace_if_set-traced k T, trfs_interpose-interposed k)

  pub trfs_rmdir-Logged :
      (dir : Inode) (d : Dentry) (s s' : State W) (e : ℤ)
      → s.sb.tfile_path ≡ T.trace_path
      → PathFits k T d
      → IsInt32 s.sb.record_id
      → trfs_rmdir k dir d s ≡ ok (e, s')
      → Logged T s.sb.mask
          (Quiet s rmdir_call e)
          rmdir_call
          d
          nothing
          s.world
          e
          (T.tfile s.world)
          (T.tfile s'.world)
          s.sb.record_id
          s'.sb.record_id
  unfolding trfs_rmdir
  trfs_rmdir-Logged dir d s s' e tp l hi h =
      let lower = (s.lower_path d).dentry in
      let c = vfs_rmdir (d_inode (k.dget_parent lower s.world)) lower in
      let w1 = (k.call c s.world).1 in
      let err = (k.call c s.world).0 in
      let s1 = record s { refs = s.refs + 1 + 1; locks = s.locks + 1; world = w1 } in
      elim (Bool-cases (is_error err)) [
        | inl bad ↦
            silent (inr (grind arith))
              (grind (
                arith,
                trace_if_set-traced k T,
                trfs_interpose-interposed k,
                tfile-interposed k T,
                T.effect_tfile,
                T.call_tfile,
                T.lock_rename_tfile,
              ))
              (grind (arith, trace_if_set-traced k T, trfs_interpose-interposed k))
        | inr good ↦
            Logged-moved T
              (traced-Logged k T rmdir_call (k.i_opflags dir w1) (k.i_mode dir w1) err d nothing s1
                (omega arith) (C.i_opflags_fits dir w1) (C.i_mode_fits dir w1)
                (fits_of_success err good) hi tp l tt)
              inl (sym (T.call_tfile c s.world)) (λ x. P.call_path x c s.world)
              (grind (
                arith,
                trace_if_set-traced k T,
                trfs_interpose-interposed k,
                tfile-interposed k T,
                T.effect_tfile,
                T.call_tfile,
                T.lock_rename_tfile,
              ))
              (grind (arith, trace_if_set-traced k T, trfs_interpose-interposed k))
              (inl (sym (grind (arith, trace_if_set-traced k T, trfs_interpose-interposed k))))
      ]
