-- ===== src/Session/Logged/Files.antt =====
-- What trfs_create and trfs_unlink of fs/trfs/inode.c add to the trace file.
use trfs_stackable_filesyste.Common.{
  ℕ, ◌+◌, ◌<◌, ◌^◌, ◌≡◌, ◌≢◌, refl, sym, arith, Bool, ◌&&◌, ℤ, pos, negsuc, IsInt32, inl, inr,
  is_error, eqb_ℤ, if◌then◌else◌, Bool-cases, true,
}
use trfs_stackable_filesyste.Record.{create_call, unlink_call}
use trfs_stackable_filesyste.Kernel.{
  Dentry, Inode, d_inode, trfs_lower_inode, vfs_create, vfs_unlink, Kernel, State, ok, oops,
}
use trfs_stackable_filesyste.Lookup.Total.{trfs_interpose-interposed, tfile-interposed}
use trfs_stackable_filesyste.Tracing.{Tracing, Placing, Typed}
use trfs_stackable_filesyste.Trace.{nothing}
use trfs_stackable_filesyste.Inode.Files.{trfs_create, trfs_unlink}
use trfs_stackable_filesyste.Session.Returned.{logged_before}
use trfs_stackable_filesyste.Session.Logged.{
  Logged, silent, Logged-moved, PathFits, trace_if_set-traced, traced-Logged, Quiet,
  fits_of_success,
}

module _ {W : Type 0} (k : Kernel W) (T : Tracing k) (P : Placing T) (C : Typed k) where
  pub trfs_create-ne-oops :
      (dir : Inode) (d : Dentry) (mode : ℕ) (excl : Bool) (s : State W)
      → s.sb.tfile_path ≡ T.trace_path
      → s.d_fsdata d ≡ true
      → PathFits k T d
      → mode < 2 ^ 16
      → trfs_create k dir d mode excl s ≢ oops
  unfolding trfs_create
  trfs_create-ne-oops dir d mode excl s tp g l hm =
      λ h. grind (arith, trace_if_set-traced k T, trfs_interpose-interposed k)

  pub trfs_create-Logged :
      (dir : Inode) (d : Dentry) (mode : ℕ) (excl : Bool) (s s' : State W) (e : ℤ)
      → s.sb.tfile_path ≡ T.trace_path
      → PathFits k T d
      → mode < 2 ^ 16
      → IsInt32 s.sb.record_id
      → trfs_create k dir d mode excl s ≡ ok (e, s')
      → Logged T s.sb.mask
          (Quiet s create_call e)
          create_call
          d
          nothing
          s.world
          e
          (T.tfile s.world)
          (T.tfile s'.world)
          s.sb.record_id
          s'.sb.record_id
  unfolding trfs_create
  trfs_create-Logged dir d mode excl s s' e tp l hm hi h =
      let lower = (s.lower_path d).dentry in
      let c = vfs_create (d_inode (k.dget_parent lower s.world)) lower mode excl in
      let w1 = (k.call c s.world).1 in
      let err = (k.call c s.world).0 in
      let s1 = record s { refs = s.refs + 1 + 1; locks = s.locks + 1; world = w1 } in
      Logged-moved T
        (traced-Logged k T create_call (k.i_opflags dir w1) mode err d nothing s1 (omega arith)
          (C.i_opflags_fits dir w1) hm (C.call_fits c s.world) hi tp l tt)
        inl (sym (T.call_tfile c s.world)) (λ x. P.call_path x c s.world)
        (grind (
          arith,
          trace_if_set-traced k T,
          trfs_interpose-interposed k,
          tfile-interposed k T,
          T.effect_tfile,
          T.call_tfile,
          T.lock_rename_tfile,
        ))
        (grind (arith, trace_if_set-traced k T, trfs_interpose-interposed k))
        (logged_before create_call e err (inl refl) (λ bad. grind (arith, trace_if_set-traced k T)))

  pub trfs_unlink-ne-oops :
      (dir : Inode) (d : Dentry) (s : State W)
      → s.sb.tfile_path ≡ T.trace_path
      → s.d_fsdata d ≡ true
      → PathFits k T d
      → trfs_unlink k dir d s ≢ oops
  unfolding trfs_unlink
  trfs_unlink-ne-oops dir d s tp g l =
      λ h. grind (arith, trace_if_set-traced k T, trfs_interpose-interposed k)

  pub trfs_unlink-Logged :
      (dir : Inode) (d : Dentry) (s s' : State W) (e : ℤ)
      → s.sb.tfile_path ≡ T.trace_path
      → PathFits k T d
      → IsInt32 s.sb.record_id
      → trfs_unlink k dir d s ≡ ok (e, s')
      → Logged T s.sb.mask
          (Quiet s unlink_call e)
          unlink_call
          d
          nothing
          s.world
          e
          (T.tfile s.world)
          (T.tfile s'.world)
          s.sb.record_id
          s'.sb.record_id
  unfolding trfs_unlink
  trfs_unlink-Logged dir d s s' e tp l hi h =
      let lower = (s.lower_path d).dentry in
      let c = vfs_unlink (trfs_lower_inode dir) lower in
      let w1 = (k.call c s.world).1 in
      let err =
        if eqb_ℤ (k.call c s.world).0 (negsuc 15) && k.nfs_renamed lower w1
        then pos 0
        else (k.call c s.world).0 in
      let s1 = record s { refs = s.refs + 1 + 1 + 1; locks = s.locks + 1; world = w1 } in
      elim (Bool-cases (is_error err)) [
        | inl bad ↦
            silent (inr (grind arith))
              (grind (
                arith,
                trace_if_set-traced k T,
                trfs_interpose-interposed k,
                tfile-interposed k T,
                T.effect_tfile,
                T.call_tfile,
                T.lock_rename_tfile,
              ))
              (grind (arith, trace_if_set-traced k T, trfs_interpose-interposed k))
        | inr good ↦
            Logged-moved T
              (traced-Logged k T unlink_call 0 0 err d nothing s1 (omega arith) (omega arith)
                (omega arith) (fits_of_success err good) hi tp l tt)
              inl (sym (T.call_tfile c s.world)) (λ x. P.call_path x c s.world)
              (grind (
                arith,
                trace_if_set-traced k T,
                trfs_interpose-interposed k,
                tfile-interposed k T,
                T.effect_tfile,
                T.call_tfile,
                T.lock_rename_tfile,
              ))
              (grind (arith, trace_if_set-traced k T, trfs_interpose-interposed k))
              (inl (sym (grind (arith, trace_if_set-traced k T, trfs_interpose-interposed k))))
      ]
