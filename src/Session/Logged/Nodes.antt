-- ===== src/Session/Logged/Nodes.antt =====
-- What trfs_mknod and trfs_rename of fs/trfs/inode.c add to the trace file.
use trfs_stackable_filesyste.Common.{
  ℕ, ◌+◌, ◌<◌, ◌^◌, ◌≡◌, ◌≢◌, ◌∙◌, sym, arith, ◌||◌, ℤ, IsInt32, inl, inr, is_error, Bool-cases,
  ◌==◌, true,
}
use trfs_stackable_filesyste.Record.{mknod_call, rename_call}
use trfs_stackable_filesyste.Kernel.{
  Dentry, Inode, d_inode, vfs_mknod, vfs_rename, Kernel, State, ok, oops,
}
use trfs_stackable_filesyste.Lookup.Total.{
  interposed, trfs_interpose-interposed, tfile-interposed, path-interposed,
}
use trfs_stackable_filesyste.Tracing.{Tracing, Placing, Typed}
use trfs_stackable_filesyste.Trace.{nothing, path}
use trfs_stackable_filesyste.Inode.Directories.{trfs_mknod, trfs_rename}
use trfs_stackable_filesyste.Session.Logged.{
  Logged, silent, Logged-moved, PathFits, trace_if_set-traced, traced-Logged, Quiet,
  fits_of_success,
}

module _ {W : Type 0} (k : Kernel W) (T : Tracing k) (P : Placing T) (C : Typed k) where
  pub trfs_mknod-ne-oops :
      (dir : Inode) (d : Dentry) (mode dev : ℕ) (s : State W)
      → s.sb.tfile_path ≡ T.trace_path
      → s.d_fsdata d ≡ true
      → PathFits k T d
      → mode < 2 ^ 16
      → dev < 2 ^ 32
      → trfs_mknod k dir d mode dev s ≢ oops
  unfolding trfs_mknod
  trfs_mknod-ne-oops dir d mode dev s tp g l hm hd =
      λ h. grind (arith, trace_if_set-traced k T, trfs_interpose-interposed k)

  pub trfs_mknod-Logged :
      (dir : Inode) (d : Dentry) (mode dev : ℕ) (s s' : State W) (e : ℤ)
      → s.sb.tfile_path ≡ T.trace_path
      → PathFits k T d
      → mode < 2 ^ 16
      → dev < 2 ^ 32
      → IsInt32 s.sb.record_id
      → trfs_mknod k dir d mode dev s ≡ ok (e, s')
      → Logged T s.sb.mask
          (Quiet s mknod_call e)
          mknod_call
          d
          nothing
          s.world
          e
          (T.tfile s.world)
          (T.tfile s'.world)
          s.sb.record_id
          s'.sb.record_id
  unfolding trfs_mknod
  trfs_mknod-Logged dir d mode dev s s' e tp l hm hd hi h =
      let lower = s.lower_path d in
      let c = vfs_mknod (d_inode (k.dget_parent lower.dentry s.world)) lower.dentry mode dev in
      let w1 = (k.call c s.world).1 in
      let s1 = record s { refs = s.refs + 1 + 1; locks = s.locks + 1; world = w1 } in
      let (e2, w2) = interposed k d lower s1 in
      let s2 = record s1 { world = w2 } in
      elim (Bool-cases (is_error (k.call c s.world).0)) [
        | inl bad ↦
            silent (inr (grind arith))
              (grind (
                arith,
                trace_if_set-traced k T,
                trfs_interpose-interposed k,
                tfile-interposed k T,
                T.effect_tfile,
                T.call_tfile,
                T.lock_rename_tfile,
              ))
              (grind (arith, trace_if_set-traced k T, trfs_interpose-interposed k))
        | inr good ↦ elim (Bool-cases (is_error e2)) [
          | inl bad2 ↦
              silent (inr (grind (arith, trace_if_set-traced k T, trfs_interpose-interposed k)))
                (grind (
                  arith,
                  trace_if_set-traced k T,
                  trfs_interpose-interposed k,
                  tfile-interposed k T,
                  T.effect_tfile,
                  T.call_tfile,
                  T.lock_rename_tfile,
                ))
                (grind (arith, trace_if_set-traced k T, trfs_interpose-interposed k))
          | inr good2 ↦
              Logged-moved T
                (traced-Logged k T mknod_call dev mode e2 d nothing s2 (omega arith) hd hm
                  (fits_of_success e2 good2) hi tp l tt)
                inl (sym (tfile-interposed k T d lower s1 ∙ T.call_tfile c s.world))
                (λ x. path-interposed k P x d lower s1 ∙ P.call_path x c s.world)
                (grind (
                  arith,
                  trace_if_set-traced k T,
                  trfs_interpose-interposed k,
                  tfile-interposed k T,
                  T.effect_tfile,
                  T.call_tfile,
                  T.lock_rename_tfile,
                ))
                (grind (arith, trace_if_set-traced k T, trfs_interpose-interposed k))
                (inl (sym (grind (arith, trace_if_set-traced k T, trfs_interpose-interposed k))))
        ]
      ]

  pub trfs_rename-ne-oops :
      (old_dir : ℕ) (old : Dentry) (new_dir : ℕ) (new : Dentry) (s : State W)
      → s.sb.tfile_path ≡ T.trace_path
      → s.d_fsdata old ≡ true
      → s.d_fsdata new ≡ true
      → PathFits k T old
      → PathFits k T new
      → trfs_rename k old_dir old new_dir new s ≢ oops
  unfolding trfs_rename
  trfs_rename-ne-oops old_dir old new_dir new s tp g g2 l l2 =
      λ h. grind (arith, trace_if_set-traced k T, trfs_interpose-interposed k)

  pub trfs_rename-Logged :
      (old_dir : ℕ) (old : Dentry) (new_dir : ℕ) (new : Dentry) (s s' : State W) (e : ℤ)
      → s.sb.tfile_path ≡ T.trace_path
      → PathFits k T old
      → PathFits k T new
      → IsInt32 s.sb.record_id
      → trfs_rename k old_dir old new_dir new s ≡ ok (e, s')
      → Logged T s.sb.mask
          (Quiet s rename_call e)
          rename_call
          old
          (path new)
          s.world
          e
          (T.tfile s.world)
          (T.tfile s'.world)
          s.sb.record_id
          s'.sb.record_id
  unfolding trfs_rename
  trfs_rename-Logged old_dir old new_dir new s s' e tp l l2 hi h =
      let lower_old = (s.lower_path old).dentry in
      let lower_new = (s.lower_path new).dentry in
      let old_parent = k.dget_parent lower_old s.world in
      let new_parent = k.dget_parent lower_new s.world in
      let (trap, w1) = k.lock_rename old_parent new_parent s.world in
      let c = vfs_rename (d_inode old_parent) lower_old (d_inode new_parent) lower_new in
      let w2 = (k.call c w1).1 in
      let err = (k.call c w1).0 in
      let s2 = record s { refs = s.refs + 1 + 1 + 1 + 1; locks = s.locks + 1; world = w2 } in
      elim (Bool-cases (trap == lower_old || trap == lower_new || is_error err)) [
        | inl bad ↦
            silent (inr (grind arith))
              (grind (
                arith,
                trace_if_set-traced k T,
                trfs_interpose-interposed k,
                tfile-interposed k T,
                T.effect_tfile,
                T.call_tfile,
                T.lock_rename_tfile,
              ))
              (grind (arith, trace_if_set-traced k T, trfs_interpose-interposed k))
        | inr good ↦
            Logged-moved T
              (traced-Logged k T rename_call 0 0 err old (path new) s2 (omega arith) (omega arith)
                (omega arith) (fits_of_success err (ground arith)) hi tp l l2)
              inl (sym (T.call_tfile c w1 ∙ T.lock_rename_tfile old_parent new_parent s.world))
              (λ x. P.call_path x c w1 ∙ P.lock_rename_path x old_parent new_parent s.world)
              (grind (
                arith,
                trace_if_set-traced k T,
                trfs_interpose-interposed k,
                tfile-interposed k T,
                T.effect_tfile,
                T.call_tfile,
                T.lock_rename_tfile,
              ))
              (grind (arith, trace_if_set-traced k T, trfs_interpose-interposed k))
              (inl (sym (grind (arith, trace_if_set-traced k T, trfs_interpose-interposed k))))
      ]
