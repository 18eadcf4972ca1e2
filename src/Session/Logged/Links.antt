-- ===== src/Session/Logged/Links.antt =====
-- What trfs_link and trfs_symlink of fs/trfs/inode.c add to the trace file.
use trfs_stackable_filesyste.Common.{
  ℕ, ◌+◌, ◌<◌, ◌^◌, ◌≡◌, ◌≢◌, ◌∙◌, sym, arith, true, List, ℤ, IsInt32, inl, inr, is_error,
  Bool-cases, length,
}
use trfs_stackable_filesyste.Record.{link_call, symlink_call}
use trfs_stackable_filesyste.Kernel.{
  Dentry, Inode, d_inode, vfs_link, vfs_symlink, Kernel, State, ok, oops,
}
use trfs_stackable_filesyste.Lookup.Total.{
  interposed, trfs_interpose-interposed, tfile-interposed, path-interposed,
}
use trfs_stackable_filesyste.Tracing.{Tracing, Placing, Typed}
use trfs_stackable_filesyste.Trace.{path, text}
use trfs_stackable_filesyste.Inode.Files.{trfs_link, trfs_symlink}
use trfs_stackable_filesyste.Session.Logged.{
  Logged, silent, Logged-moved, PathFits, trace_if_set-traced, traced-Logged, Quiet,
  fits_of_success,
}

module _ {W : Type 0} (k : Kernel W) (T : Tracing k) (P : Placing T) (C : Typed k) where
  pub trfs_link-ne-oops :
      (old : Dentry) (dir : Inode) (new : Dentry) (s : State W)
      → s.sb.tfile_path ≡ T.trace_path
      → s.d_fsdata old ≡ true
      → s.d_fsdata new ≡ true
      → PathFits k T old
      → PathFits k T new
      → ((w : W) → k.has_inode (s.lower_path new).dentry w ≡ true)
      → trfs_link k old dir new s ≢ oops
  unfolding trfs_link
  trfs_link-ne-oops old dir new s tp g g2 l l2 p =
      λ h. grind (arith, trace_if_set-traced k T, trfs_interpose-interposed k)

  pub trfs_link-Logged :
      (old : Dentry) (dir : Inode) (new : Dentry) (s s' : State W) (e : ℤ)
      → s.sb.tfile_path ≡ T.trace_path
      → PathFits k T old
      → PathFits k T new
      → ((w : W) → k.has_inode (s.lower_path new).dentry w ≡ true)
      → IsInt32 s.sb.record_id
      → trfs_link k old dir new s ≡ ok (e, s')
      → Logged T s.sb.mask
          (Quiet s link_call e)
          link_call
          old
          (path new)
          s.world
          e
          (T.tfile s.world)
          (T.tfile s'.world)
          s.sb.record_id
          s'.sb.record_id
  unfolding trfs_link
  trfs_link-Logged old dir new s s' e tp l l2 p hi h =
      let lower_old = (s.lower_path old).dentry in
      let lower_new = s.lower_path new in
      let c =
        vfs_link lower_old (d_inode (k.dget_parent lower_new.dentry s.world)) lower_new.dentry in
      let w1 = (k.call c s.world).1 in
      let s1 = record s { refs = s.refs + 1 + 1 + 1; locks = s.locks + 1; world = w1 } in
      let (e2, w2) = interposed k new lower_new s1 in
      let s2 = record s1 { world = w2 } in
      let pw = p w1 in
      elim (Bool-cases (is_error (k.call c s.world).0)) [
        | inl bad ↦
            silent (inr (grind (arith, pw)))
              (grind (
                arith,
                pw,
                trace_if_set-traced k T,
                trfs_interpose-interposed k,
                tfile-interposed k T,
                T.effect_tfile,
                T.call_tfile,
                T.lock_rename_tfile,
              ))
              (grind (arith, pw, trace_if_set-traced k T, trfs_interpose-interposed k))
        | inr good ↦ elim (Bool-cases (is_error e2)) [
          | inl bad2 ↦
              silent (inr (grind (arith, pw, trace_if_set-traced k T, trfs_interpose-interposed k)))
                (grind (
                  arith,
                  pw,
                  trace_if_set-traced k T,
                  trfs_interpose-interposed k,
                  tfile-interposed k T,
                  T.effect_tfile,
                  T.call_tfile,
                  T.lock_rename_tfile,
                ))
                (grind (arith, pw, trace_if_set-traced k T, trfs_interpose-interposed k))
          | inr good2 ↦
              Logged-moved T
                (traced-Logged k T link_call 0 0 e2 old (path new) s2 (omega arith) (omega arith)
                  (omega arith) (fits_of_success e2 good2) hi tp l l2)
                inl (sym (tfile-interposed k T new lower_new s1 ∙ T.call_tfile c s.world))
                (λ x. path-interposed k P x new lower_new s1 ∙ P.call_path x c s.world)
                (grind (
                  arith,
                  pw,
                  trace_if_set-traced k T,
                  trfs_interpose-interposed k,
                  tfile-interposed k T,
                  T.effect_tfile,
                  T.call_tfile,
                  T.lock_rename_tfile,
                ))
                (grind (arith, pw, trace_if_set-traced k T, trfs_interpose-interposed k))
                (inl
                  (sym (grind (arith, pw, trace_if_set-traced k T, trfs_interpose-interposed k))))
        ]
      ]

  pub trfs_symlink-ne-oops :
      (dir : Inode) (d : Dentry) (symname : List ℕ) (s : State W)
      → s.sb.tfile_path ≡ T.trace_path
      → s.d_fsdata d ≡ true
      → PathFits k T d
      → length symname < 2 ^ 15
      → trfs_symlink k dir d symname s ≢ oops
  unfolding trfs_symlink
  trfs_symlink-ne-oops dir d symname s tp g l hn =
      λ h. grind (arith, trace_if_set-traced k T, trfs_interpose-interposed k)

  pub trfs_symlink-Logged :
      (dir : Inode) (d : Dentry) (symname : List ℕ) (s s' : State W) (e : ℤ)
      → s.sb.tfile_path ≡ T.trace_path
      → PathFits k T d
      → length symname < 2 ^ 15
      → IsInt32 s.sb.record_id
      → trfs_symlink k dir d symname s ≡ ok (e, s')
      → Logged T s.sb.mask
          (Quiet s symlink_call e)
          symlink_call
          d
          (text symname)
          s.world
          e
          (T.tfile s.world)
          (T.tfile s'.world)
          s.sb.record_id
          s'.sb.record_id
  unfolding trfs_symlink
  trfs_symlink-Logged dir d symname s s' e tp l hn hi h =
      let lower = s.lower_path d in
      let c = vfs_symlink (d_inode (k.dget_parent lower.dentry s.world)) lower.dentry symname in
      let w1 = (k.call c s.world).1 in
      let s1 = record s { refs = s.refs + 1 + 1; locks = s.locks + 1; world = w1 } in
      let (e2, w2) = interposed k d lower s1 in
      let s2 = record s1 { world = w2 } in
      elim (Bool-cases (is_error (k.call c s.world).0)) [
        | inl bad ↦
            silent (inr (grind arith))
              (grind (
                arith,
                trace_if_set-traced k T,
                trfs_interpose-interposed k,
                tfile-interposed k T,
                T.effect_tfile,
                T.call_tfile,
                T.lock_rename_tfile,
              ))
              (grind (arith, trace_if_set-traced k T, trfs_interpose-interposed k))
        | inr good ↦ elim (Bool-cases (is_error e2)) [
          | inl bad2 ↦
              silent (inr (grind (arith, trace_if_set-traced k T, trfs_interpose-interposed k)))
                (grind (
                  arith,
                  trace_if_set-traced k T,
                  trfs_interpose-interposed k,
                  tfile-interposed k T,
                  T.effect_tfile,
                  T.call_tfile,
                  T.lock_rename_tfile,
                ))
                (grind (arith, trace_if_set-traced k T, trfs_interpose-interposed k))
          | inr good2 ↦
              Logged-moved T
                (traced-Logged k T symlink_call 0 0 e2 d (text symname) s2 (omega arith)
                  (omega arith) (omega arith) (fits_of_success e2 good2) hi tp l hn)
                inl (sym (tfile-interposed k T d lower s1 ∙ T.call_tfile c s.world))
                (λ x. path-interposed k P x d lower s1 ∙ P.call_path x c s.world)
                (grind (
                  arith,
                  trace_if_set-traced k T,
                  trfs_interpose-interposed k,
                  tfile-interposed k T,
                  T.effect_tfile,
                  T.call_tfile,
                  T.lock_rename_tfile,
                ))
                (grind (arith, trace_if_set-traced k T, trfs_interpose-interposed k))
                (inl (sym (grind (arith, trace_if_set-traced k T, trfs_interpose-interposed k))))
        ]
      ]
