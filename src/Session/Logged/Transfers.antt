-- ===== src/Session/Logged/Transfers.antt =====
-- What trfs_read and trfs_write of fs/trfs/file.c add to the trace file.
use trfs_stackable_filesyste.Common.{
  ℕ, ◌≡◌, ◌≢◌, ◌∙◌, sym, arith, List, some, ℤ, IsInt32, inl, inr, is_negative, Bool-cases,
}
use trfs_stackable_filesyste.Record.{read_call, write_call}
use trfs_stackable_filesyste.Kernel.{
  File, d_inode, file_inode, vfs_read, vfs_write, copy_attr_atime, FileInfo, Kernel, State, ok,
  oops,
}
use trfs_stackable_filesyste.Lookup.Total.{trfs_interpose-interposed, tfile-interposed}
use trfs_stackable_filesyste.Tracing.{Tracing, Placing, Typed}
use trfs_stackable_filesyste.Trace.{nothing, content}
use trfs_stackable_filesyste.File.{trfs_read, trfs_write}
use trfs_stackable_filesyste.Session.Logged.{
  Logged, Logged-moved, PathFits, PartFits, trace_if_set-traced, traced-Logged, Quiet,
}

module _ {W : Type 0} (k : Kernel W) (T : Tracing k) (P : Placing T) (C : Typed k) where
  pub trfs_read-ne-oops :
      (f : File) (n : ℕ) (i : FileInfo) (s : State W)
      → s.file_info f ≡ some i
      → s.sb.tfile_path ≡ T.trace_path
      → i.lower_file ≢ 0
      → PathFits k T (k.f_dentry f)
      → trfs_read k f n s ≢ oops
  unfolding trfs_read
  trfs_read-ne-oops f n i s hi2 tp g l =
      λ h. grind (arith, trace_if_set-traced k T, trfs_interpose-interposed k)

  pub trfs_read-Logged :
      (f : File) (n : ℕ) (i : FileInfo) (s s' : State W) (e : ℤ)
      → s.file_info f ≡ some i
      → s.sb.tfile_path ≡ T.trace_path
      → PathFits k T (k.f_dentry f)
      → IsInt32 s.sb.record_id
      → trfs_read k f n s ≡ ok (e, s')
      → Logged T s.sb.mask
          (Quiet s read_call e)
          read_call
          (k.f_dentry f)
          nothing
          s.world
          e
          (T.tfile s.world)
          (T.tfile s'.world)
          s.sb.record_id
          s'.sb.record_id
  unfolding trfs_read
  trfs_read-Logged f n i s s' e hi2 tp l hi h =
      let d = k.f_dentry f in
      let c = vfs_read i.lower_file n in
      let w1 = (k.call c s.world).1 in
      let err = (k.call c s.world).0 in
      let fx = copy_attr_atime (d_inode d) (file_inode i.lower_file) in
      let w2 = k.effect fx w1 in
      let s1 = record s { world = w1 } in
      let s2 = record s { world = w2 } in
      elim (Bool-cases (is_negative err)) [
        | inl neg ↦
            Logged-moved T
              (traced-Logged k T read_call (k.i_opflags (d_inode d) w1) (k.i_mode (d_inode d) w1)
                err d nothing s1 (omega arith) (C.i_opflags_fits (d_inode d) w1)
                (C.i_mode_fits (d_inode d) w1) (C.call_fits c s.world) hi tp l tt)
              inl (sym (T.call_tfile c s.world)) (λ x. P.call_path x c s.world)
              (grind (
                arith,
                trace_if_set-traced k T,
                trfs_interpose-interposed k,
                tfile-interposed k T,
                T.effect_tfile,
                T.call_tfile,
                T.lock_rename_tfile,
              ))
              (grind (arith, trace_if_set-traced k T, trfs_interpose-interposed k))
              (inl (sym (grind (arith, trace_if_set-traced k T, trfs_interpose-interposed k))))
        | inr more ↦
            Logged-moved T
              (traced-Logged k T read_call (k.i_opflags (d_inode d) w2) (k.i_mode (d_inode d) w2)
                err d nothing s2 (omega arith) (C.i_opflags_fits (d_inode d) w2)
                (C.i_mode_fits (d_inode d) w2) (C.call_fits c s.world) hi tp l tt)
              inl (sym (T.effect_tfile fx w1 ∙ T.call_tfile c s.world))
              (λ x. P.effect_path x fx w1 ∙ P.call_path x c s.world)
              (grind (
                arith,
                trace_if_set-traced k T,
                trfs_interpose-interposed k,
                tfile-interposed k T,
                T.effect_tfile,
                T.call_tfile,
                T.lock_rename_tfile,
              ))
              (grind (arith, trace_if_set-traced k T, trfs_interpose-interposed k))
              (inl (sym (grind (arith, trace_if_set-traced k T, trfs_interpose-interposed k))))
      ]

  pub trfs_write-ne-oops :
      (f : File) (buf : List ℕ) (i : FileInfo) (s : State W)
      → s.file_info f ≡ some i
      → s.sb.tfile_path ≡ T.trace_path
      → i.lower_file ≢ 0
      → PathFits k T (k.f_dentry f)
      → PartFits k T (k.call (vfs_write i.lower_file buf) s.world).0 (content buf)
      → trfs_write k f buf s ≢ oops
  unfolding trfs_write
  trfs_write-ne-oops f buf i s hi2 tp g l wf =
      λ h. grind (arith, trace_if_set-traced k T, trfs_interpose-interposed k)

  pub trfs_write-Logged :
      (f : File) (buf : List ℕ) (i : FileInfo) (s s' : State W) (e : ℤ)
      → s.file_info f ≡ some i
      → s.sb.tfile_path ≡ T.trace_path
      → PathFits k T (k.f_dentry f)
      → PartFits k T (k.call (vfs_write i.lower_file buf) s.world).0 (content buf)
      → IsInt32 s.sb.record_id
      → trfs_write k f buf s ≡ ok (e, s')
      → Logged T s.sb.mask
          (Quiet s write_call e)
          write_call
          (k.f_dentry f)
          (content buf)
          s.world
          e
          (T.tfile s.world)
          (T.tfile s'.world)
          s.sb.record_id
          s'.sb.record_id
  unfolding trfs_write
  trfs_write-Logged f buf i s s' e hi2 tp l wf hi h =
      let d = k.f_dentry f in
      let c = vfs_write i.lower_file buf in
      let w1 = (k.call c s.world).1 in
      let err = (k.call c s.world).0 in
      let s1 = record s { world = w1 } in
      Logged-moved T
        (traced-Logged k T write_call (k.i_opflags (d_inode d) w1) (k.i_mode (d_inode d) w1) err d
          (content buf) s1 (omega arith) (C.i_opflags_fits (d_inode d) w1)
          (C.i_mode_fits (d_inode d) w1) (C.call_fits c s.world) hi tp l wf)
        inl (sym (T.call_tfile c s.world)) (λ x. P.call_path x c s.world)
        (grind (
          arith,
          trace_if_set-traced k T,
          trfs_interpose-interposed k,
          tfile-interposed k T,
          T.effect_tfile,
          T.call_tfile,
          T.lock_rename_tfile,
        ))
        (grind (arith, trace_if_set-traced k T, trfs_interpose-interposed k))
        (inl (sym (grind (arith, trace_if_set-traced k T, trfs_interpose-interposed k))))
