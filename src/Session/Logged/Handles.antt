-- ===== src/Session/Logged/Handles.antt =====
-- What trfs_open and trfs_file_release of fs/trfs/file.c add to the trace file.
use trfs_stackable_filesyste.Common.{
  ℕ, ◌+◌, ◌-◌, ◌≡◌, ◌≢◌, ◌⊎◌, ◌∙◌, refl, sym, arith, some, ℤ, pos, IsInt32, inl, inr, Bool-cases,
  ◌==◌, true,
}
use trfs_stackable_filesyste.Record.{open_call, release_call}
use trfs_stackable_filesyste.Kernel.{
  Dentry, File, Inode, d_inode, fput, FileInfo, Kernel, State, ok, oops, ErrPtr, ptr, err_ptr,
}
use trfs_stackable_filesyste.Lookup.Total.{trfs_interpose-interposed, tfile-interposed}
use trfs_stackable_filesyste.Tracing.{Tracing, Placing, Typed}
use trfs_stackable_filesyste.Trace.{nothing}
use trfs_stackable_filesyste.File.{trfs_open, trfs_file_release, update, references}
use trfs_stackable_filesyste.Session.Logged.{
  Logged, silent, Logged-moved, PathFits, trace_if_set-traced, traced-Logged, Quiet,
}

module _ {W : Type 0} (k : Kernel W) (T : Tracing k) (P : Placing T) (C : Typed k) where
  pub trfs_file_release-ne-oops :
      (f : File) (i : FileInfo) (s : State W)
      → s.file_info f ≡ some i
      → s.sb.tfile_path ≡ T.trace_path
      → PathFits k T (k.f_dentry f)
      → trfs_file_release k f s ≢ oops
  unfolding trfs_file_release
  trfs_file_release-ne-oops f i s hi2 tp l =
      λ h. grind (arith, trace_if_set-traced k T, trfs_interpose-interposed k)

  pub trfs_file_release-Logged :
      (f : File) (i : FileInfo) (s s' : State W) (e : ℤ)
      → s.file_info f ≡ some i
      → s.sb.tfile_path ≡ T.trace_path
      → PathFits k T (k.f_dentry f)
      → IsInt32 s.sb.record_id
      → trfs_file_release k f s ≡ ok (e, s')
      → Logged T s.sb.mask
          (Quiet s release_call e)
          release_call
          (k.f_dentry f)
          nothing
          s.world
          e
          (T.tfile s.world)
          (T.tfile s'.world)
          s.sb.record_id
          s'.sb.record_id
  unfolding trfs_file_release
  trfs_file_release-Logged f i s s' e hi2 tp l hi h =
      let d = k.f_dentry f in
      let fx = fput i.lower_file in
      let w1 = k.effect fx s.world in
      let s1 = record s {
        file_info = update s.file_info f (some (record i { lower_file = 0 }));
        lower_files = s.lower_files - 1;
        world = w1;
      } in
      elim (Bool-cases (i.lower_file == 0)) [
        | inl closed ↦
            Logged-moved T
              (traced-Logged k T release_call 0 0 (pos 0) d nothing s (omega arith) (omega arith)
                (omega arith) (omega arith) hi tp l tt)
              inl (refl) (λ x. refl)
              (grind (
                arith,
                trace_if_set-traced k T,
                trfs_interpose-interposed k,
                tfile-interposed k T,
                T.effect_tfile,
                T.call_tfile,
                T.lock_rename_tfile,
              ))
              (grind (arith, trace_if_set-traced k T, trfs_interpose-interposed k))
              (inl (sym (grind (arith, trace_if_set-traced k T, trfs_interpose-interposed k))))
        | inr open_yet ↦
            Logged-moved T
              (traced-Logged k T release_call 0 0 (pos 0) d nothing s1 (omega arith) (omega arith)
                (omega arith) (omega arith) hi tp l tt)
              inl (sym (T.effect_tfile fx s.world)) (λ x. P.effect_path x fx s.world)
              (grind (
                arith,
                trace_if_set-traced k T,
                trfs_interpose-interposed k,
                tfile-interposed k T,
                T.effect_tfile,
                T.call_tfile,
                T.lock_rename_tfile,
              ))
              (grind (arith, trace_if_set-traced k T, trfs_interpose-interposed k))
              (inl (sym (grind (arith, trace_if_set-traced k T, trfs_interpose-interposed k))))
      ]

  ErrPtr-cases : (r : ErrPtr) → ((p : ℕ) × (r ≡ ptr p)) ⊎ ((e : ℤ) × (r ≡ err_ptr e))
  ErrPtr-cases (ptr p) = inl (p, refl)
  ErrPtr-cases (err_ptr e) = inr (e, refl)

  pub trfs_open-ne-oops :
      (node : Inode) (f : File) (s : State W)
      → s.sb.tfile_path ≡ T.trace_path
      → s.d_fsdata (k.f_dentry f) ≡ true
      → PathFits k T (k.f_dentry f)
      → trfs_open k node f s ≢ oops
  unfolding trfs_open
  trfs_open-ne-oops node f s tp g l = λ h. grind (arith, trace_if_set-traced k T)

  pub trfs_open-Logged :
      (node : Inode) (f : File) (s s' : State W) (e : ℤ)
      → s.sb.tfile_path ≡ T.trace_path
      → PathFits k T (k.f_dentry f)
      → IsInt32 s.sb.record_id
      → trfs_open k node f s ≡ ok (e, s')
      → Logged T s.sb.mask
          (Quiet s open_call e)
          open_call
          (k.f_dentry f)
          nothing
          s.world
          e
          (T.tfile s.world)
          (T.tfile s'.world)
          s.sb.record_id
          s'.sb.record_id
  unfolding trfs_open
  trfs_open-Logged node f s s' e tp l hi h =
      let d = k.f_dentry f in
      let (block, eb, lb) = T.kmalloc_some 16 s.world in
      let w1 = (k.kmalloc 16 s.world).1 in
      let p = s.lower_path d in
      let flags = k.f_flags f w1 in
      let w2 = (k.dentry_open p flags w1).1 in
      let s2 = λ (g : File). record s {
        file_info =
            update (update s.file_info f (some (record { lower_file = 0; lower_vm_ops = 0 }))) f
              (some (record { lower_file = g; lower_vm_ops = 0 }));
        live = s.live + 1;
        refs = s.refs + 1 - 1;
        lower_files = s.lower_files + 1;
        world = w2;
      } in
      let s3 = λ (err : ℤ). record s {
        file_info = update s.file_info f (some (record { lower_file = 0; lower_vm_ops = 0 }));
        live = s.live + 1;
        refs = s.refs + 1 - 1;
        lower_files = s.lower_files + references (err_ptr err);
        world = w2;
      } in
      let m = k.i_mode (d_inode d) w2 in
      let fl = k.f_flags f w2 in
      let kept_paths =
        λ (x : Dentry). P.dentry_open_path x p flags w1 ∙ T.kmalloc_path x 16 s.world in
      let kept = sym (T.dentry_open_tfile p flags w1 ∙ T.kmalloc_tfile 16 s.world) in
      elim (Bool-cases (k.d_unhashed d s.world)) [
        | inl gone ↦ silent (inr (grind arith)) (grind arith) (grind arith)
        | inr here ↦ elim (ErrPtr-cases (k.dentry_open p flags w1).0) [
          | inl (g, eg) ↦
              Logged-moved T
                (traced-Logged k T open_call fl m (pos 0) d nothing (s2 g) (omega arith)
                  (C.f_flags_fits f w2) (C.i_mode_fits (d_inode d) w2) (omega arith) hi tp l tt)
                inl kept kept_paths (grind (arith, trace_if_set-traced k T, T.effect_tfile))
                (grind (arith, trace_if_set-traced k T))
                (inl (sym (grind (arith, trace_if_set-traced k T))))
          | inr (err, ee) ↦
              Logged-moved T
                (traced-Logged k T open_call fl m err d nothing (s3 err) (omega arith)
                  (C.f_flags_fits f w2) (C.i_mode_fits (d_inode d) w2)
                  (C.dentry_open_fits p flags w1 err ee) hi tp l tt)
                inl kept kept_paths (grind (arith, trace_if_set-traced k T, T.effect_tfile))
                (grind (arith, trace_if_set-traced k T))
                (inl (sym (grind (arith, trace_if_set-traced k T))))
        ]
      ]
