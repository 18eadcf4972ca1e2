-- ===== src/Trace/Tfile.antt =====
-- What the shared block appends to the trace file, on a kernel that behaves as documented.
use trfs_stackable_filesyste.Common.{
  ℕ, ◌+◌, ◌-◌, ◌≤◌, ◌<◌, ◌^◌, ◌≡◌, refl, sym, ◌∙◌, arith, none, some, List, [], ◌∷◌, ◌++◌, ℤ, pos,
  negsuc, append-nil, length, take, drop, length-append, length-take, take-append, length-drop,
}
use trfs_stackable_filesyste.Record.{store_trace_ds, sizeof_trace_ds}
use trfs_stackable_filesyste.Entry.{Entry, entry_bytes}
use trfs_stackable_filesyste.Kernel.{Dentry, Kernel, State, ok}
use trfs_stackable_filesyste.Tracing.{Tracing}
use trfs_stackable_filesyste.Trace.{
  Second, nothing, path, text, content, Extra, find_path, find_second, trace,
}
use trfs_stackable_filesyste.Trace.Buffer.{
  placed, drop-placed, length-placed, short_lem, clobber, take-drop-placed,
}
use trfs_stackable_filesyste.Trace.Shape.{logged_state}
use trfs_stackable_filesyste.Trace.Appended.{
  count, covered, Covered, find_path_ok, append_record_ok,
}

-- The entry that a handler logs, from the paths of the dentries. A second path in the one buffer
-- spoils the first.
abbrev pub logged_entry : (Dentry → List ℕ) → ℤ → ℕ → ℕ → ℕ → ℤ → Dentry → Second → Entry
logged_entry paths rec_id t flags perm err d second = record {
  header = record {
    path_len1 = pos (length (paths d));
    path_len2 = pos (length (path2 second));
    write_len = pos (length (bytes second));
    record_id = rec_id;
    record_type = t;
    open_flags = flags;
    permission_mode = perm;
    err = err;
  };
  path1 = path1 second;
  path2 = path2 second;
  content = bytes second;
}
  where
    path1 : Second → List ℕ
    path1 (path e) = clobber (paths d) (paths e)
    path1 _ = paths d

    path2 : Second → List ℕ
    path2 (path e) = paths e
    path2 (text symname) = symname
    path2 _ = []

    bytes : Second → List ℕ
    bytes (content buf) = take (count err) buf
    bytes _ = []

-- A path fits the buffer, a text fits a `short`, and a write wrote no more than it was given.
abbrev pub SecondFits : (Dentry → List ℕ) → ℤ → Second → Type 0
SecondFits paths err nothing = Unit
SecondFits paths err (path e) = length (paths e) ≤ 255
SecondFits paths err (text symname) = length symname < 2 ^ 15
SecondFits paths (pos n) (content buf) = n ≤ length buf
SecondFits paths (negsuc n) (content buf) = ⊥

module _ {W : Type 0} (k : Kernel W) (T : Tracing k) where
  -- The block from the path buffer on, once the second part is known.
  trace_with :
      (t flags perm : ℕ) (err : ℤ) (d : Dentry) (second : Second) (s : State W) (b : List ℕ)
      (extra : Extra)
      → s.sb.tfile_path ≡ T.trace_path
      → (k.kmalloc 256 s.world).0 ≡ some b
      → length b ≡ 256
      → length (T.path d s.world) ≤ 255
      → (let s1 = record s { live = s.live + 1; world = (k.kmalloc 256 s.world).1 } in
          find_second k second err (placed b (T.path d s.world)) s1 ≡ ok (extra, s1))
      → length (T.path d s.world) ≤ length (drop (255 - length (T.path d s.world)) extra.buffer)
      → Covered extra.write
      → (w : W) × (block : List ℕ) × (trace k t flags perm err d second s
          ≡ ok (3, logged_state s w))
        × (length block ≡ sizeof_trace_ds)
        × (T.tfile w
            ≡ T.tfile s.world
              ++ (store_trace_ds
                    (record {
                      path_len1 = pos (length (T.path d s.world));
                      path_len2 = extra.path_len2;
                      write_len = extra.write_len;
                      record_id = s.sb.record_id;
                      record_type = t;
                      open_flags = flags;
                      permission_mode = perm;
                      err = err;
                    })
                    block
                  ++ (take
                        (length (T.path d s.world))
                        (drop (255 - length (T.path d s.world)) extra.buffer)
                      ++ covered extra.write)))
  unfolding trace
  trace_with t flags perm err d second s b extra tp eb lb l e2 l2 c =
      let w1 = (k.kmalloc 256 s.world).1 in
      let p = T.path d s.world in
      let s1 = record s { live = s.live + 1; world = w1 } in
      let ep = T.kmalloc_path d 256 s.world in
      let e1 : find_path k d b s1
          ≡ ok ((placed b p, record { start = 255 - length p; len = length p }), s1) =
        rw ep at (find_path_ok k T d b s1 lb (rw ep l)) in
      let es = short_lem (length p) (omega arith) in
      let (w, block, e3, lk, et) =
        append_record_ok k T
          (record {
            path_len1 = pos (length p);
            path_len2 = extra.path_len2;
            write_len = extra.write_len;
            record_id = s.sb.record_id;
            record_type = t;
            open_flags = flags;
            permission_mode = perm;
            err = err;
          })
          (record { start = 255 - length p; len = length p }) extra s1 (length p) tp es l2 c in
      (w, block, ground arith, lk, rw (T.kmalloc_tfile 256 s.world) at et)

  -- If the mount's trace file is the one at hand, the dentry's path fits the buffer and the second part
  -- fits its field, the block returns, has made three blocks, and has changed the record id, which it
  -- counts on, and the world. The trace file has grown at its end by the one entry with the old record
  -- id, in a record with some padding.
  pub trace_ok :
      (t flags perm : ℕ) (err : ℤ) (d : Dentry) (second : Second) (s : State W)
      → s.sb.tfile_path ≡ T.trace_path
      → length (T.path d s.world) ≤ 255
      → SecondFits (λ e. T.path e s.world) err second
      → (w : W) × (block : List ℕ) × (trace k t flags perm err d second s
          ≡ ok (3, logged_state s w))
        × (length block ≡ sizeof_trace_ds)
        × (T.tfile w
            ≡ T.tfile s.world
              ++ entry_bytes block
                  (logged_entry (λ e. T.path e s.world) s.sb.record_id t flags perm err d second))
  unfolding find_second
  trace_ok t flags perm err d nothing s tp l f =
      let (b, eb, lb) = T.kmalloc_some 256 s.world in
      let p = T.path d s.world in
      let e1 = drop-placed b p lb l in
      let e2 : take (length p) (p ++ (0 ∷ [])) ≡ p = take-append p (0 ∷ []) in
      rw (e1, e2) at
        (trace_with t flags perm err d nothing s b
          (record { path_len2 = pos 0; write_len = pos 0; buffer = placed b p; write = none }) tp eb
          lb l refl (rw e1 (omega (arith, length-append p (0 ∷ [])))) tt)
  trace_ok t flags perm err d (path e) s tp l f =
      let (b, eb, lb) = T.kmalloc_some 256 s.world in
      let p = T.path d s.world in
      let p2 = T.path e s.world in
      let w1 = (k.kmalloc 256 s.world).1 in
      let s1 = record s { live = s.live + 1; world = w1 } in
      let both = placed (placed b p) p2 in
      let ep = T.kmalloc_path e 256 s.world in
      let e1 : find_path k e (placed b p) s1
          ≡ ok ((both, record { start = 255 - length p2; len = length p2 }), s1) =
        rw ep at (find_path_ok k T e (placed b p) s1 (length-placed b p lb l) (rw ep f)) in
      let e2 : drop (255 - length p2) both ≡ p2 ++ (0 ∷ []) =
        drop-placed (placed b p) p2 (length-placed b p lb l) f in
      let e3 : take (length p) (drop (255 - length p) both) ≡ clobber p p2 =
        take-drop-placed b p p2 lb l f in
      let e4 : take (length p2) (p2 ++ (0 ∷ [])) ≡ p2 ++ [] =
        take-append p2 (0 ∷ []) ∙ sym (append-nil p2) in
      let lw : length p2 ≤ length (p2 ++ (0 ∷ [])) = omega (arith, length-append p2 (0 ∷ [])) in
      let lb2 = length-placed (placed b p) p2 (length-placed b p lb l) f in
      rw (e3, e4) at
        (trace_with t flags perm err d (path e) s b
          (record {
            path_len2 = pos (length p2);
            write_len = pos 0;
            buffer = both;
            write = some (p2 ++ (0 ∷ []), pos (length p2));
          })
          tp eb lb l (ground (arith, short_lem (length p2) (omega arith)))
          (omega (arith, length-drop (255 - length p) both)) lw)
  trace_ok t flags perm err d (text symname) s tp l f =
      let (b, eb, lb) = T.kmalloc_some 256 s.world in
      let p = T.path d s.world in
      let e1 = drop-placed b p lb l in
      let e2 : take (length p) (p ++ (0 ∷ [])) ≡ p = take-append p (0 ∷ []) in
      let e3 : take (length symname) (symname ++ (0 ∷ [])) ≡ symname ++ [] =
        take-append symname (0 ∷ []) ∙ sym (append-nil symname) in
      rw (e1, e2, e3) at
        (trace_with t flags perm err d (text symname) s b
          (record {
            path_len2 = pos (length symname);
            write_len = pos 0;
            buffer = placed b p;
            write = some (symname ++ (0 ∷ []), pos (length symname));
          })
          tp eb lb l (ground (arith, short_lem (length symname) f))
          (rw e1 (omega (arith, length-append p (0 ∷ []))))
          (omega (arith, length-append symname (0 ∷ []))))
  trace_ok t flags perm (pos n) d (content buf) s tp l f =
      let (b, eb, lb) = T.kmalloc_some 256 s.world in
      let p = T.path d s.world in
      let e1 = drop-placed b p lb l in
      let e2 : take (length p) (p ++ (0 ∷ [])) ≡ p = take-append p (0 ∷ []) in
      let e3 : length (take n buf) ≡ n = omega (arith, length-take n buf) in
      rw e3 (
        rw (e1, e2) at
          (trace_with t flags perm (pos n) d (content buf) s b
            (record {
              path_len2 = pos 0;
              write_len = pos n;
              buffer = placed b p;
              write = some (buf, pos n);
            })
            tp eb lb l refl (rw e1 (omega (arith, length-append p (0 ∷ [])))) f))
  trace_ok t flags perm (negsuc n) d (content buf) s tp l f = absurd f
