-- ===== src/Trace.antt =====
-- The block that twelve handlers of fs/trfs/file.c and fs/trfs/inode.c share, word for word but for
-- the paths and the content that they log: one record is appended to the trace file.
-- The handlers test `dentry != NULL` after they have used `dentry`, so the test is no branch here.
-- `printk` is left out.
pub mod Buffer
pub mod Shape
pub mod Appended
pub mod Tfile
pub mod Stages
pub mod Race
use mathlib.Core.Option
use trfs_stackable_filesyste.Common.{
  ℕ, ◌+◌, ◌-◌, ◌/◌, ◌%◌, ◌^◌, Bool, true, false, Option, none, some, List, [], ◌∷◌, ◌++◌, ℤ, pos,
  bits32, int32, int16, ◌==◌, if◌then◌else◌, length, drop,
}
use trfs_stackable_filesyste.Record.{TraceDs, store_trace_ds, sizeof_trace_ds}
use trfs_stackable_filesyste.Kernel.{
  Dentry, File, Kernel, SbInfo, State, Outcome, ok, oops, M, pure, ◌>>=◌, ◌>>◌, read_state, set_fs,
  kmalloc, kfree,
}

-- `((mask >> rec_type) & 1) == 1`
unfoldable pub is_traced : ℕ → ℕ → Bool
is_traced mask rec_type = mask / 2 ^ rec_type % 2 == 1

-- `++rec_id` on an `int`.
unfoldable pub next_id : ℤ → ℤ
next_id z = int32 ((bits32 z + 1) % 2 ^ 32)

-- A `size_t` stored in a `short`.
unfoldable pub short : ℕ → ℤ
short n = int16 (n % 2 ^ 16)

-- `strlen` of what stands in a block; `none` if it reads past the end.
unfoldable pub strlen : List ℕ → Option ℕ
strlen [] = none
strlen (c ∷ cs) = let rest = strlen cs in if c == 0 then some 0 else Option.map (λ n. n + 1) rest

-- What a handler logs besides the path of its dentry: nothing, a second dentry's path, the text of a
-- symbolic link, or the bytes of a write.
pub data Second : Type 0 where
  nothing : Second
  path : Dentry → Second
  text : List ℕ → Second
  content : List ℕ → Second

-- A string in the path buffer: where it starts, and its length.
pub record Place : Type 0 where
  pub start : ℕ
  pub len : ℕ

-- The second part: two fields of the record, the path buffer after it was found, and the bytes and
-- count of its `vfs_write`.
pub record Extra : Type 0 where
  pub path_len2 : ℤ
  pub write_len : ℤ
  pub buffer : List ℕ
  pub write : Option (List ℕ × ℤ)

module _ {W : Type 0} (k : Kernel W) where
  -- `path_name = dentry_path_raw(dentry, buffer, 256); len_path = strlen(path_name);`
  -- An `ERR_PTR` goes to `strlen` untested.
  unfoldable pub find_path : Dentry → List ℕ → M W (List ℕ × Place)
  find_path d buffer s = elim (k.dentry_path_raw d buffer s.world) [
    | none ↦ oops
    | some (buffer', start) ↦ elim (strlen (drop start buffer')) [
      | none ↦ oops
      | some n ↦ ok ((buffer', record { start = start; len = n }), s)
    ]
  ]

  -- Both paths of a link or a rename are put into the one buffer.
  unfoldable pub find_second : Second → ℤ → List ℕ → M W Extra
  find_second nothing err buffer =
      pure (record { path_len2 = pos 0; write_len = pos 0; buffer = buffer; write = none })
  find_second (path d) err buffer = do
    (buffer', p) ← find_path d buffer
    pure (record {
      path_len2 = short p.len;
      write_len = pos 0;
      buffer = buffer';
      write = some (drop p.start buffer', short p.len);
    })
  find_second (text symname) err buffer = pure (record {
    path_len2 = short (length symname);
    write_len = pos 0;
    buffer = buffer;
    write = some (symname ++ (0 ∷ []), short (length symname));
  })
  find_second (content buf) err buffer =
      pure (record { path_len2 = pos 0; write_len = err; buffer = buffer; write = some (buf, err) })

  abbrev pub filp_open : M W File
  filp_open s = elim (k.filp_open s.sb.tfile_path s.world).0 [
    | none ↦ oops
    | some f ↦
        ok (f, record s { files = s.files + 1; world = (k.filp_open s.sb.tfile_path s.world).1 })
  ]

  abbrev pub filp_close : File → M W (Unit {0})
  filp_close f s = ok (tt, record s { files = s.files - 1; world = k.filp_close f s.world })

  -- The results of the writes are not looked at.
  abbrev pub trace_write : File → List ℕ → ℤ → M W (Unit {0})
  trace_write f bytes n s = ok (tt, record s { world = (k.trace_write f bytes n s.world).1 })

  abbrev pub write_second : File → Option (List ℕ × ℤ) → M W (Unit {0})
  write_second f none = pure tt
  write_second f (some (bytes, n)) = trace_write f bytes n

  abbrev pub set_record_id : ℤ → M W (Unit {0})
  set_record_id n s = ok (tt, record s { sb = record (s.sb) { record_id = n } })

  -- The record is built in one block, copied to another, and written with what belongs behind it.
  unfoldable pub append_record : TraceDs → Place → Extra → M W (Unit {0})
  append_record r p extra = do
    s ← read_state
    file_op ← filp_open
    trace_str ← kmalloc k sizeof_trace_ds
    set_fs true
    writer ← kmalloc k sizeof_trace_ds
    trace_write file_op (store_trace_ds r trace_str) (pos sizeof_trace_ds)
    trace_write file_op (drop p.start extra.buffer) (short p.len)
    write_second file_op extra.write
    set_fs s.kernel_ds
    filp_close file_op

  -- The result is the number of blocks that the handler frees at its end.
  unfoldable pub trace : ℕ → ℕ → ℕ → ℤ → Dentry → Second → M W ℕ
  trace rec_type open_flags perm_mode err d second = do
    s ← read_state
    let rec_id = s.sb.record_id
    buffer ← kmalloc k 256
    (buffer1, p) ← find_path d buffer
    extra ← find_second second err buffer1
    append_record
        (record {
          path_len1 = short p.len;
          path_len2 = extra.path_len2;
          write_len = extra.write_len;
          record_id = rec_id;
          record_type = rec_type;
          open_flags = open_flags;
          permission_mode = perm_mode;
          err = err;
        })
        p extra
    set_record_id (next_id rec_id)
    pure 3

  -- `if (((mask >> rec_type) & 1) == 1) { … }`
  unfoldable pub trace_if_set : ℕ → ℕ → ℕ → ℤ → Dentry → Second → M W ℕ
  trace_if_set rec_type open_flags perm_mode err d second s =
      if is_traced s.sb.mask rec_type
      then trace rec_type open_flags perm_mode err d second s
      else ok (0, s)
