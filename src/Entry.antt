-- ===== src/Entry.antt =====
-- One entry of the trace file: a record and the paths and content that stand behind it, as the
-- handlers of fs/trfs mean to write it and hw2/treplay.c reads it.
use trfs_stackable_filesyste.Common.{ℕ, ◌≡◌, List, [], ◌∷◌, ◌++◌, pos, length}
use trfs_stackable_filesyste.Record.{TraceDs, IsTraceDs, store_trace_ds, sizeof_trace_ds}

pub record Entry : Type 0 where
  pub header : TraceDs
  pub path1 : List ℕ
  pub path2 : List ℕ
  pub content : List ℕ

-- The record's fields fit their types and its lengths are those of what follows.
pub record IsEntry (e : Entry) : Type 0 where
  pub header_fits : IsTraceDs e.header
  pub path1_counted : e.header.path_len1 ≡ pos (length e.path1)
  pub path2_counted : e.header.path_len2 ≡ pos (length e.path2)
  pub content_counted : e.header.write_len ≡ pos (length e.content)

-- The bytes of an entry, for what the padding of the record holds.
abbrev pub entry_bytes : List ℕ → Entry → List ℕ
entry_bytes block e = store_trace_ds e.header block ++ (e.path1 ++ (e.path2 ++ e.content))

-- The bytes are those of the entries, one behind the other, whatever the padding holds.
pub data IsLog : List ℕ → List Entry → Type 0 where
  empty : IsLog [] []
  entry :
      {bytes : List ℕ} {es : List Entry} (e : Entry) (block : List ℕ)
      → IsEntry e
      → length block ≡ sizeof_trace_ds
      → IsLog bytes es
      → IsLog (entry_bytes block e ++ bytes) (e ∷ es)
