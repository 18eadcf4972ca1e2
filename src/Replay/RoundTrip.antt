-- ===== src/Replay/RoundTrip.antt =====
-- The loop of hw2/treplay.c on a file that holds a log.
use trfs_stackable_filesyste.Common.{
  ℕ, zero, suc, ◌+◌, ◌^◌, ◌<◌, ◌≡◌, refl, sym, ◌∙◌, arith, Bool, true, false, Option, none, some,
  List, [], ◌∷◌, ◌++◌, append_assoc, pos, inl, inr, length, drop, length-append, take-append,
  drop-append, drop-drop,
}
use trfs_stackable_filesyste.Record.{store_trace_ds, sizeof_trace_ds}
use trfs_stackable_filesyste.Record.RoundTrip.{load-store, length-store}
use trfs_stackable_filesyste.Entry.{Entry, IsEntry, entry_bytes, IsLog, empty, entry}
use trfs_stackable_filesyste.Replay.{
  Run, done, ◌>>=◌, Item, copy, copy_if, read_record, record_size, replay_loop, replay_file,
}
use trfs_stackable_filesyste.Replay.Total.{Run-cases}

-- The buffer for an optional part: that of an earlier record, if this one has none.
abbrev kept : Option (List ℕ) → List ℕ → Option (List ℕ)
kept old [] = old
kept old (c ∷ cs) = some (c ∷ cs)

abbrev pub item_of : Option (List ℕ) → Option (List ℕ) → Entry → Item
item_of path2 content e = record {
  header = e.header;
  path1 = e.path1;
  path2 = kept path2 e.path2;
  content = kept content e.content;
}

-- The items that the loop visits for a list of entries.
abbrev pub items : Option (List ℕ) → Option (List ℕ) → List Entry → List Item
items path2 content [] = []
items path2 content (e ∷ es) =
    item_of path2 content e ∷ items (kept path2 e.path2) (kept content e.content) es

-- The visits of a list of items, until one says to stop.
abbrev pub visit_all : {S : Type 0} → (Item → S → Run (Bool × S)) → List Item → S → Run S
visit_all visit [] s = done s
visit_all visit (i ∷ is) s =
    visit i s >>= λ (go_on, s'). elim go_on [ false ↦ done s' | true ↦ visit_all visit is s' ]

copy-append : (xs rest : List ℕ) → copy (xs ++ rest) (pos (length xs)) ≡ done xs
unfolding copy
copy-append xs rest = ground (arith, length-append xs rest, take-append xs rest)

copy_if-append :
    (xs rest : List ℕ) (old : Option (List ℕ))
    → copy_if (xs ++ rest) (pos (length xs)) old ≡ done (kept old xs)
unfolding copy_if
copy_if-append [] rest old = refl
copy_if-append (x ∷ xs) rest old = rw (copy-append (x ∷ xs) rest, copy_if)

-- An entry in front is read back, whatever follows.
read_record-entry :
    (e : Entry) (block rest : List ℕ) (path2 content : Option (List ℕ))
    → IsEntry e
    → length block ≡ sizeof_trace_ds
    → read_record (entry_bytes block e ++ rest) path2 content ≡ done (item_of path2 content e)
unfolding read_record
read_record-entry e block rest path2 content v h =
    let image = store_trace_ds e.header block in
    let more = e.path1 ++ (e.path2 ++ (e.content ++ rest)) in
    let split : entry_bytes block e ++ rest ≡ image ++ more = simp append_assoc in
    let li = length-store e.header block h in
    let e1 = load-store e.header block more v.header_fits h in
    let e2 : drop sizeof_trace_ds (image ++ more) ≡ more = rw li at (drop-append image more) in
    rw split (
      ground (
        arith,
        e1,
        e2,
        copy-append e.path1 (e.path2 ++ (e.content ++ rest)),
        drop-append e.path1 (e.path2 ++ (e.content ++ rest)),
        copy_if-append e.path2 (e.content ++ rest) path2,
        drop-append e.path2 (e.content ++ rest),
        copy_if-append e.content rest content,
      ))

pub length-entry_bytes :
    (e : Entry) (block : List ℕ)
    → IsEntry e
    → length block ≡ sizeof_trace_ds
    → length (entry_bytes block e) ≡ record_size e.header
length-entry_bytes e block v h =
    let image = store_trace_ds e.header block in
    ground (
      arith,
      length-store e.header block h,
      length-append image (e.path1 ++ (e.path2 ++ e.content)),
      length-append e.path1 (e.path2 ++ e.content),
      length-append e.path2 e.content,
    )

module _ {S : Type 0} (visit : Item → S → Run (Bool × S)) where
  replay_loop-log :
      {bytes : List ℕ} {es : List Entry} (log : IsLog bytes es) (fuel : ℕ) (buffer : List ℕ)
      (prev : ℕ) (path2 content : Option (List ℕ)) (s : S)
      → drop prev buffer ≡ bytes
      → prev + length bytes ≡ length buffer
      → length buffer < 2 ^ 31
      → length bytes < fuel
      → replay_loop visit fuel buffer prev path2 content s
        ≡ visit_all visit (items path2 content es) s
  unfolding replay_loop
  replay_loop-log empty zero buffer prev path2 content s d l b f = absurd (omega arith)
  replay_loop-log empty (suc fuel) buffer prev path2 content s d l b f = ground arith
  replay_loop-log (entry e block v h log) zero buffer prev path2 content s d l b f =
      absurd (omega arith)
  replay_loop-log (entry {bytes} {es} e block v h log) (suc fuel) buffer prev path2 content s d l b
        f =
      let i = item_of path2 content e in
      let n = length-entry_bytes e block v h in
      let all = length-append (entry_bytes block e) bytes in
      let r : read_record (drop prev buffer) path2 content ≡ done i =
        rw d (read_record-entry e block bytes path2 content v h) in
      let d2 : drop (prev + record_size e.header) buffer ≡ bytes =
        sym (drop-drop prev (record_size e.header) buffer)
        ∙ rw (d, ← n) (drop-append (entry_bytes block e) bytes) in
      let rest = replay_loop-log log fuel buffer (prev + record_size e.header) i.path2 i.content in
      elim (Run-cases (visit i s)) [
        | inl ((true, s'), e2) ↦
            (ground (arith, n, all, r, rest s' d2 (omega arith) b (omega arith)))
        | inl ((false, s'), e2) ↦ (ground (arith, n, all, r))
        | inr (inl e2) ↦ (ground (arith, n, all, r))
        | inr (inr e2) ↦ (ground (arith, n, all, r))
      ]

  -- On a file that holds a log and is shorter than 2 GB, the reader visits the log's entries in order,
  -- with the buffers of earlier records where one has no second path or content.
  pub replay_file-log :
      {bytes : List ℕ} {es : List Entry}
      → IsLog bytes es
      → (s : S) → length bytes < 2 ^ 31
      → replay_file visit bytes s ≡ visit_all visit (items none none es) s
  unfolding replay_file
  replay_file-log {bytes} log s b =
      replay_loop-log log (suc (length bytes)) bytes 0 none none s refl (omega arith) b
        (omega arith)
