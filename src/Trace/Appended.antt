-- ===== src/Trace/Appended.antt =====
-- What the writes of one record append to the trace file, on a kernel that behaves as documented.
use trfs_stackable_filesyste.Common.{
  ℕ, ◌+◌, ◌-◌, ◌≤◌, ◌≡◌, refl, sym, ◌∙◌, arith, Option, none, some, List, [], ◌++◌, ℤ, pos, negsuc,
  append_assoc, append-nil, length, take, drop, take_of_le,
}
use trfs_stackable_filesyste.Record.{TraceDs, store_trace_ds, sizeof_trace_ds}
use trfs_stackable_filesyste.Record.RoundTrip.{length-store}
use trfs_stackable_filesyste.Kernel.{Dentry, File, Kernel, State, ok}
use trfs_stackable_filesyste.Tracing.{Tracing}
use trfs_stackable_filesyste.Trace.{short, Place, Extra, find_path, write_second, append_record}
use trfs_stackable_filesyste.Trace.Buffer.{strlen_lem, placed, drop-placed}

-- The number of bytes that a write of `err` bytes adds.
abbrev pub count : ℤ → ℕ
count (pos n) = n
count (negsuc n) = 0

-- The bytes that the second write adds, and that it is not asked for more than it has.
abbrev pub covered : Option (List ℕ × ℤ) → List ℕ
covered none = []
covered (some (bytes, n)) = take (count n) bytes

abbrev pub Covered : Option (List ℕ × ℤ) → Type 0
Covered none = Unit
Covered (some (bytes, pos n)) = n ≤ length bytes
Covered (some (bytes, negsuc n)) = ⊥

module _ {W : Type 0} (k : Kernel W) (T : Tracing k) where
  pub find_path_ok :
      (d : Dentry) (buffer : List ℕ) (s : State W)
      → length buffer ≡ 256
      → length (T.path d s.world) ≤ 255
      → find_path k d buffer s
        ≡ ok (
          (
            placed buffer (T.path d s.world),
            record { start = 255 - length (T.path d s.world); len = length (T.path d s.world) },
          ),
          s,
        )
  unfolding find_path
  find_path_ok d buffer s h l = ground (
    arith,
    T.dentry_path_raw_lem d buffer s.world h l,
    drop-placed buffer (T.path d s.world) h l,
    strlen_lem (T.path d s.world) (T.path_chars d s.world),
  )

  abbrev pub second_world : File → Option (List ℕ × ℤ) → W → W
  second_world f none w = w
  second_world f (some (bytes, n)) w = (k.trace_write f bytes n w).1

  pub write_second_ok :
      (f : File) (x : Option (List ℕ × ℤ)) (s : State W)
      → write_second k f x s ≡ ok (tt, record s { world = second_world f x s.world })
  write_second_ok f none s = refl
  write_second_ok f (some (bytes, n)) s = refl

  pub tfile-second_world :
      (u : W) (f : File) (x : Option (List ℕ × ℤ)) (w : W)
      → (k.filp_open T.trace_path u).0 ≡ some f
      → Covered x
      → T.tfile (second_world f x w) ≡ T.tfile w ++ covered x
  tfile-second_world u f none w e h = sym (append-nil (T.tfile w))
  tfile-second_world u f (some (bytes, pos n)) w e h = T.trace_write_appends u f bytes n w e h
  tfile-second_world u f (some (bytes, negsuc n)) w e h = absurd h

  -- The record reaches the end of the trace file, with the path behind it and then the second part.
  pub append_record_ok :
      (r : TraceDs) (p : Place) (extra : Extra) (s : State W) (n1 : ℕ)
      → s.sb.tfile_path ≡ T.trace_path
      → short p.len ≡ pos n1
      → n1 ≤ length (drop p.start extra.buffer)
      → Covered extra.write
      → (w : W) × (block : List ℕ) × (append_record k r p extra s
          ≡ ok (tt, record s { live = s.live + 2; world = w }))
        × (length block ≡ sizeof_trace_ds)
        × (T.tfile w
            ≡ T.tfile s.world
              ++ (store_trace_ds r block
                  ++ (take n1 (drop p.start extra.buffer) ++ covered extra.write)))
  unfolding append_record
  append_record_ok r p extra s n1 tp e1 l1 c =
      let (f, ef) = T.filp_open_some s.world in
      let w1 = (k.filp_open T.trace_path s.world).1 in
      let (block, eb, lb) = T.kmalloc_some sizeof_trace_ds w1 in
      let w2 = (k.kmalloc sizeof_trace_ds w1).1 in
      let (writer, ew, lw) = T.kmalloc_some sizeof_trace_ds w2 in
      let w3 = (k.kmalloc sizeof_trace_ds w2).1 in
      let w4 = (k.trace_write f (store_trace_ds r block) (pos sizeof_trace_ds) w3).1 in
      let w5 = (k.trace_write f (drop p.start extra.buffer) (pos n1) w4).1 in
      let w6 = second_world f extra.write w5 in
      let image = store_trace_ds r block in
      let li = length-store r block lb in
      let ei : take sizeof_trace_ds image ≡ image =
        take_of_le sizeof_trace_ds image (omega arith) in
      let e4 = T.trace_write_appends s.world f image sizeof_trace_ds w3 ef (omega arith) in
      let e5 = T.trace_write_appends s.world f (drop p.start extra.buffer) n1 w4 ef l1 in
      (
        k.filp_close f w6,
        block,
        ground arith,
        lb,
        T.filp_close_tfile f w6
            ∙ tfile-second_world s.world f extra.write w5 ef c
            ∙ rw (e5, e4, ei, T.kmalloc_tfile, T.kmalloc_tfile, T.filp_open_tfile)
                (simp append_assoc),
      )
