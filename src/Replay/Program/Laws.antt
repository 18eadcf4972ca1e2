-- ===== src/Replay/Program/Laws.antt =====
-- The options of hw2/treplay.c, and what its two ways through a file do.
use trfs_stackable_filesyste.Common.{
  ℕ, zero, suc, ◌+◌, ◌-◌, ◌^◌, ◌≡◌, ◌<◌, refl, arith, Bool, true, false, Bool-cases, Option, none,
  List, [], ◌∷◌, ◌++◌, inl, inr, ltb, if◌then◌else◌, length, drop, length-append,
}
use trfs_stackable_filesyste.Record.{open_call}
use trfs_stackable_filesyste.Entry.{Entry, entry_bytes, IsLog, entry}
use trfs_stackable_filesyste.Replay.{
  Run, done, ◌>>=◌, Item, replay_loop, replay_file, read_record, record_size,
}
use trfs_stackable_filesyste.Replay.Total.{Run-cases}
use trfs_stackable_filesyste.Replay.RoundTrip.{
  item_of, items, visit_all, replay_file-log, length-entry_bytes,
}
use trfs_stackable_filesyste.Replay.Call.{Sys, Replayer, replay_record}
use trfs_stackable_filesyste.Replay.Call.Laws.{replay_record-open}
use trfs_stackable_filesyste.Replay.Print.{print_record}
use trfs_stackable_filesyste.Replay.Program.{
  print, replay, options, mode, print_item, replay_item, printf, fileread, visit_file, treplay,
}

-- With a file and `-n` or `-s`, what is done hangs on what stood in the other flag, which nothing sets:
-- `-s` replays if `nVal` was false, and otherwise prints; `-n` prints. Without an option the file is
-- replayed to its end.
pub mode_of_options :
    (n s : Bool)
    → (mode 3 (115 ∷ []) n s ≡ (if n then print else replay true))
      × (mode 3 (110 ∷ []) n s ≡ print)
      × (mode 2 [] n s ≡ replay false)
unfolding mode options
mode_of_options n s = ground arith

module _ {S : Type 0} (visit : Item → S → Run (Bool × S)) (P : S → Type 0)
    (keeps : (i : Item) (s s' : S) (b : Bool) → P s → visit i s ≡ done (b, s') → P s') where
  -- What every visit keeps, the loop keeps.
  replay_loop-keeps :
      (fuel : ℕ) (buffer : List ℕ) (prev : ℕ) (path2 content : Option (List ℕ)) (s s' : S)
      → P s
      → replay_loop visit fuel buffer prev path2 content s ≡ done s'
      → P s'
  unfolding replay_loop
  replay_loop-keeps zero buffer prev path2 content s s' h e = cc
  replay_loop-keeps (suc fuel) buffer prev path2 content s s' h e =
      elim (Bool-cases (ltb prev (length buffer - 1))) [
        | inr off ↦ (let q : s ≡ s' = ground arith in rw (← q) h)
        | inl on ↦ elim (Run-cases item) [
          | inl (i, ei) ↦ elim (Run-cases (visit i s)) [
            | inl ((true, s2), e2) ↦
                replay_loop-keeps fuel buffer (prev + record_size i.header) i.path2 i.content s2 s'
                  (keeps i s s2 true h e2) (ground arith)
            | inl ((false, s2), e2) ↦
                (let q : s2 ≡ s' = ground arith in rw (← q) (keeps i s s2 false h e2))
            | inr f ↦ absurd (ground arith)
          ]
          | inr f ↦ absurd (ground arith)
        ]
      ]
    where
      item : Run Item
      item = read_record (drop prev buffer) path2 content

module _ {S : Type 0} (sys : Sys S) where
  -- On a log, what is not empty is announced, and its entries are visited.
  pub visit_file-log :
      (visit : Item → Replayer S → Run (Bool × Replayer S)) (null : Bool) {bytes : List ℕ}
      {e : Entry} {es : List Entry} (r : Replayer S)
      → IsLog bytes (e ∷ es)
      → length bytes < 2 ^ 31
      → visit_file sys visit null bytes r
        ≡ visit_all visit (items none none (e ∷ es)) (printf (fileread bytes ∷ []) r)
  visit_file-log visit null {es = es} r (entry {bytes} e block v h log) l = ground (
    arith,
    replay_file-log visit (entry e block v h log) announced l,
    length-append (entry_bytes block e) bytes,
    length-entry_bytes e block v h,
    Run-cases (visit_all visit (items none none (e ∷ es)) announced),
  )
    where
      announced : Replayer S
      announced = printf (fileread (entry_bytes block e ++ bytes) ∷ []) r

  -- On a log with an `open` in front, `-s` replays that one entry and stops behind it, whatever follows.
  treplay-open :
      {bytes : List ℕ} {e : Entry} {es : List Entry} (null : Bool) (r : Replayer S)
      → IsLog bytes (e ∷ es)
      → length bytes < 2 ^ 31
      → e.header.record_type ≡ open_call
      → treplay sys (replay true) null bytes r ≡ (
          replay_item sys true (item_of none none e) (printf (fileread bytes ∷ []) r)
          >>= λ (go_on, r'). done r')
  unfolding treplay
  treplay-open {bytes} {e} {es} null r log l h =
      let i = item_of none none e in
      let r1 = printf (print_record sys i) (printf (fileread bytes ∷ []) r) in
      let all = visit_file-log (replay_item sys true) null r log l in
      elim (Run-cases (replay_record sys i r1)) [
        | inl ((b, r2), g) ↦ ground (arith, all, replay_record-open sys i r1 r2 b h g)
        | inr f ↦ ground (arith, all)
      ]

  replay_file-print :
      (file : List ℕ) (r r' : Replayer S)
      → replay_file (print_item sys) file r ≡ done r'
      → (r'.system ≡ r.system) × (r'.fd ≡ r.fd)
  unfolding replay_file
  replay_file-print file r r' h =
      replay_loop-keeps (print_item sys) (λ x. (x.system ≡ r.system) × (x.fd ≡ r.fd))
        (λ i s s' b p e. ground arith) (suc (length file)) file 0 none none r r' (refl, refl) h

  -- A run that prints and comes to its end has left the system and the global `fd` alone, on any file.
  pub treplay-print :
      (null : Bool) (file : List ℕ) (r r' : Replayer S)
      → treplay sys print null file r ≡ done r'
      → (r'.system ≡ r.system) × (r'.fd ≡ r.fd)
  unfolding treplay
  treplay-print null file r r' h = elim (Run-cases (replay_file (print_item sys) file r1)) [
    | inl (r2, e) ↦ ground (arith, e, replay_file-print file r1 r2 e)
    | inr f ↦ ground (arith, f)
  ]
    where
      r1 : Replayer S
      r1 = printf (fileread file ∷ []) r
