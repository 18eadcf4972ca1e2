-- ===== src/Replay/Total.antt =====
-- The loop of hw2/treplay.c on any buffer, and its rounds.
use trfs_stackable_filesyste.Common.{
  ℕ, zero, suc, ◌+◌, ◌≤◌, ◌<◌, ◌≡◌, ◌≢◌, refl, arith, Bool, true, false, Option, List, none, drop,
  length, length-drop, ◌⊎◌, inl, inr,
}
use trfs_stackable_filesyste.Record.RoundTrip.{load_takes}
use trfs_stackable_filesyste.Replay.{
  Run, done, fault, stuck, Item, read_record, record_size, size, replay_loop, replay_file,
}

pub Run-cases {ℓ} :
    {A : Type ℓ} (r : Run A) → ((a : A) × (r ≡ done a)) ⊎ ((r ≡ fault) ⊎ (r ≡ stuck))
Run-cases (done a) = inl (a, refl)
Run-cases fault = inr (inl refl)
Run-cases stuck = inr (inr refl)

read_record-ne-stuck :
    (rest : List ℕ) (path2 content : Option (List ℕ)) → read_record rest path2 content ≢ stuck
unfolding read_record
read_record-ne-stuck rest path2 content = λ e. ground arith

-- What was read lies within the buffer.
read_record_takes :
    (rest : List ℕ) (path2 content : Option (List ℕ)) (i : Item)
    → read_record rest path2 content ≡ done i
    → record_size i.header ≤ length rest
unfolding read_record
read_record_takes rest path2 content i e =
    let after = drop 28 rest in
    let after1 = drop (size i.header.path_len1) after in
    ground (
      arith,
      load_takes rest i.header,
      length-drop 28 rest,
      length-drop (size i.header.path_len1) after,
      length-drop (size i.header.path_len2) after1,
    )

module _ {S : Type 0} (visit : Item → S → Run (Bool × S))
    (ends : (i : Item) (s : S) → visit i s ≢ stuck) where
  replay_loop-ne-stuck :
      (fuel : ℕ) (buffer : List ℕ) (prev : ℕ) (path2 content : Option (List ℕ)) (s : S)
      → prev ≤ length buffer
      → length buffer < fuel + prev
      → replay_loop visit fuel buffer prev path2 content s ≢ stuck
  unfolding replay_loop
  replay_loop-ne-stuck zero buffer prev path2 content s l h = absurd (omega arith)
  replay_loop-ne-stuck (suc fuel) buffer prev path2 content s l h = elim (Run-cases item) [
    | inl (i, e) ↦ elim (Run-cases (visit i s)) [
      | inl ((true, s'), e2) ↦ ground (
        arith,
        read_record_takes (drop prev buffer) path2 content i e,
        length-drop prev buffer,
        replay_loop-ne-stuck fuel buffer (prev + record_size i.header) i.path2 i.content s',
      )
      | inl ((false, s'), e2) ↦ ground arith
      | inr (inl e2) ↦ ground arith
      | inr (inr e2) ↦ absurd (ends i s e2)
    ]
    | inr (inl e) ↦ ground arith
    | inr (inr e) ↦ absurd (read_record-ne-stuck (drop prev buffer) path2 content e)
  ]
    where
      item : Run Item
      item = read_record (drop prev buffer) path2 content

  -- Whatever the buffer holds, the loop does not run out of rounds, if no visit of a record does.
  pub replay_file-ne-stuck : (buffer : List ℕ) (s : S) → replay_file visit buffer s ≢ stuck
  unfolding replay_file
  replay_file-ne-stuck buffer s =
      replay_loop-ne-stuck (suc (length buffer)) buffer 0 none none s (omega arith) (omega arith)
