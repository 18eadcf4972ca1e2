-- ===== src/Examples/Programs.antt =====
-- The theorems about treplay at concrete data.
use trfs_stackable_filesyste.Common.{
  ℕ, ◌+◌, ◌≡◌, refl, arith, Bool, true, false, none, List, [], ◌∷◌, ◌++◌, ℤ, pos, negsuc, eqb_ℤ,
  length,
}
use trfs_stackable_filesyste.Record.{TraceDs}
use trfs_stackable_filesyste.Entry.{Entry, entry_bytes}
use trfs_stackable_filesyste.Replay.{Run, done, fault, stuck, Item}
use trfs_stackable_filesyste.Replay.Call.{
  Sys, line, Replayer, replay_value, original_value, replay_call, replay_record,
}
use trfs_stackable_filesyste.Replay.Call.Laws.{last_value, replay_record-open, replay_record-agrees}
use trfs_stackable_filesyste.Replay.Program.{print, replay, mode}
use trfs_stackable_filesyste.Replay.Program.Laws.{mode_of_options}
use trfs_stackable_filesyste.Examples.Toy.{zeros}

-- The system is the number of calls; all succeed.
abbrev counted : ℕ → ℤ × ℕ
counted n = (pos 0, n + 1)

abbrev pub calls : Sys ℕ
calls = record {
  open_file = λ p f n. (pos 4, n + 1);
  open_mode = λ p f m n. (pos 4, n + 1);
  read = λ fd m n. counted n;
  write = λ fd b n. (pos (length b), n + 1);
  close = λ fd n. counted n;
  link = λ p q n. counted n;
  unlink = λ p n. counted n;
  symlink = λ p q n. counted n;
  mkdir = λ p m n. counted n;
  rmdir = λ p n. counted n;
  mknod = λ p m d n. counted n;
  rename = λ p q n. counted n;
  beyond = λ b. [];
  slack = λ n. true;
}

abbrev pub fresh : Replayer ℕ
fresh = record { fd = negsuc 0; system = 0; printed = [] }

abbrev header_of : ℕ → TraceDs
header_of t = record {
  path_len1 = pos 2;
  path_len2 = pos 0;
  write_len = pos 0;
  record_id = pos 0;
  record_type = t;
  open_flags = 2;
  permission_mode = 420;
  err = pos 0;
}

abbrev item_for : ℕ → Item
item_for t = record { header = header_of t; path1 = 47 ∷ 97 ∷ []; path2 = none; content = none }

abbrev replayed : Run (Bool × Replayer ℕ) → Replayer ℕ
replayed (done (b, r)) = r
replayed fault = fresh
replayed stuck = fresh

abbrev opened : Replayer ℕ
opened = replayed (replay_record calls (item_for 0) fresh)

opening : replay_record calls (item_for 0) fresh ≡ done (false, opened)
unfolding replay_record replay_call
opening = refl

replay_record-open_example : ◌≡◌ {A = Bool} false false
replay_record-open_example = replay_record-open calls (item_for 0) fresh opened false refl opening

abbrev removed : Replayer ℕ
removed = replayed (replay_record calls (item_for 6) fresh)

removing : replay_record calls (item_for 6) fresh ≡ done (true, removed)
unfolding replay_record replay_call
removing = refl

replay_record-agrees_example :
    (true ≡ eqb_ℤ (pos 0) (last_value removed.printed))
    × (removed.fd ≡ negsuc 0)
    × (removed.printed
        ≡ line "Replay result ->"
          ∷ original_value (pos 0)
          ∷ replay_value (last_value removed.printed)
          ∷ [])
replay_record-agrees_example =
    replay_record-agrees calls (item_for 6) fresh removed true (λ e. ground arith) (omega arith)
      removing

writing : replay_record calls (item_for 2) fresh ≡ fault
unfolding replay_record replay_call
writing = refl

mode_of_options_example :
    (mode 3 (115 ∷ []) true false ≡ print)
    × (mode 3 (110 ∷ []) true false ≡ print)
    × (mode 2 [] true false ≡ replay false)
mode_of_options_example = mode_of_options true false

abbrev entry_for : ℕ → Entry
entry_for t = record { header = header_of t; path1 = 47 ∷ 97 ∷ []; path2 = []; content = [] }

-- An `open` and an `unlink`.
abbrev first : List ℕ
first = entry_bytes (zeros 28) (entry_for 0)

abbrev second : List ℕ
second = entry_bytes (zeros 28) (entry_for 6) ++ []
