-- ===== src/Examples.antt =====
-- The theorems at concrete data.
pub mod Toy
pub mod Programs
pub mod Controls
pub mod Mounts
pub mod Others
pub mod Superblocks
pub mod Sessions
pub mod Switches
pub mod Nurseries
pub mod Inodes
pub mod Lifetimes
pub mod Races
use trfs_stackable_filesyste.Common.{
  int16, int32, bits16, bits32, ℕ, zero, suc, ◌+◌, ◌≤◌, ◌<◌, ◌^◌, ◌≡◌, ◌≢◌, refl, arith, Bool, true,
  false, Option, none, some, List, [], ◌∷◌, ◌++◌, ℤ, pos, length,
}
use trfs_stackable_filesyste.Record.{
  TraceDs, IsTraceDs, load_trace_ds, store_trace_ds, sizeof_trace_ds,
}
use trfs_stackable_filesyste.Record.RoundTrip.{load-store}
use trfs_stackable_filesyste.Entry.{Entry, IsEntry, entry_bytes, IsLog, empty, entry}
use trfs_stackable_filesyste.Kernel.{State, Outcome, ok, oops}
use trfs_stackable_filesyste.Tracing.{Tracing, Typed}
use trfs_stackable_filesyste.Trace.{
  nothing, path, text, content, trace, trace_if_set, is_traced, find_path, find_second,
  append_record, short, strlen, next_id,
}
use trfs_stackable_filesyste.Trace.Shape.{logged_state, trace_shape}
use trfs_stackable_filesyste.Trace.Tfile.{trace_ok, logged_entry}
use trfs_stackable_filesyste.Inode.Directories.{trfs_rename}
use trfs_stackable_filesyste.Lookup.{trfs_interpose}
use trfs_stackable_filesyste.Lookup.Total.{interposed, trfs_interpose-interposed}
use trfs_stackable_filesyste.Session.{
  Request, open_file, read, write, release, create, link, unlink, symlink, mkdir, rmdir, mknod,
  rename, serve, call_number,
}
use trfs_stackable_filesyste.Session.Balance.{live_after, IsBalanced, serve-IsBalanced}
use trfs_stackable_filesyste.Session.Logged.{Logged}
use trfs_stackable_filesyste.Session.History.{Ready, subject, second_part}
use trfs_stackable_filesyste.Session.Log.{History, request, Log, Served}
use trfs_stackable_filesyste.Replay.{Run, done, fault, stuck, Item, replay_file}
use trfs_stackable_filesyste.Replay.Total.{replay_file-ne-stuck}
use trfs_stackable_filesyste.Replay.RoundTrip.{items, visit_all, replay_file-log}
use trfs_stackable_filesyste.Examples.Toy.{zeros, toy, toy_tracing, short_path, mounted}

-- A rename of "/a" to "/bb".
abbrev moving : Request
moving = rename 1 0 1 1

-- The state that a request leaves.
abbrev after : Outcome (ℤ × State (List ℕ)) → State (List ℕ)
after oops = mounted
after (ok (e, s)) = s

abbrev renamed : State (List ℕ)
unfolding trfs_rename
renamed = after (serve toy moving mounted)

served : serve toy moving mounted ≡ ok (pos 0, renamed)
unfolding trfs_rename trace_if_set trace is_traced find_path find_second append_record short strlen
    next_id store_trace_ds int16 int32 bits16 bits32
served = refl

serve-IsBalanced_example : IsBalanced 1 0 mounted renamed
serve-IsBalanced_example = serve-IsBalanced toy mounted renamed (pos 0) moving served

ready : Ready toy toy_tracing mounted moving
ready = (refl, refl, (λ w. short_path 0), (λ w. short_path 1))

-- The rename as it was served.
abbrev move : Served
move = record {
  request = moving;
  mask = 0xfff;
  paths = λ d. toy_tracing.path d mounted.world;
  result = pos 0;
}

-- Counts the records.
abbrev counting : Item → ℕ → Run (Bool × ℕ)
counting item n = done (true, n + 1)

abbrev header : TraceDs
header = record {
  path_len1 = pos 2;
  path_len2 = pos 0;
  write_len = pos 1;
  record_id = pos 5;
  record_type = 2;
  open_flags = 2;
  permission_mode = 420;
  err = pos 1;
}

header_fits : IsTraceDs header
header_fits = record {
  path_len1_fits = omega arith;
  path_len2_fits = omega arith;
  write_len_fits = omega arith;
  record_id_fits = omega arith;
  record_type_fits = omega arith;
  open_flags_fits = omega arith;
  permission_mode_fits = omega arith;
  err_fits = omega arith;
}

abbrev block : List ℕ
block = zeros 28

abbrev written : Entry
written = record { header = header; path1 = 47 ∷ 97 ∷ []; path2 = []; content = 120 ∷ [] }

written-IsLog : IsLog (entry_bytes block written ++ []) (written ∷ [])
written-IsLog =
    entry written block
      (record {
        header_fits = header_fits;
        path1_counted = refl;
        path2_counted = refl;
        content_counted = refl;
      })
      refl empty

load-store_example : load_trace_ds (store_trace_ds header block ++ (7 ∷ [])) ≡ some header
load-store_example = load-store header block (7 ∷ []) header_fits refl

length-written : length (entry_bytes block written ++ []) < 2 ^ 31
unfolding store_trace_ds bits16 bits32
length-written = omega arith

never_stuck : (i : Item) (n : ℕ) → counting i n ≢ stuck
never_stuck i n = λ e. cc

replay_file-log_example :
    replay_file counting (entry_bytes block written ++ []) 0
    ≡ visit_all counting (items none none (written ∷ [])) 0
replay_file-log_example = replay_file-log counting written-IsLog 0 length-written

trace_ok_example :
    (w : List ℕ) × (block : List ℕ) × (trace toy 11 0 0 (pos 0) 0 (path 1) mounted
      ≡ ok (3, logged_state mounted w))
    × (length block ≡ sizeof_trace_ds)
    × (w
        ≡ entry_bytes block
            (logged_entry (λ e. toy_tracing.path e []) (pos 0) 11 0 0 (pos 0) 0 (path 1)))
trace_ok_example =
    trace_ok toy toy_tracing 11 0 0 (pos 0) 0 (path 1) mounted refl (short_path 0) (short_path 1)
