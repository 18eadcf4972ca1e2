-- ===== src/Examples/Races.antt =====
-- The theorems about handlers that log at the same time, at concrete data.
use trfs_stackable_filesyste.Common.{
  none, ◌≡◌, refl, arith, List, [], ◌∷◌, pos, ℕ, int16, int32, bits16, bits32,
}
use trfs_stackable_filesyste.Record.{store_trace_ds}
use trfs_stackable_filesyste.Kernel.{State, Outcome, oops, ok}
use trfs_stackable_filesyste.Trace.{
  nothing, find_path, find_second, append_record, short, strlen, next_id,
}
use trfs_stackable_filesyste.Trace.Stages.{
  Job, Locals, load, append, store, waiting, loaded, finished, here, there, Runs, begin, loads,
  appends, stores,
}
use trfs_stackable_filesyste.Trace.Race.{IsBounded, Runs-IsBounded, store-lost}
use trfs_stackable_filesyste.Examples.Toy.{toy, mounted}

-- A mkdir of "/a" and an unlink of "/bb".
abbrev first : Job
first = record {
  rec_type = 8;
  open_flags = 0;
  perm_mode = 420;
  err = pos 0;
  dentry = 0;
  second = nothing;
}

abbrev second : Job
second = record {
  rec_type = 6;
  open_flags = 0;
  perm_mode = 0;
  err = pos 0;
  dentry = 1;
  second = nothing;
}

abbrev state_of : {A : Type 0} → Outcome (A × State (List ℕ)) → State (List ℕ)
state_of oops = mounted
state_of (ok (e, s)) = s

abbrev no_locals : Locals
no_locals = record {
  rec_id = pos 0;
  tracer = record {
    path_len1 = pos 0;
    path_len2 = pos 0;
    write_len = pos 0;
    record_id = pos 0;
    record_type = 0;
    open_flags = 0;
    permission_mode = 0;
    err = pos 0;
  };
  place = record { start = 0; len = 0 };
  extra = record { path_len2 = pos 0; write_len = pos 0; buffer = []; write = none };
}

abbrev locals_of : Outcome (Locals × State (List ℕ)) → Locals
locals_of oops = no_locals
locals_of (ok (l, s)) = l

-- Both read the record id, before the first appends and stores.
abbrev after_first : State (List ℕ)
unfolding load find_path find_second short strlen int16
after_first = state_of (load toy first mounted)

abbrev of_first : Locals
unfolding load find_path find_second short strlen int16
of_first = locals_of (load toy first mounted)

abbrev after_second : State (List ℕ)
unfolding load find_path find_second short strlen int16 after_first
after_second = state_of (load toy second after_first)

abbrev of_second : Locals
unfolding load find_path find_second short strlen int16 after_first
of_second = locals_of (load toy second after_first)

loading_first : load toy first mounted ≡ ok (of_first, after_first)
unfolding load find_path find_second short strlen int16 after_first of_first
loading_first = refl

loading_second : load toy second after_first ≡ ok (of_second, after_second)
unfolding load find_path find_second short strlen int16 after_first after_second of_second
loading_second = refl

abbrev written : State (List ℕ)
unfolding append_record store_trace_ds int16 int32 bits16 bits32 of_first after_second
written = state_of (append toy of_first after_second)

writing : append toy of_first after_second ≡ ok (tt, written)
unfolding append_record store_trace_ds int16 int32 bits16 bits32 of_first after_second written
writing = refl

abbrev stored : State (List ℕ)
unfolding of_first written
stored = state_of (store toy of_first written)

storing : store toy of_first written ≡ ok (tt, stored)
unfolding of_first written stored
storing = refl

overlap :
    Runs toy mounted (waiting first ∷ waiting second ∷ []) stored (finished ∷ loaded of_second ∷ [])
overlap =
    stores of_first
      (appends of_first
        (loads second of_second (loads first of_first begin here loading_first)
          (there (loaded of_first) here) loading_second)
        here writing)
      here storing

Runs-IsBounded_example : IsBounded toy 0 1 stored (finished ∷ loaded of_second ∷ [])
Runs-IsBounded_example =
    Runs-IsBounded toy 0 (first ∷ second ∷ []) mounted stored (finished ∷ loaded of_second ∷ [])
      refl (omega arith) overlap

store-lost_example :
    let next = record stored { sb = record (stored.sb) { record_id = next_id (pos 0) } } in
    (store toy of_first stored ≡ ok (tt, next))
    × (store toy of_second stored ≡ ok (tt, next))
    × (of_first.tracer.record_id ≡ pos 0)
    × (of_second.tracer.record_id ≡ pos 0)
store-lost_example =
    store-lost toy first second of_first of_second mounted after_first after_first after_second
      stored loading_first refl loading_second
