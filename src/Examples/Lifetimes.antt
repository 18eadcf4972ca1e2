-- ===== src/Examples/Lifetimes.antt =====
-- The theorems about open files, for a mount, a file that is opened and closed, a link that is read, and a
-- lookup.
use trfs_stackable_filesyste.Common.{
  ◌+◌, ◌-◌, ◌≡◌, refl, arith, false, List, [], ◌∷◌, pos, ℕ, int16, int32, bits16, bits32,
}
use trfs_stackable_filesyste.Record.{store_trace_ds}
use trfs_stackable_filesyste.Kernel.{State, ok, ptr, ◌>>◌}
use trfs_stackable_filesyste.Trace.{
  trace_if_set, trace, is_traced, find_path, find_second, append_record, short, strlen, next_id,
}
use trfs_stackable_filesyste.File.{trfs_open, open_allocated, trfs_file_release}
use trfs_stackable_filesyste.Inode.Attributes.{trfs_get_link, trfs_readlink}
use trfs_stackable_filesyste.Lookup.Dentries.{
  new_dentry_private_data, trfs_set_lower_path, trfs_d_release,
}
use trfs_stackable_filesyste.Lookup.Names.{trfs_lookup, lookup, after_enoent}
use trfs_stackable_filesyste.Mount.Super.{trfs_shutdown_super}
use trfs_stackable_filesyste.Mount.Unmount.{callbacks}
use trfs_stackable_filesyste.Session.{open_file, release, serve}
use trfs_stackable_filesyste.Session.Infos.{Opens}
use trfs_stackable_filesyste.Session.Dentries.{here}
use trfs_stackable_filesyste.Session.Others.{get_link, text, serve_other}
use trfs_stackable_filesyste.Session.Held.{release_all}
use trfs_stackable_filesyste.Session.Lifetimes.{
  Lifetimes, begin, opened, closed, untraced, text_freed, looked_up,
}
use trfs_stackable_filesyste.Session.Lifetimes.Live.{AreOpen, Lifetimes-live}
use trfs_stackable_filesyste.Session.Lifetimes.Closed.{trfs_shutdown_super-Lifetimes}
use trfs_stackable_filesyste.Examples.Toy.{toy, toy_tracing}
use trfs_stackable_filesyste.Examples.Others.{toy_finds}
use trfs_stackable_filesyste.Examples.Superblocks.{mount_path, before, ready, mounting, state_of}

opens : Opens toy
opens = record { not_null = λ p n q w h. ground arith; error = λ p n x w h. cc }

-- The file 4 is opened.
abbrev one : State (List ℕ)
unfolding trfs_open ready
one = state_of (serve toy (open_file 0 4) ready)

opening : serve toy (open_file 0 4) ready ≡ ok (pos 0, one)
unfolding trfs_open open_allocated trfs_file_release trfs_get_link trfs_readlink trace_if_set trace
    is_traced find_path find_second append_record short strlen next_id store_trace_ds int16 int32
    bits16 bits32 ready one
opening = refl

-- A link is read.
abbrev two : State (List ℕ)
unfolding trfs_get_link one
two = state_of (serve_other toy (get_link 1) one)

link_read : serve_other toy (get_link 1) one ≡ ok (text (ptr 1), two)
unfolding trfs_open open_allocated trfs_file_release trfs_get_link trfs_readlink trace_if_set trace
    is_traced find_path find_second append_record short strlen next_id store_trace_ds int16 int32
    bits16 bits32 ready one two
link_read = refl

-- Its text is freed, and the file is closed.
abbrev three : State (List ℕ)
unfolding trfs_file_release two
three = state_of (serve toy (release 4) (record two { live = two.live - 1 }))

closing : serve toy (release 4) (record two { live = two.live - 1 }) ≡ ok (pos 0, three)
unfolding trfs_open open_allocated trfs_file_release trfs_get_link trfs_readlink trace_if_set trace
    is_traced find_path find_second append_record short strlen next_id store_trace_ds int16 int32
    bits16 bits32 ready one two three
closing = refl

-- The dentry 3 is looked up.
abbrev four : State (List ℕ)
unfolding trfs_lookup lookup after_enoent new_dentry_private_data trfs_set_lower_path three
four = state_of (trfs_lookup toy 3 three)

looking : trfs_lookup toy 3 three ≡ ok (ptr 0, four)
unfolding trfs_lookup lookup after_enoent new_dentry_private_data trfs_set_lower_path trfs_open
    open_allocated trfs_file_release trfs_get_link trfs_readlink trace_if_set trace is_traced
    find_path find_second append_record short strlen next_id store_trace_ds int16 int32 bits16
    bits32 ready one two three four
looking = refl

-- The file is open while its link's text waits for its free.
during : Lifetimes toy ready [] (4 ∷ []) 1 two
unfolding ready one two
during =
    untraced [] (4 ∷ []) 0 one two (get_link 1) (text (ptr 1))
      (opened [] [] 0 ready one 0 4 (pos 0) begin tt opening) link_read

not_there : three.d_fsdata 3 ≡ false
unfolding trfs_readlink trace_if_set is_traced trace find_path strlen find_second append_record
    ready one two three
not_there = refl

over : Lifetimes toy ready (3 ∷ []) [] 0 four
unfolding ready one two three four trfs_readlink trace_if_set is_traced trace find_path strlen
    find_second append_record
over =
    looked_up [] [] 0 three four 3 (ptr 0)
      (closed [] (4 ∷ []) [] 0 (record two { live = two.live - 1 }) three 4 (pos 0)
        (text_freed [] (4 ∷ []) 0 two during) here closing)
      (λ e. ground arith) not_there looking

Lifetimes-live_example :
    AreOpen two (4 ∷ [])
    × (two.live ≡ ready.live + 1 + 1)
    × (two.lower_files ≡ ready.lower_files + 1)
Lifetimes-live_example =
    Lifetimes-live toy toy_tracing toy_finds opens ready two [] (4 ∷ []) 1 during

trfs_shutdown_super-Lifetimes_example :
    (w : State (List ℕ)) × (trfs_shutdown_super (release_all (3 ∷ []) >> callbacks) four
      ≡ ok (tt, w))
    × (w.live ≡ 0)
    × (w.lower_files ≡ 0)
    × (w.refs ≡ 0)
    × (w.locks ≡ 0)
    × (w.files ≡ 0)
    × (w.kernel_ds ≡ false)
    × (w.infos ≡ 0)
    × (w.s_active ≡ 0)
    × (w.s_fs_info ≡ false)
trfs_shutdown_super-Lifetimes_example =
    trfs_shutdown_super-Lifetimes toy toy_tracing toy_finds opens trfs_d_release
      (release_all (3 ∷ []) >> callbacks) mount_path 0 before ready four (3 ∷ []) refl refl refl
      refl mounting over
