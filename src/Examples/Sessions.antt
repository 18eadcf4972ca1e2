-- ===== src/Examples/Sessions.antt =====
-- The theorems from the mount to the reader, for a mount, one traced request, and treplay.
use trfs_stackable_filesyste.Common.{
  ◌+◌, ◌-◌, ◌≡◌, refl, arith, Bool, false, true, List, [], ◌∷◌, pos, ℕ,
}
use trfs_stackable_filesyste.Entry.{Entry}
use trfs_stackable_filesyste.Kernel.{State, ok, ptr, ◌>>◌}
use trfs_stackable_filesyste.Inode.Directories.{trfs_rename}
use trfs_stackable_filesyste.Lookup.Dentries.{
  new_dentry_private_data, trfs_set_lower_path, trfs_d_release,
}
use trfs_stackable_filesyste.Session.{Request, rename, serve}
use trfs_stackable_filesyste.Session.Log.{request, Served}
use trfs_stackable_filesyste.Replay.{Run, done, Item}
use trfs_stackable_filesyste.Examples.Toy.{toy, toy_tracing}
use trfs_stackable_filesyste.Lookup.Names.{trfs_lookup, lookup, after_enoent}
use trfs_stackable_filesyste.Mount.Super.{trfs_shutdown_super}
use trfs_stackable_filesyste.Mount.Unmount.{callbacks}
use trfs_stackable_filesyste.File.Lower.{trfs_read_iter}
use trfs_stackable_filesyste.Session.Others.{read_iter, number, serve_other}
use trfs_stackable_filesyste.Session.Held.{release_all}
use trfs_stackable_filesyste.Session.Unmounted.{
  Requests, begin, untraced, looked_up, trfs_shutdown_super-Requests,
}
use trfs_stackable_filesyste.Examples.Others.{toy_finds}
use trfs_stackable_filesyste.Examples.Superblocks.{mount_path, before, ready, mounting, state_of}

-- The dentries have been looked up.
abbrev named : State (List ℕ)
unfolding ready
named = record ready {
  d_fsdata = λ d. true;
  lower_path = λ d. record { dentry = d + 100; mnt = 2 };
}

-- A rename of "/a" to "/bb".
abbrev moving : Request
moving = rename 1 0 1 1

abbrev moved : State (List ℕ)
unfolding trfs_rename named
moved = state_of (serve toy moving named)

-- The rename as it was served.
abbrev move : Served
move = record {
  request = moving;
  mask = 0xfff;
  paths = λ d. toy_tracing.path d before.world;
  result = pos 0;
}

-- A visit that counts.
abbrev counting : Item → ℕ → Run (Bool × ℕ)
counting i n = done (true, n + 1)

-- A lookup of a name that is not there, which gives the dentry 3 private data.
abbrev looked : State (List ℕ)
unfolding trfs_lookup lookup after_enoent new_dentry_private_data trfs_set_lower_path ready
looked = state_of (trfs_lookup toy 3 ready)

looking : trfs_lookup toy 3 ready ≡ ok (ptr 0, looked)
unfolding trfs_lookup lookup after_enoent new_dentry_private_data trfs_set_lower_path ready looked
looking = refl

-- A vectored read of the file 3 after it.
abbrev have_read : State (List ℕ)
unfolding trfs_read_iter looked
have_read = state_of (serve_other toy (read_iter 3 9) looked)

read_served : serve_other toy (read_iter 3 9) looked ≡ ok (number (pos 0), have_read)
unfolding trfs_read_iter looked have_read
read_served = refl

requests : Requests toy ready (3 ∷ []) have_read
unfolding ready looked have_read
requests =
    untraced (read_iter 3 9) (number (pos 0))
      (looked_up 3 (ptr 0) begin (λ e. ground arith) refl looking) read_served

trfs_shutdown_super-Requests_example :
    (w : State (List ℕ)) × (trfs_shutdown_super (release_all (3 ∷ []) >> callbacks) have_read
      ≡ ok (tt, w))
    × (w.live ≡ have_read.live - 4)
    × (w.lower_files ≡ have_read.lower_files)
    × (w.refs ≡ 0)
    × (w.locks ≡ 0)
    × (w.files ≡ 0)
    × (w.kernel_ds ≡ false)
    × (w.infos ≡ 0)
    × (w.s_active ≡ 0)
    × (w.s_fs_info ≡ false)
trfs_shutdown_super-Requests_example =
    trfs_shutdown_super-Requests toy toy_tracing toy_finds trfs_d_release
      (release_all (3 ∷ []) >> callbacks) mount_path before ready have_read (3 ∷ []) refl refl refl
      mounting requests
