-- ===== src/Examples/Superblocks.antt =====
-- The theorems about the superblock at concrete data.
use trfs_stackable_filesyste.Common.{
  ℕ, ◌+◌, ◌*◌, ◌≤◌, ◌≡◌, ◌↔◌, ◌⊎◌, refl, arith, true, false, none, some, List, [], ◌∷◌, pos,
  is_error,
}
use trfs_stackable_filesyste.Errno.{enomem}
use trfs_stackable_filesyste.Kernel.{Kernel, State, Outcome, ok, oops}
use trfs_stackable_filesyste.Tracing.{Finds}
use trfs_stackable_filesyste.Lookup.{trfs_iget}
use trfs_stackable_filesyste.Lookup.Dentries.{
  trfs_set_lower_path, new_dentry_private_data, trfs_d_release,
}
use trfs_stackable_filesyste.Mount.{MountPath}
use trfs_stackable_filesyste.Mount.Super.{
  trfs_remount_fs, trfs_shutdown_super, make_root, fill_super, trfs_read_super,
}
use trfs_stackable_filesyste.Mount.Unmount.{
  callbacks, trfs_remount_fs-known, trfs_shutdown_super_refused,
}
use trfs_stackable_filesyste.Mount.Modules.{
  unloaded, init_trfs_fs, exit_trfs_fs, init_trfs_fs_whole,
}
use trfs_stackable_filesyste.Session.Others.{Reply}
use trfs_stackable_filesyste.Examples.Toy.{toy, mounted}

trfs_remount_fs-known_example :
    (trfs_remount_fs 32769 ≡ pos 0)
    ↔ ((a : ℕ) × (b : ℕ) × (c : ℕ) × (a ≤ 1) × (b ≤ 1) × (c ≤ 1) × (32769 ≡ a + b * 64 + c * 32768))
trfs_remount_fs-known_example = trfs_remount_fs-known 32769

-- "/t" and "/d"
abbrev pub mount_path : MountPath
mount_path = record { tfile_path = 47 ∷ 116 ∷ []; device_path = 47 ∷ 100 ∷ [] }

-- Before the mount: the three blocks of the mount path are there.
abbrev pub before : State (List ℕ)
before = record mounted {
  live = 3;
  infos = 0;
  d_fsdata = λ d. false;
  s_fs_info = false;
  s_active = 0;
}

abbrev pub state_of : {A : Type 0} → Outcome (A × State (List ℕ)) → State (List ℕ)
state_of oops = mounted
state_of (ok (e, s)) = s

abbrev after_reply : Outcome (Reply × State (List ℕ)) → State (List ℕ)
after_reply oops = mounted
after_reply (ok (e, s)) = s

unfoldable abbrev pub ready : State (List ℕ)
unfolding trfs_read_super fill_super make_root trfs_iget new_dentry_private_data trfs_set_lower_path
ready = state_of (trfs_read_super toy trfs_d_release (some mount_path) before)

pub mounting : trfs_read_super toy trfs_d_release (some mount_path) before ≡ ok (pos 0, ready)
unfolding trfs_read_super fill_super make_root trfs_iget new_dentry_private_data trfs_set_lower_path
mounting = refl

-- A kernel without memory for the root.
abbrev poor : Kernel (List ℕ)
poor = record toy { d_make_root = λ i w. (none, w) }

abbrev poor_finds : Finds poor
poor_finds = record {
  vfs_path_lookup_ne = λ p q d w h. ground arith;
  d_lookup_ne = λ p d c w h. ground arith;
  d_alloc_ne = λ p d c w h. ground arith;
  kern_path_ne = λ name w p h. ground arith;
  d_make_root_ne = λ i d w h. ground arith;
  kern_path_error = λ name w e h. ground arith;
}

abbrev failed : State (List ℕ)
unfolding trfs_read_super fill_super make_root trfs_iget
failed = state_of (trfs_read_super poor trfs_d_release (some mount_path) before)

failing : trfs_read_super poor trfs_d_release (some mount_path) before ≡ ok (enomem, failed)
unfolding trfs_read_super fill_super make_root trfs_iget
failing = refl

trfs_shutdown_super_refused_example : trfs_shutdown_super callbacks failed ≡ oops
trfs_shutdown_super_refused_example =
    trfs_shutdown_super_refused poor trfs_d_release callbacks refl poor_finds mount_path before
      failed enomem refl failing refl

init_trfs_fs_whole_example :
    let (err, m) = init_trfs_fs true true (pos 0) unloaded in
    (((is_error err ≡ true) × (m ≡ unloaded))
      ⊎ ((err ≡ pos 0)
          × (m ≡ record { inode_cache = true; dentry_cache = true; registered = true })))
    × (exit_trfs_fs m ≡ unloaded)
init_trfs_fs_whole_example = init_trfs_fs_whole true true (pos 0)
