-- ===== src/Mount.antt =====
-- `trfs_mount` of fs/trfs/main.c: the mount data `tfile=<path>` and the device name become the
-- `struct trfs_mount_path` that goes to `mount_nodev`. Strings are lists of bytes without their
-- final 0; a pointer that may be NULL is an option.
pub mod Laws
pub mod Super
pub mod Balance
pub mod Total
pub mod Operations
pub mod Unmount
pub mod Modules
use trfs_stackable_filesyste.Common.{
  ℕ, ◌+◌, Bool, true, false, Option, none, some, List, [], ◌∷◌, ◌==◌, if◌then◌else◌, length,
}

-- `struct trfs_mount_path`
pub record MountPath : Type 0 where
  pub tfile_path : List ℕ
  pub device_path : List ℕ

-- What becomes of a mount: `mount_nodev` gets a pointer, which may be NULL; bytes behind the mount data
-- are read; or bytes are written through NULL.
pub data Mount : Type 0 where
  mount_nodev : Option MountPath → Mount
  reads_beyond : Mount
  writes_null : Mount

-- Where `tracker` stands after the loop and `tracker++`: at a string, or behind the final 0.
pub data Tracker : Type 0 where
  at : List ℕ → Tracker
  behind : Tracker

-- The loop up to the first '=', which is 61.
unfoldable pub find_equals : List ℕ → Tracker
find_equals [] = behind
find_equals (c ∷ cs) = let rest = find_equals cs in if c == 61 then at cs else rest

-- The copies of the strings. `kmalloc n` says if a block of `n` bytes is given at that call.
unfoldable pub copy_paths : (ℕ → ℕ → Bool) → Tracker → List ℕ → Mount
copy_paths kmalloc behind dev_name = reads_beyond
copy_paths kmalloc (at tfile) dev_name =
    if kmalloc 1 (length tfile + 1)
    then (if kmalloc 2 (length dev_name + 1)
        then mount_nodev (some (record { tfile_path = tfile; device_path = dev_name }))
        else writes_null)
    else writes_null

-- `kmalloc i n` says if the call `i` of the function gets its `n` bytes. The test `tracker == '\0'` is
-- one of the pointer, and never holds.
unfoldable pub trfs_mount : (ℕ → ℕ → Bool) → Option (List ℕ) → Option (List ℕ) → Mount
trfs_mount kmalloc none dev_name = mount_nodev none
trfs_mount kmalloc (some raw_data) none = mount_nodev none
trfs_mount kmalloc (some raw_data) (some dev_name) =
    if kmalloc 0 16 then copy_paths kmalloc (find_equals raw_data) dev_name else mount_nodev none
