-- ===== src/Mount/Laws.antt =====
-- What `trfs_mount` of fs/trfs/main.c makes of its mount data.
use trfs_stackable_filesyste.Common.{
  ℕ, ◌≡◌, ◌≢◌, refl, arith, Bool, true, some, List, [], ◌∷◌, ◌++◌, All, length, ◌+◌,
}
use trfs_stackable_filesyste.Mount.{
  mount_nodev, reads_beyond, at, behind, find_equals, copy_paths, trfs_mount,
}

-- A key: no '=' is in it.
abbrev pub IsKey : List ℕ → Type 0
IsKey key = All (λ c. c ≢ 61) key

find_equals-append : (key value : List ℕ) → IsKey key → find_equals (key ++ (61 ∷ value)) ≡ at value
unfolding find_equals
find_equals-append [] value h = refl
find_equals-append (c ∷ cs) value (n, h) = ground (arith, find_equals-append cs value h)

find_equals-IsKey : (key : List ℕ) → IsKey key → find_equals key ≡ behind
unfolding find_equals
find_equals-IsKey [] h = refl
find_equals-IsKey (c ∷ cs) (n, h) = ground (arith, find_equals-IsKey cs h)

-- With memory at hand, `<key>=<path>` and a device name are handed on as they are: the trace file's
-- path is all that follows the first '=', further ones included.
trfs_mount-key :
    (kmalloc : ℕ → ℕ → Bool) (key path dev_name : List ℕ)
    → ((i n : ℕ) → kmalloc i n ≡ true)
    → IsKey key
    → trfs_mount kmalloc (some (key ++ (61 ∷ path))) (some dev_name)
      ≡ mount_nodev (some (record { tfile_path = path; device_path = dev_name }))
unfolding trfs_mount copy_paths
trfs_mount-key kmalloc key path dev_name a h =
    ground (
      arith,
      find_equals-append key path h,
      a 0 16,
      a 1 (length path + 1),
      a 2 (length dev_name + 1),
    )

-- Mount data without '=' are not refused: with memory at hand, the string behind their end is read.
pub trfs_mount-IsKey :
    (kmalloc : ℕ → ℕ → Bool) (raw_data dev_name : List ℕ)
    → kmalloc 0 16 ≡ true
    → IsKey raw_data
    → trfs_mount kmalloc (some raw_data) (some dev_name) ≡ reads_beyond
unfolding trfs_mount copy_paths
trfs_mount-IsKey kmalloc raw_data dev_name a h = ground (arith, find_equals-IsKey raw_data h)
