-- ===== src/Mount/Modules.antt =====
-- Loading and unloading the module: `init_trfs_fs` and `exit_trfs_fs` of fs/trfs/main.c, with the caches
-- of fs/trfs/super.c and fs/trfs/lookup.c.
use trfs_stackable_filesyste.Common.{
  ◌≡◌, ◌⊎◌, arith, Bool, true, false, ℤ, pos, is_error, if◌then◌else◌,
}
use trfs_stackable_filesyste.Errno.{enomem}

-- Which of the two caches there are, and whether the file system is registered.
pub record Loaded : Type 0 where
  pub inode_cache : Bool
  pub dentry_cache : Bool
  pub registered : Bool

abbrev pub unloaded : Loaded
unloaded = record { inode_cache = false; dentry_cache = false; registered = false }

-- `made` says if `kmem_cache_create` gives a cache.
abbrev pub trfs_init_inode_cache : Bool → Loaded → ℤ × Loaded
trfs_init_inode_cache made m = (if made then pos 0 else enomem, record m { inode_cache = made })

abbrev pub trfs_init_dentry_cache : Bool → Loaded → ℤ × Loaded
trfs_init_dentry_cache made m = (if made then pos 0 else enomem, record m { dentry_cache = made })

abbrev pub trfs_destroy_inode_cache : Loaded → Loaded
trfs_destroy_inode_cache m = record m { inode_cache = false }

abbrev pub trfs_destroy_dentry_cache : Loaded → Loaded
trfs_destroy_dentry_cache m = record m { dentry_cache = false }

abbrev register_filesystem : ℤ → Loaded → ℤ × Loaded
register_filesystem err m = (err, if is_error err then m else record m { registered = true })

-- The label `out`.
abbrev out : ℤ × Loaded → ℤ × Loaded
out (err, m) =
    if is_error err then (err, trfs_destroy_dentry_cache (trfs_destroy_inode_cache m)) else (err, m)

-- Whether the caches are made, and what `register_filesystem` returns.
unfoldable pub init_trfs_fs : Bool → Bool → ℤ → Loaded → ℤ × Loaded
init_trfs_fs inodes dentries registration m =
    let (err, m) = trfs_init_inode_cache inodes m in
    if is_error err
    then out (err, m)
    else (let (err, m) = trfs_init_dentry_cache dentries m in
        if is_error err then out (err, m) else out (register_filesystem registration m))

unfoldable pub exit_trfs_fs : Loaded → Loaded
exit_trfs_fs m = record (trfs_destroy_dentry_cache (trfs_destroy_inode_cache m)) {
  registered = false;
}

-- Loading fails as a whole, with no cache left, or makes both caches and registers the file system; and
-- unloading undoes it.
pub init_trfs_fs_whole :
    (inodes dentries : Bool) (registration : ℤ)
    → let (err, m) = init_trfs_fs inodes dentries registration unloaded in
      (((is_error err ≡ true) × (m ≡ unloaded))
        ⊎ ((err ≡ pos 0)
            × (m ≡ record { inode_cache = true; dentry_cache = true; registered = true })))
      × (exit_trfs_fs m ≡ unloaded)
unfolding init_trfs_fs exit_trfs_fs
init_trfs_fs_whole true true registration = ground arith
init_trfs_fs_whole true false registration = ground arith
init_trfs_fs_whole false dentries registration = ground arith
