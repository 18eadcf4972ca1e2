-- ===== src/Mount/Operations.antt =====
-- Operations of the superblock in fs/trfs/super.c that pass on to the kernel: `trfs_evict_inode`,
-- `trfs_umount_begin` and, for NFS handles, `trfs_nfs_get_inode`, `trfs_fh_to_dentry` and
-- `trfs_fh_to_parent`.
use trfs_stackable_filesyste.Common.{ℕ, not, ◌&&◌, Option, none, some, List, ◌==◌}
use trfs_stackable_filesyste.Kernel.{
  Inode, inode, ErrPtr, iput, truncate_inode_pages, clear_inode, clear_lower_inode, umount_begin,
  hold_inode, Kernel, oops, M, pure, ◌>>=◌, ◌>>◌, when, read_state, effect,
}
use trfs_stackable_filesyste.Lookup.{trfs_iget}

module _ {W : Type 0} (k : Kernel W) where
  unfoldable pub trfs_evict_inode : Inode → M W (Unit {0})
  trfs_evict_inode i = do
    effect k (truncate_inode_pages i)
    effect k (clear_inode i)
    s ← read_state
    let lower = k.lower_inode i s.world
    effect k (clear_lower_inode i)
    effect k (iput (inode lower))

  unfoldable pub trfs_umount_begin : M W (Unit {0})
  trfs_umount_begin = do
    s ← read_state
    when (not (s.sb.lower_sb == 0) && k.has_umount_begin s.sb.lower_sb s.world)
        (effect k (umount_begin s.sb.lower_sb))

  -- The inode that `trfs_iget` uses, which is NULL if there is none of that number.
  abbrev held_inode : Option ℕ → M W Inode
  held_inode none s = oops
  held_inode (some i) s = (do effect k (hold_inode (inode i)); pure (inode i)) s

  unfoldable pub trfs_nfs_get_inode : ℕ → M W ErrPtr
  trfs_nfs_get_inode ino = do
    s ← read_state
    lower ← held_inode (k.ilookup s.sb.lower_sb ino s.world)
    trfs_iget k lower

  -- `generic_fh_to_dentry` and `generic_fh_to_parent`: from a handle, its length and its type, with a
  -- function that finds an inode by number and generation.
  abbrev pub Decoder : Type 0
  Decoder = List ℕ → ℕ → ℕ → (ℕ → ℕ → M W ErrPtr) → M W ErrPtr

  -- The generation is not looked at.
  abbrev pub get_inode : ℕ → ℕ → M W ErrPtr
  get_inode ino generation = trfs_nfs_get_inode ino

  unfoldable pub trfs_fh_to_dentry : Decoder → List ℕ → ℕ → ℕ → M W ErrPtr
  trfs_fh_to_dentry generic_fh_to_dentry fid fh_len fh_type =
      generic_fh_to_dentry fid fh_len fh_type get_inode

  unfoldable pub trfs_fh_to_parent : Decoder → List ℕ → ℕ → ℕ → M W ErrPtr
  trfs_fh_to_parent generic_fh_to_parent fid fh_len fh_type =
      generic_fh_to_parent fid fh_len fh_type get_inode
