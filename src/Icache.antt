-- ===== src/Icache.antt =====
-- The inodes of the module: `trfs_alloc_inode`, `trfs_destroy_inode` and `init_once` of
-- fs/trfs/super.c, and `trfs_inode_test` and `trfs_inode_set`, which fs/trfs/lookup.c hands to
-- `iget5_locked`.
pub mod Store
pub mod Laws
pub mod Iget
pub mod Count
pub mod Evict
pub mod Lives
use trfs_stackable_filesyste.Common.{ℕ, Option, none, some, ℤ, pos, ◌==◌, if◌then◌else◌}
use trfs_stackable_filesyste.Kernel.{
  inode, clear_info, set_version, inode_init_once, Kernel, M, effect,
}

-- `kmem_cache_alloc` and `kmem_cache_free` on the cache of the module's inodes. An inode stands in its
-- private data, so both have one number; 0 is NULL.
pub record Slab (W : Type 0) : Type 0 where
  pub kmem_cache_alloc : W → Option ℕ × W
  pub kmem_cache_free : ℕ → W → W

module _ {W : Type 0} (k : Kernel W) where
  -- 1 for a match.
  unfoldable pub trfs_inode_test : ℕ → ℕ → W → ℤ
  trfs_inode_test i candidate_lower_inode w =
      if k.lower_inode (inode i) w == candidate_lower_inode then pos 1 else pos 0

  unfoldable pub trfs_inode_set : ℕ → ℕ → W → ℤ × W
  trfs_inode_set i lower_inode w = (pos 0, w)

  unfoldable pub trfs_alloc_inode : Slab W → W → ℕ × W
  trfs_alloc_inode slab w = elim (slab.kmem_cache_alloc w).0 [
    | none ↦ (0, (slab.kmem_cache_alloc w).1)
    | some i ↦ (
      i,
      k.effect (set_version (inode i))
          (k.effect (clear_info (inode i)) (slab.kmem_cache_alloc w).1),
    )
  ]

  -- The constructor of the cache's objects.
  unfoldable init_once : ℕ → M W (Unit {0})
  init_once i = effect k (inode_init_once (inode i))

unfoldable pub trfs_destroy_inode : {W : Type 0} → Slab W → ℕ → W → W
trfs_destroy_inode slab i w = slab.kmem_cache_free i w
