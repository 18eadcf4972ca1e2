-- ===== src/Icache/Laws.antt =====
-- What fs/trfs relies on of the kernel's inode cache.
use trfs_stackable_filesyste.Common.{ℕ, ◌≡◌, ◌≢◌, Bool, true, false, some, pos, All}
use trfs_stackable_filesyste.Kernel.{
  Dentry, Inode, inode, d_inode, missing, cached, fresh, Effect, iput, Kernel,
}
use trfs_stackable_filesyste.Icache.{Slab, trfs_inode_test, trfs_inode_set, trfs_alloc_inode}
use trfs_stackable_filesyste.Icache.Store.{
  Store, lower_of, IsNew, IsLive, take_one, put_one, add, remove, after_effect,
}

abbrev pub is_iput : Effect → Bool
is_iput (iput i) = true
is_iput _ = false

-- `iget5_locked` calls `trfs_inode_test` on the live inodes, allocates with `trfs_alloc_inode` if none
-- matches, and calls `trfs_inode_set` on the new inode. `is_own` says which inodes are the module's: what
-- `iput` of the last reference to one of these calls is not a part of these laws.
pub record Icache {W : Type 0} (k : Kernel W) (slab : Slab W) : Type 0 where
  pub view : W → Store
  -- The inode that a name means.
  pub number : Inode → W → ℕ
  pub number_inode : (n : ℕ) (w : W) → number (inode n) w ≡ n
  pub number_effect :
      (d : Dentry) (e : Effect) (w : W) → number (d_inode d) (k.effect e w) ≡ number (d_inode d) w
  pub number_iget5_locked :
      (d : Dentry) (i : Inode) (w : W)
      → number (d_inode d) (k.iget5_locked i w).1 ≡ number (d_inode d) w
  pub number_igrab :
      (d : Dentry) (i : Inode) (w : W) → number (d_inode d) (k.igrab i w).1 ≡ number (d_inode d) w
  pub is_own : ℕ → Bool
  pub is_own_null : is_own 0 ≡ false
  pub lower_inode_view : (i : ℕ) (w : W) → k.lower_inode (inode i) w ≡ lower_of i (view w).objects
  pub effect_view :
      (e : Effect) (w : W)
      → is_iput e ≡ false
      → view (k.effect e w) ≡ after_effect (λ i. number i w) e (view w)
  pub iput_view :
      (i : Inode) (w : W)
      → is_own (number i w) ≡ false
      → view (k.effect (iput i) w) ≡ put_one (number i w) (view w)
  pub igrab_view :
      (i : Inode) (w : W)
      → (k.igrab i w).0 ≡ true
      → view (k.igrab i w).1 ≡ take_one (number i w) (view w)
  pub igrab_view_false :
      (i : Inode) (w : W) → (k.igrab i w).0 ≡ false → view (k.igrab i w).1 ≡ view w
  pub iget5_missing :
      (i : Inode) (w : W)
      → (k.iget5_locked i w).0 ≡ missing
      → All (λ (o : ℕ × ℕ). trfs_inode_test k (o.0) (number i w) w ≡ pos 0) (view w).objects
        × (view (k.iget5_locked i w).1 ≡ view w)
  pub iget5_cached :
      (i : Inode) (j : ℕ) (w : W)
      → (k.iget5_locked i w).0 ≡ cached j
      → IsLive j (view w).objects
        × (trfs_inode_test k j (number i w) w ≡ pos 1)
        × (view (k.iget5_locked i w).1 ≡ view w)
  pub iget5_fresh :
      (i : Inode) (j : ℕ) (w : W)
      → (k.iget5_locked i w).0 ≡ fresh j
      → All (λ (o : ℕ × ℕ). trfs_inode_test k (o.0) (number i w) w ≡ pos 0) (view w).objects
        × (j ≢ 0)
        × (j ≡ (trfs_alloc_inode k slab w).0)
        × (view (k.iget5_locked i w).1
            ≡ view (trfs_inode_set k j (number i w) (trfs_alloc_inode k slab w).1).1)
  -- A new object holds what was in the memory.
  pub alloc_view :
      (j : ℕ) (w : W)
      → (slab.kmem_cache_alloc w).0 ≡ some j
      → (g : ℕ) × IsNew j (view w).objects × (view (slab.kmem_cache_alloc w).1 ≡ add j g (view w))
  pub free_view :
      (j : ℕ) (w : W)
      → view (slab.kmem_cache_free j w) ≡ record (view w) { objects = remove j (view w).objects }
