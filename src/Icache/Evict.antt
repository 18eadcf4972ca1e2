-- ===== src/Icache/Evict.antt =====
-- What `trfs_evict_inode` and `trfs_destroy_inode` of fs/trfs/super.c leave of the module's inodes.
use trfs_stackable_filesyste.Common.{ℕ, ◌≡◌, refl, ◌∙◌, arith, false}
use trfs_stackable_filesyste.Kernel.{
  inode, truncate_inode_pages, clear_inode, clear_lower_inode, iput, Kernel, State, ok,
}
use trfs_stackable_filesyste.Mount.Operations.{trfs_evict_inode}
use trfs_stackable_filesyste.Icache.{Slab, trfs_destroy_inode}
use trfs_stackable_filesyste.Icache.Store.{lower_of, remove, put_one}
use trfs_stackable_filesyste.Icache.Laws.{Icache}
use trfs_stackable_filesyste.Icache.Count.{remove-assign}

module _ {W : Type 0} (k : Kernel W) (slab : Slab W) (C : Icache k slab) where
  -- The inode is gone, and the reference to its lower inode is put.
  pub view-trfs_evict_inode :
      (i : ℕ) (s s' : State W)
      → C.is_own (lower_of i (C.view s.world).objects) ≡ false
      → trfs_evict_inode k (inode i) s ≡ ok (tt, s')
      → C.view (trfs_destroy_inode slab i s'.world)
        ≡ put_one
            (lower_of i (C.view s.world).objects)
            (record (C.view s.world) { objects = remove i (C.view s.world).objects })
  unfolding trfs_evict_inode trfs_destroy_inode
  view-trfs_evict_inode i s s' o e =
      let l = lower_of i (C.view s.world).objects in
      let w1 =
        k.effect (clear_inode (inode i)) (k.effect (truncate_inode_pages (inode i)) s.world) in
      let a1 = C.effect_view (truncate_inode_pages (inode i)) s.world refl in
      let a2 =
        C.effect_view (clear_inode (inode i)) (k.effect (truncate_inode_pages (inode i)) s.world)
          refl in
      let same = a2 ∙ a1 in
      let lower : k.lower_inode (inode i) w1 ≡ l = C.lower_inode_view i w1 ∙ ground (arith, same) in
      let w2 = k.effect (clear_lower_inode (inode i)) w1 in
      let a3 = C.effect_view (clear_lower_inode (inode i)) w1 refl in
      let put = C.iput_view (inode l) w2 (rw (C.number_inode l w2) o) in
      let freed = C.free_view i (k.effect (iput (inode l)) w2) in
      ground (
        arith,
        e,
        lower,
        same,
        a3,
        put,
        freed,
        C.number_inode l w2,
        C.number_inode i w1,
        remove-assign i 0 (C.view s.world).objects,
      )
