-- ===== src/Examples/Inodes.antt =====
-- The theorems about the module's inodes on a small kernel with an inode cache.
use trfs_stackable_filesyste.Common.{◌+◌, ◌≤◌, ◌≡◌, refl, arith, true, false, none, [], ◌∷◌, pos}
use trfs_stackable_filesyste.Kernel.{inode, d_inode, ErrPtr, ptr, err_ptr, State, Outcome, ok, oops}
use trfs_stackable_filesyste.Errno.{eacces}
use trfs_stackable_filesyste.Mount.Operations.{trfs_evict_inode, trfs_nfs_get_inode}
use trfs_stackable_filesyste.Lookup.{init_inode, trfs_iget}
use trfs_stackable_filesyste.Icache.Iget.{Got, trfs_iget_gets}
use trfs_stackable_filesyste.Icache.Lives.{
  Lives, start, gets, evicts, gets_by_number, Lives-count, trfs_iget_again,
}
use trfs_stackable_filesyste.Icache.{trfs_destroy_inode}
use trfs_stackable_filesyste.Icache.Store.{Store, here, there, over}
use trfs_stackable_filesyste.Examples.Nurseries.{nursery, slab, nursed}

-- A state without inodes of the module.
abbrev empty : State Store
empty = record {
  sb = record { lower_sb = 3; tfile_path = 47 ∷ 116 ∷ []; record_id = pos 0; mask = 0xfff };
  lower_path = λ d. record { dentry = d + 100; mnt = 2 };
  file_info = λ f. none;
  live = 1;
  refs = 0;
  locks = 0;
  files = 0;
  lower_files = 0;
  kernel_ds = false;
  d_fsdata = λ d. true;
  infos = 1;
  s_fs_info = true;
  s_root = 1;
  s_active = 1;
  world = record { objects = []; taken = λ l. 0; put = λ l. 0 };
}

trfs_iget_gets_example :
    (r : ErrPtr) × (s' : State Store) × (trfs_iget nursery (d_inode 5) empty ≡ ok (r, s'))
    × Got 105 empty.world r s'.world
trfs_iget_gets_example = trfs_iget_gets nursery slab nursed (d_inode 5) empty tt refl

abbrev state_of : Outcome (ErrPtr × State Store) → State Store
state_of oops = empty
state_of (ok (r, s)) = s

abbrev one : State Store
unfolding trfs_iget init_inode
one = state_of (trfs_iget nursery (d_inode 5) empty)

one_got : trfs_iget nursery (d_inode 5) empty ≡ ok (ptr 1000, one)
unfolding trfs_iget init_inode
one_got = refl

abbrev result_of : Outcome (ErrPtr × State Store) → ErrPtr
result_of oops = ptr 0
result_of (ok (r, s)) = r

-- By its number in place of its dentry.
abbrev by_number : Outcome (ErrPtr × State Store)
unfolding trfs_iget init_inode
by_number = trfs_iget nursery (inode 105) one

trfs_iget_again_example :
    (result_of by_number ≡ ptr 1000) × ((state_of by_number).world ≡ one.world)
unfolding trfs_iget init_inode
trfs_iget_again_example =
    trfs_iget_again nursery slab nursed empty empty one (state_of by_number) [] [] (d_inode 5)
      (inode 105) 1000 (result_of by_number) refl start tt tt (omega arith) refl refl one_got refl

-- Then no memory for 77, a handle that means 13, and the eviction of the first inode.
abbrev two : State Store
unfolding trfs_iget init_inode
two = state_of (trfs_iget nursery (inode 77) one)

abbrev three : State Store
unfolding trfs_nfs_get_inode trfs_iget init_inode
three = state_of (trfs_nfs_get_inode nursery 4 two)

abbrev of_unit : Outcome (Unit {0} × State Store) → State Store
of_unit oops = empty
of_unit (ok (t, s)) = s

abbrev evicted : State Store
unfolding trfs_evict_inode
evicted = of_unit (trfs_evict_inode nursery (inode 1000) three)

abbrev last : State Store
unfolding trfs_destroy_inode
last = record evicted { world = trfs_destroy_inode slab 1000 evicted.world }

lived_three : Lives nursery slab nursed empty (77 ∷ []) (13 ∷ []) three
unfolding trfs_nfs_get_inode trfs_iget init_inode
lived_three =
    gets_by_number (77 ∷ []) [] two three 4 13 (ptr 1001)
      (gets [] [] one two (inode 77) (err_ptr eacces)
        (gets [] [] empty one (d_inode 5) (ptr 1000) start tt refl refl) tt refl refl)
      refl refl refl

lived : Lives nursery slab nursed empty (77 ∷ []) (13 ∷ []) last
unfolding trfs_nfs_get_inode trfs_iget init_inode trfs_evict_inode trfs_destroy_inode
lived = evicts (77 ∷ []) (13 ∷ []) three evicted 1000 lived_three (there _ _ (here _ _)) refl

Lives-count_example :
    (over 13 last.world.objects ≤ 1)
    × (0 + last.world.taken 13 + 0 ≡ 0 + last.world.put 13 + over 13 last.world.objects + 1)
Lives-count_example =
    Lives-count nursery slab nursed empty last (77 ∷ []) (13 ∷ []) 13 refl lived (omega arith)

-- The reference to 105 was given back, that of the handle to 13 was not, and 77 was put unasked.
account :
    (last.world.objects ≡ (1001, 13) ∷ [])
    × (last.world.put 105 ≡ 1)
    × (last.world.taken 13 ≡ 2)
    × (last.world.put 77 ≡ 1)
unfolding trfs_nfs_get_inode trfs_iget init_inode trfs_evict_inode trfs_destroy_inode
account = (refl, refl, refl, refl)
