-- ===== src/Icache/Lives.antt =====
-- The module's inodes over any sequence of trfs_iget, trfs_nfs_get_inode and evictions.
use trfs_stackable_filesyste.Common.{
  ℕ, ◌+◌, ◌≡◌, ◌≢◌, ◌≤◌, refl, ap, arith, Bool, false, some, List, [], ◌∷◌, eqb_ℤ, if◌then◌else◌,
}
use trfs_stackable_filesyste.Errno.{eacces}
use trfs_stackable_filesyste.Kernel.{
  Inode, inode, hold_inode, ErrPtr, ptr, err_ptr, Kernel, State, ok,
}
use trfs_stackable_filesyste.Lookup.{trfs_iget}
use trfs_stackable_filesyste.Mount.Operations.{trfs_evict_inode, trfs_nfs_get_inode}
use trfs_stackable_filesyste.Icache.{Slab, trfs_destroy_inode}
use trfs_stackable_filesyste.Icache.Store.{
  Store, lower_of, remove, IsLive, here, over, occurrences, take_one, put_one,
}
use trfs_stackable_filesyste.Icache.Laws.{Icache}
use trfs_stackable_filesyste.Icache.Iget.{
  Got, no_memory, found, stale, made, IsNamed, trfs_iget-Got,
}
use trfs_stackable_filesyste.Icache.Count.{
  AreDistinct, AreForeign, over-NoneOver, over-remove, AreDistinct-remove, AreForeign-remove,
  lower_of_foreign, single_live,
}
use trfs_stackable_filesyste.Icache.Evict.{view-trfs_evict_inode}

-- The lower inode joins those that were put for want of memory.
abbrev pub missed : ErrPtr → ℕ → List ℕ → List ℕ
missed (ptr i) l ms = ms
missed (err_ptr e) l ms = if eqb_ℤ e eacces then l ∷ ms else ms

-- With the lower inodes `ms` that trfs_iget has put though it could take no inode, and `hs`, on which
-- trfs_nfs_get_inode has got a reference: the live inodes are different, all stand over inodes of other
-- file systems or NULL, no two over one, and the references taken and put since `a` are balanced by
-- the live inodes.
record IsCounted (is_own : ℕ → Bool) (a : Store) (ms hs : List ℕ) (b : Store) : Type 0 where
  distinct : AreDistinct b.objects
  foreign : AreForeign is_own b.objects
  single : (l : ℕ) → l ≢ 0 → over l b.objects ≤ 1
  count :
      (l : ℕ)
      → l ≢ 0
      → a.put l + b.taken l + occurrences l ms
        ≡ a.taken l + b.put l + over l b.objects + occurrences l hs

IsCounted-Got :
    (f : ℕ → Bool) (a : Store) (ms hs : List ℕ) (l : ℕ) (b c : Store) (r : ErrPtr)
    → f 0 ≡ false
    → f l ≡ false
    → Got l b r c
    → IsCounted f a ms hs b
    → IsCounted f a (missed r l ms) hs c
IsCounted-Got f a ms hs l b c r z o (no_memory none) q = record {
  distinct = q.distinct;
  foreign = q.foreign;
  single = q.single;
  count = λ m n. ground (arith, q.count m n);
}
IsCounted-Got f a ms hs l b c r z o (found i v e) q = q
IsCounted-Got f a ms hs l b c r z o (stale i w none) q = record {
  distinct = (w, q.distinct);
  foreign = (z, q.foreign);
  single = λ m n. ground (arith, q.single m n);
  count = λ m n. ground (arith, q.count m n);
}
IsCounted-Got f a ms hs l b c r z o (made i n w none) q =
    let empty = over-NoneOver l b.objects q.distinct none in
    record {
      distinct = (w, q.distinct);
      foreign = (o, q.foreign);
      single = λ m n. ground (arith, q.single m n, empty);
      count = λ m n. ground (arith, q.count m n);
    }

-- An inode that was got stands over the lower one.
IsLive-Got :
    (l i : ℕ) (b c : Store) → Got l b (ptr i) c → IsLive i c.objects × (lower_of i c.objects ≡ l)
IsLive-Got l i b c (found j v e) = (v, e)
IsLive-Got l i b c (made j n w none) = (here l b.objects, ground arith)

-- Where there is one already, it is the one that is got.
Got-live :
    (l i : ℕ) (r : ErrPtr) (b c : Store)
    → AreDistinct b.objects
    → over l b.objects ≤ 1
    → IsLive i b.objects
    → lower_of i b.objects ≡ l
    → Got l b r c
    → (r ≡ ptr i) × (c ≡ b)
Got-live l i r b c d h v e (no_memory none) = absurd (none i v e)
Got-live l i r b c d h v e (stale j w none) = absurd (none i v e)
Got-live l i r b c d h v e (made j n w none) = absurd (none i v e)
Got-live l i r b c d h v e (found j w f) = (ap ptr (single_live l j i b.objects w v d h f e), refl)

IsCounted-take :
    (f : ℕ → Bool) (a : Store) (ms hs : List ℕ) (b : Store) (l : ℕ)
    → IsCounted f a ms hs b
    → IsCounted f a ms (l ∷ hs) (take_one l b)
IsCounted-take f a ms hs b l q = record {
  distinct = q.distinct;
  foreign = q.foreign;
  single = q.single;
  count = λ m n. ground (arith, q.count m n);
}

IsCounted-evict :
    (f : ℕ → Bool) (a : Store) (ms hs : List ℕ) (b : Store) (i : ℕ)
    → IsLive i b.objects
    → IsCounted f a ms hs b
    → IsCounted f a ms hs
        (put_one (lower_of i b.objects) (record b { objects = remove i b.objects }))
IsCounted-evict f a ms hs b i v q = record {
  distinct = AreDistinct-remove i b.objects q.distinct;
  foreign = AreForeign-remove f i b.objects q.foreign;
  single = λ m n. ground (arith, q.single m n, over-remove m i b.objects v);
  count = λ m n. ground (arith, q.count m n, over-remove m i b.objects v);
}

module _ {W : Type 0} (k : Kernel W) (slab : Slab W) (C : Icache k slab) where
  -- From `s` on: lower inodes that trfs_iget was called with, those among them that it put for want of
  -- memory (`ms`), those that trfs_nfs_get_inode found (`hs`), evictions, and whatever leaves the
  -- module's inodes alone.
  pub data Lives (s : State W) : List ℕ → List ℕ → State W → Type 0 where
    start : Lives s [] [] s
    others :
        (ms hs : List ℕ) (u v : State W)
        → Lives s ms hs u
        → C.view v.world ≡ C.view u.world
        → Lives s ms hs v
    gets :
        (ms hs : List ℕ) (u v : State W) (lower : Inode) (r : ErrPtr)
        → Lives s ms hs u
        → IsNamed lower
        → C.is_own (C.number lower u.world) ≡ false
        → trfs_iget k lower u ≡ ok (r, v)
        → Lives s (missed r (C.number lower u.world) ms) hs v
    gets_by_number :
        (ms hs : List ℕ) (u v : State W) (ino l : ℕ) (r : ErrPtr)
        → Lives s ms hs u
        → k.ilookup u.sb.lower_sb ino u.world ≡ some l
        → C.is_own l ≡ false
        → trfs_nfs_get_inode k ino u ≡ ok (r, v)
        → Lives s (missed r l ms) (l ∷ hs) v
    evicts :
        (ms hs : List ℕ) (u v : State W) (i : ℕ)
        → Lives s ms hs u
        → IsLive i (C.view u.world).objects
        → trfs_evict_inode k (inode i) u ≡ ok (tt, v)
        → Lives s ms hs (record v { world = trfs_destroy_inode slab i v.world })

  trfs_nfs_get_inode-Got :
      (ino l : ℕ) (s s' : State W) (r : ErrPtr)
      → k.ilookup s.sb.lower_sb ino s.world ≡ some l
      → C.is_own l ≡ false
      → trfs_nfs_get_inode k ino s ≡ ok (r, s')
      → Got l (take_one l (C.view s.world)) r (C.view s'.world)
  unfolding trfs_nfs_get_inode
  trfs_nfs_get_inode-Got ino l s s' r i o e =
      let w = k.effect (hold_inode (inode l)) s.world in
      let held = C.effect_view (hold_inode (inode l)) s.world refl in
      let held_one : C.view w ≡ take_one l (C.view s.world) =
        rw (C.number_inode l s.world) at held in
      let n = C.number_inode l w in
      let run : trfs_iget k (inode l) (record s { world = w }) ≡ ok (r, s') =
        ground (arith, i, e) in
      let q = trfs_iget-Got k slab C (inode l) (record s { world = w }) s' r tt (rw n o) run in
      rw (n, held_one) at q

  Lives-IsCounted :
      (s u : State W) (ms hs : List ℕ)
      → (C.view s.world).objects ≡ []
      → Lives s ms hs u
      → IsCounted C.is_own (C.view s.world) ms hs (C.view u.world)
  Lives-IsCounted s _ _ _ z start = record {
    distinct = rw z tt;
    foreign = rw z tt;
    single = λ l n. ground (arith, z);
    count = λ l n. ground (arith, z);
  }
  Lives-IsCounted s _ _ _ z (others ms hs u v p e) = rw e (Lives-IsCounted s u ms hs z p)
  Lives-IsCounted s _ _ _ z (gets ms hs u v lower r p n o e) =
      IsCounted-Got C.is_own (C.view s.world) ms hs (C.number lower u.world) (C.view u.world)
        (C.view v.world) r C.is_own_null o (trfs_iget-Got k slab C lower u v r n o e)
        (Lives-IsCounted s u ms hs z p)
  Lives-IsCounted s _ _ _ z (gets_by_number ms hs u v ino l r p i o e) =
      IsCounted-Got C.is_own (C.view s.world) ms (l ∷ hs) l (take_one l (C.view u.world))
        (C.view v.world) r C.is_own_null o (trfs_nfs_get_inode-Got ino l u v r i o e)
        (IsCounted-take C.is_own (C.view s.world) ms hs (C.view u.world) l
          (Lives-IsCounted s u ms hs z p))
  Lives-IsCounted s _ _ _ z (evicts ms hs u v i p live e) =
      let q = Lives-IsCounted s u ms hs z p in
      let o = lower_of_foreign C.is_own i (C.view u.world).objects C.is_own_null q.foreign in
      rw (view-trfs_evict_inode k slab C i u v o e)
        (IsCounted-evict C.is_own (C.view s.world) ms hs (C.view u.world) i live q)

  -- While nothing but these was done to the module's inodes since there was none, at most one of them
  -- stands over a lower inode, and the references to it that were taken and put are balanced by it: the
  -- difference is one for each time that trfs_iget put one for want of memory, and for each time that
  -- trfs_nfs_get_inode found it, since nothing gives that reference back.
  pub Lives-count :
      (s u : State W) (ms hs : List ℕ) (l : ℕ)
      → (C.view s.world).objects ≡ []
      → Lives s ms hs u
      → l ≢ 0
      → (over l (C.view u.world).objects ≤ 1)
        × ((C.view s.world).put l + (C.view u.world).taken l + occurrences l ms
            ≡ (C.view s.world).taken l
              + (C.view u.world).put l
              + over l (C.view u.world).objects
              + occurrences l hs)
  Lives-count s u ms hs l z p n =
      let q = Lives-IsCounted s u ms hs z p in (q.single l n, q.count l n)

  -- Since there was no inode of the module: where trfs_iget has given an inode for a lower one, it gives
  -- the same again, and leaves the module's inodes and the references as they were.
  pub trfs_iget_again :
      (s u v v' : State W) (ms hs : List ℕ) (lower again : Inode) (i : ℕ) (r : ErrPtr)
      → (C.view s.world).objects ≡ []
      → Lives s ms hs u
      → IsNamed lower
      → IsNamed again
      → C.number lower u.world ≢ 0
      → C.is_own (C.number lower u.world) ≡ false
      → C.number again v.world ≡ C.number lower u.world
      → trfs_iget k lower u ≡ ok (ptr i, v)
      → trfs_iget k again v ≡ ok (r, v')
      → (r ≡ ptr i) × (C.view v'.world ≡ C.view v.world)
  trfs_iget_again s u v v' ms hs lower again i r z p n n' nz o same e e' =
      let a = trfs_iget-Got k slab C lower u v (ptr i) n o e in
      let b = trfs_iget-Got k slab C again v v' r n' (rw same o) e' in
      let q = Lives-IsCounted s v ms hs z (gets ms hs u v lower (ptr i) p n o e) in
      let (live, over_it) =
        IsLive-Got (C.number lower u.world) i (C.view u.world) (C.view v.world) a in
      Got-live (C.number lower u.world) i r (C.view v.world) (C.view v'.world) q.distinct
        (q.single (C.number lower u.world) nz) live over_it (rw same at b)
