-- ===== src/Examples/Nurseries.antt =====
-- A small kernel with an inode cache: its world is the account of the module's inodes. The lower inode 77
-- finds no memory, and 78 gives no reference.
use trfs_stackable_filesyste.Common.{
  ℕ, ◌+◌, ◌≤◌, ◌≡◌, ◌≢◌, refl, arith, inl, inr, true, false, not, ltb, Option, none, some,
  Option-cases, All, List, [], ◌∷◌, pos, Bool-cases, ◌==◌, if◌then◌else◌,
}
use trfs_stackable_filesyste.Kernel.{
  Inode, inode, d_inode, file_inode, trfs_lower_inode, iput, Effect, Iget, missing, cached, fresh,
  Kernel,
}
use trfs_stackable_filesyste.Icache.{Slab, trfs_inode_test, trfs_inode_set, trfs_alloc_inode}
use trfs_stackable_filesyste.Icache.Store.{
  Store, lower_of, remove, IsNew, IsLive, here, there, take_one, put_one, add, after_effect,
}
use trfs_stackable_filesyste.Icache.Laws.{Icache, is_iput}
use trfs_stackable_filesyste.Examples.Toy.{small, toy_call}

abbrev number : Inode → ℕ
number (inode n) = n
number (d_inode d) = d + 100
number (file_inode f) = 0
number (trfs_lower_inode i) = 0

-- A number that no live inode has.
abbrev next : List (ℕ × ℕ) → ℕ
next [] = 1000
next ((j, m) ∷ os) = let rest = next os in if ltb j rest then rest else j + 1

-- The first of the list that stands over `l`.
abbrev search : ℕ → List (ℕ × ℕ) → List (ℕ × ℕ) → Option ℕ
search l all [] = none
search l all ((j, m) ∷ os) =
    let rest = search l all os in if lower_of j all == l then some j else rest

abbrev iget5 : ℕ → Option ℕ → Store → Iget × Store
iget5 l (some j) s = (cached j, s)
iget5 l none s =
    if l == 77 then (missing, s) else (fresh (next s.objects), add (next s.objects) 0 s)

abbrev effect_on : Effect → Store → Store
effect_on (iput i) s = put_one (number i) s
effect_on e s = after_effect number e s

abbrev pub nursery : Kernel Store
nursery = small (record {
  trace_write = λ f bytes n w. (n, w);
  call = λ c w. (toy_call c, w);
  effect = effect_on;
  iget5_locked = λ i w. iget5 (number i) (search (number i) w.objects w.objects) w;
  igrab = λ i w. if number i == 78 then (false, w) else (true, take_one (number i) w);
  lower_inode = λ i w. lower_of (number i) w.objects;
  filp_trunc = λ p w. (some 7, w);
})

-- The memory of a new object holds 7.
abbrev pub slab : Slab Store
slab = record {
  kmem_cache_alloc = λ w. (some (next w.objects), add (next w.objects) 7 w);
  kmem_cache_free = λ j w. record w { objects = remove j w.objects };
}

next_large : (os : List (ℕ × ℕ)) → 1000 ≤ next os
next_large [] = omega arith
next_large ((j, m) ∷ os) = ground (arith, next_large os)

IsNew-below : (n : ℕ) (os : List (ℕ × ℕ)) → next os ≤ n → IsNew n os
IsNew-below n [] h = tt
IsNew-below n ((j, m) ∷ os) h = (ground (arith, h), IsNew-below n os (ground (arith, h)))

IsLive-search : (l j : ℕ) (all os : List (ℕ × ℕ)) → search l all os ≡ some j → IsLive j os
IsLive-search l j all [] e = cc
IsLive-search l j all ((i, m) ∷ os) e = elim (Bool-cases (lower_of i all == l)) [
  | inl h ↦ let same : i ≡ j = ground (arith, h, e) in rw same (here m os)
  | inr h ↦ there (i, m) os (IsLive-search l j all os (ground (arith, h, e)))
]

lower_of-search : (l j : ℕ) (all os : List (ℕ × ℕ)) → search l all os ≡ some j → lower_of j all ≡ l
lower_of-search l j all [] e = cc
lower_of-search l j all ((i, m) ∷ os) e = ground (arith, e, lower_of-search l j all os)

none-search :
    (l : ℕ) (w : Store) (os : List (ℕ × ℕ))
    → search l w.objects os ≡ none
    → All (λ (o : ℕ × ℕ). trfs_inode_test nursery (o.0) l w ≡ pos 0) os
unfolding trfs_inode_test
none-search l w [] e = tt
none-search l w ((i, m) ∷ os) e = (ground (arith, e), none-search l w os (ground (arith, e)))

pub effect_same :
    (e : Effect) (w : Store) → is_iput e ≡ false → effect_on e w ≡ after_effect number e w
effect_same (iput i) w h = cc
effect_same _ w h = refl

abbrev look : Inode → Store → Option ℕ
look i w = search (number i) w.objects w.objects

pub gives_missing :
    (i : Inode) (w : Store)
    → (nursery.iget5_locked i w).0 ≡ missing
    → All (λ (o : ℕ × ℕ). trfs_inode_test nursery (o.0) (number i) w ≡ pos 0) w.objects
      × ((nursery.iget5_locked i w).1 ≡ w)
gives_missing i w e = elim (Option-cases (look i w)) [
  | inl n ↦ (none-search (number i) w w.objects n, ground (arith, e, n))
  | inr (j, f) ↦ absurd (ground (arith, e, f))
]

pub gives_cached :
    (i : Inode) (j : ℕ) (w : Store)
    → (nursery.iget5_locked i w).0 ≡ cached j
    → IsLive j w.objects
      × (trfs_inode_test nursery j (number i) w ≡ pos 1)
      × ((nursery.iget5_locked i w).1 ≡ w)
unfolding trfs_inode_test
gives_cached i j w e = elim (Option-cases (look i w)) [
  | inl n ↦ absurd (ground (arith, e, n))
  | inr (c, f) ↦
      let same : c ≡ j = ground (arith, e, f) in
      (
        rw same at (IsLive-search (number i) c w.objects w.objects f),
        ground (arith, same, lower_of-search (number i) c w.objects w.objects f),
        ground (arith, f),
      )
]

pub gives_fresh :
    (i : Inode) (j : ℕ) (w : Store)
    → (nursery.iget5_locked i w).0 ≡ fresh j
    → All (λ (o : ℕ × ℕ). trfs_inode_test nursery (o.0) (number i) w ≡ pos 0) w.objects
      × (j ≢ 0)
      × (j ≡ (trfs_alloc_inode nursery slab w).0)
      × ((nursery.iget5_locked i w).1
          ≡ (trfs_inode_set nursery j (number i) (trfs_alloc_inode nursery slab w).1).1)
unfolding trfs_alloc_inode trfs_inode_set
gives_fresh i j w e = elim (Option-cases (look i w)) [
  | inl n ↦ (
    none-search (number i) w w.objects n,
    ground (arith, e, n, next_large w.objects),
    ground (arith, e, n),
    ground (arith, e, n),
  )
  | inr (c, f) ↦ absurd (ground (arith, e, f))
]

pub gives-IsNew :
    (j : ℕ) (w : Store)
    → (slab.kmem_cache_alloc w).0 ≡ some j
    → (g : ℕ) × IsNew j w.objects × ((slab.kmem_cache_alloc w).1 ≡ add j g w)
gives-IsNew j w h =
    let same : next w.objects ≡ j = ground (arith, h) in
    (7, rw same at (IsNew-below (next w.objects) w.objects (omega arith)), ground (arith, same))

abbrev pub nursed : Icache nursery slab
nursed = record {
  view = λ w. w;
  number = λ i w. number i;
  number_inode = λ n w. refl;
  number_effect = λ d e w. refl;
  number_iget5_locked = λ d i w. refl;
  number_igrab = λ d i w. refl;
  is_own = λ n. not (ltb n 1000);
  is_own_null = refl;
  lower_inode_view = λ i w. refl;
  effect_view = effect_same;
  iput_view = λ i w h. refl;
  igrab_view = λ i w h. ground (arith, h);
  igrab_view_false = λ i w h. ground (arith, h);
  iget5_missing = gives_missing;
  iget5_cached = gives_cached;
  iget5_fresh = gives_fresh;
  alloc_view = gives-IsNew;
  free_view = λ j w. refl;
}
