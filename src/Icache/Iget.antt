-- ===== src/Icache/Iget.antt =====
-- What trfs_iget of fs/trfs/lookup.c does to the module's inodes and to the lower inode's references.
use trfs_stackable_filesyste.Common.{
  ℕ, ◌≡◌, ◌≢◌, refl, sym, ◌∙◌, arith, ◌⊎◌, inl, inr, false, Bool-cases, All, List, pos,
  Option-cases,
}
use trfs_stackable_filesyste.Errno.{eacces, estale}
use trfs_stackable_filesyste.Kernel.{
  Inode, inode, d_inode, file_inode, trfs_lower_inode, ErrPtr, ptr, err_ptr, Iget, missing, cached,
  fresh, Effect, set_ino, set_version, clear_info, Kernel, State, ok,
}
use trfs_stackable_filesyste.Lookup.{init_inode, trfs_iget}
use trfs_stackable_filesyste.Lookup.Inodes.{trfs_iget-got}
use trfs_stackable_filesyste.Icache.{Slab, trfs_inode_test, trfs_inode_set, trfs_alloc_inode}
use trfs_stackable_filesyste.Icache.Store.{
  Store, lower_of, IsNew, IsLive, here, there, take_one, put_one, add,
}
use trfs_stackable_filesyste.Icache.Laws.{Icache}

-- No live inode stands over `l`.
abbrev pub NoneOver : ℕ → List (ℕ × ℕ) → Type 0
NoneOver l os = (i : ℕ) → IsLive i os → lower_of i os ≢ l

at_live :
    (P : ℕ → Type 0) (i : ℕ) (os : List (ℕ × ℕ))
    → IsLive i os
    → All (λ (o : ℕ × ℕ). P (o.0)) os
    → P i
at_live P i os (here l os') (h, hs) = h
at_live P i os (there o os' v) (h, hs) = at_live P i os' v hs

-- What trfs_iget of the lower inode `l` may return, and what it leaves of `st`. A live inode over `l` is
-- found; where there is none, a new one is made, which takes a reference, or stays over nothing if none
-- can be taken. Without memory a reference is put.
pub data Got (l : ℕ) (st : Store) : ErrPtr → Store → Type 0 where
  no_memory : NoneOver l st.objects → Got l st (err_ptr eacces) (put_one l st)
  found : (i : ℕ) → IsLive i st.objects → lower_of i st.objects ≡ l → Got l st (ptr i) st
  stale :
      (i : ℕ) → IsNew i st.objects → NoneOver l st.objects → Got l st (err_ptr estale) (add i 0 st)
  made :
      (i : ℕ)
      → i ≢ 0
      → IsNew i st.objects
      → NoneOver l st.objects
      → Got l st (ptr i) (take_one l (add i l st))

-- Names that mean the same inode while `trfs_iget` runs.
abbrev pub IsNamed : Inode → Type 0
IsNamed (inode n) = Unit
IsNamed (d_inode d) = Unit
IsNamed (file_inode f) = ⊥
IsNamed (trfs_lower_inode i) = ⊥

Iget-cases : (r : Iget) → (r ≡ missing) ⊎ (((j : ℕ) × (r ≡ cached j)) ⊎ ((j : ℕ) × (r ≡ fresh j)))
Iget-cases missing = inl refl
Iget-cases (cached j) = inr (inl (j, refl))
Iget-cases (fresh j) = inr (inr (j, refl))

module _ {W : Type 0} (k : Kernel W) (slab : Slab W) (C : Icache k slab) where
  number-effect :
      (i : Inode) (e : Effect) (w : W) → IsNamed i → C.number i (k.effect e w) ≡ C.number i w
  number-effect (inode n) e w h = C.number_inode n _ ∙ sym (C.number_inode n w)
  number-effect (d_inode d) e w h = C.number_effect d e w
  number-effect (file_inode f) e w h = elim h [ ]
  number-effect (trfs_lower_inode i) e w h = elim h [ ]

  number-iget5_locked :
      (i j : Inode) (w : W) → IsNamed i → C.number i (k.iget5_locked j w).1 ≡ C.number i w
  number-iget5_locked (inode n) j w h = C.number_inode n _ ∙ sym (C.number_inode n w)
  number-iget5_locked (d_inode d) j w h = C.number_iget5_locked d j w
  number-iget5_locked (file_inode f) j w h = elim h [ ]
  number-iget5_locked (trfs_lower_inode i) j w h = elim h [ ]

  number-igrab : (i j : Inode) (w : W) → IsNamed i → C.number i (k.igrab j w).1 ≡ C.number i w
  number-igrab (inode n) j w h = C.number_inode n _ ∙ sym (C.number_inode n w)
  number-igrab (d_inode d) j w h = C.number_igrab d j w
  number-igrab (file_inode f) j w h = elim h [ ]
  number-igrab (trfs_lower_inode i) j w h = elim h [ ]

  -- A new inode stands over NULL, whatever was in its memory.
  pub view-trfs_alloc_inode :
      (j : ℕ) (w : W)
      → j ≢ 0
      → j ≡ (trfs_alloc_inode k slab w).0
      → IsNew j (C.view w).objects × (C.view (trfs_alloc_inode k slab w).1 ≡ add j 0 (C.view w))
  unfolding trfs_alloc_inode
  view-trfs_alloc_inode j w n e = elim (Option-cases (slab.kmem_cache_alloc w).0) [
    | inl none_left ↦ absurd (ground (arith, none_left, e, n))
    | inr (i, some_left) ↦
        let j_is : j ≡ i = ground (arith, some_left, e) in
        let (g, new, v) = C.alloc_view i w some_left in
        let cleared = C.effect_view (clear_info (inode i)) (slab.kmem_cache_alloc w).1 refl in
        let set =
          C.effect_view (set_version (inode i))
            (k.effect (clear_info (inode i)) (slab.kmem_cache_alloc w).1) refl in
        ground (
          arith,
          some_left,
          j_is,
          new,
          v,
          cleared,
          set,
          C.number_inode i (slab.kmem_cache_alloc w).1,
        )
  ]

  none_over :
      (l : ℕ) (w : W)
      → All (λ (o : ℕ × ℕ). trfs_inode_test k (o.0) l w ≡ pos 0) (C.view w).objects
      → NoneOver l (C.view w).objects
  unfolding trfs_inode_test
  none_over l w h i v e =
      let t = at_live (λ i. trfs_inode_test k i l w ≡ pos 0) i (C.view w).objects v h in
      ground (arith, t, C.lower_inode_view i w, e)

  -- `trfs_iget` by what `iget5_locked` finds.
  trfs_iget-missing :
      (lower : Inode) (s s' : State W) (r : ErrPtr)
      → IsNamed lower
      → C.is_own (C.number lower s.world) ≡ false
      → (k.iget5_locked lower s.world).0 ≡ missing
      → trfs_iget k lower s ≡ ok (r, s')
      → Got (C.number lower s.world) (C.view s.world) r (C.view s'.world)
  unfolding trfs_iget
  trfs_iget-missing lower s s' r n o m e =
      let w1 = (k.iget5_locked lower s.world).1 in
      let same = number-iget5_locked lower lower s.world n in
      let (tests, v) = C.iget5_missing lower s.world m in
      let p = C.iput_view lower w1 (rw same o) in
      let r_is : r ≡ err_ptr eacces = ground (arith, m, e) in
      let v_is : C.view s'.world ≡ put_one (C.number lower s.world) (C.view s.world) =
        ground (arith, m, e, v, p, same) in
      rw (r_is, v_is) (no_memory (none_over _ s.world tests))

  trfs_iget-cached :
      (lower : Inode) (i : ℕ) (s s' : State W) (r : ErrPtr)
      → (k.iget5_locked lower s.world).0 ≡ cached i
      → trfs_iget k lower s ≡ ok (r, s')
      → Got (C.number lower s.world) (C.view s.world) r (C.view s'.world)
  unfolding trfs_iget trfs_inode_test
  trfs_iget-cached lower i s s' r m e =
      let (live, test, v) = C.iget5_cached lower i s.world m in
      let over : lower_of i (C.view s.world).objects ≡ C.number lower s.world =
        ground (arith, test, C.lower_inode_view i s.world) in
      let r_is : r ≡ ptr i = ground (arith, m, e) in
      let v_is : C.view s'.world ≡ C.view s.world = ground (arith, m, e, v) in
      rw (r_is, v_is) (found i live over)

  trfs_iget-fresh :
      (lower : Inode) (i : ℕ) (s s' : State W) (r : ErrPtr)
      → IsNamed lower
      → (k.iget5_locked lower s.world).0 ≡ fresh i
      → trfs_iget k lower s ≡ ok (r, s')
      → Got (C.number lower s.world) (C.view s.world) r (C.view s'.world)
  unfolding trfs_iget trfs_inode_set init_inode
  trfs_iget-fresh lower i s s' r n m e =
      let (tests, not_null, i_is, v) = C.iget5_fresh lower i s.world m in
      let (new, a) = view-trfs_alloc_inode i s.world not_null i_is in
      let w1 = (k.iget5_locked lower s.world).1 in
      let w2 = k.effect (set_ino (inode i) lower) w1 in
      let w3 = (k.igrab lower w2).1 in
      let same1 = number-iget5_locked lower lower s.world n in
      let same2 = number-effect lower (set_ino (inode i) lower) w1 n in
      let same3 = number-igrab lower lower w2 n in
      let numbered = C.effect_view (set_ino (inode i) lower) w1 refl in
      elim (Bool-cases (k.igrab lower w2).0) [
        | inl g ↦
            let r_is : r ≡ ptr i = ground (arith, m, e, g) in
            let v_is : C.view s'.world
                ≡ take_one (C.number lower s.world)
                    (add i (C.number lower s.world) (C.view s.world)) =
              grind (
                arith,
                m,
                e,
                g,
                v,
                a,
                numbered,
                same1,
                same2,
                same3,
                C.igrab_view lower w2 g,
                C.effect_view,
                C.number_inode,
              ) in
            rw (r_is, v_is) (made i not_null new (none_over _ s.world tests))
        | inr g ↦
            let r_is : r ≡ err_ptr estale = ground (arith, m, e, g) in
            let v_is : C.view s'.world ≡ add i 0 (C.view s.world) =
              ground (arith, m, e, g, v, a, numbered, C.igrab_view_false lower w2 g) in
            rw (r_is, v_is) (stale i new (none_over _ s.world tests))
      ]

  pub trfs_iget-Got :
      (lower : Inode) (s s' : State W) (r : ErrPtr)
      → IsNamed lower
      → C.is_own (C.number lower s.world) ≡ false
      → trfs_iget k lower s ≡ ok (r, s')
      → Got (C.number lower s.world) (C.view s.world) r (C.view s'.world)
  trfs_iget-Got lower s s' r n o e = elim (Iget-cases (k.iget5_locked lower s.world).0) [
    | inl m ↦ trfs_iget-missing lower s s' r n o m e
    | inr (inl (i, m)) ↦ trfs_iget-cached lower i s s' r m e
    | inr (inr (i, m)) ↦ trfs_iget-fresh lower i s s' r n m e
  ]

  -- trfs_iget of a lower inode, which is named by a number or by its dentry, returns. It gives the live
  -- inode over the lower one; if there is none, a new inode over it, with a reference taken, or the error
  -- EACCES, with a reference put, or ESTALE, with a new inode over NULL that stays.
  pub trfs_iget_gets :
      (lower : Inode) (s : State W)
      → IsNamed lower
      → C.is_own (C.number lower s.world) ≡ false
      → (r : ErrPtr) × (s' : State W) × (trfs_iget k lower s ≡ ok (r, s'))
        × Got (C.number lower s.world) (C.view s.world) r (C.view s'.world)
  trfs_iget_gets lower s n o =
      let e = trfs_iget-got k lower s in (_, _, e, trfs_iget-Got lower s _ _ n o e)
