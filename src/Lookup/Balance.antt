-- ===== src/Lookup/Balance.antt =====
-- What trfs_lookup of fs/trfs/lookup.c and trfs_d_release of fs/trfs/dentry.c hold of the kernel.
use trfs_stackable_filesyste.Common.{
  ℕ, ◌+◌, ◌≡◌, ◌≢◌, refl, ◌⊎◌, inl, inr, arith, Bool-cases, true, false, ◌&&◌, not, ◌==◌,
  if◌then◌else◌,
}
use trfs_stackable_filesyste.Kernel.{
  Dentry, LowerPath, ErrPtr, ptr, Found-cases, set_d_op, Kernel, State, Outcome, Outcome-cases,
  oops, ok,
}
use trfs_stackable_filesyste.Tracing.{Tracing, Finds}
use trfs_stackable_filesyste.Lookup.{interpose}
use trfs_stackable_filesyste.Lookup.Dentries.{
  null_path, update_path, update_fsdata, trfs_set_lower_path, trfs_put_reset_lower_path,
  free_dentry_private_data, trfs_d_release, new_dentry_private_data,
}
use trfs_stackable_filesyste.Lookup.Names.{after_found, after_enoent, lookup, trfs_lookup}

module _ {W : Type 0} where
  -- The references that a dentry's private data hold, and the private data themselves.
  abbrev pub held : State W → Dentry → ℕ
  held s d = if s.d_fsdata d && not ((s.lower_path d).dentry == 0) then 1 else 0

  abbrev pub info : State W → Dentry → ℕ
  info s d = if s.d_fsdata d then 1 else 0

  -- From `s` to `s'` nothing but the private data of `d` changed, and what they hold.
  pub record IsLookedUp (d : Dentry) (s s' : State W) : Type 0 where
    pub refs : s'.refs ≡ s.refs + held s' d
    pub infos : s'.infos ≡ s.infos + info s' d
    pub live : s'.live ≡ s.live
    pub lower_files : s'.lower_files ≡ s.lower_files
    pub file_info : s'.file_info ≡ s.file_info
    pub locks : s'.locks ≡ s.locks
    pub files : s'.files ≡ s.files
    pub kernel_ds : s'.kernel_ds ≡ s.kernel_ds
    pub sb : s'.sb ≡ s.sb
    pub s_fs_info : s'.s_fs_info ≡ s.s_fs_info
    pub s_root : s'.s_root ≡ s.s_root
    pub s_active : s'.s_active ≡ s.s_active
    pub lower_path : (c : Dentry) → d ≢ c → s'.lower_path c ≡ s.lower_path c
    pub d_fsdata : (c : Dentry) → d ≢ c → s'.d_fsdata c ≡ s.d_fsdata c

  -- One of its steps, when `d` has its private data.
  pub record IsStep (d : Dentry) (s s' : State W) : Type 0 where
    pub refs : s'.refs ≡ s.refs + held s' d
    pub d_fsdata : s'.d_fsdata ≡ s.d_fsdata
    pub infos : s'.infos ≡ s.infos
    pub live : s'.live ≡ s.live
    pub lower_files : s'.lower_files ≡ s.lower_files
    pub file_info : s'.file_info ≡ s.file_info
    pub locks : s'.locks ≡ s.locks
    pub files : s'.files ≡ s.files
    pub kernel_ds : s'.kernel_ds ≡ s.kernel_ds
    pub sb : s'.sb ≡ s.sb
    pub s_fs_info : s'.s_fs_info ≡ s.s_fs_info
    pub s_root : s'.s_root ≡ s.s_root
    pub s_active : s'.s_active ≡ s.s_active
    pub lower_path : (c : Dentry) → d ≢ c → s'.lower_path c ≡ s.lower_path c

-- The state in which trfs_lookup calls `__trfs_lookup`, if there was memory.
abbrev pub looked_up_from : {W : Type 0} → Kernel W → Dentry → State W → State W
looked_up_from k d s = record s {
  refs = s.refs + 1 + 1;
  d_fsdata = update_fsdata s.d_fsdata d true;
  lower_path = update_path s.lower_path d null_path;
  infos = s.infos + 1;
  world = (k.zalloc_dentry s.world).1;
}

module _ {W : Type 0} (k : Kernel W) where
  abbrev error_or : W → Outcome (ErrPtr × State W) → ErrPtr × W
  error_or w oops = (ptr 0, w)
  error_or w (ok (e, s')) = (e, s'.world)

  -- The result and the world after `__trfs_interpose`.
  pub spliced : Dentry → LowerPath → State W → ErrPtr × W
  spliced d lower s = error_or s.world (interpose k d lower s)

  pub interpose-spliced :
      (d : Dentry) (lower : LowerPath) (s : State W)
      → interpose k d lower s
        ≡ ok ((spliced d lower s).0, record s { world = (spliced d lower s).1 })
  unfolding interpose spliced
  interpose-spliced d lower s = ground arith

  pub tfile-spliced :
      (T : Tracing k) (d : Dentry) (lower : LowerPath) (s : State W)
      → T.tfile (spliced d lower s).1 ≡ T.tfile s.world
  unfolding interpose spliced
  tfile-spliced T d lower s =
      grind (arith, T.effect_tfile, T.iget5_locked_tfile, T.igrab_tfile, T.d_splice_alias_tfile)

  after_found-IsLookedUp :
      (d : Dentry) (p : LowerPath) (n : ℕ) (u v : State W) (r : ErrPtr)
      → u.d_fsdata d ≡ true
      → p.dentry ≢ 0
      → u.refs ≡ n + 1
      → after_found k d p u ≡ ok (r, v)
      → IsStep d (record u { refs = n }) v
  unfolding after_found trfs_set_lower_path trfs_put_reset_lower_path
  after_found-IsLookedUp d p n u v r h g e b =
      grind (arith, interpose-spliced d p (record u { lower_path = update_path u.lower_path d p }))

  after_enoent-IsLookedUp :
      (F : Finds k) (d : Dentry) (p : LowerPath) (u v : State W) (r : ErrPtr)
      → u.d_fsdata d ≡ true
      → (u.lower_path d).dentry ≡ 0
      → after_enoent k d p u ≡ ok (r, v)
      → IsStep d u v
  unfolding after_enoent trfs_set_lower_path
  after_enoent-IsLookedUp F d p u v r h g b = grind (arith, F.d_lookup_ne, F.d_alloc_ne)

  lookup-IsLookedUp :
      (F : Finds k) (d : Dentry) (p : LowerPath) (u v : State W) (r : ErrPtr)
      → u.d_fsdata d ≡ true
      → (u.lower_path d).dentry ≡ 0
      → lookup k d p u ≡ ok (r, v)
      → IsStep d u v
  unfolding lookup
  lookup-IsLookedUp F d p u v r h g b =
      let w = k.effect (set_d_op d) u.world in
      let result = k.vfs_path_lookup p d w in
      elim (Found-cases result.0) [
        | inl (q, e) ↦ grind (
          arith,
          e,
          after_found-IsLookedUp d q u.refs (record u { refs = u.refs + 1; world = result.1 }) v r h
              (F.vfs_path_lookup_ne p q d w e) refl,
        )
        | inr (x, e) ↦ grind (arith, after_enoent-IsLookedUp F)
      ]

  pub trfs_lookup-IsLookedUp :
      (F : Finds k) (d : Dentry) (s s' : State W) (r : ErrPtr)
      → s.d_fsdata d ≡ false
      → trfs_lookup k d s ≡ ok (r, s')
      → IsLookedUp d s s'
  unfolding trfs_lookup new_dentry_private_data
  trfs_lookup-IsLookedUp F d s s' r h e =
      let parent = k.dget_parent d s.world in
      let u = looked_up_from k d s in
      elim (Outcome-cases (lookup k d (s.lower_path parent) u)) [
        | inl b ↦ ground (arith, b)
        | inr ((x, v), b) ↦
            let q =
              lookup-IsLookedUp F d (s.lower_path parent) u v x (ground arith) (ground arith) b in
            grind (arith, b, q)
      ]

  after_found-ne-oops :
      (d : Dentry) (p : LowerPath) (u : State W) → u.d_fsdata d ≡ true → after_found k d p u ≢ oops
  unfolding after_found trfs_set_lower_path trfs_put_reset_lower_path
  after_found-ne-oops d p u h = λ b.
      grind (arith, interpose-spliced d p (record u { lower_path = update_path u.lower_path d p }))

  after_enoent-ne-oops :
      (d : Dentry) (p : LowerPath) (u : State W) → u.d_fsdata d ≡ true → after_enoent k d p u ≢ oops
  unfolding after_enoent trfs_set_lower_path
  after_enoent-ne-oops d p u h = λ b. grind arith

  lookup-ne-oops :
      (d : Dentry) (p : LowerPath) (u : State W) → u.d_fsdata d ≡ true → lookup k d p u ≢ oops
  unfolding lookup
  lookup-ne-oops d p u h =
      let w = k.effect (set_d_op d) u.world in
      let result = k.vfs_path_lookup p d w in
      elim (Found-cases result.0) [
        | inl (q, e) ↦ λ b.
            ground (
              arith,
              e,
              after_found-ne-oops d q (record u { refs = u.refs + 1; world = result.1 }) h,
            )
        | inr (x, e) ↦ λ b. grind (arith, after_enoent-ne-oops d)
      ]

  trfs_lookup-ne-oops :
      (d : Dentry) (s : State W)
      → s.d_fsdata (k.dget_parent d s.world) ≡ true
      → trfs_lookup k d s ≢ oops
  unfolding trfs_lookup new_dentry_private_data
  trfs_lookup-ne-oops d s g = λ b. grind (arith, lookup-ne-oops d)

  released :
      (d : Dentry) (s s' : State W)
      → d ≢ 0
      → IsLookedUp d s s'
      → (s'.d_fsdata d ≡ false)
        ⊎ ((v : State W) × (trfs_d_release d s' ≡ ok (tt, v))
            × (v.refs ≡ s.refs)
            × (v.infos ≡ s.infos)
            × (v.d_fsdata d ≡ false))
  unfolding trfs_d_release trfs_put_reset_lower_path free_dentry_private_data
  released d s s' n q = elim (Outcome-cases (trfs_d_release d s')) [
    | inl b ↦ inl (ground arith)
    | inr ((t, v), b) ↦ elim (Bool-cases (s'.d_fsdata d)) [
      | inl x ↦ inr (v, b, ground (arith, q.refs), ground (arith, q.infos), ground arith)
      | inr x ↦ inl x
    ]
  ]

  -- A lookup of a new dentry whose parent has its private data returns, if what the kernel finds is not
  -- NULL. It takes
  -- the references that the private data of the dentry hold, and the private data, and nothing else:
  -- they are all that is left, also where it fails; and the release of the dentry gives them back.
  pub trfs_d_release-trfs_lookup :
      (F : Finds k) (d : Dentry) (s : State W)
      → d ≢ 0
      → s.d_fsdata d ≡ false
      → s.d_fsdata (k.dget_parent d s.world) ≡ true
      → (r : ErrPtr) × (s' : State W) × (trfs_lookup k d s ≡ ok (r, s'))
        × IsLookedUp d s s'
        × ((s'.d_fsdata d ≡ false)
            ⊎ ((v : State W) × (trfs_d_release d s' ≡ ok (tt, v))
                × (v.refs ≡ s.refs)
                × (v.infos ≡ s.infos)
                × (v.d_fsdata d ≡ false)))
  trfs_d_release-trfs_lookup F d s n h g = elim (Outcome-cases (trfs_lookup k d s)) [
    | inl b ↦ absurd (trfs_lookup-ne-oops d s g b)
    | inr ((r, s'), e) ↦
        let q = trfs_lookup-IsLookedUp F d s s' r h e in (r, s', e, q, released d s s' n q)
  ]
