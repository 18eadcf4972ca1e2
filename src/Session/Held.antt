-- ===== src/Session/Held.antt =====
-- What the module holds from the mount on, while dentries are looked up and released: trfs_lookup of
-- fs/trfs/lookup.c and trfs_d_release of fs/trfs/dentry.c.
use trfs_stackable_filesyste.Common.{
  ◌+◌, ◌-◌, ◌≡◌, ◌≢◌, refl, ap, ◌∙◌, arith, true, false, List, [], ◌∷◌, length, Bool-cases,
  if◌then◌else◌, inl, inr,
}
use trfs_stackable_filesyste.Kernel.{
  Dentry, Kernel, State, ErrPtr, ok, Outcome-cases, oops, M, pure, ◌>>◌,
}
use trfs_stackable_filesyste.Tracing.{Finds}
use trfs_stackable_filesyste.Lookup.Dentries.{
  trfs_put_reset_lower_path, free_dentry_private_data, trfs_d_release,
}
use trfs_stackable_filesyste.Lookup.Names.{trfs_lookup}
use trfs_stackable_filesyste.Lookup.Balance.{held, trfs_lookup-IsLookedUp}
use trfs_stackable_filesyste.Session.Kept.{IsKept}
use trfs_stackable_filesyste.Session.Dentries.{
  Without, here, held_all, AreLive, IsElsewhere, held_all-IsElsewhere, AreLive-IsElsewhere,
  held_all-same, AreLive-same, Lacks-AreLive, length-Without, here, held_all-Without,
  AreLive-Without,
}

module _ {W : Type 0} where
  -- From `s` to `v` the dentries of the list were looked up, and they hold all that is held beyond `s`.
  pub record IsHeld (s : State W) (ds : List Dentry) (v : State W) : Type 0 where
    pub refs : v.refs ≡ s.refs + held_all v ds
    pub infos : v.infos ≡ s.infos + length ds
    pub locks : v.locks ≡ s.locks
    pub files : v.files ≡ s.files
    pub kernel_ds : v.kernel_ds ≡ s.kernel_ds
    pub s_fs_info : v.s_fs_info ≡ s.s_fs_info
    pub s_root : v.s_root ≡ s.s_root
    pub s_active : v.s_active ≡ s.s_active
    pub root_data : v.d_fsdata s.s_root ≡ true
    pub root_path : v.lower_path s.s_root ≡ s.lower_path s.s_root
    pub live : AreLive s.s_root v ds

  -- Requests leave the private data of dentries alone.
  pub IsHeld-IsKept :
      (s u v : State W) (ds : List Dentry)
      → IsHeld s ds u
      → IsKept u v
      → v.refs ≡ u.refs
      → v.locks ≡ u.locks
      → v.files ≡ u.files
      → v.kernel_ds ≡ u.kernel_ds
      → IsHeld s ds v
  IsHeld-IsKept s u v ds q k r l f g =
      let infos_kept = ap (λ x. x.d_fsdata) k in
      let paths = ap (λ x. x.lower_path) k in
      record {
        refs = omega (arith, r, q.refs, held_all-same u v ds infos_kept paths);
        infos = ap (λ x. x.infos) k ∙ q.infos;
        locks = l ∙ q.locks;
        files = f ∙ q.files;
        kernel_ds = g ∙ q.kernel_ds;
        s_fs_info = ap (λ x. x.s_fs_info) k ∙ q.s_fs_info;
        s_root = ap (λ x. x.s_root) k ∙ q.s_root;
        s_active = ap (λ x. x.s_active) k ∙ q.s_active;
        root_data = rw infos_kept q.root_data;
        root_path = rw paths q.root_path;
        live = AreLive-same s.s_root u v ds infos_kept q.live;
      }

  -- What a release of a dentry that has private data does.
  record IsReleased (d : Dentry) (u v : State W) : Type 0 where
    pub refs : v.refs ≡ u.refs - held u d
    pub infos : v.infos ≡ u.infos - 1
    pub elsewhere : IsElsewhere d u v

  trfs_d_release-IsReleased :
      (d : Dentry) (u v : State W)
      → d ≢ 0
      → u.d_fsdata d ≡ true
      → trfs_d_release d u ≡ ok (tt, v)
      → IsReleased d u v
  unfolding trfs_d_release trfs_put_reset_lower_path free_dentry_private_data
  trfs_d_release-IsReleased d u v n h e = record {
    refs = grind arith;
    infos = grind arith;
    elsewhere = record {
      d_fsdata = λ c l. grind arith;
      lower_path = λ c l. grind arith;
      locks = grind arith;
      files = grind arith;
      kernel_ds = grind arith;
      s_fs_info = grind arith;
      s_root = grind arith;
      s_active = grind arith;
    };
  }

  trfs_d_release-ne-oops :
      (d : Dentry) (u : State W) → u.d_fsdata d ≡ true → trfs_d_release d u ≢ oops
  unfolding trfs_d_release trfs_put_reset_lower_path free_dentry_private_data
  trfs_d_release-ne-oops d u h = λ e. grind arith

  -- A step that moved nothing but the private data of `d`.
  IsHeld-IsElsewhere :
      (d : Dentry) (s u v : State W) (ds es : List Dentry)
      → IsHeld s ds u
      → IsElsewhere d u v
      → d ≢ s.s_root
      → v.refs ≡ s.refs + held_all v es
      → v.infos ≡ s.infos + length es
      → AreLive s.s_root v es
      → IsHeld s es v
  IsHeld-IsElsewhere d s u v ds es q e n a b c = record {
    refs = a;
    infos = b;
    locks = e.locks ∙ q.locks;
    files = e.files ∙ q.files;
    kernel_ds = e.kernel_ds ∙ q.kernel_ds;
    s_fs_info = e.s_fs_info ∙ q.s_fs_info;
    s_root = e.s_root ∙ q.s_root;
    s_active = e.s_active ∙ q.s_active;
    root_data = e.d_fsdata s.s_root n ∙ q.root_data;
    root_path = e.lower_path s.s_root n ∙ q.root_path;
    live = c;
  }

  -- A release of any of them.
  pub IsHeld-trfs_d_release :
      (d : Dentry) (s u v : State W) (ds es : List Dentry)
      → Without d ds es
      → IsHeld s ds u
      → trfs_d_release d u ≡ ok (tt, v)
      → IsHeld s es v
  IsHeld-trfs_d_release d s u v ds es w q h =
      let o = AreLive-Without d s.s_root u ds es w q.live in
      let r = trfs_d_release-IsReleased d u v o.not_null o.has_data h in
      let kept = held_all-IsElsewhere d u v es r.elsewhere o.others in
      IsHeld-IsElsewhere d s u v ds es q r.elsewhere o.not_root
        (omega (arith, r.refs, q.refs, held_all-Without d u ds es w, kept))
        (omega (arith, r.infos, q.infos, length-Without d ds es w))
        (AreLive-IsElsewhere d s.s_root u v es r.elsewhere o.others o.live)

  -- All of them, as `generic_shutdown_super` does before it releases the root.
  abbrev pub release_all : List Dentry → M W (Unit {0})
  release_all [] = pure tt
  release_all (d ∷ ds) = do trfs_d_release d; release_all ds

  pub release_all_lem :
      (s u : State W) (ds : List Dentry)
      → IsHeld s ds u
      → (v : State W) × (release_all ds u ≡ ok (tt, v)) × IsHeld s [] v
  release_all_lem s u [] q = (u, refl, q)
  release_all_lem s u (d ∷ ds) q = elim (Outcome-cases (trfs_d_release d u)) [
    | inl b ↦ absurd (
        trfs_d_release-ne-oops d u ((AreLive-Without d s.s_root u (d ∷ ds) ds here q.live).has_data)
          b)
    | inr ((t, u'), b) ↦
        let (v, e, r) =
          release_all_lem s u' ds (IsHeld-trfs_d_release d s u u' (d ∷ ds) ds here q b) in
        (v, ground (arith, b, e), r)
  ]

  pub live-trfs_d_release :
      (d : Dentry) (u v : State W) → trfs_d_release d u ≡ ok (tt, v) → v.live ≡ u.live
  unfolding trfs_d_release trfs_put_reset_lower_path free_dentry_private_data
  live-trfs_d_release d u v e = grind arith

  pub lower_files-trfs_d_release :
      (d : Dentry) (u v : State W) → trfs_d_release d u ≡ ok (tt, v) → v.lower_files ≡ u.lower_files
  unfolding trfs_d_release trfs_put_reset_lower_path free_dentry_private_data
  lower_files-trfs_d_release d u v e = grind arith

  pub file_info-trfs_d_release :
      (d : Dentry) (u v : State W) → trfs_d_release d u ≡ ok (tt, v) → v.file_info ≡ u.file_info
  unfolding trfs_d_release trfs_put_reset_lower_path free_dentry_private_data
  file_info-trfs_d_release d u v e = grind arith

  pub live-release_all :
      (u v : State W) (ds : List Dentry) → release_all ds u ≡ ok (tt, v) → v.live ≡ u.live
  live-release_all u v [] e = ground (arith, e)
  live-release_all u v (d ∷ ds) e = elim (Outcome-cases (trfs_d_release d u)) [
    | inl b ↦ absurd (ground (arith, e, b))
    | inr ((t, u'), b) ↦
        live-release_all u' v ds (ground (arith, e, b)) ∙ live-trfs_d_release d u u' b
  ]

  pub lower_files-release_all :
      (u v : State W) (ds : List Dentry)
      → release_all ds u ≡ ok (tt, v)
      → v.lower_files ≡ u.lower_files
  lower_files-release_all u v [] e = ground (arith, e)
  lower_files-release_all u v (d ∷ ds) e = elim (Outcome-cases (trfs_d_release d u)) [
    | inl b ↦ absurd (ground (arith, e, b))
    | inr ((t, u'), b) ↦
        lower_files-release_all u' v ds (ground (arith, e, b)) ∙ lower_files-trfs_d_release d u u' b
  ]

module _ {W : Type 0} (k : Kernel W) (F : Finds k) where
  -- A lookup of a new dentry: the dentry joins them, unless there was no memory for its private data.
  pub IsHeld-trfs_lookup :
      (d : Dentry) (s u v : State W) (ds : List Dentry) (r : ErrPtr)
      → d ≢ 0
      → u.d_fsdata d ≡ false
      → IsHeld s ds u
      → trfs_lookup k d u ≡ ok (r, v)
      → IsHeld s (if v.d_fsdata d then d ∷ ds else ds) v
  IsHeld-trfs_lookup d s u v ds r n f q h =
      let l = trfs_lookup-IsLookedUp k F d u v r f h in
      let lacks = Lacks-AreLive d s.s_root u ds f q.live in
      let e : IsElsewhere d u v = record {
        d_fsdata = l.d_fsdata;
        lower_path = l.lower_path;
        locks = l.locks;
        files = l.files;
        kernel_ds = l.kernel_ds;
        s_fs_info = l.s_fs_info;
        s_root = l.s_root;
        s_active = l.s_active;
      } in
      let not_root : d ≢ s.s_root = λ x. ground (arith, ap u.d_fsdata x, q.root_data) in
      let same = held_all-IsElsewhere d u v ds e lacks in
      let live = AreLive-IsElsewhere d s.s_root u v ds e lacks q.live in
      elim (Bool-cases (v.d_fsdata d)) [
        | inl has ↦ rw has (
            IsHeld-IsElsewhere d s u v ds (d ∷ ds) q e not_root
              (omega (arith, l.refs, q.refs, same)) (ground (arith, l.infos, q.infos, has))
              (n, not_root, has, lacks, live))
        | inr none ↦ rw none (
            IsHeld-IsElsewhere d s u v ds ds q e not_root
              (ground (arith, l.refs, q.refs, same, none)) (ground (arith, l.infos, q.infos, none))
              live)
      ]
