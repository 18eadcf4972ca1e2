-- ===== src/Session/Dentries.antt =====
-- The dentries that trfs_lookup of fs/trfs/lookup.c gave private data, and what these hold.
use trfs_stackable_filesyste.Common.{
  ℕ, suc, ◌+◌, ◌≡◌, ◌≢◌, refl, arith, true, false, ap, sym, List, [], ◌∷◌, length,
}
use trfs_stackable_filesyste.Kernel.{Dentry, State}
use trfs_stackable_filesyste.Lookup.Balance.{held}

-- `d` is not in the list.
abbrev pub Lacks : Dentry → List Dentry → Type 0
Lacks d [] = Unit
Lacks d (c ∷ ds) = (d ≢ c) × Lacks d ds

-- The second list is the first without one `d`.
pub data Without (d : Dentry) : List Dentry → List Dentry → Type 0 where
  here : {ds : List Dentry} → Without d (d ∷ ds) ds
  there : {ds es : List Dentry} (c : Dentry) → Without d ds es → Without d (c ∷ ds) (c ∷ es)

pub Lacks-Without : (c d : Dentry) (ds es : List Dentry) → Without d ds es → Lacks c ds → Lacks c es
Lacks-Without c d ds es here (n, l) = l
Lacks-Without c d ds es (there b w) (n, l) = (n, Lacks-Without c d _ _ w l)

pub ne-Without : (c d : Dentry) (ds es : List Dentry) → Without d ds es → Lacks c ds → d ≢ c
ne-Without c d ds es here (n, l) = λ e. n (sym e)
ne-Without c d ds es (there b w) (n, l) = ne-Without c d _ _ w l

pub length-Without :
    (d : Dentry) (ds es : List Dentry) → Without d ds es → length ds ≡ suc (length es)
length-Without d ds es here = refl
length-Without d ds es (there b w) = ap suc (length-Without d _ _ w)

module _ {W : Type 0} where
  -- The references that their private data hold.
  abbrev pub held_all : State W → List Dentry → ℕ
  held_all s [] = 0
  held_all s (d ∷ ds) = held s d + held_all s ds

  -- They are different, none is NULL or the root, and all have private data.
  abbrev pub AreLive : Dentry → State W → List Dentry → Type 0
  AreLive root s [] = Unit
  AreLive root s (d ∷ ds) =
      (d ≢ 0) × (d ≢ root) × (s.d_fsdata d ≡ true) × Lacks d ds × AreLive root s ds

  -- Nothing but the private data of `d` changed.
  pub record IsElsewhere (d : Dentry) (s s' : State W) : Type 0 where
    pub d_fsdata : (c : Dentry) → d ≢ c → s'.d_fsdata c ≡ s.d_fsdata c
    pub lower_path : (c : Dentry) → d ≢ c → s'.lower_path c ≡ s.lower_path c
    pub locks : s'.locks ≡ s.locks
    pub files : s'.files ≡ s.files
    pub kernel_ds : s'.kernel_ds ≡ s.kernel_ds
    pub s_fs_info : s'.s_fs_info ≡ s.s_fs_info
    pub s_root : s'.s_root ≡ s.s_root
    pub s_active : s'.s_active ≡ s.s_active

  pub held_all-IsElsewhere :
      (d : Dentry) (s s' : State W) (ds : List Dentry)
      → IsElsewhere d s s'
      → Lacks d ds
      → held_all s' ds ≡ held_all s ds
  held_all-IsElsewhere d s s' [] e l = ground arith
  held_all-IsElsewhere d s s' (c ∷ ds) e (n, l) =
      ground (arith, held_all-IsElsewhere d s s' ds e l, e.d_fsdata c n, e.lower_path c n)

  pub AreLive-IsElsewhere :
      (d root : Dentry) (s s' : State W) (ds : List Dentry)
      → IsElsewhere d s s'
      → Lacks d ds
      → AreLive root s ds
      → AreLive root s' ds
  AreLive-IsElsewhere d root s s' [] e l a = tt
  AreLive-IsElsewhere d root s s' (c ∷ ds) e (n, l) (z, r, f, k, a) =
      (z, r, ground (arith, e.d_fsdata c n), k, AreLive-IsElsewhere d root s s' ds e l a)

  -- Nor if no private data changed.
  pub held_all-same :
      (s s' : State W) (ds : List Dentry)
      → s'.d_fsdata ≡ s.d_fsdata
      → s'.lower_path ≡ s.lower_path
      → held_all s' ds ≡ held_all s ds
  held_all-same s s' [] e f = ground arith
  held_all-same s s' (d ∷ ds) e f = ground (arith, held_all-same s s' ds e f)

  pub AreLive-same :
      (root : Dentry) (s s' : State W) (ds : List Dentry)
      → s'.d_fsdata ≡ s.d_fsdata
      → AreLive root s ds
      → AreLive root s' ds
  AreLive-same root s s' [] e a = tt
  AreLive-same root s s' (d ∷ ds) e (z, r, f, k, a) =
      (z, r, ground arith, k, AreLive-same root s s' ds e a)

  -- A dentry without private data is none of them.
  pub Lacks-AreLive :
      (d root : Dentry) (s : State W) (ds : List Dentry)
      → s.d_fsdata d ≡ false
      → AreLive root s ds
      → Lacks d ds
  Lacks-AreLive d root s [] h a = tt
  Lacks-AreLive d root s (c ∷ ds) h (z, r, f, k, a) =
      ((λ n. ground (arith, ap s.d_fsdata n)), Lacks-AreLive d root s ds h a)

  pub held_all-Without :
      (d : Dentry) (s : State W) (ds es : List Dentry)
      → Without d ds es
      → held_all s ds ≡ held s d + held_all s es
  held_all-Without d s ds es here = refl
  held_all-Without d s ds es (there b w) = omega (arith, held_all-Without d s _ _ w)

  -- What one of them is, and the others.
  pub record IsOne (root d : Dentry) (s : State W) (es : List Dentry) : Type 0 where
    pub not_null : d ≢ 0
    pub not_root : d ≢ root
    pub has_data : s.d_fsdata d ≡ true
    pub others : Lacks d es
    pub live : AreLive root s es

  pub AreLive-Without :
      (d root : Dentry) (s : State W) (ds es : List Dentry)
      → Without d ds es
      → AreLive root s ds
      → IsOne root d s es
  AreLive-Without d root s ds es here (z, r, f, k, a) = record {
    not_null = z;
    not_root = r;
    has_data = f;
    others = k;
    live = a;
  }
  AreLive-Without d root s ds es (there b w) (z, r, f, k, a) =
      let q = AreLive-Without d root s _ _ w a in
      record {
        not_null = q.not_null;
        not_root = q.not_root;
        has_data = q.has_data;
        others = (ne-Without b d _ _ w k, q.others);
        live = (z, r, f, Lacks-Without b d _ _ w k, q.live);
      }
