-- ===== src/Tracing.antt =====
-- What the tracing relies on of the kernel, as documented: `kmalloc` gives a block of the size asked
-- for; `dentry_path_raw` builds the path at the end of its buffer and returns where it starts; a file
-- that is opened with `O_APPEND` grows at its end by what is written; and nothing else that the
-- handlers call writes to the trace file or moves a dentry of the stacked file system.
use trfs_stackable_filesyste.Common.{
  ℕ, ◌-◌, ◌≤◌, ◌<◌, ◌≡◌, some, List, [], ◌∷◌, ◌++◌, ℤ, pos, ◌≢◌, true, is_error, length, take, All,
  IsInt32, ◌^◌,
}
use trfs_stackable_filesyste.Common.Fits.{fits_int, IsInt32-fits_int}
use trfs_stackable_filesyste.Kernel.{
  Dentry, File, LowerPath, Inode, Call, Effect, Kernel, err_ptr, found, not_found,
}

pub record Tracing {W : Type 0} (k : Kernel W) : Type 0 where
  -- The path of the trace file, which can be opened, and its bytes.
  pub trace_path : List ℕ
  pub tfile : W → List ℕ
  -- The path of a dentry in the stacked file system.
  pub path : Dentry → W → List ℕ
  pub path_chars : (d : Dentry) (w : W) → All (λ c. 0 < c) (path d w)
  pub kmalloc_some : (n : ℕ) (w : W) → (b : List ℕ) × ((k.kmalloc n w).0 ≡ some b) × (length b ≡ n)
  pub dentry_path_raw_lem :
      (d : Dentry) (buffer : List ℕ) (w : W)
      → length buffer ≡ 256
      → length (path d w) ≤ 255
      → k.dentry_path_raw d buffer w
        ≡ some (
          take (255 - length (path d w)) buffer ++ (path d w ++ (0 ∷ [])),
          255 - length (path d w),
        )
  pub filp_open_some : (w : W) → (f : File) × ((k.filp_open trace_path w).0 ≡ some f)
  pub trace_write_appends :
      (u : W) (f : File) (bytes : List ℕ) (n : ℕ) (w : W)
      → (k.filp_open trace_path u).0 ≡ some f
      → n ≤ length bytes
      → tfile (k.trace_write f bytes (pos n) w).1 ≡ tfile w ++ take n bytes
  pub kmalloc_tfile : (n : ℕ) (w : W) → tfile (k.kmalloc n w).1 ≡ tfile w
  pub filp_open_tfile : (w : W) → tfile (k.filp_open trace_path w).1 ≡ tfile w
  pub filp_close_tfile : (f : File) (w : W) → tfile (k.filp_close f w) ≡ tfile w
  pub call_tfile : (c : Call) (w : W) → tfile (k.call c w).1 ≡ tfile w
  pub effect_tfile : (e : Effect) (w : W) → tfile (k.effect e w) ≡ tfile w
  pub lock_rename_tfile : (a b : Dentry) (w : W) → tfile (k.lock_rename a b w).1 ≡ tfile w
  pub dentry_open_tfile : (p : LowerPath) (n : ℕ) (w : W) → tfile (k.dentry_open p n w).1 ≡ tfile w
  pub generic_file_llseek_tfile :
      (f : File) (z : ℤ) (n : ℕ) (w : W) → tfile (k.generic_file_llseek f z n w).1 ≡ tfile w
  pub iget5_locked_tfile : (i : Inode) (w : W) → tfile (k.iget5_locked i w).1 ≡ tfile w
  pub igrab_tfile : (i : Inode) (w : W) → tfile (k.igrab i w).1 ≡ tfile w
  pub d_splice_alias_tfile :
      (i : ℕ) (d : Dentry) (w : W) → tfile (k.d_splice_alias i d w).1 ≡ tfile w
  pub kmalloc_path : (d : Dentry) (n : ℕ) (w : W) → path d (k.kmalloc n w).1 ≡ path d w

-- So too of what lookups and mounts call; and a file that is opened with `O_TRUNC` is empty.
pub record Naming {W : Type 0} {k : Kernel W} (T : Tracing k) : Type 0 where
  pub vfs_path_lookup_tfile :
      (p : LowerPath) (d : Dentry) (w : W) → T.tfile (k.vfs_path_lookup p d w).1 ≡ T.tfile w
  pub d_lookup_tfile : (p d : Dentry) (w : W) → T.tfile (k.d_lookup p d w).1 ≡ T.tfile w
  pub d_alloc_tfile : (p d : Dentry) (w : W) → T.tfile (k.d_alloc p d w).1 ≡ T.tfile w
  pub zalloc_dentry_tfile : (w : W) → T.tfile (k.zalloc_dentry w).1 ≡ T.tfile w
  -- `O_TRUNC`
  pub filp_trunc_tfile : (w : W) → T.tfile (k.filp_trunc T.trace_path w).1 ≡ []
  pub d_make_root_tfile : (i : ℕ) (w : W) → T.tfile (k.d_make_root i w).1 ≡ T.tfile w

-- What the handlers call does not change the dentries' paths in the stacked file system: the kernel moves
-- a dentry only after a rename has returned.
pub record Placing {W : Type 0} {k : Kernel W} (T : Tracing k) : Type 0 where
  pub call_path : (d : Dentry) (c : Call) (w : W) → T.path d (k.call c w).1 ≡ T.path d w
  pub effect_path : (d : Dentry) (e : Effect) (w : W) → T.path d (k.effect e w) ≡ T.path d w
  pub lock_rename_path : (d a b : Dentry) (w : W) → T.path d (k.lock_rename a b w).1 ≡ T.path d w
  pub dentry_open_path :
      (d : Dentry) (p : LowerPath) (n : ℕ) (w : W) → T.path d (k.dentry_open p n w).1 ≡ T.path d w
  pub iget5_locked_path :
      (d : Dentry) (i : Inode) (w : W) → T.path d (k.iget5_locked i w).1 ≡ T.path d w
  pub igrab_path : (d : Dentry) (i : Inode) (w : W) → T.path d (k.igrab i w).1 ≡ T.path d w
  pub d_splice_alias_path :
      (c : Dentry) (i : ℕ) (d : Dentry) (w : W) → T.path c (k.d_splice_alias i d w).1 ≡ T.path c w

-- The values that the kernel gives fit their C types.
pub record Typed {W : Type 0} (k : Kernel W) : Type 0 where
  pub call_fits : (c : Call) (w : W) → IsInt32 (k.call c w).0
  pub i_opflags_fits : (i : Inode) (w : W) → k.i_opflags i w < 2 ^ 32
  pub i_mode_fits : (i : Inode) (w : W) → k.i_mode i w < 2 ^ 16
  pub f_flags_fits : (f : File) (w : W) → k.f_flags f w < 2 ^ 32
  pub dentry_open_fits :
      (p : LowerPath) (n : ℕ) (w : W) (e : ℤ) → (k.dentry_open p n w).0 ≡ err_ptr e → IsInt32 e
  pub d_splice_alias_fits :
      (i : ℕ) (d : Dentry) (w : W) (e : ℤ) → (k.d_splice_alias i d w).0 ≡ err_ptr e → IsInt32 e

-- What the kernel finds is not NULL, and its errors are not 0.
pub record Finds {W : Type 0} (k : Kernel W) : Type 0 where
  pub vfs_path_lookup_ne :
      (p q : LowerPath) (d : Dentry) (w : W) → (k.vfs_path_lookup p d w).0 ≡ found q → q.dentry ≢ 0
  pub d_lookup_ne : (p d c : Dentry) (w : W) → (k.d_lookup p d w).0 ≡ some c → c ≢ 0
  pub d_alloc_ne : (p d c : Dentry) (w : W) → (k.d_alloc p d w).0 ≡ some c → c ≢ 0
  pub kern_path_ne :
      (name : List ℕ) (w : W) (p : LowerPath) → (k.kern_path name w).0 ≡ found p → p.dentry ≢ 0
  pub d_make_root_ne : (i d : ℕ) (w : W) → (k.d_make_root i w).0 ≡ some d → d ≢ 0
  pub kern_path_error :
      (name : List ℕ) (w : W) (e : ℤ) → (k.kern_path name w).0 ≡ not_found e → is_error e ≡ true

pub fits_int-call :
    {W : Type 0} (k : Kernel W) (C : Typed k) (c : Call) (w : W) → fits_int (k.call c w).0 ≡ true
fits_int-call k C c w = IsInt32-fits_int (k.call c w).0 (C.call_fits c w)
