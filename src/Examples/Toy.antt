-- ===== src/Examples/Toy.antt =====
-- A small kernel that behaves as documented: its whole world is the bytes of the trace file.
use trfs_stackable_filesyste.Common.{
  none, ℕ, zero, suc, ◌+◌, ◌-◌, ◌<◌, ◌≤◌, ◌≡◌, refl, arith, Bool, true, false, Option, some, List,
  [], ◌∷◌, ◌++◌, ℤ, pos, negsuc, IsInt32, length, take, All,
}
use trfs_stackable_filesyste.Errno.{enoent}
use trfs_stackable_filesyste.Kernel.{
  Dentry, File, Inode, Iget, Effect, Call, vfs_write, found, not_found, fresh, ptr, Kernel, State,
}
use trfs_stackable_filesyste.Tracing.{Tracing, Naming, Placing, Typed}

-- "/a" and "/bb"
abbrev pub toy_path : Dentry → List ℕ
toy_path zero = 47 ∷ 97 ∷ []
toy_path (suc d) = 47 ∷ 98 ∷ 98 ∷ []

abbrev pub zeros : ℕ → List ℕ
zeros zero = []
zeros (suc n) = 0 ∷ zeros n

pub length-zeros : (n : ℕ) → length (zeros n) ≡ n
length-zeros zero = refl
length-zeros (suc n) = omega (arith, length-zeros n)

abbrev pub toy_write : List ℕ → ℤ → List ℕ → ℤ × List ℕ
toy_write bytes (pos n) w = (pos n, w ++ take n bytes)
toy_write bytes (negsuc n) w = (negsuc 0, w)

abbrev pub toy_call : Call → ℤ
toy_call (vfs_write f (x ∷ xs)) = pos 1
toy_call _ = pos 0

-- What the small kernels of the examples do in different ways.
pub record Varying (W : Type 0) : Type 0 where
  pub trace_write : File → List ℕ → ℤ → W → ℤ × W
  pub call : Call → W → ℤ × W
  pub effect : Effect → W → W
  pub iget5_locked : Inode → W → Iget × W
  pub igrab : Inode → W → Bool × W
  pub lower_inode : Inode → W → ℕ
  pub filp_trunc : List ℕ → W → Option File × W

abbrev pub small : {W : Type 0} → Varying W → Kernel W
small v = record {
  kmalloc = λ n w. (some (zeros n), w);
  dentry_path_raw = λ d buffer w. some (
    take (255 - length (toy_path d)) buffer ++ (toy_path d ++ (0 ∷ [])),
    255 - length (toy_path d),
  );
  filp_open = λ p w. (some 7, w);
  filp_close = λ f w. w;
  trace_write = v.trace_write;
  call = v.call;
  effect = v.effect;
  f_dentry = λ f. 1;
  f_flags = λ f w. 2;
  i_opflags = λ i w. 13;
  i_mode = λ i w. 16877;
  i_size_read = λ i w. 0;
  i_sb = λ i w. 5;
  has_inode = λ d w. true;
  nfs_renamed = λ d w. false;
  d_unhashed = λ d w. false;
  dget_parent = λ d w. 1;
  lock_rename = λ a b w. (0, w);
  dentry_open = λ p n w. (ptr 8, w);
  has_f_op = λ f w. true;
  has_ioctl = λ f w. false;
  has_i_op = λ d w. true;
  has_iop = λ o d w. true;
  has_fop = λ o f w. true;
  writepage = λ f w. true;
  vm_ops = λ v w. 11;
  has_fault = λ o w. true;
  has_page_mkwrite = λ o w. false;
  revalidates = λ d w. true;
  generic_file_llseek = λ f z n w. (z, w);
  iget5_locked = v.iget5_locked;
  igrab = v.igrab;
  d_splice_alias = λ i d w. (ptr 0, w);
  lower_inode = v.lower_inode;
  has_umount_begin = λ n w. false;
  ilookup = λ n i w. some 13;
  vfs_path_lookup = λ p d w. (not_found enoent, w);
  d_lookup = λ p d w. (some 55, w);
  d_alloc = λ p d w. (none, w);
  is_root = λ d w. false;
  zalloc_dentry = λ w. (true, w);
  zalloc_sb = λ w. (true, w);
  kern_path = λ p w. (found (record { dentry = 100; mnt = 2 }), w);
  filp_trunc = v.filp_trunc;
  d_sb = λ d w. 3;
  d_make_root = λ i w. (some 1, w);
}

abbrev pub toy : Kernel (List ℕ)
toy = small (record {
  trace_write = λ f bytes n w. toy_write bytes n w;
  call = λ c w. (toy_call c, w);
  effect = λ e w. w;
  iget5_locked = λ i w. (fresh 4, w);
  igrab = λ i w. (true, w);
  lower_inode = λ i w. 12;
  filp_trunc = λ p w. (some 7, []);
})

abbrev pub path_chars : (d : Dentry) → All (λ c. 0 < c) (toy_path d)
path_chars zero = (omega arith, (omega arith, tt))
path_chars (suc d) = (omega arith, (omega arith, (omega arith, tt)))

pub short_path : (d : Dentry) → length (toy_path d) ≤ 255
short_path zero = omega arith
short_path (suc d) = omega arith

pub toy_appends :
    (f : File) (bytes : List ℕ) (n : ℕ) (w : List ℕ)
    → (toy.trace_write f bytes (pos n) w).1 ≡ w ++ take n bytes
toy_appends f bytes n w = refl

pub toy_call_fits : (c : Call) → IsInt32 (toy_call c)
toy_call_fits (vfs_write f (x ∷ xs)) = omega arith
toy_call_fits _ = omega arith

abbrev pub toy_tracing : Tracing toy
toy_tracing = record {
  trace_path = 47 ∷ 116 ∷ [];
  tfile = λ w. w;
  path = λ d w. toy_path d;
  path_chars = λ d w. path_chars d;
  kmalloc_some = λ n w. (zeros n, refl, length-zeros n);
  dentry_path_raw_lem = λ d buffer w l h. refl;
  filp_open_some = λ w. (7, refl);
  trace_write_appends = λ u f bytes n w e l. toy_appends f bytes n w;
  kmalloc_tfile = λ n w. refl;
  filp_open_tfile = λ w. refl;
  filp_close_tfile = λ f w. refl;
  call_tfile = λ c w. refl;
  effect_tfile = λ e w. refl;
  lock_rename_tfile = λ a b w. refl;
  dentry_open_tfile = λ p n w. refl;
  generic_file_llseek_tfile = λ f z n w. refl;
  iget5_locked_tfile = λ i w. refl;
  igrab_tfile = λ i w. refl;
  d_splice_alias_tfile = λ i d w. refl;
  kmalloc_path = λ d n w. refl;
}

abbrev pub toy_naming : Naming toy_tracing
toy_naming = record {
  vfs_path_lookup_tfile = λ p d w. refl;
  d_lookup_tfile = λ p d w. refl;
  d_alloc_tfile = λ p d w. refl;
  zalloc_dentry_tfile = λ w. refl;
  filp_trunc_tfile = λ w. refl;
  d_make_root_tfile = λ i w. refl;
}

abbrev pub toy_placing : Placing toy_tracing
toy_placing = record {
  call_path = λ d c w. refl;
  effect_path = λ d e w. refl;
  lock_rename_path = λ d a b w. refl;
  dentry_open_path = λ d p n w. refl;
  iget5_locked_path = λ d i w. refl;
  igrab_path = λ d i w. refl;
  d_splice_alias_path = λ c i d w. refl;
}

abbrev pub toy_typed : Typed toy
toy_typed = record {
  call_fits = λ c w. toy_call_fits c;
  i_opflags_fits = λ i w. omega arith;
  i_mode_fits = λ i w. omega arith;
  f_flags_fits = λ f w. omega arith;
  dentry_open_fits = λ p n w e h. cc;
  d_splice_alias_fits = λ i d w e h. cc;
}

abbrev pub mounted : State (List ℕ)
mounted = record {
  sb = record { lower_sb = 3; tfile_path = 47 ∷ 116 ∷ []; record_id = pos 0; mask = 0xfff };
  lower_path = λ d. record { dentry = d + 100; mnt = 2 };
  file_info = λ f. some (record { lower_file = 6; lower_vm_ops = 0 });
  live = 1;
  refs = 0;
  locks = 0;
  files = 0;
  lower_files = 0;
  kernel_ds = false;
  d_fsdata = λ d. true;
  infos = 1;
  s_fs_info = true;
  s_root = 1;
  s_active = 1;
  world = [];
}
