-- ===== src/Examples/Switches.antt =====
-- A small kernel with the memory of a program: its world is the bytes of the trace file, and the
-- variable `retmapval` of hw2/trctl.c at the address 8.
use trfs_stackable_filesyste.Common.{
  ℕ, ◌+◌, ◌≡◌, refl, arith, true, false, some, List, [], ◌∷◌, pos, if◌then◌else◌, ◌==◌,
}
use trfs_stackable_filesyste.Kernel.{Call, copy_to_user, fresh, Kernel, State}
use trfs_stackable_filesyste.Tracing.{Tracing, Placing, Typed}
use trfs_stackable_filesyste.Ioctl.{trfs_command, trfs_unlocked_ioctl}
use trfs_stackable_filesyste.Ctl.{
  change_bits, test_args, test_names, one_command, dispatch, ctl_main,
}
use trfs_stackable_filesyste.Ctl.Module.{Variable, Opened}
use trfs_stackable_filesyste.Trace.{path}
use trfs_stackable_filesyste.Session.{rename, Request}
use trfs_stackable_filesyste.Session.Logged.{Logged}
use trfs_stackable_filesyste.Session.Switched.{after_trctl}
use trfs_stackable_filesyste.Examples.Toy.{
  small, toy_path, zeros, length-zeros, toy_write, toy_call, path_chars, toy_call_fits,
}

abbrev after_call : Call → List ℕ × ℕ → List ℕ × ℕ
after_call (copy_to_user a m) (w, x) = (w, if a == 8 then m else x)
after_call _ w = w

abbrev machine : Kernel (List ℕ × ℕ)
machine = small (record {
  trace_write = λ f bytes n w. ((toy_write bytes n (w.0)).0, ((toy_write bytes n (w.0)).1, w.1));
  call = λ c w. (toy_call c, after_call c w);
  effect = λ e w. w;
  iget5_locked = λ i w. (fresh 4, w);
  igrab = λ i w. (true, w);
  lower_inode = λ i w. 12;
  filp_trunc = λ p w. (some 7, ([], w.1));
})

call_trace : (c : Call) (w : List ℕ × ℕ) → (after_call c w).0 ≡ w.0
call_trace (copy_to_user a m) w = refl
call_trace _ w = refl

abbrev machine_tracing : Tracing machine
machine_tracing = record {
  trace_path = 47 ∷ 116 ∷ [];
  tfile = λ w. w.0;
  path = λ d w. toy_path d;
  path_chars = λ d w. path_chars d;
  kmalloc_some = λ n w. (zeros n, refl, length-zeros n);
  dentry_path_raw_lem = λ d buffer w l h. refl;
  filp_open_some = λ w. (7, refl);
  trace_write_appends = λ u f bytes n w e l. refl;
  kmalloc_tfile = λ n w. refl;
  filp_open_tfile = λ w. refl;
  filp_close_tfile = λ f w. refl;
  call_tfile = λ c w. call_trace c w;
  effect_tfile = λ e w. refl;
  lock_rename_tfile = λ a b w. refl;
  dentry_open_tfile = λ p n w. refl;
  generic_file_llseek_tfile = λ f z n w. refl;
  iget5_locked_tfile = λ i w. refl;
  igrab_tfile = λ i w. refl;
  d_splice_alias_tfile = λ i d w. refl;
  kmalloc_path = λ d n w. refl;
}

abbrev machine_placing : Placing machine_tracing
machine_placing = record {
  call_path = λ d c w. refl;
  effect_path = λ d e w. refl;
  lock_rename_path = λ d a b w. refl;
  dentry_open_path = λ d p n w. refl;
  iget5_locked_path = λ d i w. refl;
  igrab_path = λ d i w. refl;
  d_splice_alias_path = λ c i d w. refl;
}

abbrev machine_typed : Typed machine
machine_typed = record {
  call_fits = λ c w. toy_call_fits c;
  i_opflags_fits = λ i w. omega arith;
  i_mode_fits = λ i w. omega arith;
  f_flags_fits = λ f w. omega arith;
  dentry_open_fits = λ p n w e h. cc;
  d_splice_alias_fits = λ i d w e h. cc;
}

abbrev variable : Variable machine
variable = record {
  address = 8;
  value = λ w. w.1;
  set_value = λ m w. (w.0, m);
  copy_to_user_value = λ m w. refl;
  unlocked_ioctl_value = λ f w. refl;
  copy_attr_all_value = λ i j w. refl;
}

-- The root is open as the file 3, and nothing is traced but the reads.
abbrev opened : Opened (List ℕ × ℕ) 3
opened = (
  record {
    sb = record { lower_sb = 3; tfile_path = 47 ∷ 116 ∷ []; record_id = pos 0; mask = 2 };
    lower_path = λ d. record { dentry = d + 100; mnt = 2 };
    file_info = λ f. some (record { lower_file = 6; lower_vm_ops = 0 });
    live = 1;
    refs = 0;
    locks = 0;
    files = 0;
    lower_files = 0;
    kernel_ds = false;
    d_fsdata = λ d. true;
    infos = 1;
    s_fs_info = true;
    s_root = 1;
    s_active = 1;
    world = ([], 99);
  },
  record { lower_file = 6; lower_vm_ops = 0 },
  refl,
)

-- A rename of "/a" to "/bb".
abbrev moving : Request
moving = rename 1 0 1 1

abbrev left_by : ℕ → State (List ℕ × ℕ)
left_by sign =
    after_trctl machine 3 variable (λ s. (pos 3, s)) (λ fd s. s) (λ s. pos 0) sign moving (47 ∷ [])
      99 opened

-- `trctl +rename /` adds the bit 11.
mask_left : (left_by 43).sb.mask ≡ 0x802
unfolding change_bits test_args test_names one_command dispatch ctl_main trfs_unlocked_ioctl
    trfs_command
mask_left = refl
