-- ===== src/Ctl/Module.antt =====
-- hw2/trctl.c over the module of fs/trfs: its control calls are those of `trfs_unlocked_ioctl` on the
-- open mount point.
use trfs_stackable_filesyste.Common.{
  ℕ, List, ℤ, negsuc, some, is_negative, if◌then◌else◌, ◌≡◌, ◌≢◌, refl, ap, ◌∙◌, arith,
}
use trfs_stackable_filesyste.Kernel.{
  File, Inode, FileInfo, copy_to_user, unlocked_ioctl, copy_attr_all, Kernel, State, Outcome, oops,
  ok,
}
use trfs_stackable_filesyste.Ioctl.{cmd_ret, trfs_command, trfs_unlocked_ioctl}
use trfs_stackable_filesyste.Ioctl.Laws.{
  mask_after, trfs_unlocked_ioctl-ne-oops, trfs_unlocked_ioctl_shape,
}
use trfs_stackable_filesyste.Ctl.{Posix}
use trfs_stackable_filesyste.Ctl.Mask.{Device}

-- The variable `retmapval` in the program's memory, which the kernel can write. A control call of the
-- lower file system and the copying of attributes leave it alone.
pub record Variable {W : Type 0} (k : Kernel W) : Type 0 where
  pub address : ℕ
  pub value : W → ℕ
  pub set_value : ℕ → W → W
  pub copy_to_user_value : (m : ℕ) (w : W) → value (k.call (copy_to_user address m) w).1 ≡ m
  pub unlocked_ioctl_value :
      (f : File) (w : W) → value (k.call (unlocked_ioctl f cmd_ret address) w).1 ≡ value w
  pub copy_attr_all_value : (i j : Inode) (w : W) → value (k.effect (copy_attr_all i j) w) ≡ value w

-- The module's state while the mount point is open.
abbrev pub Opened : Type 0 → File → Type 0
Opened W f = (s : State W) × (i : FileInfo) × (s.file_info f ≡ some i)

abbrev pub mask_of : {W : Type 0} (f : File) → Opened W f → ℕ
mask_of f s = s.0.sb.mask

-- The C library gives -1 for an error.
abbrev ioctl_result : ℤ → ℤ
ioctl_result e = if is_negative e then negsuc 0 else e

-- What is returned by a run that does not oops.
abbrev returned : {A : Type 0} (x : Outcome A) → x ≢ oops → A
returned oops n = absurd (n refl)
returned (ok a) n = a

pub returned-ok : {A : Type 0} (x : Outcome A) (n : x ≢ oops) → x ≡ ok (returned x n)
returned-ok oops n = absurd (n refl)
returned-ok (ok a) n = refl

module _ {W : Type 0} (k : Kernel W) (f : File) where
  -- The run of the handler, which returns on an open file.
  abbrev run : ℕ → ℕ → Opened W f → ℤ × State W
  run cmd arg (s, i, h) =
      returned (trfs_unlocked_ioctl k f cmd arg s) (trfs_unlocked_ioctl-ne-oops k f cmd arg i s h)

  pub run_shape :
      (cmd arg : ℕ) (s : Opened W f)
      → (run cmd arg s).1 ≡ record (s.0) {
        sb = record (s.0.sb) { mask = mask_after cmd arg s.0.sb.mask };
        world = (run cmd arg s).1.world;
      }
  run_shape cmd arg (s, i, h) =
      trfs_unlocked_ioctl_shape k f cmd arg s (run cmd arg (s, i, h)).1 (run cmd arg (s, i, h)).0
        (returned-ok _ _)

  abbrev after : ℕ → ℕ → Opened W f → Opened W f
  after cmd arg (s, i, h) = (
    (run cmd arg (s, i, h)).1,
    i,
    ap (λ (v : State W). v.file_info f) (run_shape cmd arg (s, i, h)) ∙ h,
  )

  abbrev assigned : Variable k → ℕ → Opened W f → Opened W f
  assigned v old (s, i, h) = (record s { world = v.set_value old s.world }, i, h)

  -- The program's system, whose control calls are the handler's.
  abbrev pub module_posix :
      Variable k
      → (Opened W f → ℤ × Opened W f)
      → (ℤ → Opened W f → Opened W f)
      → (List ℕ → ℤ)
      → Posix (Opened W f)
  module_posix v open_mount close strtol = record {
    open_mount = open_mount;
    ioctl = λ fd cmd arg s. (ioctl_result (run cmd arg s).0, after cmd arg s);
    ioctl_ret = λ fd old s. (
      (
        ioctl_result (run cmd_ret v.address (assigned v old s)).0,
        v.value (after cmd_ret v.address (assigned v old s)).0.world,
      ),
      after cmd_ret v.address (assigned v old s),
    );
    close = close;
    strtol = strtol;
  }

  value-trfs_unlocked_ioctl :
      (v : Variable k) (s s' : State W) (e : ℤ)
      → trfs_unlocked_ioctl k f cmd_ret v.address s ≡ ok (e, s')
      → v.value s'.world ≡ s.sb.mask
  unfolding trfs_unlocked_ioctl trfs_command
  value-trfs_unlocked_ioctl v s s' e h =
      grind (arith, v.copy_to_user_value, v.unlocked_ioctl_value, v.copy_attr_all_value)

  -- If opening and closing the mount point leave the mask alone, the module keeps what trctl relies on:
  -- its setting commands set the mask, whatever the lower file system answers, the reading one gives
  -- the mask in the program's variable, and no other call changes it.
  pub module_posix-Device :
      (v : Variable k) (open_mount : Opened W f → ℤ × Opened W f)
      (close : ℤ → Opened W f → Opened W f) (strtol : List ℕ → ℤ)
      → ((s : Opened W f) → mask_of f (open_mount s).1 ≡ mask_of f s)
      → ((fd : ℤ) (s : Opened W f) → mask_of f (close fd s) ≡ mask_of f s)
      → Device (module_posix v open_mount close strtol) (mask_of f)
  module_posix-Device v open_mount close strtol o c = record {
    ioctl_mask = λ fd cmd arg s. ap (λ (v : State W). v.sb.mask) (run_shape cmd arg s);
    ioctl_ret_map = λ fd old s. value-trfs_unlocked_ioctl v _ _ _ (returned-ok _ _);
    ioctl_ret_mask = λ fd old s.
        ap (λ (v : State W). v.sb.mask) (run_shape cmd_ret v.address (assigned v old s));
    open_mask = o;
    close_mask = c;
  }
