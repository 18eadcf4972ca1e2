-- ===== src/Examples/Controls.antt =====
-- The theorems about the control call and trctl at concrete data.
use trfs_stackable_filesyste.Common.{ℕ, ◌≤◌, ◌≡◌, refl, arith, List, [], ◌∷◌, ℤ, pos}
use trfs_stackable_filesyste.Kernel.{ok}
use trfs_stackable_filesyste.Ioctl.{cmd_hex, trfs_unlocked_ioctl}
use trfs_stackable_filesyste.Ioctl.Laws.{mask_after, trfs_unlocked_ioctl_mask}
use trfs_stackable_filesyste.Ctl.{Posix, test_names, test_args, change_bits, ctl_main, bitmap_max}
use trfs_stackable_filesyste.Ctl.Mask.{Device, ctl_main_mask}
use trfs_stackable_filesyste.Examples.Toy.{toy, mounted}

trfs_unlocked_ioctl_mask_example :
    (e : ℤ) × (w : List ℕ) × (trfs_unlocked_ioctl toy 3 cmd_hex 5 mounted
      ≡ ok (
        e,
        record mounted {
          sb = record (mounted.sb) { mask = mask_after cmd_hex 5 0xfff };
          world = w;
        },
      ))
trfs_unlocked_ioctl_mask_example =
    trfs_unlocked_ioctl_mask toy 3 cmd_hex 5 (record { lower_file = 6; lower_vm_ops = 0 }) mounted
      refl

-- The system is the mask.
abbrev control : Posix ℕ
control = record {
  open_mount = λ s. (pos 3, s);
  ioctl = λ fd cmd arg s. (pos 0, mask_after cmd arg s);
  ioctl_ret = λ fd old s. ((pos 0, s), s);
  close = λ fd s. s;
  strtol = λ s. pos 5000;
}

device : Device control (λ s. s)
device = record {
  ioctl_mask = λ fd cmd arg s. refl;
  ioctl_ret_map = λ fd old s. refl;
  ioctl_ret_mask = λ fd old s. refl;
  open_mask = λ s. refl;
  close_mask = λ fd s. refl;
}

-- "+read" and "-open"
abbrev words : List (List ℕ)
words = (43 ∷ 114 ∷ 101 ∷ 97 ∷ 100 ∷ []) ∷ (45 ∷ 111 ∷ 112 ∷ 101 ∷ 110 ∷ []) ∷ []

run_of_words : (change_bits control (pos 3) words 99 5).map ≡ 6
unfolding change_bits test_args test_names
run_of_words = refl

ctl_main_mask_example : (ctl_main control words 99 5).1 ≤ bitmap_max
ctl_main_mask_example = ctl_main_mask control (λ s. s) device words 99 5 (omega arith)
