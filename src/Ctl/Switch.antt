-- ===== src/Ctl/Switch.antt =====
-- hw2/trctl.c with one argument `+name` or `-name` before the mount point.
use trfs_stackable_filesyste.Common.{ℕ, ◌<◌, ◌≤◌, ◌^◌, sym, arith, List, [], ◌∷◌, ℤ}
use trfs_stackable_filesyste.Ctl.{
  Posix, Ctl, names, test_names, test_args, change_bits, one_command, dispatch, ctl_main,
  bitmap_max,
}
use trfs_stackable_filesyste.Ctl.Bits.{SetsBit, name_of, test_names-SetsBit}
use trfs_stackable_filesyste.Ctl.Mask.{Device, change_bits-InStep}

module _ {S : Type 0} (p : Posix S) (mask_of : S → ℕ) (D : Device p mask_of) where
  change_bits-SetsBit :
      (v i sign : ℕ) (fd : ℤ) (old : ℕ) (s : S)
      → mask_of s ≤ bitmap_max
      → ((c : Ctl S)
          → c.map < 2 ^ 64
          → SetsBit i v c.map (test_names p fd (sign ∷ name_of i names) names c).map)
      → SetsBit i v
          (mask_of s)
          (mask_of (change_bits p fd ((sign ∷ name_of i names) ∷ []) old s).system)
  unfolding change_bits test_args
  change_bits-SetsBit v i sign fd old s h t =
      let q = change_bits-InStep p mask_of D fd ((sign ∷ name_of i names) ∷ []) old s h in
      rw (q.0) (
        rw (sym (D.ioctl_ret_map fd old s))
          (t _ (rw (D.ioctl_ret_map fd old s) (omega (arith, h)))))

  -- The program with `+name` sets the bit of the call in the mask, with `-name` it clears it, and it
  -- leaves all other bits.
  pub ctl_main-SetsBit :
      (i : ℕ) (mount : List ℕ) (old : ℕ) (s : S)
      → i < 12
      → mask_of s ≤ bitmap_max
      → SetsBit i 1 (mask_of s) (mask_of (ctl_main p ((43 ∷ name_of i names) ∷ mount ∷ []) old s).1)
        × SetsBit i 0
            (mask_of s)
            (mask_of (ctl_main p ((45 ∷ name_of i names) ∷ mount ∷ []) old s).1)
  unfolding ctl_main dispatch one_command
  ctl_main-SetsBit i mount old s h l =
      let fd = (p.open_mount s).0 in
      let t = (p.open_mount s).1 in
      (
        rw (D.close_mask fd) (
            rw (sym (D.open_mask s)) (
              change_bits-SetsBit 1 i 43 fd old t (rw (D.open_mask s) l)
                (λ c b. (test_names-SetsBit p fd i c h b).0))),
        rw (D.close_mask fd) (
            rw (sym (D.open_mask s)) (
              change_bits-SetsBit 0 i 45 fd old t (rw (D.open_mask s) l)
                (λ c b. (test_names-SetsBit p fd i c h b).1))),
      )
